-- ===== src/Server/Limits/Rate.antt =====
-- How many commands a new limiter lets through before its clock moves on.
use nadesiko_reversi.Prelude.{
  ℕ, zero, suc, ◌≤◌, ◌<◌, ◌≡◌, refl, true, false, List, [], ◌∷◌, length, ltb, min, arith, All,
}
use nadesiko_reversi.Prelude.Int.{pos, ◌-ℤ◌}
use nadesiko_reversi.Server.Limits.{
  Float64, RateLimiter, new_limiter, refill, take_token, allow, allow_all,
}

-- Up to here all integers are float64 numbers.
abbrev pub exact : ℕ
exact = 9007199254740992

-- What the limiter relies on of float64: no time is not more than zero seconds, and the integers up
-- to 2^53 are compared with one, and counted down by one, exactly.
pub record IsExact (f : Float64) : Type 0 where
  pub no_time : (t u : ℕ) → t ≤ u → f.below (f.of_int 0) (f.seconds (pos t -ℤ pos u)) ≡ false
  pub compares : (n : ℕ) → n ≤ exact → f.below (f.of_int n) (f.of_int 1) ≡ ltb n 1
  pub counts : (n : ℕ) → n < exact → f.sub (f.of_int (suc n)) (f.of_int 1) ≡ f.of_int n

module _ (f : Float64) (e : IsExact f) (rate burst now : ℕ) where
  -- The limiter when `n` tokens are left and no time has passed.
  abbrev left : ℕ → RateLimiter
  left n = record (new_limiter f rate burst now) { tokens = f.of_int n }

  refill-early : (n t : ℕ) → t ≤ now → refill f (left n) t ≡ left n
  unfolding refill
  refill-early n t h = rw (e.no_time t now h) refl

  allow-none : (t : ℕ) → t ≤ now → allow f (left 0) t ≡ (left 0, false)
  unfolding allow take_token
  allow-none t h = rw (refill-early 0 t h, e.compares 0 (omega arith)) refl

  allow-some : (n t : ℕ) → n < exact → t ≤ now → allow f (left (suc n)) t ≡ (left n, true)
  unfolding allow take_token
  allow-some n t k h =
      let more : ltb (suc n) 1 ≡ false = ground arith in
      rw (refill-early (suc n) t h, e.compares (suc n) (omega (arith, k)), more, e.counts n k) refl

  allow_all-left :
      (n : ℕ) (times : List ℕ)
      → n ≤ exact
      → All (λ t. t ≤ now) times
      → (allow_all f (left n) times).1 ≡ min (length times) n
  unfolding allow_all
  allow_all-left n [] k v = ground arith
  allow_all-left zero (t ∷ times) k (h, v) =
      let rest = allow_all-left zero times k v in rw (allow-none t h) (ground (arith, rest))
  allow_all-left (suc n) (t ∷ times) k (h, v) =
      let rest = allow_all-left n times (omega (arith, k)) v in
      rw (allow-some n t (omega (arith, k)) h) (ground (arith, rest))

-- Of the commands that come before the clock of a new limiter moves on, exactly as many are let through as its burst is large, or all of them if they are fewer. This relies on a burst of at most 2^53 and on float64 numbers that are exact on the integers up to there.
pub allow_all-burst :
    (f : Float64) (rate burst now : ℕ) (times : List ℕ)
    → IsExact f
    → burst ≤ exact
    → All (λ t. t ≤ now) times
    → (allow_all f (new_limiter f rate burst now) times).1 ≡ min (length times) burst
allow_all-burst f rate burst now times e k v = allow_all-left f e rate burst now burst times k v
