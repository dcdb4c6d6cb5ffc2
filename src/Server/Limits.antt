-- ===== src/Server/Limits.antt =====
-- rateLimiter of server/main.go, a token bucket in float64 numbers.
--
-- A float64 is the number of its 64 bits, and its operations are a parameter, `Float64`. Times are
-- nanoseconds.
pub mod Rate
use nadesiko_reversi.Prelude.{
  ℕ, zero, suc, ◌+◌, ◌-◌, ◌*◌, ◌<◌, Bool, true, false, not, ◌&&◌, ◌||◌, Option, none, some, List,
  [], ◌∷◌, ◌++◌, Text, codes, text_eq, leb, ltb, ◌==◌, min, if◌then◌else◌,
}
use nadesiko_reversi.Prelude.Int.{ℤ, pos, ◌-ℤ◌, negsuc, ltb_ℤ}
use nadesiko_reversi.Prelude.Decimal.{decimal, int_text, read_digits}
use nadesiko_reversi.Replay.Lines.{trim_space}
use nadesiko_reversi.Replay.Grammar.{is_digit, span_digits}

-- What the limiter uses of float64: the conversion of an int, Duration.Seconds, the operators and
-- math.Min.
pub record Float64 : Type 0 where
  pub of_int : ℕ → ℕ
  pub seconds : ℤ → ℕ
  pub add : ℕ → ℕ → ℕ
  pub sub : ℕ → ℕ → ℕ
  pub mul : ℕ → ℕ → ℕ
  pub least : ℕ → ℕ → ℕ
  pub below : ℕ → ℕ → Bool

-- type rateLimiter
pub record RateLimiter : Type 0 where
  pub rate : ℕ
  pub burst : ℕ
  pub tokens : ℕ
  pub last_fill : ℕ

-- func newRateLimiter, with a rate that is a float64 and a burst that is an int
abbrev pub new_limiter : Float64 → ℕ → ℕ → ℕ → RateLimiter
new_limiter f rate burst now = record {
  rate = rate;
  burst = f.of_int burst;
  tokens = f.of_int burst;
  last_fill = now;
}

-- allow, the refill
unfoldable pub refill : Float64 → RateLimiter → ℕ → RateLimiter
refill f l now =
    let elapsed = f.seconds (pos now -ℤ pos l.last_fill) in
    if f.below (f.of_int 0) elapsed
    then record l {
      tokens = f.least l.burst (f.add l.tokens (f.mul elapsed l.rate));
      last_fill = now;
    }
    else l

-- allow, after the refill
unfoldable pub take_token : Float64 → RateLimiter → RateLimiter × Bool
take_token f l =
    if f.below l.tokens (f.of_int 1)
    then (l, false)
    else (record l { tokens = f.sub l.tokens (f.of_int 1) }, true)

-- func (l *rateLimiter) allow
unfoldable pub allow : Float64 → RateLimiter → ℕ → RateLimiter × Bool
unfolding refill take_token
allow f l now = take_token f (refill f l now)

-- The number of commands that are allowed of those that come at these times, and the limiter then.
unfoldable pub allow_all : Float64 → RateLimiter → List ℕ → RateLimiter × ℕ
unfolding allow
allow_all f l [] = (l, 0)
allow_all f l (now ∷ times) =
    let step = allow f l now in
    let rest = allow_all f step.0 times in (rest.0, (if step.1 then 1 else 0) + rest.1)
