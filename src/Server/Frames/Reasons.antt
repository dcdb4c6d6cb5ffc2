-- ===== src/Server/Frames/Reasons.antt =====
-- The reasons in close frames: cut at a character, and accepted when a client sends them back.
use nadesiko_reversi.Prelude.{
  ℕ, zero, suc, ◌+◌, ◌≤◌, ◌≡◌, ◌∙◌, sym, ap, refl, subst, true, some, List, [], ◌∷◌, length, take,
  leb, arith, if_cases, All, Bool-cases, Option-cases, inl, inr,
}
use nadesiko_reversi.Server.Bytes.{IsByte, utf8_first, utf8_from, utf8_valid}
use nadesiko_reversi.Server.Frames.{valid_start, truncate_close_reason, close_frame}
use nadesiko_reversi.Server.Frames.Client.{Mask, mask_bytes, IsSendable}

utf8_first-bound : (b more low high : ℕ) → utf8_first b ≡ some (more, low, high) → more ≤ 3
utf8_first-bound b more low high h = ground (arith, h)

length-take : (n : ℕ) (s : List ℕ) → length (take n s) ≤ n
length-take zero s = omega arith
length-take (suc n) [] = omega arith
length-take (suc n) (b ∷ s) = omega (arith, length-take n s)

length-take-le : (k n : ℕ) (s : List ℕ) → k ≤ n → length (take k s) ≤ length (take n s)
length-take-le zero n s h = omega arith
length-take-le (suc k) zero s h = absurd (omega (arith, h))
length-take-le (suc k) (suc n) [] h = omega arith
length-take-le (suc k) (suc n) (b ∷ s) h = omega (arith, length-take-le k n s (omega (arith, h)))

-- A place where a text may be cut, at most three bytes before another.
abbrev Cut : ℕ → ℕ → ℕ → List ℕ → ℕ → Type 0
Cut more low high s n =
    (k : ℕ) × (k ≤ n) × (n ≤ k + 3) × (utf8_from more low high (take k s) ≡ true)

Cut-suc :
    (more low high more' low' high' b n : ℕ) (s : List ℕ)
    → ((k : ℕ)
        → utf8_from more' low' high' (take k s) ≡ true
        → utf8_from more low high (b ∷ take k s) ≡ true)
    → Cut more' low' high' s n
    → Cut more low high (b ∷ s) (suc n)
Cut-suc more low high more' low' high' b n s v (k, below, near, ok) =
    (suc k, omega (arith, below), omega (arith, near), v k ok)

utf8_from-first :
    (b low high more low' high' : ℕ) (s : List ℕ)
    → utf8_first b ≡ some (more, low', high')
    → utf8_from 0 low high (b ∷ s) ≡ utf8_from more low' high' s
unfolding utf8_from
utf8_from-first b low high more low' high' s e = rw (e, utf8_from) refl

-- A valid text has a first byte that starts a character.
utf8_from-starts :
    (b low high : ℕ) (s : List ℕ)
    → utf8_from 0 low high (b ∷ s) ≡ true
    → (more : ℕ) × (low' : ℕ) × (high' : ℕ) × (utf8_first b ≡ some (more, low', high'))
unfolding utf8_from
utf8_from-starts b low high s h = elim (Option-cases (utf8_first b)) [
  | inl e ↦ absurd (ground (arith, (rw (e, utf8_from) at h)))
  | inr ((more, low', high'), e) ↦ (more, low', high', e)
]

-- Nothing of a text, where the character would be cut.
Cut-zero : (low high n : ℕ) (s : List ℕ) → n ≤ 3 → Cut 0 low high s n
unfolding utf8_from
Cut-zero low high n s h = (0, omega arith, omega (arith, h), refl)

utf8_from-Cut :
    (s : List ℕ) (more low high n : ℕ)
    → utf8_from more low high s ≡ true
    → more ≤ n
    → n ≤ length s
    → Cut more low high s n
unfolding utf8_from
utf8_from-Cut [] zero low high n h k l = Cut-zero low high n [] (omega (arith, l))
utf8_from-Cut [] (suc more) low high n h k l = absurd cc
utf8_from-Cut (b ∷ s) zero low high zero h k l = Cut-zero low high 0 (b ∷ s) (omega arith)
utf8_from-Cut (b ∷ s) (suc more) low high zero h k l = absurd (omega (arith, k))
utf8_from-Cut (b ∷ s) zero low high (suc n) h k l =
    let (more, low', high', e) = utf8_from-starts b low high s h in
    elim (Bool-cases (leb more n)) [
      | inl fits ↦
          Cut-suc 0 low high more low' high' b n s
            (λ j ok. utf8_from-first b low high more low' high' (take j s) e ∙ ok)
            (utf8_from-Cut s more low' high' n
              (sym (utf8_from-first b low high more low' high' s e) ∙ h) (ground (arith, fits))
              (omega (arith, l)))
      | inr cut ↦
          let bound = utf8_first-bound b more low' high' e in
          Cut-zero low high (suc n) (b ∷ s) (ground (arith, cut, bound))
    ]
utf8_from-Cut (b ∷ s) (suc more) low high (suc n) h k l =
    Cut-suc (suc more) low high more 128 191 b n s (λ j ok. ground (arith, h, ok))
      (utf8_from-Cut s more 128 191 n (ground (arith, h)) (omega (arith, k)) (omega (arith, l)))

-- The longest valid start of a text, of at most `n` bytes.
record IsLongest (n : ℕ) (s start : List ℕ) : Type 0 where
  valid : utf8_valid start ≡ true
  bound : length start ≤ n
  prefix : (size : ℕ) × (start ≡ take size s)
  longest : (k : ℕ) → k ≤ n → utf8_valid (take k s) ≡ true → length (take k s) ≤ length start

valid_start-IsLongest : (n : ℕ) (s : List ℕ) → IsLongest n s (valid_start n s)
unfolding valid_start utf8_valid utf8_from
valid_start-IsLongest zero s = record {
  valid = refl;
  bound = omega arith;
  prefix = (0, refl);
  longest = λ k h ok. ground (arith, h, length-take k s);
}
valid_start-IsLongest (suc n) s =
    let shorter = valid_start-IsLongest n s in
    if_cases (IsLongest (suc n) s) (utf8_valid (take (suc n) s)) _ _
      (λ ok. record {
        valid = ok;
        bound = length-take (suc n) s;
        prefix = (suc n, refl);
        longest = λ k h _. length-take-le k (suc n) s h;
      })
      (λ bad. record {
        valid = shorter.valid;
        bound = omega (arith, shorter.bound);
        prefix = shorter.prefix;
        longest = λ k h ok. elim (Bool-cases (leb k n)) [
          | inl within ↦ shorter.longest k (ground (arith, within)) ok
          | inr beyond ↦
              let whole : k ≡ suc n = ground (arith, h, beyond) in
              absurd (ground (arith, bad, ap (λ j. utf8_valid (take j s)) whole, ok))
        ];
      })

length-take-within : (k : ℕ) (s : List ℕ) → k ≤ length s → length (take k s) ≡ k
length-take-within zero s h = refl
length-take-within (suc k) [] h = absurd (omega (arith, h))
length-take-within (suc k) (b ∷ s) h = ap suc (length-take-within k s (omega (arith, h)))

take-all : (s : List ℕ) → s ≡ take (length s) s
take-all [] = refl
take-all (b ∷ s) = ap (λ t. b ∷ t) (take-all s)

-- What a reason becomes.
pub record IsCut (reason start : List ℕ) : Type 0 where
  pub valid : utf8_valid start ≡ true
  pub bound : length start ≤ 123
  pub prefix : (size : ℕ) × (start ≡ take size reason)
  pub whole : length reason ≤ 123 → start ≡ reason
  pub near : 123 ≤ length reason → 120 ≤ length start

long-IsCut :
    (reason : List ℕ)
    → utf8_valid reason ≡ true
    → 124 ≤ length reason
    → IsCut reason (valid_start 123 reason)
unfolding utf8_valid
long-IsCut reason h long =
    let v = valid_start-IsLongest 123 reason in
    let (k, below, near, ok) =
      utf8_from-Cut reason 0 0 0 123 h (omega arith) (omega (arith, long)) in
    record {
      valid = v.valid;
      bound = v.bound;
      prefix = v.prefix;
      whole = λ short. absurd (omega (arith, short, long));
      near = λ _. omega (
        arith,
        v.longest k below ok,
        length-take-within k reason (omega (arith, below, long)),
        near,
      );
    }

-- Of a reason that is valid UTF-8, the reason of a close frame is valid UTF-8 and at most 123 bytes long. It is the given reason where that fits; else it is a start of it that is cut at a character and no more than three bytes short of the limit.
pub truncate_close_reason-IsCut :
    (reason : List ℕ) → utf8_valid reason ≡ true → IsCut reason (truncate_close_reason reason)
unfolding truncate_close_reason
truncate_close_reason-IsCut reason h =
    if_cases (IsCut reason) (leb (length reason) 123) _ _
      (λ fits. record {
        valid = h;
        bound = ground (arith, fits);
        prefix = (length reason, take-all reason);
        whole = λ _. refl;
        near = λ long. omega (arith, long);
      })
      (λ long. long-IsCut reason h (ground (arith, long)))

All-take : (n : ℕ) (s : List ℕ) → All IsByte s → All IsByte (take n s)
All-take zero s v = tt
All-take (suc n) [] v = tt
All-take (suc n) (b ∷ s) (h, v) = (h, All-take n s v)

-- The close frame of any code and any valid reason is well formed: a client that sends it back with a mask is read without an error.
pub close_frame-IsSendable :
    (m : Mask) (code : ℕ) (reason : List ℕ)
    → All IsByte (mask_bytes m)
    → All IsByte reason
    → utf8_valid reason ≡ true
    → IsSendable m (close_frame code reason)
unfolding close_frame
close_frame-IsSendable m code reason v w h =
    let cut = truncate_close_reason-IsCut reason h in
    let (size, start) = cut.prefix in
    record {
      known = refl;
      masks = v;
      bytes = (omega arith, (omega arith, subst (All IsByte) (sym start) (All-take size reason w)));
      bounded = omega (arith, cut.bound);
      control = λ _. omega (arith, cut.bound);
      text = λ e. absurd (omega (arith, e));
      close = λ _. cut.valid;
    }
