-- ===== src/Replay/Grammar/Laws.antt =====
-- The readers on what the encoder writes: literals, digits, quoted names and line ends.
use nadesiko_reversi.Prelude.{
  ℕ, zero, suc, ◌+◌, ◌/◌, ◌%◌, ◌<◌, ◌≡◌, refl, Bool, true, false, not, some, [], ◌∷◌, ◌++◌, Text,
  all, ltb, ◌==◌, arith, Bool-cases, inl, inr,
}
use nadesiko_reversi.Prelude.Int.{pos}
use nadesiko_reversi.Prelude.Decimal.{digits, decimal, int_text, read_digits-decimal}
use nadesiko_reversi.Replay.Lines.{is_space}
use nadesiko_reversi.Replay.Grammar.{
  is_blank, is_digit, take_word, span_digits, digits_then, quoted, board_digit, atoi,
}

-- `p` holds of each character.
pub all-append :
    (p : ℕ → Bool) (xs ys : Text) → all p xs ≡ true → all p ys ≡ true → all p (xs ++ ys) ≡ true
all-append p [] ys h k = k
all-append p (x ∷ xs) ys h k = ground (arith, all-append p xs ys, h, k)

pub all-weaken :
    (p q : ℕ → Bool)
    → ((c : ℕ) → p c ≡ true → q c ≡ true)
    → (xs : Text) → all p xs ≡ true
    → all q xs ≡ true
all-weaken p q f [] h = refl
all-weaken p q f (x ∷ xs) h = ground (arith, f x, all-weaken p q f xs)

digits-all : (fuel n : ℕ) → all is_digit (digits fuel n) ≡ true
unfolding digits
digits-all zero n = refl
digits-all (suc fuel) n = ground (
  arith,
  all-append is_digit (digits fuel (n / 10)) ((48 + n % 10) ∷ []),
  digits-all fuel (n / 10),
)

pub decimal-all : (n : ℕ) → all is_digit (decimal n) ≡ true
unfolding decimal
decimal-all n = digits-all (suc n) n

abbrev pub IsFilled : Text → Type 0
IsFilled s = (c : ℕ) × (cs : Text) × (s ≡ c ∷ cs)

IsFilled-append : (xs : Text) (c : ℕ) → IsFilled (xs ++ c ∷ [])
IsFilled-append [] c = (c, [], refl)
IsFilled-append (x ∷ xs) c = (x, xs ++ c ∷ [], refl)

pub decimal-IsFilled : (n : ℕ) → IsFilled (decimal n)
unfolding decimal digits
decimal-IsFilled n = elim (Bool-cases (ltb n 10)) [
  | inl h ↦ (48 + n, [], rw h)
  | inr h ↦ rw h (IsFilled-append (digits n (n / 10)) (48 + n % 10))
]

pub decimal-small : (n : ℕ) → n < 10 → decimal n ≡ (48 + n) ∷ []
unfolding decimal digits
decimal-small n h = ground arith

-- A run of digits ends before the first other character.
pub span_digits-append :
    (ds : Text) (c : ℕ) (rest : Text)
    → all is_digit ds ≡ true
    → is_digit c ≡ false
    → span_digits (ds ++ c ∷ rest) ≡ (ds, c ∷ rest)
unfolding span_digits
span_digits-append [] c rest h k = rw k
span_digits-append (d ∷ ds) c rest h k = ground (arith, span_digits-append ds c rest, h, k)

pub digits_then-decimal :
    (n c : ℕ) (rest : Text)
    → is_digit c ≡ false
    → digits_then (decimal n ++ c ∷ rest) ≡ some (decimal n, c ∷ rest)
unfolding digits_then
digits_then-decimal n c rest k =
    let (d, ds, e) = decimal-IsFilled n in
    rw (span_digits-append (decimal n) c rest (decimal-all n) k, e) refl

pub atoi-decimal : (n : ℕ) → n < 9223372036854775808 → atoi (decimal n) ≡ some n
unfolding atoi
atoi-decimal n h = rw (read_digits-decimal n) (ground (arith, h))

-- A quoted name ends at the first closing bracket.
pub quoted-append :
    (name rest : Text)
    → all (λ c. not (c == 12301)) name ≡ true
    → quoted (name ++ 12301 ∷ rest) ≡ some (name, rest)
unfolding quoted
quoted-append [] rest h = refl
quoted-append (c ∷ cs) rest h = ground (arith, quoted-append cs rest, h)

pub board_digit-cell :
    (n : ℕ) (rest : Text) → n < 8 → board_digit (int_text (pos n) ++ rest) ≡ some rest
unfolding board_digit int_text
board_digit-cell n rest h = rw (decimal-small n (omega arith)) (ground (arith, h))

-- A word without blanks is taken whole.
pub take_word-all : (s : Text) → all (λ c. not (is_blank c)) s ≡ true → take_word s ≡ s
unfolding take_word
take_word-all [] h = refl
take_word-all (c ∷ cs) h = ground (arith, take_word-all cs, h)

-- Blanks of the regular expressions are spaces, and so is a line feed.
pub blank-of-space : (c : ℕ) → not (is_space c) ≡ true → not (is_blank c) ≡ true
blank-of-space c h = ground (arith, h)
