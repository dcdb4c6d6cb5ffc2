-- ===== src/Server/Bytes.antt =====
-- Bytes: what server/main.go uses of the bit operations, of encoding/binary and of unicode/utf8.
use Prim.Native.Nat.{bit_and, bit_xor}
use nadesiko_reversi.Prelude.{
  ℕ, zero, suc, ◌+◌, ◌*◌, ◌<◌, ◌≡◌, refl, Bool, true, false, ◌&&◌, Option, none, some, List, [],
  ◌∷◌, leb, ltb, ◌==◌, ==_iff, if◌then◌else◌, arith,
}

-- The values of a byte.
abbrev pub IsByte : ℕ → Type 0
IsByte b = b < 256

-- `binary.BigEndian.Uint16` and `Uint64`, after `acc`
abbrev pub big_endian : ℕ → List ℕ → ℕ
big_endian acc [] = acc
big_endian acc (b ∷ bs) = big_endian (acc * 256 + b) bs

-- What a first byte asks for: the number of bytes that follow, and the range of the next one.
abbrev pub utf8_first : ℕ → Option (ℕ × ℕ × ℕ)
utf8_first b =
    if ltb b 128
    then some (0, 0, 0)
    else if ltb b 194
    then none
    else if ltb b 224
    then some (1, 128, 191)
    else if b == 224
    then some (2, 160, 191)
    else if b == 237
    then some (2, 128, 159)
    else if ltb b 240
    then some (2, 128, 191)
    else if b == 240
    then some (3, 144, 191)
    else if ltb b 244
    then some (3, 128, 191)
    else if b == 244
    then some (3, 128, 143)
    else none

-- utf8.Valid inside a character: `more` bytes are due, the next one from `low` to `high`.
unfoldable pub utf8_from : ℕ → ℕ → ℕ → List ℕ → Bool
utf8_from zero low high [] = true
utf8_from (suc more) low high [] = false
utf8_from zero low high (b ∷ bs) = elim (utf8_first b) [
  | none ↦ false
  | some (more, low, high) ↦ utf8_from more low high bs
]
utf8_from (suc more) low high (b ∷ bs) = leb low b && leb b high && utf8_from more 128 191 bs

-- `utf8.Valid(bytes)`
unfoldable pub utf8_valid : List ℕ → Bool
unfolding utf8_from
utf8_valid bytes = utf8_from 0 0 0 bytes

-- A test of every value below a bound.
unfoldable pub all_below : ℕ → (ℕ → Bool) → Bool
all_below zero p = true
all_below (suc n) p = p n && all_below n p

pub all_below-lt : (n : ℕ) (p : ℕ → Bool) (x : ℕ) → all_below n p ≡ true → x < n → p x ≡ true
unfolding all_below
all_below-lt zero p x h k = absurd (omega arith)
all_below-lt (suc n) p x h k = ground (arith, all_below-lt n p x)

length_table : all_below 128 (λ n. bit_and (128 + n) 127 == n) ≡ true
unfolding all_below
length_table = refl

-- The length in a byte whose high bit is set.
pub bit_and-length : (n : ℕ) → n < 128 → bit_and (128 + n) 127 ≡ n
bit_and-length n h = (==_iff _ n).0 (all_below-lt 128 _ n length_table h)

xor_table : all_below 256 (λ m. all_below 256 (λ x. bit_xor (bit_xor x m) m == x)) ≡ true
unfolding all_below
xor_table = refl

-- A byte is masked twice with the same mask.
pub bit_xor-twice : (x m : ℕ) → IsByte x → IsByte m → bit_xor (bit_xor x m) m ≡ x
bit_xor-twice x m h k = (==_iff _ x).0 (
    all_below-lt 256 (λ x. bit_xor (bit_xor x m) m == x) x
      (all_below-lt 256 (λ m. all_below 256 (λ x. bit_xor (bit_xor x m) m == x)) m xor_table k) h)
