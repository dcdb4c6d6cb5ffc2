-- ===== src/Server/Frames/Client.antt =====
-- The frames of a client after RFC 6455, and how readFrame reads them.
use Prim.Native.Nat.{bit_and, bit_xor}
use nadesiko_reversi.Prelude.{
  ℕ, suc, ◌+◌, ◌/◌, ◌%◌, ◌≤◌, ◌<◌, ◌≡◌, ◌∙◌, ap, refl, subst, Bool-cases, inl, inr, true, false,
  not, Bool, ◌&&◌, ◌||◌, List, [], ◌∷◌, ◌++◌, length, drop, leb, ltb, ◌==◌, if◌then◌else◌, arith,
  All,
}
use nadesiko_reversi.Server.Bytes.{
  IsByte, utf8_valid, big_endian, bit_and-length, bit_xor-twice, all_below, all_below-lt,
}
use nadesiko_reversi.Server.Frames.{
  max_message, WsFrame, got, ◌>>=◌, read_bytes, read_length, byte_at, unmask, payload_bad,
  read_payload, is_known, header_bad, read_headed,
}

-- The length of a frame, with the bit of the mask set in its first byte.
abbrev pub masked_length : ℕ → List ℕ
masked_length n =
    if ltb n 126
    then (128 + n) ∷ []
    else if ltb n 65536
    then 254 ∷ n / 256 ∷ n % 256 ∷ []
    else 255
      ∷ n / 72057594037927936
      ∷ n / 281474976710656 % 256
      ∷ n / 1099511627776 % 256
      ∷ n / 4294967296 % 256
      ∷ n / 16777216 % 256
      ∷ n / 65536 % 256
      ∷ n / 256 % 256
      ∷ n % 256
      ∷ []

-- The four bytes that a client chooses to mask a frame with.
pub record Mask : Type 0 where
  pub a : ℕ
  pub b : ℕ
  pub c : ℕ
  pub d : ℕ

abbrev pub mask_bytes : Mask → List ℕ
mask_bytes m = m.a ∷ m.b ∷ m.c ∷ m.d ∷ []

-- The masking of RFC 6455: the four bytes are used in turn, over and over.
abbrev pub masked : ℕ → ℕ → ℕ → ℕ → List ℕ → List ℕ
masked a b c d [] = []
masked a b c d (x ∷ xs) = bit_xor x a ∷ masked b c d a xs

abbrev pub masked_with : Mask → List ℕ → List ℕ
masked_with m bs = masked m.a m.b m.c m.d bs

-- A whole frame of a client: one frame for one message, with its payload masked.
abbrev pub client_frame : Mask → WsFrame → List ℕ
client_frame m f =
    (128 + f.opcode)
    ∷ (masked_length (length f.payload) ++ (mask_bytes m ++ masked_with m f.payload))

pub read_bytes-append : (bs rest : List ℕ) → read_bytes (length bs) (bs ++ rest) ≡ got bs rest
unfolding read_bytes
read_bytes-append [] rest = refl
read_bytes-append (b ∷ bs) rest = rw (read_bytes-append bs rest) refl

pub length-unmask : (i : ℕ) (mask bs : List ℕ) → length (unmask i mask bs) ≡ length bs
unfolding unmask
length-unmask i mask [] = refl
length-unmask i mask (b ∷ bs) = ap suc (length-unmask (i + 1) mask bs)

pub length-masked : (a b c d : ℕ) (bs : List ℕ) → length (masked a b c d bs) ≡ length bs
length-masked a b c d [] = refl
length-masked a b c d (x ∷ xs) = ap suc (length-masked b c d a xs)

-- The byte of the mask at index i, and the three after it.
record IsTurn (mask : List ℕ) (i a b c d : ℕ) : Type 0 where
  now : byte_at mask (i % 4) ≡ a
  second : byte_at mask ((i + 1) % 4) ≡ b
  third : byte_at mask ((i + 2) % 4) ≡ c
  fourth : byte_at mask ((i + 3) % 4) ≡ d

next-IsTurn : (mask : List ℕ) (i a b c d : ℕ) → IsTurn mask i a b c d → IsTurn mask (i + 1) b c d a
next-IsTurn mask i a b c d t = record {
  now = t.second;
  second = ap (λ k. byte_at mask (k % 4)) (omega arith) ∙ t.third;
  third = ap (λ k. byte_at mask (k % 4)) (omega arith) ∙ t.fourth;
  fourth = ap (byte_at mask) (omega arith) ∙ t.now;
}

unmask-turn :
    (mask : List ℕ) (i a b c d : ℕ) (bs : List ℕ)
    → IsTurn mask i a b c d
    → All IsByte (a ∷ b ∷ c ∷ d ∷ [])
    → All IsByte bs
    → unmask i mask (masked a b c d bs) ≡ bs
unfolding unmask
unmask-turn mask i a b c d [] t v w = refl
unmask-turn mask i a b c d (x ∷ xs) t (va, (vb, (vc, (vd, _)))) (h, w) = λ j.
    (ap (bit_xor (bit_xor x a)) t.now ∙ bit_xor-twice x a h va) j
    ∷ unmask-turn mask (i + 1) b c d a xs (next-IsTurn mask i a b c d t) (vb, (vc, (vd, (va, tt))))
        w j

-- readFrame takes the mask of a client off.
pub unmask-masked :
    (m : Mask) (bs : List ℕ)
    → All IsByte (mask_bytes m)
    → All IsByte bs
    → unmask 0 (mask_bytes m) (masked_with m bs) ≡ bs
unmask-masked m bs v w =
    unmask-turn (mask_bytes m) 0 m.a m.b m.c m.d bs
      (record { now = refl; second = refl; third = refl; fourth = refl }) v w

pub read_length-small : (n : ℕ) (rest : List ℕ) → n < 126 → read_length n rest ≡ got n rest
unfolding read_length
read_length-small n rest h = ground (arith, h)

pub read_length-short :
    (n : ℕ) (rest : List ℕ)
    → 126 ≤ n
    → n < 65536
    → read_length 126 (n / 256 ∷ n % 256 ∷ rest) ≡ got n rest
unfolding read_length read_bytes
read_length-short n rest h k =
    let same : big_endian 0 (n / 256 ∷ n % 256 ∷ []) ≡ n = omega arith in ground (arith, same, h)

read_length-long :
    (rest : List ℕ) → read_length 127 (0 ∷ 0 ∷ 0 ∷ 0 ∷ 0 ∷ 1 ∷ 0 ∷ 0 ∷ rest) ≡ got 65536 rest
unfolding read_length read_bytes
read_length-long rest = refl

-- The bytes of a length: the second byte of the frame, and those that follow it.
pub record Lengthy (n : ℕ) : Type 0 where
  pub second : ℕ
  pub more : List ℕ
  pub bytes : masked_length n ≡ second ∷ more
  pub masked : (bit_and second 128 == 0) ≡ false
  pub read : (rest : List ℕ) → read_length (bit_and second 127) (more ++ rest) ≡ got n rest

mask_table : all_below 128 (λ n. not (bit_and (128 + n) 128 == 0)) ≡ true
unfolding all_below
mask_table = refl

mask_bit : (n : ℕ) → n < 128 → (bit_and (128 + n) 128 == 0) ≡ false
mask_bit n h =
    ground (arith, all_below-lt 128 (λ n. not (bit_and (128 + n) 128 == 0)) n mask_table h)

-- Every length that readFrame accepts.
pub masked_length-Lengthy : (n : ℕ) → n ≤ max_message → Lengthy n
masked_length-Lengthy n h = elim (Bool-cases (ltb n 126)) [
  | inl small ↦
      let below : n < 126 = ground (arith, small) in
      record {
        second = 128 + n;
        more = [];
        bytes = rw small refl;
        masked = mask_bit n (omega (arith, below));
        read = λ rest.
            ap (λ k. read_length k rest) (bit_and-length n (omega (arith, below)))
            ∙ read_length-small n rest below;
      }
  | inr big ↦ elim (Bool-cases (ltb n 65536)) [
    | inl short ↦ record {
      second = 254;
      more = n / 256 ∷ n % 256 ∷ [];
      bytes = rw (big, short) refl;
      masked = refl;
      read = λ rest. read_length-short n rest (ground (arith, big)) (ground (arith, short));
    }
    | inr long ↦
        let whole : 65536 ≡ n = ground (arith, long, h) in
        subst Lengthy whole (record {
          second = 255;
          more = 0 ∷ 0 ∷ 0 ∷ 0 ∷ 0 ∷ 1 ∷ 0 ∷ 0 ∷ [];
          bytes = refl;
          masked = refl;
          read = read_length-long;
        })
  ]
]

-- The payload of a close frame: nothing, or a code of two bytes with a reason in UTF-8.
abbrev pub IsCloseBody : List ℕ → Type 0
IsCloseBody [] = Unit {0}
IsCloseBody (x ∷ []) = ⊥
IsCloseBody (x ∷ y ∷ reason) = utf8_valid reason ≡ true

-- A frame that the protocol allows a client to send, up to the server's own bound: a text, a close,
-- a ping or a pong.
pub record IsSendable (m : Mask) (f : WsFrame) : Type 0 where
  pub known : is_known f.opcode ≡ true
  pub masks : All IsByte (mask_bytes m)
  pub bytes : All IsByte f.payload
  pub bounded : length f.payload ≤ max_message
  pub control : 8 ≤ f.opcode → length f.payload ≤ 125
  pub text : f.opcode ≡ 1 → utf8_valid f.payload ≡ true
  pub close : f.opcode ≡ 8 → IsCloseBody f.payload

text-good :
    (op : ℕ) (bs : List ℕ)
    → (op ≡ 1 → utf8_valid bs ≡ true)
    → (op == 1 && not (utf8_valid bs)) ≡ false
text-good op bs h = ground (arith, h)

reason-good :
    (x y : ℕ) (t : List ℕ)
    → utf8_valid t ≡ true
    → (suc (suc (length t)) == 1 || leb 2 (suc (suc (length t))) && not (utf8_valid t)) ≡ false
reason-good x y t h =
    let long : leb 2 (suc (suc (length t))) ≡ true = ground arith in
    let many : (suc (suc (length t)) == 1) ≡ false = ground arith in rw (many, long, h) refl

and-false : (a b : Bool) → (a ≡ true → b ≡ false) → (a && b) ≡ false
and-false true b h = h refl
and-false false b h = refl

close-good :
    (op : ℕ) (bs : List ℕ)
    → (op ≡ 8 → IsCloseBody bs)
    → (op == 8 && (length bs == 1 || leb 2 (length bs) && not (utf8_valid (drop 2 bs)))) ≡ false
close-good op [] h = ground arith
close-good op (x ∷ []) h = ground (arith, h)
close-good op (x ∷ y ∷ t) h =
    and-false (op == 8) _ (λ is_close. reason-good x y t (h (ground (arith, is_close))))

pub payload_good :
    (op : ℕ) (bs : List ℕ)
    → (op ≡ 1 → utf8_valid bs ≡ true)
    → (op ≡ 8 → IsCloseBody bs)
    → payload_bad op bs ≡ false
unfolding payload_bad
payload_good op bs text close = rw (text-good op bs text, close-good op bs close) refl

opcode_table :
    all_below 16 (λ op.
      not (is_known op)
      || not (bit_and (128 + op) 128 == 0)
        && bit_and (128 + op) 112 == 0
        && bit_and (128 + op) 15 == op)
    ≡ true
unfolding all_below
opcode_table = refl

pub known-lt : (op : ℕ) → is_known op ≡ true → op < 16
known-lt op h = ground (arith, h)

opcode_bits :
    (op : ℕ)
    → is_known op ≡ true
    → ((bit_and (128 + op) 128 == 0) ≡ false)
      × ((bit_and (128 + op) 112 == 0) ≡ true)
      × (bit_and (128 + op) 15 ≡ op)
opcode_bits op h =
    let row = all_below-lt 16 _ op opcode_table (known-lt op h) in
    (ground (arith, row, h), ground (arith, row, h), ground (arith, row, h))

pub read_headed-known :
    (op second : ℕ) (s : List ℕ)
    → is_known op ≡ true
    → (bit_and second 128 == 0) ≡ false
    → read_headed (128 + op) second s ≡ (read_length (bit_and second 127) s >>= read_payload op)
unfolding read_headed header_bad
read_headed-known op second s h k =
    let (fin, reserved, code) = opcode_bits op h in rw (fin, reserved, code, k, h) refl
