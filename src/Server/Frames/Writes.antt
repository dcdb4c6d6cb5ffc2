-- ===== src/Server/Frames/Writes.antt =====
-- What a client reads of the frames that writeFrame writes.
use Prim.Native.Nat.{bit_or}
use nadesiko_reversi.Prelude.{
  ℕ, ◌/◌, ◌%◌, ◌≤◌, ◌<◌, ◌≡◌, ◌∙◌, ap, refl, true, not, ◌||◌, List, [], ◌∷◌, ◌++◌, length, ltb,
  ◌==◌, ==_iff, arith, Bool, false, ◌+◌, ◌*◌, leb, ◌&&◌, if_both, if◌then◌else◌, Bool-cases, inl,
  inr,
}
use nadesiko_reversi.Server.Bytes.{all_below, all_below-lt}
use nadesiko_reversi.Server.Frames.{
  max_message, WsFrame, connection, malformed, Step, got, stopped, ◌>>=◌, read_byte, read_bytes,
  is_known, length_bytes, sent, write_frame,
}
use nadesiko_reversi.Server.Frames.Client.{read_bytes-append, known-lt}

-- The reading of a length after RFC 6455, for the second byte of a frame: in as few bytes as hold it,
-- and in eight with the highest bit clear.
abbrev short_form : List ℕ → Step ℕ
short_form (a ∷ b ∷ s) = if ltb (a * 256 + b) 126 then stopped malformed else got (a * 256 + b) s
short_form s = stopped connection

abbrev long_form : List ℕ → Step ℕ
long_form (a ∷ b ∷ c ∷ d ∷ e ∷ f ∷ g ∷ h ∷ s) =
    let high : ℕ = a * 16777216 + b * 65536 + c * 256 + d in
    let low : ℕ = e * 16777216 + f * 65536 + g * 256 + h in
    if leb 128 a || (high == 0 && ltb low 65536)
    then stopped malformed
    else got (high * 4294967296 + low) s
long_form s = stopped connection

abbrev pub client_length : ℕ → List ℕ → Step ℕ
client_length second s =
    if ltb second 126 then got second s else if second == 126 then short_form s else long_form s

-- A frame that is not the last one of its message, has a reserved bit or is masked.
abbrev is_odd : ℕ → ℕ → Bool
is_odd first second = ltb first 128 || not (first / 16 % 8 == 0) || leb 128 second

-- The reading of a frame of the server after RFC 6455: a whole message in one frame, without
-- extensions and without a mask, and with at most 125 bytes in a control frame.
abbrev pub client_read : List ℕ → Step WsFrame
client_read s = read_byte s >>= λ first s1. read_byte s1 >>= λ second s2.
    if is_odd first second
    then stopped malformed
    else client_length second s2 >>= λ n s3.
        if leb 8 (first % 16) && ltb 125 n
        then stopped malformed
        else read_bytes n s3 >>= λ bytes s4.
            got (record { opcode = first % 16; payload = bytes }) s4

opcode_table : all_below 16 (λ op. bit_or 128 op == 128 + op) ≡ true
unfolding all_below
opcode_table = refl

opcode-fin : (op : ℕ) → op < 16 → bit_or 128 op ≡ 128 + op
opcode-fin op h = (==_iff _ (128 + op)).0 (all_below-lt 16 _ op opcode_table h)

is_odd-plain : (op second : ℕ) → op < 16 → second < 128 → is_odd (128 + op) second ≡ false
is_odd-plain op second h k =
    let reserved : (128 + op) / 16 % 8 ≡ 0 = omega (arith, h) in ground (arith, h, k, reserved)

control-fits : (op n : ℕ) → (8 ≤ op → n ≤ 125) → (leb 8 op && ltb 125 n) ≡ false
control-fits op n h = ground (arith, h)

client_read-sized :
    (op second : ℕ) (more payload rest : List ℕ)
    → op < 16
    → second < 128
    → (8 ≤ op → length payload ≤ 125)
    → client_length second (more ++ (payload ++ rest)) ≡ got (length payload) (payload ++ rest)
    → client_read ((128 + op) ∷ second ∷ (more ++ (payload ++ rest)))
      ≡ got (record { opcode = op; payload = payload }) rest
client_read-sized op second more payload rest h k fits e =
    let kind : (128 + op) % 16 ≡ op = omega (arith, h) in
    rw
      (
        is_odd-plain op second h k,
        e,
        kind,
        control-fits op (length payload) fits,
        read_bytes-append payload rest,
      )
      refl

client_length-small : (n : ℕ) (rest : List ℕ) → n < 126 → client_length n rest ≡ got n rest
client_length-small n rest h = ground (arith, h)

client_length-short :
    (n : ℕ) (rest : List ℕ) → 126 ≤ n → client_length 126 (n / 256 ∷ n % 256 ∷ rest) ≡ got n rest
client_length-short n rest h =
    let same : n / 256 * 256 + n % 256 ≡ n = omega arith in ground (arith, same, h)

pub write_frame-bytes :
    (f : WsFrame)
    → length f.payload ≤ max_message
    → write_frame f ≡ sent (bit_or 128 f.opcode ∷ (length_bytes (length f.payload) ++ f.payload))
unfolding write_frame
write_frame-bytes f h = ground (arith, h)

length_bytes-small : (n : ℕ) → n < 126 → length_bytes n ≡ n ∷ []
unfolding length_bytes
length_bytes-small n h = let same : n % 256 ≡ n = omega (arith, h) in ground (arith, h, same)

length_bytes-short : (n : ℕ) → 126 ≤ n → n < 65536 → length_bytes n ≡ 126 ∷ n / 256 ∷ n % 256 ∷ []
unfolding length_bytes
length_bytes-short n h k =
    let same : n / 256 % 256 ≡ n / 256 = omega (arith, k) in ground (arith, h, same)

-- A text, close, ping or pong of up to 65535 bytes, as a control frame of up to 125, is written, and a client that reads after RFC 6455 gets it as it is, whatever comes after it.
pub client_read-write_frame :
    (f : WsFrame) (rest : List ℕ)
    → is_known f.opcode ≡ true
    → length f.payload < 65536
    → (8 ≤ f.opcode → length f.payload ≤ 125)
    → (bytes : List ℕ) × (write_frame f ≡ sent bytes) × (client_read (bytes ++ rest) ≡ got f rest)
client_read-write_frame f rest h k fits =
    let n : ℕ = length f.payload in
    let op : ℕ = 128 + f.opcode in
    let kind : f.opcode < 16 = known-lt f.opcode h in
    let written =
      write_frame-bytes f (omega (arith, k))
      ∙ ap (λ o. sent (o ∷ (length_bytes n ++ f.payload))) (opcode-fin f.opcode kind) in
    elim (Bool-cases (ltb n 126)) [
      | inl small ↦
          let below : n < 126 = ground (arith, small) in
          (
            op ∷ n ∷ f.payload,
            written ∙ ap (λ ls. sent (op ∷ (ls ++ f.payload))) (length_bytes-small n below),
            client_read-sized f.opcode n [] f.payload rest kind (omega (arith, below)) fits
                (client_length-small n _ below),
          )
      | inr large ↦
          let above : 126 ≤ n = ground (arith, large) in
          (
            op ∷ 126 ∷ n / 256 ∷ n % 256 ∷ f.payload,
            written ∙ ap (λ ls. sent (op ∷ (ls ++ f.payload))) (length_bytes-short n above k),
            client_read-sized f.opcode 126 (n / 256 ∷ n % 256 ∷ []) f.payload rest kind
                (omega arith) fits (client_length-short n _ above),
          )
    ]

-- A payload of exactly 65536 bytes passes the check on its length and is announced as empty: the frame is written, and a client refuses it.
pub write_frame-wraps :
    (f : WsFrame) (rest : List ℕ)
    → length f.payload ≡ 65536
    → (write_frame f ≡ sent (bit_or 128 f.opcode ∷ 126 ∷ 0 ∷ 0 ∷ f.payload))
      × (client_read (bit_or 128 f.opcode ∷ 126 ∷ 0 ∷ 0 ∷ (f.payload ++ rest)) ≡ stopped malformed)
unfolding length_bytes
write_frame-wraps f rest h = (
  write_frame-bytes f (omega (arith, h)) ∙ rw (h, length_bytes) refl,
  if_both (λ (x : Step WsFrame). x ≡ stopped malformed) (is_odd (bit_or 128 f.opcode) 126) _ _ refl
      refl,
)
