-- ===== src/Server/Frames/Reads.antt =====
-- What readFrame accepts: every frame that a client may send, and no other.

use mathlib.Core.List.{append_assoc}
use nadesiko_reversi.Prelude.{
  ℕ, ◌+◌, ◌≤◌, ◌≡◌, ◌∙◌, sym, ap, refl, false, ◌&&◌, List, ◌∷◌, ◌++◌, length, leb, ltb, arith,
}
use nadesiko_reversi.Server.Frames.{
  max_message, WsFrame, got, ◌>>=◌, read_bytes, payload_bad, check_payload, read_payload,
  read_frame,
}
use nadesiko_reversi.Server.Frames.Client.{
  Mask, mask_bytes, masked_with, client_frame, read_bytes-append, length-masked, unmask-masked,
  masked_length-Lengthy, IsSendable, payload_good, read_headed-known,
}

read_bytes-sized :
    (n : ℕ) (bs rest : List ℕ) → length bs ≡ n → read_bytes n (bs ++ rest) ≡ got bs rest
read_bytes-sized n bs rest e =
    ap (λ k. read_bytes k (bs ++ rest)) (sym e) ∙ read_bytes-append bs rest

check_payload-good :
    (op : ℕ) (bs rest : List ℕ)
    → payload_bad op bs ≡ false
    → check_payload op bs rest ≡ got (record { opcode = op; payload = bs }) rest
unfolding check_payload
check_payload-good op bs rest h = rw h refl

control-bound : (op n : ℕ) → (8 ≤ op → n ≤ 125) → (leb 8 op && ltb 125 n) ≡ false
control-bound op n h = ground (arith, h)

read_payload-sent :
    (m : Mask) (rest : List ℕ) (f : WsFrame)
    → IsSendable m f
    → read_payload f.opcode (length f.payload) (mask_bytes m ++ (masked_with m f.payload ++ rest))
      ≡ got f rest
unfolding read_payload
read_payload-sent m rest f v =
    let small : ltb max_message (length f.payload) ≡ false = ground (arith, v.bounded) in
    let control = control-bound f.opcode (length f.payload) v.control in
    let bytes =
      read_bytes-sized (length f.payload) (masked_with m f.payload) rest
        (length-masked m.a m.b m.c m.d f.payload) in
    rw (small, control, bytes, unmask-masked m f.payload v.masks v.bytes)
      (check_payload-good f.opcode f.payload rest (payload_good f.opcode f.payload v.text v.close))

-- A text, close, ping or pong frame that RFC 6455 allows a client to send, of at most 65536 bytes, masked with any four bytes used in turn, is read as it was sent, whatever comes after it.
pub read_frame-client_frame :
    (m : Mask) (rest : List ℕ) (f : WsFrame)
    → IsSendable m f
    → read_frame (client_frame m f ++ rest) ≡ got f rest
unfolding read_frame
read_frame-client_frame m rest f v =
    let l = masked_length-Lengthy (length f.payload) v.bounded in
    let hidden : List ℕ = masked_with m f.payload in
    let body : List ℕ = mask_bytes m ++ (hidden ++ rest) in
    let tail : List ℕ = mask_bytes m ++ hidden in
    let whole : client_frame m f ++ rest ≡ (128 + f.opcode) ∷ l.second ∷ (l.more ++ body) =
      ap (λ ls. (128 + f.opcode) ∷ ((ls ++ tail) ++ rest)) l.bytes
      ∙ ap (λ ls. (128 + f.opcode) ∷ l.second ∷ ls)
          (append_assoc l.more tail rest
            ∙ ap (λ ls. l.more ++ ls) (append_assoc (mask_bytes m) hidden rest)) in
    ap read_frame whole
    ∙ read_headed-known f.opcode l.second (l.more ++ body) v.known l.masked
    ∙ ap (λ x. x >>= read_payload f.opcode) (l.read body)
    ∙ read_payload-sent m rest f v
