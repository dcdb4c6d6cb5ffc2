-- ===== src/Server/Frames.antt =====
-- wsSocket of server/main.go: WebSocket frames read from a connection and written to it.
--
-- A connection is the list of the bytes that it still gives; a read past its end is an error of the
-- connection. Writing to the connection is the list of the bytes written.
pub mod Client
pub mod Reads
pub mod Accepts
pub mod Writes
pub mod Reasons
use Prim.Native.Nat.{bit_and, bit_or, bit_xor}
use mathlib.Core.Option
use nadesiko_reversi.Prelude.{
  ℕ, zero, suc, ◌+◌, ◌*◌, ◌/◌, ◌%◌, Bool, true, false, not, ◌&&◌, ◌||◌, Option, none, some, List,
  [], ◌∷◌, ◌++◌, length, take, drop, leb, ltb, ◌==◌, if◌then◌else◌, get_elem?,
}
use nadesiko_reversi.Server.Bytes.{big_endian, utf8_valid}

-- const maxWSMessage
abbrev pub max_message : ℕ
max_message = 65536

-- type wsFrame
pub record WsFrame : Type 0 where
  pub opcode : ℕ
  pub payload : List ℕ

-- An error of the connection, errWSProtocol and errWSMessageTooLarge.
pub data FrameError : Type 0 where
  connection malformed too_large : FrameError

-- A value with the bytes that follow, or an error.
pub data Step {ℓ} (A : Type ℓ) : Type ℓ where
  got : A → List ℕ → Step A
  stopped : FrameError → Step A

-- `if err != nil { return wsFrame{}, err }`
infixl 5 ◌>>=◌
abbrev pub ◌>>=◌ {ℓ κ} : {A : Type ℓ} {B : Type κ} → Step A → (A → List ℕ → Step B) → Step B
got a rest >>= f = f a rest
stopped e >>= f = stopped e

abbrev pub put_first : ℕ → Step (List ℕ) → Step (List ℕ)
put_first b (got bs rest) = got (b ∷ bs) rest
put_first b (stopped e) = stopped e

-- `io.ReadFull` of so many bytes
unfoldable pub read_bytes : ℕ → List ℕ → Step (List ℕ)
read_bytes zero s = got [] s
read_bytes (suc n) [] = stopped connection
read_bytes (suc n) (b ∷ s) = put_first b (read_bytes n s)

abbrev pub read_byte : List ℕ → Step ℕ
read_byte [] = stopped connection
read_byte (b ∷ s) = got b s

-- readFrame, a length in two bytes
abbrev pub short_length : List ℕ → List ℕ → Step ℕ
short_length extended rest =
    if ltb (big_endian 0 extended) 126 then stopped malformed else got (big_endian 0 extended) rest

-- readFrame, a length in eight bytes
abbrev pub long_length : List ℕ → List ℕ → Step ℕ
long_length extended rest =
    if ltb (big_endian 0 extended) 65536 || leb 9223372036854775808 (big_endian 0 extended)
    then stopped malformed
    else got (big_endian 0 extended) rest

-- readFrame, the length, for the seven bits in the header
unfoldable pub read_length : ℕ → List ℕ → Step ℕ
unfolding read_bytes
read_length n s =
    if n == 126
    then read_bytes 2 s >>= short_length
    else if n == 127
    then read_bytes 8 s >>= long_length
    else got n s

abbrev pub byte_at : List ℕ → ℕ → ℕ
byte_at bs i = elim (get_elem? bs i) [ none ↦ 0 | some b ↦ b ]

-- `data[i] ^= mask[i%4]`, from index i on
unfoldable pub unmask : ℕ → List ℕ → List ℕ → List ℕ
unmask i mask [] = []
unmask i mask (b ∷ bs) = bit_xor b (byte_at mask (i % 4)) ∷ unmask (i + 1) mask bs

-- readFrame, the last condition on the payload
unfoldable pub payload_bad : ℕ → List ℕ → Bool
unfolding utf8_valid
payload_bad opcode bytes =
    opcode == 1 && not (utf8_valid bytes)
    || opcode == 8 && (length bytes == 1 || leb 2 (length bytes) && not (utf8_valid (drop 2 bytes)))

-- readFrame, from the payload on
unfoldable pub check_payload : ℕ → List ℕ → List ℕ → Step WsFrame
unfolding payload_bad
check_payload opcode bytes rest =
    if payload_bad opcode bytes
    then stopped malformed
    else got (record { opcode = opcode; payload = bytes }) rest

-- readFrame, from the checks on the length on
unfoldable pub read_payload : ℕ → ℕ → List ℕ → Step WsFrame
unfolding read_bytes unmask check_payload
read_payload opcode size s =
    if ltb max_message size
    then stopped too_large
    else if leb 8 opcode && ltb 125 size
    then stopped malformed
    else read_bytes 4 s >>= λ mask s1.
        read_bytes size s1 >>= λ bytes s2. check_payload opcode (unmask 0 mask bytes) s2

abbrev pub is_known : ℕ → Bool
is_known opcode = opcode == 1 || opcode == 8 || opcode == 9 || opcode == 10

-- readFrame, the conditions on the two bytes of the header
unfoldable pub header_bad : ℕ → ℕ → Bool
header_bad first second =
    bit_and first 128 == 0
    || not (bit_and first 112 == 0)
    || bit_and second 128 == 0
    || not (is_known (bit_and first 15))

-- readFrame, from the header on
unfoldable pub read_headed : ℕ → ℕ → List ℕ → Step WsFrame
unfolding header_bad read_length read_payload
read_headed first second s =
    if header_bad first second
    then stopped malformed
    else read_length (bit_and second 127) s >>= read_payload (bit_and first 15)

-- func (s *wsSocket) readFrame
unfoldable pub read_frame : List ℕ → Step WsFrame
unfolding read_headed
read_frame s = read_byte s >>= λ first s1. read_byte s1 >>= λ second s2. read_headed first second s2

-- writeFrame, the bytes of the length
unfoldable pub length_bytes : ℕ → List ℕ
length_bytes n = if ltb n 126 then n % 256 ∷ [] else 126 ∷ n / 256 % 256 ∷ n % 256 ∷ []

-- What writeFrame does on a connection that takes all bytes.
pub data Sent : Type 0 where
  sent : List ℕ → Sent
  refused : FrameError → Sent

-- func (s *wsSocket) writeFrame
unfoldable pub write_frame : WsFrame → Sent
unfolding length_bytes
write_frame f =
    if ltb max_message (length f.payload)
    then refused too_large
    else sent (bit_or 128 f.opcode ∷ (length_bytes (length f.payload) ++ f.payload))

-- the loop of truncateCloseReason: the longest start of at most so many bytes that is valid
unfoldable pub valid_start : ℕ → List ℕ → List ℕ
unfolding utf8_valid
valid_start zero reason = []
valid_start (suc n) reason =
    let shorter = valid_start n reason in
    if utf8_valid (take (suc n) reason) then take (suc n) reason else shorter

-- func truncateCloseReason
unfoldable pub truncate_close_reason : List ℕ → List ℕ
truncate_close_reason reason = if leb (length reason) 123 then reason else valid_start 123 reason

-- func wsCloseFrame
unfoldable pub close_frame : ℕ → List ℕ → WsFrame
close_frame code reason = record {
  opcode = 8;
  payload = code / 256 % 256 ∷ code % 256 ∷ truncate_close_reason reason;
}
