-- ===== src/Tests/Server.antt =====
-- The server, on concrete bytes, settings and rooms.
use nadesiko_reversi.Prelude.{
  ℕ, zero, suc, ◌+◌, ◌-◌, ◌*◌, ◌≤◌, ◌≡◌, ap, refl, true, false, List, [], ◌∷◌, ◌++◌, length,
  replicate, arith, ◌/◌, min, ltb,
}
use nadesiko_reversi.Prelude.Int.{pos, ◌-ℤ◌, pos_part}
use Prim.Native.Nat.{bit_or}
use nadesiko_reversi.Server.Bytes.{utf8_from, utf8_valid}
use nadesiko_reversi.Server.Frames.{
  WsFrame, malformed, got, stopped, sent, header_bad, read_bytes, read_length, payload_bad,
  check_payload, read_payload, read_headed, read_frame, unmask, write_frame, truncate_close_reason,
}
use nadesiko_reversi.Server.Frames.Client.{Mask, client_frame, IsSendable}
use nadesiko_reversi.Server.Frames.Reads.{read_frame-client_frame}
use nadesiko_reversi.Server.Frames.Accepts.{IsAccepted, read_frame-IsAccepted}
use nadesiko_reversi.Server.Frames.Writes.{client_read, client_read-write_frame, write_frame-wraps}
use nadesiko_reversi.Server.Frames.Reasons.{IsCut, truncate_close_reason-IsCut}
use nadesiko_reversi.Server.Limits.{Float64, new_limiter, allow_all}
use nadesiko_reversi.Server.Limits.Rate.{IsExact, allow_all-burst}

abbrev mask : Mask
mask = record { a = 1; b = 2; c = 3; d = 4 }

abbrev greeting : WsFrame
greeting = record { opcode = 1; payload = 104 ∷ 105 ∷ [] }

greeting-IsSendable : IsSendable mask greeting
unfolding utf8_from utf8_valid
greeting-IsSendable = record {
  known = refl;
  masks = (omega arith, (omega arith, (omega arith, (omega arith, tt))));
  bytes = (omega arith, (omega arith, tt));
  bounded = omega arith;
  control = λ h. absurd (omega (arith, h));
  text = λ _. refl;
  close = λ h. absurd (omega (arith, h));
}

read_frame-client_frame_example :
    read_frame (client_frame mask greeting ++ (9 ∷ [])) ≡ got greeting (9 ∷ [])
read_frame-client_frame_example = read_frame-client_frame mask (9 ∷ []) greeting greeting-IsSendable

abbrev bytes : List ℕ
bytes = 129 ∷ 130 ∷ 0 ∷ 0 ∷ 0 ∷ 0 ∷ 104 ∷ 105 ∷ 7 ∷ []

arrived : read_frame bytes ≡ got greeting (7 ∷ [])
unfolding read_frame read_headed header_bad read_length read_payload read_bytes unmask check_payload
    payload_bad utf8_from
arrived = refl

read_frame-IsAccepted_example : IsAccepted greeting × (1 + 6 ≤ 9)
read_frame-IsAccepted_example = read_frame-IsAccepted bytes (7 ∷ []) greeting arrived

client_read-write_frame_example :
    (bs : List ℕ) × (write_frame greeting ≡ sent bs) × (client_read (bs ++ []) ≡ got greeting [])
client_read-write_frame_example =
    client_read-write_frame greeting [] refl (omega arith) (λ h. absurd (omega (arith, h)))

length-replicate : (n b : ℕ) → length (replicate n b) ≡ n
length-replicate zero b = refl
length-replicate (suc n) b = ap suc (length-replicate n b)

abbrev large : WsFrame
large = record { opcode = 1; payload = replicate 65536 97 }

write_frame-wraps_example :
    (write_frame large ≡ sent (bit_or 128 1 ∷ 126 ∷ 0 ∷ 0 ∷ replicate 65536 97))
    × (client_read (bit_or 128 1 ∷ 126 ∷ 0 ∷ 0 ∷ (replicate 65536 97 ++ [])) ≡ stopped malformed)
write_frame-wraps_example = write_frame-wraps large [] (length-replicate 65536 97)

abbrev reason : List ℕ
reason = replicate 130 97

reason-valid : utf8_valid reason ≡ true
unfolding utf8_valid
reason-valid = refl

truncate_close_reason-IsCut_example : IsCut reason (truncate_close_reason reason)
truncate_close_reason-IsCut_example = truncate_close_reason-IsCut reason reason-valid

-- Numbers that are exact on all naturals, in place of float64 ones.
abbrev pub naturals : Float64
naturals = record {
  of_int = λ n. n;
  seconds = λ d. pos_part d / 1000000000;
  add = λ x y. x + y;
  sub = λ x y. x - y;
  mul = λ x y. x * y;
  least = λ x y. min x y;
  below = λ x y. ltb x y;
}

no_time-naturals :
    (t u : ℕ)
    → t ≤ u
    → naturals.below (naturals.of_int 0) (naturals.seconds (pos t -ℤ pos u)) ≡ false
unfolding ◌-ℤ◌
no_time-naturals t u h =
    let none_passed : pos_part (pos t -ℤ pos u) / 1000000000 ≡ 0 = ground (arith, h) in
    ground (arith, none_passed)

naturals-IsExact : IsExact naturals
naturals-IsExact = record {
  no_time = no_time-naturals;
  compares = λ n h. refl;
  counts = λ n h. omega arith;
}

allow_all-burst_example : (allow_all naturals (new_limiter naturals 5 2 9) (7 ∷ 8 ∷ 9 ∷ [])).1 ≡ 2
allow_all-burst_example =
    allow_all-burst naturals 5 2 9 (7 ∷ 8 ∷ 9 ∷ []) naturals-IsExact (omega arith)
      (omega arith, (omega arith, (omega arith, tt)))
