-- ===== src/Replay/Decode/Written.antt =====
-- A record that EncodeResult wrote, decoded again.
use nadesiko_reversi.Prelude.{
  ℕ, ◌≤◌, ◌≡◌, refl, Bool, true, false, some, List, Text, if◌then◌else◌, arith,
}
use nadesiko_reversi.Protocol.Types.{is_finished}
use nadesiko_reversi.Replay.Types.{Script, Result}
use nadesiko_reversi.Replay.Replayer.{final_state, decoded}
use nadesiko_reversi.Replay.Encode.{written, encode_result}
use nadesiko_reversi.Replay.Scan.Lines.{IsTime}
use nadesiko_reversi.Replay.Scan.Written.{NotesFit}
use nadesiko_reversi.Replay.Scan.RoundTrip.{outline_of, scan-encode_result}
use nadesiko_reversi.Replay.Decode.{Decoder, printed, combined_source, decode}
use nadesiko_reversi.Replay.Decode.Checks.{Headed, Checked, decode-Headed}

one_end_line : (b : Bool) → (if b then 1 else 0) ≤ 1
one_end_line true = omega arith
one_end_line false = omega arith

-- The outline of a written record has one of each line.
pub outline_of-Headed : (r : Result) → Headed (outline_of r)
outline_of-Headed r = record {
  one_start = refl;
  one_end = one_end_line (is_finished (final_state r).phase);
  one_version = refl;
  same_version = refl;
}

-- A record that EncodeResult wrote passes the checks before its run. Where the run prints a script of this version with a valid id and valid moves, Decode returns that script with the times of the game, and each move with its line and its annotation.
pub decode-encode_result :
    (d : Decoder) (r : Result) (source : Text) (s : Script) (out : List ℕ)
    → IsTime r.script.started_at
    → IsTime r.script.ended_at
    → NotesFit r.later
    → encode_result (some r) ≡ written source
    → d.run (combined_source d source) ≡ printed out
    → d.unmarshal out ≡ some s
    → Checked s
    → decode d source
      ≡ decoded
          (record s { started_at = r.script.started_at; ended_at = r.script.ended_at })
          (outline_of r)
decode-encode_result d r source s out v w fits e ran read c =
    decode-Headed d source s (outline_of r) out (scan-encode_result r source v w fits e)
      (outline_of-Headed r) ran read c
