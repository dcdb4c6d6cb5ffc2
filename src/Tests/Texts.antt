-- ===== src/Tests/Texts.antt =====
-- A record as a text, written, read and saved.
use nadesiko_reversi.Prelude.{
  ℕ, ◌+◌, ◌≤◌, ◌≡◌, ◌∙◌, ap, refl, some, List, [], ◌∷◌, Text, codes, arith,
}
use nadesiko_reversi.Prelude.Assoc.{lookup}
use nadesiko_reversi.Protocol.Codes.{player_valid}
use nadesiko_reversi.Protocol.Board.{in_bounds}
use nadesiko_reversi.Protocol.Clone.{clone_state, clone_event}
use nadesiko_reversi.Replay.Types.{Result}
use nadesiko_reversi.Replay.Record.{game_id_valid, move_validate, place_move}
use nadesiko_reversi.Replay.Encode.{
  written, write_lines, header_lines, rules_version_line, start_line, player_word, place_text,
  place_line, end_text, end_line, add_cells, board_totals, encode_placement, encode_move,
  encode_frame, encode_frames, encode_end, encode_moves, encode_result,
}
use nadesiko_reversi.Prelude.Decimal.{int_text}
use nadesiko_reversi.Replay.Scan.{scanned, scan}
use nadesiko_reversi.Replay.Replayer.{
  last_state, frame_of, decoded, replayed, replay, replay_with, verify_finished,
}
use nadesiko_reversi.Replay.Scan.Written.{NotesFit, noted, move_lines_of}
use nadesiko_reversi.Replay.Scan.RoundTrip.{outline_of, scan-encode_result}
use nadesiko_reversi.Replay.Decode.{
  Decoder, printed, decode, Diagnostic, diagnostic_read, split_at, locate_failure, count_feeds,
  combined_source,
}
use nadesiko_reversi.Replay.Grammar.{digits_then, atoi}
use nadesiko_reversi.Replay.Lines.{line_at}
use nadesiko_reversi.Replay.Decode.Checks.{Checked, Sound, decode-Sound}
use nadesiko_reversi.Replay.Decode.Written.{decode-encode_result}
use nadesiko_reversi.Replay.Decode.Location.{locate_failure-line_at}
use nadesiko_reversi.Replay.Service.{save_source}
use nadesiko_reversi.Replay.Service.Saves.{
  Kept, save_source-Kept, Replays, empty, next, Sourced-Replays,
}
use nadesiko_reversi.Replay.Store.{new_store}
use nadesiko_reversi.Tests.Records.{script, result, move, after}

abbrev pub text_lines : List Text
text_lines =
    codes "# グラデーションリバーシ 対局記録 v1"
    ∷ []
    ∷ codes "「1」でルール版宣言"
    ∷ codes "「game-1」と7で対局開始"
    ∷ []
    ∷ codes "2と3で黒着手    # 色90、1個変換"
    ∷ []
    ∷ codes "「白」で対局終了   # 1手、色合計200、駒1"
    ∷ []

abbrev pub source : Text
source = write_lines text_lines []

encoded : encode_result (some result) ≡ written source
unfolding encode_result encode_moves encode_end encode_frames encode_frame encode_move
    encode_placement place_line place_text player_word start_line header_lines rules_version_line
    end_line end_text board_totals add_cells game_id_valid player_valid in_bounds int_text
    last_state clone_state clone_event write_lines place_move
encoded = refl

fits : NotesFit result.later
unfolding clone_event
fits = (omega arith, omega arith, tt)

scan-encode_result_example : scan source ≡ scanned (outline_of result)
scan-encode_result_example = scan-encode_result result source refl refl fits encoded

-- A decoder whose run prints the script of that game.
abbrev pub decoder : Decoder
decoder = record {
  harness = codes "●対局データ出力とは";
  run = λ text. printed [];
  unmarshal = λ bytes. some script;
}

script-Checked : Checked script
unfolding game_id_valid move_validate place_move player_valid in_bounds
script-Checked = record { same_version = refl; same_rules = refl; named = refl; moves = (refl, tt) }

pub read_back : decode decoder source ≡ decoded script (outline_of result)
read_back =
    decode-encode_result decoder result source script [] refl refl fits encoded refl refl
      script-Checked

decode-encode_result_example : decode decoder source ≡ decoded script (outline_of result)
decode-encode_result_example =
    decode-encode_result decoder result source script [] refl refl fits encoded refl refl
      script-Checked

decode-Sound_example : Sound source script (outline_of result)
decode-Sound_example = decode-Sound decoder source script (outline_of result) read_back

-- The game again, with the lines that its text has.
abbrev pub again : Result
again = record result {
  outline = outline_of result;
  later = frame_of (outline_of result) 0 move after ∷ [];
}

pub replays : replay source (decode decoder source) ≡ replayed again
unfolding replay replay_with verify_finished clone_state clone_event last_state move_lines_of noted
    encode_move encode_placement place_line place_move
replays = ap (replay source) read_back ∙ refl

save_source-Kept_example : Kept decoder new_store source again
save_source-Kept_example = save_source-Kept decoder new_store source again replays

Sourced-Replays_example :
    Replays decoder
      (codes "game-1")
      (lookup (codes "game-1") (save_source decoder new_store source).0.entries)
Sourced-Replays_example =
    Sourced-Replays decoder (save_source decoder new_store source).0 (codes "game-1")
      (next source empty)

abbrev diagnostic : Text
diagnostic = codes "[文法エラー]record.nako3(2行目): 未定義の単語"

located : 1 ≤ (locate_failure decoder.harness diagnostic []).0
unfolding locate_failure diagnostic_read split_at digits_then atoi
located = omega arith

locate_failure-line_at_example :
    (m : Diagnostic) × (combined : ℕ) × (diagnostic_read diagnostic ≡ some m)
    × (atoi m.digits ≡ some combined)
    × ((locate_failure decoder.harness diagnostic []).0 ≤ count_feeds [] + 1)
    × (line_at (combined_source decoder []) combined
        ≡ line_at [] (locate_failure decoder.harness diagnostic []).0)
locate_failure-line_at_example = locate_failure-line_at decoder diagnostic [] located
