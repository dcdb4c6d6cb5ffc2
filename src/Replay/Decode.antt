-- ===== src/Replay/Decode.antt =====
-- Decoder of server/internal/replay/decode.go: a record is checked line by line, run behind the
-- harness, and its result checked again.
--
-- The run and `json.Unmarshal` are parameters: functions of the text and of the printed bytes.
pub mod Checks
pub mod Location
pub mod Written
use mathlib.Core.Option
use nadesiko_reversi.Prelude.{
  ℕ, suc, ◌+◌, ◌-◌, Bool, true, false, not, ◌||◌, Option, none, some, List, [], ◌∷◌, ◌++◌, Text,
  codes, text_eq, length, get_elem?, leb, ltb, ◌==◌, is_some, if◌then◌else◌, ◌>>=◌,
}
use nadesiko_reversi.Prelude.Int.{pos}
use nadesiko_reversi.Protocol.Types.{version, Error, Arg, str, number, Message}
use nadesiko_reversi.Replay.Types.{
  rules_version, Move, Script, Outline, RecordErrorCode, syntax_error, missing_header,
  unsupported_rules_version, SourceError,
}
use nadesiko_reversi.Replay.Record.{move_validate, game_id_valid}
use nadesiko_reversi.Replay.Lines.{split_lines, trim_space, line_at}
use nadesiko_reversi.Replay.Grammar.{is_blank, skip_blanks, digits_then, strip, start_read, atoi}
use nadesiko_reversi.Replay.Scan.{Scanned, scanned, rejected, scan}
use nadesiko_reversi.Replay.Replayer.{
  ReplayError, at_source, Decoded, decoded, undecodable, record_error, locate,
}

-- What ScriptRunner.Run returns: the bytes of the standard output, a ScriptExecError with its
-- Stderr, or another error.
pub data Ran : Type 0 where
  printed : List ℕ → Ran
  exec_failed : Text → Ran
  run_failed : ReplayError → Ran

-- type Decoder, with the function that its runner is, and with the reading of the output
pub record Decoder : Type 0 where
  pub harness : Text
  pub run : Text → Ran
  pub unmarshal : List ℕ → Option Script

-- func NewDecoder; none for a missing harness or runner
unfoldable pub new_decoder : Text → Option (Text → Ran) → (List ℕ → Option Script) → Option Decoder
unfolding trim_space
new_decoder harness runner unmarshal =
    if text_eq (trim_space harness) []
    then none
    else Option.map (λ run. record { harness = harness; run = run; unmarshal = unmarshal }) runner

-- (.*), up to the end of the line
unfoldable pub take_line : Text → Text
take_line [] = []
take_line (c ∷ cs) = let rest = take_line cs in if c == 10 then [] else c ∷ rest

abbrev keep : ℕ → Text × Text → Text × Text
keep c p = (c ∷ p.0, p.1)

-- the characters up to a mark, and what follows the mark
unfoldable pub split_at : ℕ → Text → Option (Text × Text)
split_at mark [] = none
split_at mark (c ∷ cs) =
    let rest = split_at mark cs in if c == mark then some ([], cs) else Option.map (keep c) rest

-- ([^\]]+)\]
abbrev filled_name : Text × Text → Option (Text × Text)
filled_name ([], rest) = none
filled_name (c ∷ cs, rest) = some (c ∷ cs, rest)

abbrev colon : Text → Option Text
colon [] = none
colon (c ∷ cs) = if c == 58 || c == 65306 then some cs else none

-- A diagnostic: the name in brackets, the digits of the line, and the message.
pub record Diagnostic : Type 0 where
  pub name : Text
  pub digits : Text
  pub message : Text

-- gonakoErrorPattern at the front
unfoldable pub diagnostic_at : Text → Option Diagnostic
unfolding strip skip_blanks
diagnostic_at s = do
  s1 ← strip (codes "[") s
  named ← split_at 93 s1
  (name, s2) ← filled_name named
  (skipped, s3) ← split_at 40 s2
  (ds, s4) ← digits_then s3
  s5 ← strip (codes "行目)") s4
  s6 ← colon (skip_blanks s5)
  some (record { name = name; digits = ds; message = take_line (skip_blanks s6) })

abbrev or_later : Option Diagnostic → Option Diagnostic → Option Diagnostic
or_later (some d) o = some d
or_later none o = o

-- gonakoErrorPattern, at the first place where it matches
unfoldable pub diagnostic_read : Text → Option Diagnostic
unfolding diagnostic_at
diagnostic_read [] = none
diagnostic_read (c ∷ cs) = let rest = diagnostic_read cs in or_later (diagnostic_at (c ∷ cs)) rest

-- `strings.Count(text, "\n")`
unfoldable pub count_feeds : Text → ℕ
count_feeds [] = 0
count_feeds (c ∷ cs) = let rest = count_feeds cs in if c == 10 then suc rest else rest

abbrev cannot_run : ℕ × Text
cannot_run = (0, codes "棋譜を実行できません")

-- locateFailure, for a line of the combined source
unfoldable pub locate_line : Text → Text → Diagnostic → ℕ → ℕ × Text
unfolding count_feeds trim_space
locate_line harness source d combined =
    let message =
      if text_eq (trim_space d.message) [] then trim_space d.name else trim_space d.message in
    let offset = count_feeds harness + 1 in
    if ltb combined (offset + 1) || ltb (count_feeds source + 1) (combined - offset)
    then (0, message)
    else (combined - offset, message)

-- locateFailure, for the number that Atoi reads
unfoldable pub locate_number : Text → Text → Diagnostic → Option ℕ → ℕ × Text
unfolding locate_line
locate_number harness source d none = cannot_run
locate_number harness source d (some combined) = locate_line harness source d combined

-- locateFailure, from the match on
unfoldable pub locate_diagnostic : Text → Text → Option Diagnostic → ℕ × Text
unfolding locate_number
locate_diagnostic harness source none = cannot_run
locate_diagnostic harness source (some d) = locate_number harness source d (atoi d.digits)

-- func (d *Decoder) locateFailure
unfoldable pub locate_failure : Text → Text → Text → ℕ × Text
unfolding locate_diagnostic
locate_failure harness diagnostic source =
    locate_diagnostic harness source (diagnostic_read diagnostic)

-- the loop of startLineNumber, after `count` lines
unfoldable pub find_start : ℕ → List Text → ℕ
find_start count [] = 0
find_start count (raw ∷ rest) =
    let later = find_start (suc count) rest in
    if is_some (start_read (trim_space raw)) then suc count else later

-- func (d *Decoder) startLineNumber
unfoldable pub start_line_number : Text → ℕ
unfolding find_start split_lines
start_line_number source = find_start 0 (split_lines source)

-- An error at a line of the source.
abbrev pub error_at : Text → ℕ → RecordErrorCode → Message → SourceError
error_at source line code message = record (record_error code message) {
  line = line;
  source = line_at source line;
}

-- the checks of Decode on the outline, before the run; none where all of them pass
unfoldable pub outline_error : Text → Outline → Option SourceError
unfolding line_at
outline_error source o =
    if not (o.header_lines == 1)
    then some (
        record_error missing_header
          (record { format = "開始行はちょうど1回必要です: %d回"; args = number (pos o.header_lines) ∷ [] }))
    else if ltb 1 o.footer_lines
    then some (
        record_error syntax_error
          (record { format = "終了行が2回以上あります: %d回"; args = number (pos o.footer_lines) ∷ [] }))
    else if not (o.rules_version_lines == 1)
    then some (
        error_at source o.rules_version_line missing_header (record {
          format = "ルール版宣言行はちょうど1回必要です: %d回";
          args = number (pos o.rules_version_lines) ∷ [];
        }))
    else if not (text_eq o.rules_version rules_version)
    then some (
        error_at source o.rules_version_line unsupported_rules_version (record {
          format = "対応していないルール版です: %q (このサーバーは%qを再生できます)";
          args = str o.rules_version ∷ str rules_version ∷ [];
        }))
    else none

-- the error of a move that Validate refuses
abbrev pub move_error : Text → Outline → ℕ → Error → SourceError
move_error source o index e = record (error_at source (locate o index) syntax_error e.message) {
  move_number = pos (index + 1);
  rule_code = some e.code;
}

-- the loop of Decode over the moves, after `index` of them
unfoldable pub moves_error : Text → Outline → ℕ → List Move → Option SourceError
unfolding move_validate line_at
moves_error source o index [] = none
moves_error source o index (m ∷ ms) =
    let rest = moves_error source o (index + 1) ms in
    elim (move_validate m) [ none ↦ rest | some e ↦ some (move_error source o index e) ]

-- the checks of Decode on the script that the run printed
unfoldable pub script_error : Text → Outline → Script → Option SourceError
unfolding moves_error start_line_number line_at game_id_valid
script_error source o s =
    if not (text_eq s.version version)
    then some (
        record_error syntax_error
          (record { format = "対応していない棋譜バージョンです: %q"; args = str s.version ∷ [] }))
    else if not (text_eq s.rules_version o.rules_version)
    then some (
        error_at source o.rules_version_line unsupported_rules_version (record {
          format = "ルール版の読み取りが一致しません: 行=%q 実行=%q";
          args = str o.rules_version ∷ str s.rules_version ∷ [];
        }))
    else if not (game_id_valid s.game_id)
    then some (
        error_at source (start_line_number source) missing_header
          (record { format = "対局IDは半角英数字と_-の1〜64文字です: %q"; args = str s.game_id ∷ [] }))
    else moves_error source o 0 s.moves

-- the script with the times of the outline
abbrev pub with_times : Outline → Script → Script
with_times o s = record s { started_at = o.started_at; ended_at = o.ended_at }

abbrev pub unless_error : Option SourceError → Script → Outline → Decoded
unless_error none s o = decoded s o
unless_error (some e) s o = undecodable (at_source e)

-- Decode, for the result of json.Unmarshal
unfoldable pub decode_script : Text → Outline → Option Script → Decoded
unfolding script_error
decode_script source o none =
    undecodable
      (at_source (record_error syntax_error (record { format = "棋譜の読み取り結果を解釈できません"; args = [] })))
decode_script source o (some s) =
    unless_error (script_error source o (with_times o s)) (with_times o s) o

-- Decode, for the result of the run
unfoldable pub decode_run : Decoder → Text → Outline → Ran → Decoded
unfolding decode_script locate_failure line_at
decode_run d source o (printed stdout) = decode_script source o (d.unmarshal stdout)
decode_run d source o (exec_failed stderr) =
    let found : ℕ × Text = locate_failure d.harness stderr source in
    undecodable (
      at_source
        (error_at source found.0 syntax_error (record { format = "%s"; args = str found.1 ∷ [] })))
decode_run d source o (run_failed e) = undecodable e

-- the source that is run
abbrev pub combined_source : Decoder → Text → Text
combined_source d source = d.harness ++ (10 ∷ (source ++ (10 ∷ (codes "対局データ出力" ++ (10 ∷ [])))))

-- Decode, from the outline on
unfoldable pub decode_outline : Decoder → Text → Outline → Option SourceError → Decoded
unfolding decode_run
decode_outline d source o (some e) = undecodable (at_source e)
decode_outline d source o none = decode_run d source o (d.run (combined_source d source))

-- Decode, for the result of Scan
unfoldable pub decode_scanned : Decoder → Text → Scanned → Decoded
unfolding outline_error decode_outline
decode_scanned d source (rejected e) = undecodable (at_source e)
decode_scanned d source (scanned o) = decode_outline d source o (outline_error source o)

-- func (d *Decoder) Decode
unfoldable pub decode : Decoder → Text → Decoded
unfolding decode_scanned scan
decode d source = decode_scanned d source (scan source)
