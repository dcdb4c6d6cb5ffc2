-- ===== src/Replay/Scan.antt =====
-- Scan of server/internal/replay/decode.go: a record read line by line, before it is run.
pub mod Lines
pub mod Times
pub mod Written
pub mod Moves
pub mod Head
pub mod RoundTrip
use mathlib.Core.Option
use nadesiko_reversi.Prelude.{
  ℕ, suc, ◌+◌, Bool, true, false, Option, none, some, List, [], ◌∷◌, ◌++◌, Text, codes, text_eq,
  length, ◌==◌, is_some, if◌then◌else◌, ◌>>=◌,
}
use nadesiko_reversi.Prelude.Int.{pos}
use nadesiko_reversi.Replay.Types.{MoveLine, Outline, SourceError, syntax_error}
use nadesiko_reversi.Replay.Lines.{split_lines, trim_space}
use nadesiko_reversi.Replay.Grammar.{
  rules_version_read, start_read, end_read, pass_read, place_read, annotation_read, time_read, atoi,
}

-- What a line of the grammar is.
pub data Line : Type 0 where
  blank : Line
  comment : Text → Line
  rules : Text → Line
  start : Line
  end : Line
  pass : Line
  place : Text → Line

abbrev or_line : Option Line → Option Line → Option Line
or_line (some l) o = some l
or_line none o = o

-- the switch of Scan, for a line that is no comment; none where no pattern matches
unfoldable pub read_statement : Text → Option Line
read_statement text = or_line (Option.map rules (rules_version_read text)) (
    or_line (Option.map (λ (rest : Text). start) (start_read text)) (
      or_line (Option.map (λ (rest : Text). end) (end_read text)) (
        or_line (Option.map (λ (rest : Text). pass) (pass_read text))
          (Option.map place (place_read text)))))

-- one round of the loop of Scan, up to what the line is
unfoldable pub read_line : Text → Option Line
unfolding read_statement
read_line [] = some blank
read_line (c ∷ cs) = if c == 35 then some (comment cs) else read_statement (c ∷ cs)

-- An outline before the first line.
abbrev pub no_lines : Outline
no_lines = record {
  move_lines = [];
  started_at = [];
  ended_at = [];
  rules_version = [];
  rules_version_line = 0;
  rules_version_lines = 0;
  header_lines = 0;
  footer_lines = 0;
}

-- the time of the first such comment
abbrev first_time : Text → Option Text → Text
first_time known none = known
first_time known (some time) = if text_eq known [] then time else known

abbrev with_numbers : MoveLine → Option (ℕ × ℕ) → MoveLine
with_numbers l none = l
with_numbers l (some (color, changed)) = record l {
  annotated = true;
  color = color;
  changed = changed;
}

-- the two numbers of an annotation, where both fit an int
unfoldable pub annotation_numbers : Text → Option (ℕ × ℕ)
annotation_numbers rest = do
  (color, changed) ← annotation_read rest
  c ← atoi color
  n ← atoi changed
  some (c, n)

-- a MoveLine without annotation
abbrev pub plain_line : ℕ → Text → Outline → MoveLine
plain_line number text o = record {
  number = length o.move_lines + 1;
  line = number;
  text = text;
  annotated = false;
  color = 0;
  changed = 0;
}

abbrev add_move : Outline → MoveLine → Outline
add_move o l = record o { move_lines = o.move_lines ++ l ∷ [] }

-- one round of the loop of Scan, on the outline
unfoldable pub add_line : ℕ → Text → Outline → Line → Outline
unfolding annotation_numbers
add_line number text o blank = o
add_line number text o (comment rest) = record o {
  started_at = first_time o.started_at (time_read (codes "開始") rest);
  ended_at = first_time o.ended_at (time_read (codes "終了") rest);
}
add_line number text o (rules version) = record o {
  rules_version_lines = o.rules_version_lines + 1;
  rules_version_line = if o.rules_version_line == 0 then number else o.rules_version_line;
  rules_version = if o.rules_version_line == 0 then version else o.rules_version;
}
add_line number text o start = record o { header_lines = o.header_lines + 1 }
add_line number text o end = record o { footer_lines = o.footer_lines + 1 }
add_line number text o pass = add_move o (plain_line number text o)
add_line number text o (place rest) =
    add_move o (with_numbers (plain_line number text o) (annotation_numbers rest))

-- What Scan returns.
pub data Scanned : Type 0 where
  scanned : Outline → Scanned
  rejected : SourceError → Scanned

-- the error of a line that no pattern matches
abbrev pub grammar_error : ℕ → Text → SourceError
grammar_error number text = record {
  code = syntax_error;
  line = number;
  source = text;
  move_number = pos 0;
  rule_code = none;
  message = record { format = "棋譜の文法に合わない行です"; args = [] };
}

-- the loop of Scan, after `number` lines
unfoldable pub scan_lines : ℕ → Outline → List Text → Scanned
unfolding read_line add_line
scan_lines number o [] = scanned o
scan_lines number o (raw ∷ rest) = elim (read_line (trim_space raw)) [
  | none ↦ rejected (grammar_error (suc number) (trim_space raw))
  | some l ↦ scan_lines (suc number) (add_line (suc number) (trim_space raw) o l) rest
]

-- func Scan
unfoldable pub scan : Text → Scanned
unfolding scan_lines split_lines
scan source = scan_lines 0 no_lines (split_lines source)
