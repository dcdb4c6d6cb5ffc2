-- ===== src/Replay/Types.antt =====
-- record.go, replay.go, decode.go and errors.go of server/internal/replay: the data.
--
-- A slice that the package only ranges over and measures is a list. Sources of records are `Text`.
use nadesiko_reversi.Prelude.{ℕ, Bool, Option, List, Text, codes}
use nadesiko_reversi.Prelude.Int.{ℤ}
use nadesiko_reversi.Protocol.Types.{Player, CommandType, Command, State, Event, ErrorCode, Message}

-- const RulesVersion
abbrev pub rules_version : Text
rules_version = codes "1"

-- type Move
pub record Move : Type 0 where
  pub player : Player
  pub type : CommandType
  pub row : Option ℤ
  pub col : Option ℤ

-- type ScriptFrame
pub record ScriptFrame : Type 0 where
  pub turn_number : ℤ
  pub move_number : ℤ
  pub state : State
  pub event : Option Event

-- type ScriptFailure
pub record ScriptFailure : Type 0 where
  pub move_number : ℤ
  pub code : ErrorCode
  pub message : Message

-- type Script
pub record Script : Type 0 where
  pub version : Text
  pub game_id : Text
  pub seed : ℕ
  pub winner : Player
  pub moves : List Move
  pub header_count : ℤ
  pub footer_count : ℤ
  pub rules_version : Text
  pub version_count : ℤ
  pub ok : Bool
  pub failure : Option ScriptFailure
  pub frames : List ScriptFrame
  pub started_at : Text
  pub ended_at : Text

-- type Record
pub record GameRecord : Type 0 where
  pub version : Text
  pub rules_version : Text
  pub game_id : Text
  pub seed : ℕ
  pub started_at : Text
  pub ended_at : Text
  pub winner : Player
  pub commands : List Command
  pub final_state : State

-- type Summary
pub record Summary : Type 0 where
  pub game_id : Text
  pub seed : ℕ
  pub winner : Player
  pub move_count : ℕ
  pub started_at : Text
  pub ended_at : Text

-- type MoveLine
pub record MoveLine : Type 0 where
  pub number : ℕ
  pub line : ℕ
  pub text : Text
  pub annotated : Bool
  pub color : ℕ
  pub changed : ℕ

-- type Outline
pub record Outline : Type 0 where
  pub move_lines : List MoveLine
  pub started_at : Text
  pub ended_at : Text
  pub rules_version : Text
  pub rules_version_line : ℕ
  pub rules_version_lines : ℕ
  pub header_lines : ℕ
  pub footer_lines : ℕ

-- type RecordErrorCode
pub data RecordErrorCode : Type 0 where
  syntax_error missing_header illegal_move mismatch unfinished : RecordErrorCode
  unsupported_rules_version : RecordErrorCode

-- type SourceError without the wrapped error; no code for the empty RuleCode
pub record SourceError : Type 0 where
  pub code : RecordErrorCode
  pub line : ℕ
  pub source : Text
  pub move_number : ℤ
  pub rule_code : Option ErrorCode
  pub message : Message

-- type Frame
pub record Frame : Type 0 where
  pub turn_number : ℤ
  pub move_number : ℤ
  pub line : ℕ
  pub move : Option Move
  pub state : State
  pub event : Option Event

-- type Result. `first` is Frames[0], which ReplayWith always makes.
pub record Result : Type 0 where
  pub script : Script
  pub outline : Outline
  pub first : Frame
  pub later : List Frame
