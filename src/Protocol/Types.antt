-- ===== src/Protocol/Types.antt =====
-- The types of server/internal/protocol/protocol.go and errors.go.
--
-- A Go string type with listed constants is a data type of those constants and `other`, which
-- holds any text that is none of them. A pointer is an `Option`. A slice is `nil` or its elements,
-- since `Clone` and `DeepEqual` tell a nil slice from an empty one.
use nadesiko_reversi.Prelude.{ℕ, String, Bool, Option, List, [], Text, codes, text_eq, true, false}
use nadesiko_reversi.Prelude.Int.{ℤ}

-- const Version
abbrev pub version : Text
version = codes "1"

-- const BoardSize, BoardCells
abbrev pub board_size : ℕ
board_size = 8

abbrev pub board_cells : ℕ
board_cells = 64

pub data Slice {ℓ} (A : Type ℓ) : Type ℓ where
  nil : Slice A
  elems : List A → Slice A

-- What `range` and `len` see of a slice.
abbrev pub contents {ℓ} : {A : Type ℓ} → Slice A → List A
contents nil = []
contents (elems xs) = xs

pub data Player : Type 0 where
  dark light : Player
  other : Text → Player

pub data Phase : Type 0 where
  playing finished : Phase
  other : Text → Phase

pub data Action : Type 0 where
  new_game apply_command : Action
  other : Text → Action

pub data CommandType : Type 0 where
  place pass : CommandType
  other : Text → CommandType

pub data EventType : Type 0 where
  placed passed : EventType
  other : Text → EventType

pub data ErrorCode : Type 0 where
  invalid_json unsupported_version invalid_request invalid_state : ErrorCode
  invalid_command invalid_coordinate occupied illegal_move : ErrorCode
  not_your_turn stale_turn pass_not_allowed game_finished : ErrorCode
  other : Text → ErrorCode

-- An argument of `fmt.Sprintf`.
pub data Arg : Type 0 where
  str : Text → Arg
  number : ℤ → Arg

-- A displayed message: its format and the values put into it. A message without arguments is its
-- own format.
pub record Message : Type 0 where
  pub format : String
  pub args : List Arg

pub record Error : Type 0 where
  pub code : ErrorCode
  pub message : Message

-- nil for an empty cell, or the colour of the piece, a uint8.
abbrev pub Cell : Type 0
Cell = Option ℕ

abbrev pub Board : Type 0
Board = Slice Cell

pub record Position : Type 0 where
  pub row : ℤ
  pub col : ℤ

pub record Command : Type 0 where
  pub command_id : Text
  pub type : CommandType
  pub player : Player
  pub expected_turn : ℤ
  pub row : Option ℤ
  pub col : Option ℤ

pub record State : Type 0 where
  pub version : Text
  pub game_id : Text
  pub board : Board
  pub turn_number : ℤ
  pub current_player : Player
  pub next_color : ℕ
  pub rng_state : ℕ
  pub consecutive_passes : ℤ
  pub phase : Phase
  pub winner : Option Player
  pub legal_moves : Slice Position

pub record Change : Type 0 where
  pub row : ℤ
  pub col : ℤ
  pub color : ℕ

pub record Event : Type 0 where
  pub command_id : Text
  pub type : EventType
  pub player : Player
  pub turn_number : ℤ
  pub row : Option ℤ
  pub col : Option ℤ
  pub placed_color : Option ℕ
  pub changes : Slice Change

pub record Request : Type 0 where
  pub version : Text
  pub action : Action
  pub game_id : Text
  pub seed : Option ℕ
  pub state : Option State
  pub command : Option Command

pub record Response : Type 0 where
  pub version : Text
  pub ok : Bool
  pub state : Option State
  pub event : Option Event
  pub error : Option Error

-- `==` on the string type Player.
abbrev pub player_eq : Player → Player → Bool
player_eq dark dark = true
player_eq light light = true
player_eq (Player.other a) (Player.other b) = text_eq a b
player_eq _ _ = false

-- `==` on the string type Phase.
abbrev pub is_finished : Phase → Bool
is_finished finished = true
is_finished _ = false

-- func (p Player) Opponent
unfoldable pub opponent : Player → Player
opponent dark = light
opponent _ = dark

-- func NewError, with a message that takes no arguments.
abbrev pub new_error : ErrorCode → String → Error
new_error code message = record { code = code; message = record { format = message; args = [] } }

-- func NewGameRequest
unfoldable pub new_game_request : Text → ℕ → Request
new_game_request game_id seed = record {
  version = version;
  action = new_game;
  game_id = game_id;
  seed = Option.some seed;
  state = Option.none;
  command = Option.none;
}

-- func ApplyCommandRequest
unfoldable pub apply_command_request : State → Command → Request
apply_command_request state command = record {
  version = version;
  action = apply_command;
  game_id = codes "";
  seed = Option.none;
  state = Option.some state;
  command = Option.some command;
}

-- func PlaceCommand
unfoldable pub place_command : Text → Player → ℤ → ℤ → ℤ → Command
place_command command_id player expected_turn row col = record {
  command_id = command_id;
  type = place;
  player = player;
  expected_turn = expected_turn;
  row = Option.some row;
  col = Option.some col;
}

-- func PassCommand
unfoldable pub pass_command : Text → Player → ℤ → Command
pass_command command_id player expected_turn = record {
  command_id = command_id;
  type = pass;
  player = player;
  expected_turn = expected_turn;
  row = Option.none;
  col = Option.none;
}
