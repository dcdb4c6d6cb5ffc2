-- ===== src/Protocol/Validate.antt =====
-- server/internal/protocol/validate.go. A result of none is Go's nil: nothing is wrong.
pub mod States
pub mod Commands
pub mod Requests
pub mod Copies
use nadesiko_reversi.Prelude.{
  String, Bool, true, false, not, ◌&&◌, ◌||◌, Option, none, some, List, [], ◌∷◌, all, length, Text,
  codes, text_eq, if◌then◌else◌, ltb, ◌==◌, is_some, ℕ,
}
use nadesiko_reversi.Prelude.Int.{ℤ, pos, ltb_ℤ}
use nadesiko_reversi.Protocol.Types.{
  version, board_cells, Slice, contents, Player, Phase, playing, finished, Action, new_game,
  apply_command, CommandType, place, pass, EventType, placed, passed, ErrorCode,
  unsupported_version, invalid_request, invalid_state, invalid_command, invalid_coordinate, Arg,
  str, number, Message, Error, Board, Position, Command, State, Change, Event, Request, Response,
  new_error,
}
use nadesiko_reversi.Protocol.Board.{in_bounds}
use nadesiko_reversi.Protocol.Codes.{player_valid, phase_valid, code_valid}
use text.Mathlib.Text.{◌==◌ as str_eq}

-- `return NewError(code, message)`
abbrev fail : ErrorCode → String → Option Error
fail code message = some (new_error code message)

-- `return NewError(code, fmt.Sprintf(format, args...))`
abbrev failf : ErrorCode → String → List Arg → Option Error
failf code format args =
    some (record { code = code; message = record { format = format; args = args } })

-- `if err := first; err != nil { return err }`, then the rest
abbrev pub or_else : Option Error → Option Error → Option Error
or_else (some e) rest = some e
or_else none rest = rest

-- func (b Board) Validate
unfoldable pub board_validate : Board → Option Error
board_validate b =
    if length (contents b) == board_cells
    then none
    else failf invalid_state "boardは%d要素である必要があります: %d"
        (number (pos board_cells) ∷ number (pos (length (contents b))) ∷ [])

-- the check of one legal move
abbrev pub move_in_bounds : Position → Bool
move_in_bounds move = in_bounds move.row move.col

-- the switch on the phase that ends State.Validate
unfoldable pub phase_validate : Phase → State → Option Error
phase_validate playing s =
    if is_some s.winner then fail invalid_state "playing中はwinnerがnullである必要があります" else none
phase_validate finished s = elim s.winner [
  | none ↦ fail invalid_state "finished時はwinnerが必要です"
  | some w ↦
      if not (player_valid w)
      then fail invalid_state "winnerが不正です"
      else if not (length (contents s.legal_moves) == 0)
      then fail invalid_state "finished時はlegalMovesが空である必要があります"
      else none
]
phase_validate (Phase.other _) s = none

-- func (s State) Validate
unfoldable pub state_validate : State → Option Error
unfolding phase_validate board_validate
state_validate s =
    if not (text_eq s.version version)
    then fail unsupported_version "対応していないバージョンです"
    else if text_eq s.game_id (codes "")
    then fail invalid_state "gameIdが必要です"
    else or_else (board_validate s.board) (
        if ltb_ℤ s.turn_number (pos 0)
        then fail invalid_state "turnNumberが負の値です"
        else if not (player_valid s.current_player)
        then fail invalid_state "currentPlayerが不正です"
        else if ltb_ℤ s.consecutive_passes (pos 0) || ltb_ℤ (pos 2) s.consecutive_passes
        then fail invalid_state "consecutivePassesが0〜2の外です"
        else if not (phase_valid s.phase)
        then fail invalid_state "phaseが不正です"
        else if not (all move_in_bounds (contents s.legal_moves))
        then fail invalid_state "legalMovesに盤外の座標があります"
        else phase_validate s.phase s)

-- the case of a placement
unfoldable pub place_validate : Option ℤ → Option ℤ → Option Error
place_validate (some row) (some col) =
    if not (in_bounds row col) then fail invalid_coordinate "座標が盤外です" else none
place_validate _ _ = fail invalid_command "placeにはrowとcolが必要です"

-- func (c Command) Validate
unfoldable pub command_validate : Command → Option Error
unfolding place_validate
command_validate c =
    if text_eq c.command_id (codes "")
    then fail invalid_command "commandIdが必要です"
    else if not (player_valid c.player)
    then fail invalid_command "playerが不正です"
    else if ltb_ℤ c.expected_turn (pos 0)
    then fail invalid_command "expectedTurnが負の値です"
    else elim c.type [
      | place ↦ place_validate c.row c.col
      | pass ↦
          if is_some c.row || is_some c.col then fail invalid_command "passはrowとcolを持てません" else none
      | CommandType.other t ↦ failf invalid_command "未対応のcommand typeです: %q" (str t ∷ [])
    ]

-- the case of applyCommand
unfoldable pub apply_validate : Option State → Option Command → Request → Option Error
apply_validate none c r = fail invalid_request "stateが必要です"
apply_validate (some s) none r = fail invalid_request "commandが必要です"
apply_validate (some s) (some c) r =
    if not (text_eq r.game_id (codes "")) || is_some r.seed
    then fail invalid_request "applyCommandはgameIdとseedを持てません"
    else or_else (state_validate s) (command_validate c)

-- the switch on the action
unfoldable pub action_validate : Action → Request → Option Error
unfolding apply_validate
action_validate new_game r =
    if text_eq r.game_id (codes "")
    then fail invalid_request "gameIdが必要です"
    else if not (is_some r.seed)
    then fail invalid_request "seedが必要です"
    else if is_some r.state || is_some r.command
    then fail invalid_request "newGameはstateとcommandを持てません"
    else none
action_validate apply_command r = apply_validate r.state r.command r
action_validate (Action.other a) r = failf invalid_request "未対応のactionです: %q" (str a ∷ [])

-- func (r Request) Validate
unfoldable pub request_validate : Request → Option Error
unfolding action_validate
request_validate r =
    if not (text_eq r.version version)
    then fail unsupported_version "対応していないバージョンです"
    else action_validate r.action r

-- the case of a placed event
unfoldable pub placed_validate : Option ℤ → Option ℤ → Event → Option Error
placed_validate (some row) (some col) e =
    if not (in_bounds row col)
    then fail invalid_coordinate "eventの座標が盤外です"
    else if not (is_some e.placed_color)
    then fail invalid_command "placed eventにはplacedColorが必要です"
    else if not (all (λ c. in_bounds c.row c.col) (contents e.changes))
    then fail invalid_coordinate "changesに盤外の座標があります"
    else none
placed_validate _ _ e = fail invalid_command "placed eventにはrowとcolが必要です"

-- func (e Event) Validate
unfoldable pub event_validate : Event → Option Error
unfolding placed_validate
event_validate e =
    if text_eq e.command_id (codes "")
    then fail invalid_command "eventにcommandIdが必要です"
    else if not (player_valid e.player)
    then fail invalid_command "eventのplayerが不正です"
    else if ltb_ℤ e.turn_number (pos 1)
    then fail invalid_command "eventのturnNumberは1以上である必要があります"
    else elim e.type [
      | placed ↦ placed_validate e.row e.col e
      | passed ↦
          if is_some e.row
            || is_some e.col
            || is_some e.placed_color
            || ltb 0 (length (contents e.changes))
          then fail invalid_command "passed eventは着手情報を持てません"
          else none
      | EventType.other t ↦ failf invalid_command "未対応のevent typeです: %q" (str t ∷ [])
    ]

-- `string(code)`, where it is none of the constants
abbrev code_arg : ErrorCode → Arg
code_arg (ErrorCode.other t) = str t
code_arg _ = str (codes "")

-- The message of an Error is empty.
abbrev pub message_empty : Message → Bool
message_empty m = str_eq m.format ""

abbrev opt_event_validate : Option Event → Option Error
opt_event_validate none = none
opt_event_validate (some e) = event_validate e

abbrev opt_state_validate : Option State → Option Error
opt_state_validate none = none
opt_state_validate (some s) = state_validate s

-- the branch of a response with ok
unfoldable pub success_validate : Response → Option Error
success_validate r =
    if is_some r.error then fail invalid_request "成功応答はerrorを持てません" else elim r.state [
      | none ↦ fail invalid_state "成功応答にはstateが必要です"
      | some s ↦ or_else (state_validate s) (opt_event_validate r.event)
    ]

-- the branch of a response without ok
unfoldable pub rejection_validate : Response → Option Error
rejection_validate r = elim r.error [
  | none ↦ fail invalid_request "拒否応答にはerrorが必要です"
  | some e ↦
      if not (code_valid e.code)
      then failf invalid_request "未知のerror codeです: %q" (code_arg e.code ∷ [])
      else if message_empty e.message
      then fail invalid_request "errorにmessageが必要です"
      else if is_some r.event
      then fail invalid_request "拒否応答はeventを持てません"
      else opt_state_validate r.state
]

-- func (r Response) Validate
unfoldable pub response_validate : Response → Option Error
unfolding success_validate rejection_validate
response_validate r =
    if not (text_eq r.version version)
    then fail unsupported_version "対応していないバージョンです"
    else if r.ok
    then success_validate r
    else rejection_validate r
