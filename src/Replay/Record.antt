-- ===== src/Replay/Record.antt =====
-- record.go of server/internal/replay, and ValidateGameID of encode.go.
pub mod Moves
use nadesiko_reversi.Prelude.{
  ℕ, String, Bool, true, false, not, ◌&&◌, ◌||◌, Option, none, some, List, [], ◌∷◌, ◌++◌, map, all,
  length, Text, codes, leb, ◌==◌, is_some, if◌then◌else◌,
}
use nadesiko_reversi.Prelude.Int.{ℤ, pos, ◌+ℤ◌, eq_ℤ}
use nadesiko_reversi.Prelude.Decimal.{int_text}
use nadesiko_reversi.Protocol.Types.{
  version, Player, CommandType, place, pass, Command, Error, Arg, str, invalid_command,
  invalid_coordinate, new_error,
}
use nadesiko_reversi.Protocol.Board.{in_bounds}
use nadesiko_reversi.Protocol.Codes.{player_valid}
use nadesiko_reversi.Protocol.Clone.{clone_state}
use nadesiko_reversi.Replay.Types.{rules_version, Move, Script, GameRecord, Summary}

-- func PlaceMove
unfoldable pub place_move : Player → ℤ → ℤ → Move
place_move player row col = record { player = player; type = place; row = some row; col = some col }

-- func PassMove
unfoldable pub pass_move : Player → Move
pass_move player = record { player = player; type = pass; row = none; col = none }

-- Move.Validate, the case of a placement
unfoldable pub placement_validate : Option ℤ → Option ℤ → Option Error
placement_validate (some row) (some col) =
    if not (in_bounds row col) then some (new_error invalid_coordinate "座標が盤外です") else none
placement_validate _ _ = some (new_error invalid_command "着手にはrowとcolが必要です")

-- Move.Validate, the switch on the type
unfoldable pub type_validate : CommandType → Move → Option Error
unfolding placement_validate
type_validate place m = placement_validate m.row m.col
type_validate pass m =
    if is_some m.row || is_some m.col
    then some (new_error invalid_command "パスはrowとcolを持てません")
    else none
type_validate (CommandType.other t) m = some (record {
  code = invalid_command;
  message = record { format = "未対応の指し手です: %q"; args = str t ∷ [] };
})

-- func (m Move) Validate
unfoldable pub move_validate : Move → Option Error
unfolding type_validate
move_validate m =
    if not (player_valid m.player)
    then some (new_error invalid_command "playerが不正です")
    else type_validate m.type m

-- the coordinates that a placement with both of them has, and no other command
abbrev pub coordinates : CommandType → Option ℤ → Option ℤ → Option ℤ × Option ℤ
coordinates place (some row) (some col) = (some row, some col)
coordinates _ _ _ = (none, none)

-- func (m Move) Command
unfoldable pub move_command : Move → ℤ → Command
move_command m turn_number = record {
  command_id = codes "replay-" ++ int_text (turn_number +ℤ pos 1);
  type = m.type;
  player = m.player;
  expected_turn = turn_number;
  row = (coordinates m.type m.row m.col).0;
  col = (coordinates m.type m.row m.col).1;
}

-- func MoveFromCommand
unfoldable pub move_from_command : Command → Move
move_from_command c = record {
  player = c.player;
  type = c.type;
  row = (coordinates c.type c.row c.col).0;
  col = (coordinates c.type c.row c.col).1;
}

-- func (s Script) Finished
abbrev pub is_complete : Script → Bool
is_complete s = eq_ℤ s.footer_count (pos 1)

-- func (r Record) Script; the fields that it does not set have Go's zero values
unfoldable pub record_script : GameRecord → Script
unfolding move_from_command
record_script r = record {
  version = version;
  game_id = r.game_id;
  seed = r.seed;
  winner = r.winner;
  moves = map move_from_command r.commands;
  header_count = pos 0;
  footer_count = pos 0;
  rules_version = rules_version;
  version_count = pos 0;
  ok = false;
  failure = none;
  frames = [];
  started_at = r.started_at;
  ended_at = r.ended_at;
}

-- func (r Record) Summary
unfoldable pub record_summary : GameRecord → Summary
record_summary r = record {
  game_id = r.game_id;
  seed = r.seed;
  winner = r.winner;
  move_count = length r.commands;
  started_at = r.started_at;
  ended_at = r.ended_at;
}

-- func (r Record) Clone
unfoldable pub clone_record : GameRecord → GameRecord
clone_record r = record r { final_state = clone_state r.final_state }

-- [A-Za-z0-9_-]
abbrev pub is_id_char : ℕ → Bool
is_id_char c =
    leb 65 c && leb c 90 || leb 97 c && leb c 122 || leb 48 c && leb c 57 || c == 95 || c == 45

-- func ValidateGameID; whether it returns nil
unfoldable pub game_id_valid : Text → Bool
game_id_valid id = all is_id_char id && leb 1 (length id) && leb (length id) 64
