-- ===== src/Tests/Records.antt =====
-- Records, on concrete values: a game of one move.
use nadesiko_reversi.Prelude.{
  ℕ, suc, ◌≡◌, ◌≢◌, ◌<◌, refl, true, none, some, List, [], ◌∷◌, length, Text, codes, text_dec,
  get_elem?,
}
use nadesiko_reversi.Prelude.Assoc.{lookup}
use nadesiko_reversi.Prelude.Int.{pos}
use nadesiko_reversi.Protocol.Types.{version, dark, light}
use nadesiko_reversi.Protocol.Board.{in_bounds}
use nadesiko_reversi.Protocol.Codes.{player_valid}
use nadesiko_reversi.Protocol.Clone.{clone_state, clone_event}
use nadesiko_reversi.Protocol.Validate.{command_validate}
use nadesiko_reversi.Replay.Types.{
  rules_version, Move, ScriptFrame, Script, MoveLine, Outline, Result, GameRecord, Frame,
}
use nadesiko_reversi.Replay.Record.{place_move, move_validate, game_id_valid}
use nadesiko_reversi.Replay.Store.{Entry, MemoryStore, new_store, save}
use nadesiko_reversi.Replay.Store.Order.{IsKept, here, next, Saved-IsKept}
use nadesiko_reversi.Replay.Replayer.{
  decoded, frame_of, replayed, replay, replay_with, whole_game, verify_finished, last_state,
}
use nadesiko_reversi.Replay.Replayer.Checks.{
  Shown, IsFrame, IsFinished, replay-IsFinished, replay_with-frames,
}
use nadesiko_reversi.Tests.Values.{opening, ending, placing, placement}

abbrev pub move : Move
move = place_move dark (pos 2) (pos 3)

move-valid : move_validate move ≡ none
unfolding move_validate place_move player_valid in_bounds
move-valid = refl

placing-valid : command_validate placing ≡ none
unfolding command_validate player_valid in_bounds text_dec
placing-valid = refl

abbrev turn : ℕ
turn = 12

abbrev pub game : GameRecord
game = record {
  version = version;
  rules_version = rules_version;
  game_id = codes "game-1";
  seed = 7;
  started_at = [];
  ended_at = [];
  winner = light;
  commands = placing ∷ [];
  final_state = ending;
}

abbrev pub stored : Entry
stored = record { game = game; source = codes "pass" }

abbrev pub shelf : MemoryStore
shelf = (save new_store stored).0

shelf-IsKept : IsKept shelf
shelf-IsKept = Saved-IsKept (next stored here)

Saved-IsKept_example : IsKept (save shelf stored).0
Saved-IsKept_example = Saved-IsKept (next stored (next stored here))

stored-valid : game_id_valid stored.game.game_id ≡ true
unfolding game_id_valid
stored-valid = refl

abbrev first_of : ℕ → ℕ
first_of n = 0

one_not_none : (id : Text) (ids : List Text) → id ∷ ids ≢ []
one_not_none id ids e = cc

shelf-filled : shelf.order ≢ []
unfolding save game_id_valid lookup
shelf-filled = one_not_none (codes "game-1") []

abbrev line : MoveLine
line = record { number = 1; line = 5; text = codes "2"; annotated = true; color = 90; changed = 1 }

abbrev pub outline : Outline
outline = record {
  move_lines = line ∷ [];
  started_at = [];
  ended_at = [];
  rules_version = rules_version;
  rules_version_line = 3;
  rules_version_lines = 1;
  header_lines = 1;
  footer_lines = 1;
}

abbrev before : ScriptFrame
before = record { turn_number = pos 0; move_number = pos 0; state = opening; event = none }

abbrev pub after : ScriptFrame
after = record { turn_number = pos 1; move_number = pos 1; state = ending; event = some placement }

abbrev pub script : Script
script = record {
  version = version;
  game_id = codes "game-1";
  seed = 7;
  winner = light;
  moves = move ∷ [];
  header_count = pos 1;
  footer_count = pos 1;
  rules_version = rules_version;
  version_count = pos 1;
  ok = true;
  failure = none;
  frames = before ∷ after ∷ [];
  started_at = [];
  ended_at = [];
}

abbrev pub result : Result
result = record {
  script = script;
  outline = outline;
  first = record {
    turn_number = pos 0;
    move_number = pos 0;
    line = 0;
    move = none;
    state = clone_state opening;
    event = none;
  };
  later = frame_of outline 0 move after ∷ [];
}

whole : replay_with [] (decoded script outline) whole_game ≡ replayed result
unfolding replay_with verify_finished clone_state clone_event last_state
whole = refl

run : replay [] (decoded script outline) ≡ replayed result
unfolding replay replay_with verify_finished clone_state clone_event last_state
run = refl

replay-IsFinished_example :
    (result.script ≡ script) × (length result.later ≡ length script.moves) × IsFinished result
replay-IsFinished_example = replay-IsFinished [] script outline result run

replay_with-frames_example :
    Shown whole_game.until (length script.moves) (length result.later)
    × ((i : ℕ) (m : Move) (s : ScriptFrame)
        → i < length result.later
        → get_elem? script.moves i ≡ some m
        → get_elem? script.frames (suc i) ≡ some s
        → (f : Frame) × (get_elem? result.later i ≡ some f) × IsFrame outline i m s f)
replay_with-frames_example = replay_with-frames [] script outline whole_game result whole
