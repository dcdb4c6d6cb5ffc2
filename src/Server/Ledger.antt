-- ===== src/Server/Ledger.antt =====
-- recordLedger, submitCommand and saveFinished of server/main.go: the moves of a room are kept, and
-- the finished game is written as a record, replayed and saved.
--
-- The lock of a record is held for a whole submit, so that a submit is one step. The time of the
-- end, the rule engine and the decoder are arguments.
pub mod Writing
pub mod Saving
pub mod Entering
pub mod Keeping
use mathlib.Core.Option
use nadesiko_reversi.Prelude.{
  ℕ, Bool, true, false, not, ◌&&◌, Option, none, some, List, [], ◌∷◌, ◌++◌, Text, length,
  if◌then◌else◌, test, is_some, ℕ_discrete,
}
use nadesiko_reversi.Prelude.Assoc.{Map, lookup, insert, delete}
use nadesiko_reversi.Prelude.Int.{ℤ}
use nadesiko_reversi.Protocol.Types.{
  Player, CommandType, place, pass, Command, Event, State, Response, contents, is_finished,
}
use nadesiko_reversi.Runtime.{RunError, Runner}
use nadesiko_reversi.Match.Room.{SubmitResult, responded, broken}
use nadesiko_reversi.Match.Manager.{Manager}
use nadesiko_reversi.Match.Manager
use nadesiko_reversi.Replay.Types.{Result}
use nadesiko_reversi.Replay.Store.{MemoryStore}
use nadesiko_reversi.Replay.Replayer.{ReplayError, Replayed, replayed, failed, final_state, replay}
use nadesiko_reversi.Replay.Encode.{
  EncodeError, Written, written, header_lines, rules_version_line, start_line, place_line,
  pass_line, end_line, board_totals,
}
use nadesiko_reversi.Replay.Encode
use nadesiko_reversi.Replay.Decode.{Decoder, decode}
use nadesiko_reversi.Replay.Service.{ServiceError, Answer, done, refused, save_result}

-- type acceptedMove
pub record AcceptedMove : Type 0 where
  pub command : Command
  pub event : Event

-- The errors of saveFinished.
pub data SaveError : Type 0 where
  no_winner incomplete_move unusable_command other_board : SaveError
  unwritable : EncodeError → SaveError
  not_replayed : ReplayError → SaveError
  not_saved : ServiceError → SaveError

-- type roomRecord; `ready` is whether the channel is closed
pub record RoomRecord : Type 0 where
  pub seed : ℕ
  pub started_at : Text
  pub moves : List AcceptedMove
  pub ready : Bool
  pub finished : Bool
  pub save_error : Option SaveError

-- func (l *recordLedger) seedFor, with the number that it draws and the time
unfoldable pub seed_for : Map RoomRecord → Text → ℕ → Text → Map RoomRecord × ℕ
seed_for l room_id seed now = (
  insert room_id
      (record {
        seed = seed;
        started_at = now;
        moves = [];
        ready = false;
        finished = false;
        save_error = none;
      })
      l,
  seed,
)

-- func (l *recordLedger) get
abbrev pub record_of : Map RoomRecord → Text → Option RoomRecord
record_of l room_id = lookup room_id l

-- func (l *recordLedger) discard
abbrev pub discard : Map RoomRecord → Text → Map RoomRecord
discard l room_id = delete room_id l

-- A value or an error of saveFinished.
pub data Made {ℓ} (A : Type ℓ) : Type ℓ where
  made : A → Made A
  broke : SaveError → Made A

-- `if err != nil { return err }`
infixl 5 ◌>>=◌
abbrev pub ◌>>=◌ {ℓ κ} : {A : Type ℓ} {B : Type κ} → Made A → (A → Made B) → Made B
made a >>= f = f a
broke e >>= f = broke e

abbrev pub of_written : Written → Made Text
of_written (written s) = made s
of_written (Encode.Written.unwritable e) = broke (unwritable e)

-- saveFinished, the line of a placement
unfoldable pub placement_line : Player → Option ℤ → Option ℤ → Option ℕ → ℕ → Made Text
unfolding place_line
placement_line player (some row) (some col) (some color) changed =
    of_written (place_line player row col color changed)
placement_line player _ _ _ changed = broke incomplete_move

-- saveFinished, the line of a move
unfoldable pub move_line : CommandType → AcceptedMove → Made Text
unfolding placement_line pass_line
move_line place m =
    placement_line m.command.player m.command.row m.command.col m.event.placed_color
      (length (contents m.event.changes))
move_line pass m = of_written (pass_line m.command.player)
move_line (CommandType.other t) m = broke unusable_command

-- the loop of saveFinished over the moves
unfoldable pub move_lines : List AcceptedMove → Made (List Text)
unfolding move_line
move_lines [] = made []
move_lines (m ∷ ms) =
    let rest = move_lines ms in
    move_line m.command.type m >>= λ line. rest >>= λ ls. made (line ∷ ls)

-- `strings.Join(lines, "\n")`
unfoldable pub join_lines : List Text → Text
join_lines [] = []
join_lines (line ∷ []) = line
join_lines (line ∷ next ∷ ls) = line ++ (10 ∷ join_lines (next ∷ ls))

-- saveFinished, the lines up to the moves
abbrev pub first_lines : RoomRecord → Text → Text → List Text
first_lines r ended_at start =
    header_lines r.started_at ended_at ++ ([] ∷ rules_version_line ∷ start ∷ [] ∷ [])

-- saveFinished, the text of the record
unfoldable pub record_text : Text → RoomRecord → Player → State → Text → Made Text
unfolding start_line move_lines end_line board_totals join_lines
record_text room_id r winner final ended_at =
    let totals : ℕ × ℕ = board_totals final.board in
    of_written (start_line room_id r.seed) >>= λ start. move_lines r.moves >>= λ ls.
    of_written (end_line winner (length r.moves) totals.0 totals.1) >>= λ last.
    made (join_lines (first_lines r ended_at start ++ (ls ++ ([] ∷ last ∷ [] ∷ []))))

unfoldable pub state_dec : Discrete State
unfolding ℕ_discrete
state_dec = hlevel ℕ_discrete

-- `reflect.DeepEqual` on states
abbrev pub state_eq : State → State → Bool
state_eq a b = test (state_dec a b)

abbrev pub saved_as : MemoryStore × Answer Text → MemoryStore × Option SaveError
saved_as (s, done text) = (s, none)
saved_as (s, refused e) = (s, some (not_saved e))

-- saveFinished, from the replay on
unfoldable pub save_replay : MemoryStore → State → Replayed → MemoryStore × Option SaveError
unfolding save_result
save_replay s final (failed e) = (s, some (not_replayed e))
save_replay s final (replayed r) =
    if not (state_eq (final_state r) final)
    then (s, some other_board)
    else saved_as (save_result s r)

-- saveFinished, from the text on
unfoldable pub save_text :
    Decoder → MemoryStore → State → Made Text → MemoryStore × Option SaveError
unfolding save_replay replay decode
save_text d s final (broke e) = (s, some e)
save_text d s final (made text) = save_replay s final (replay text (decode d text))

-- saveFinished, by the winner
unfoldable pub save_won :
    Decoder
    → MemoryStore
    → Text
    → RoomRecord
    → State
    → Text
    → Option Player
    → MemoryStore × Option SaveError
unfolding save_text record_text
save_won d s room_id r final ended_at none = (s, some no_winner)
save_won d s room_id r final ended_at (some winner) =
    save_text d s final (record_text room_id r winner final ended_at)

-- func (a *demoApp) saveFinished
unfoldable pub save_finished :
    Decoder → MemoryStore → Text → RoomRecord → State → Text → MemoryStore × Option SaveError
unfolding save_won
save_finished d s room_id r final ended_at = save_won d s room_id r final ended_at final.winner

-- What submitCommand changes: the rooms, the store and the record of the room.
pub record Desk : Type 0 where
  pub matches : Manager
  pub store : MemoryStore
  pub room : RoomRecord

-- What submitCommand returns: a response, or the engine's error, or its own for a response without
-- an event or a state.
pub data Submitted : Type 0 where
  answered : Response → Submitted
  engine_failed : RunError → Submitted
  incomplete : Submitted

-- submitCommand, the end of the game
unfoldable pub finish : Decoder → Text → Desk → Text → State → Desk
unfolding save_finished
finish d room_id k ended_at final =
    let saved : MemoryStore × Option SaveError =
      save_finished d k.store room_id (record k.room { finished = true }) final ended_at in
    record k {
      store = saved.0;
      room = record k.room { finished = true; save_error = saved.1; ready = true };
    }

-- submitCommand, for an accepted command
unfoldable pub keep_move :
    Decoder
    → Text
    → Desk
    → Text
    → Command
    → Response
    → Option Event
    → Option State
    → Desk × Submitted
unfolding finish
keep_move d room_id k ended_at command response (some event) (some state) =
    let kept : Desk = record k {
      room = record k.room {
        moves = k.room.moves ++ record { command = command; event = event } ∷ [];
      };
    } in
    (
      if is_finished state.phase && not k.room.finished
          then finish d room_id kept ended_at state
          else kept,
      answered response,
    )
keep_move d room_id k ended_at command response _ _ = (k, incomplete)

-- submitCommand, from what Submit returns on
unfoldable pub after_submit :
    Decoder → Text → Desk → Text → Command → SubmitResult → Desk × Submitted
unfolding keep_move
after_submit d room_id k ended_at command (broken e) = (k, engine_failed e)
after_submit d room_id k ended_at command (responded response) =
    if not response.ok
    then (k, answered response)
    else keep_move d room_id k ended_at command response response.event response.state

-- func (a *demoApp) submitCommand, for a room that has a record
unfoldable pub submit_command :
    Runner → Decoder → Desk → Text → Text → Text → Command → Desk × Submitted
unfolding after_submit
submit_command runner d k ended_at room_id player_id command =
    let (matches, result) = Manager.submit runner k.matches room_id player_id command in
    after_submit d room_id (record k { matches = matches }) ended_at command result
