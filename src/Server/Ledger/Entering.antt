-- ===== src/Server/Ledger/Entering.antt =====
-- What submitCommand does to the record of a room and to the store with an accepted command.
use mathlib.Core.List.{append-nil}
use nadesiko_reversi.Prelude.{
  ◌≡◌, sym, refl, Bool, true, false, not, ◌&&◌, List, [], ◌∷◌, ◌++◌, Text, arith, if◌then◌else◌,
  if_cases,
}
use nadesiko_reversi.Protocol.Types.{Command, Event, State, is_finished}
use nadesiko_reversi.Replay.Decode.{Decoder}
use nadesiko_reversi.Server.Ledger.{AcceptedMove, Desk, finish}
use nadesiko_reversi.Server.Ledger.Saving.{Outcome, save_finished-Outcome}

-- The record of the room and the store are as they were.
abbrev pub Untouched : Desk → Desk → Type 0
Untouched k k' = (k'.room ≡ k.room) × (k'.store ≡ k.store)

-- The moves of a room with one more.
abbrev pub one_more : Desk → Command → Event → List AcceptedMove
one_more k command event = k.room.moves ++ record { command = command; event = event } ∷ []

-- What an accepted command, with its event and the new state, does: it is added to the moves, and if
-- it ends the game, the game with all moves is finished, saved with the outcome of saveFinished, and
-- signalled.
pub record Enters (d : Decoder) (room_id ended_at : Text) (k : Desk) (command : Command)
    (event : Event) (state : State) (k' : Desk) : Type 0 where
  pub moved : k'.room.moves ≡ one_more k command event
  pub ended :
      is_finished state.phase ≡ true
      → k.room.finished ≡ false
      → (k'.room.finished ≡ true)
        × (k'.room.ready ≡ true)
        × Outcome d k.store room_id
            (record k.room { moves = one_more k command event; finished = true })
            state
            ended_at
            (k'.store, k'.room.save_error)
  pub goes_on :
      is_finished state.phase ≡ false
      → (k'.store ≡ k.store)
        × (k'.room.finished ≡ k.room.finished)
        × (k'.room.ready ≡ k.room.ready)
        × (k'.room.save_error ≡ k.room.save_error)

-- What a submit does in every case: moves are only added, a game that was finished stays as it was
-- saved, and the end is signalled exactly when the game is finished.
pub record Steady (k k' : Desk) : Type 0 where
  pub once :
      k.room.finished ≡ true
      → (k'.store ≡ k.store) × (k'.room.finished ≡ true) × (k'.room.save_error ≡ k.room.save_error)
  pub signalled : k.room.ready ≡ k.room.finished → k'.room.ready ≡ k'.room.finished
  pub grown : (more : List AcceptedMove) × (k'.room.moves ≡ k.room.moves ++ more)

pub untouched-Steady : (k : Desk) → Steady k k
untouched-Steady k = record {
  once = λ e. (refl, e, refl);
  signalled = λ e. e;
  grown = ([], sym (append-nil k.room.moves));
}

module _ (d : Decoder) (room_id ended_at : Text) (k : Desk) (command : Command) (event : Event)
    (state : State) where
  -- The desk after an accepted command.
  abbrev pub entered : Bool → Desk
  entered over =
      let kept : Desk = record k { room = record k.room { moves = one_more k command event } } in
      if over && not k.room.finished then finish d room_id kept ended_at state else kept

  pub entered-Enters :
      Enters d room_id ended_at k command event state (entered (is_finished state.phase))
  unfolding finish
  entered-Enters =
      if_cases (Enters d room_id ended_at k command event state)
        (is_finished state.phase && not k.room.finished) _ _
        (λ ends. record {
          moved = refl;
          ended = λ h g. (
            refl,
            refl,
            save_finished-Outcome d k.store room_id
                (record k.room { moves = one_more k command event; finished = true }) state
                ended_at,
          );
          goes_on = λ h. absurd (ground (arith, ends, h));
        })
        (λ goes. record {
          moved = refl;
          ended = λ h g. absurd (ground (arith, goes, h, g));
          goes_on = λ h. (refl, refl, refl, refl);
        })

  pub entered-Steady : Steady k (entered (is_finished state.phase))
  unfolding finish
  entered-Steady =
      if_cases (Steady k) (is_finished state.phase && not k.room.finished) _ _
        (λ ends. record {
          once = λ h. absurd (ground (arith, ends, h));
          signalled = λ _. refl;
          grown = (_, refl);
        })
        (λ goes. record { once = λ h. (refl, h, refl); signalled = λ e. e; grown = (_, refl) })
