-- ===== src/Server/Ledger/Saving.antt =====
-- What saveFinished saves.
use nadesiko_reversi.Prelude.{
  ◌≡◌, ◌∙◌, sym, ap, refl, not, Option, none, some, Text, test, arith, if◌then◌else◌,
}
use nadesiko_reversi.Protocol.Types.{Player, State}
use nadesiko_reversi.Replay.Types.{Result}
use nadesiko_reversi.Replay.Store.{Entry, MemoryStore, StoreError, save}
use nadesiko_reversi.Replay.Replayer.{Replayed, replayed, failed, final_state, replay}
use nadesiko_reversi.Replay.Encode.{Written, written, encode_result}
use nadesiko_reversi.Replay.Encode
use nadesiko_reversi.Replay.Decode.{Decoder, decode}
use nadesiko_reversi.Replay.Service.{
  ServiceError, Answer, done, refused, after_save, save_written, save_result,
}
use nadesiko_reversi.Server.Ledger.{
  SaveError, other_board, RoomRecord, Made, made, broke, record_text, state_dec, saved_as,
  save_replay, save_text, save_won, save_finished,
}

save-failed :
    (s : MemoryStore) (e : Entry) (err : StoreError) → (save s e).1 ≡ some err → (save s e).0 ≡ s
unfolding save
save-failed s e err h = ground (arith, h)

after_save-refused :
    {A : Type 0} (s : MemoryStore) (x : MemoryStore × Option StoreError) (a : A)
    (err : ServiceError)
    → ((e : StoreError) → x.1 ≡ some e → x.0 ≡ s)
    → (after_save x a).1 ≡ refused err
    → (after_save x a).0 ≡ s
after_save-refused s (t, none) a err v h = absurd cc
after_save-refused s (t, some e) a err v h = v e refl

save_written-refused :
    (s : MemoryStore) (g : Result) (x : Written) (err : ServiceError)
    → (save_written s g x).1 ≡ refused err
    → (save_written s g x).0 ≡ s
unfolding save_written
save_written-refused s g (written text) err h = after_save-refused s _ _ err (save-failed s _) h
save_written-refused s g (Encode.Written.unwritable e) err h = refl

-- A failing SaveResult leaves the store as it was.
save_result-refused :
    (s : MemoryStore) (g : Result) (err : ServiceError)
    → (save_result s g).1 ≡ refused err
    → (save_result s g).0 ≡ s
unfolding save_result
save_result-refused s g err h = save_written-refused s g (encode_result (some g)) err h

-- What a saved game has gone through.
pub record Saves (d : Decoder) (s : MemoryStore) (room_id : Text) (r : RoomRecord) (final : State)
    (ended_at : Text) (after : MemoryStore) : Type 0 where
  pub winner : Player
  pub text : Text
  pub game : Result
  pub stored : Text
  pub won : final.winner ≡ some winner
  pub text_is : record_text room_id r winner final ended_at ≡ made text
  pub replays : replay text (decode d text) ≡ replayed game
  pub same_end : final_state game ≡ final
  pub saved : save_result s game ≡ (after, done stored)

-- The outcome of saveFinished: a saved game, or the store as it was.
abbrev pub Outcome :
    Decoder
    → MemoryStore
    → Text
    → RoomRecord
    → State
    → Text
    → MemoryStore × Option SaveError
    → Type 0
Outcome d s room_id r final ended_at (after, none) = Saves d s room_id r final ended_at after
Outcome d s room_id r final ended_at (after, some e) = after ≡ s

module _ (d : Decoder) (s : MemoryStore) (room_id : Text) (r : RoomRecord) (final : State)
    (ended_at : Text) where
  saved_as-Outcome :
      (winner : Player) (text : Text) (g : Result) (x : MemoryStore × Answer Text)
      → final.winner ≡ some winner
      → record_text room_id r winner final ended_at ≡ made text
      → replay text (decode d text) ≡ replayed g
      → final_state g ≡ final
      → save_result s g ≡ x
      → Outcome d s room_id r final ended_at (saved_as x)
  saved_as-Outcome winner text g (after, done stored) won wrote played same h = record {
    winner = winner;
    text = text;
    game = g;
    stored = stored;
    won = won;
    text_is = wrote;
    replays = played;
    same_end = same;
    saved = h;
  }
  saved_as-Outcome winner text g (after, refused e) won wrote played same h =
      sym (ap (λ (x : MemoryStore × Answer Text). x.0) h)
      ∙ save_result-refused s g e (ap (λ (x : MemoryStore × Answer Text). x.1) h)

  save_replay-Outcome :
      (winner : Player) (text : Text) (x : Replayed)
      → final.winner ≡ some winner
      → record_text room_id r winner final ended_at ≡ made text
      → replay text (decode d text) ≡ x
      → Outcome d s room_id r final ended_at (save_replay s final x)
  unfolding save_replay
  save_replay-Outcome winner text (failed e) won wrote played = refl
  save_replay-Outcome winner text (replayed g) won wrote played =
      elim (state_dec (final_state g) final)
        as (λ t.
          Outcome d s room_id r final ended_at
            (if not (test t) then (s, some other_board) else saved_as (save_result s g))) [
              | yes same ↦
                  saved_as-Outcome winner text g (save_result s g) won wrote played same refl
              | no apart ↦ refl
            ]

  save_text-Outcome :
      (winner : Player) (x : Made Text)
      → final.winner ≡ some winner
      → record_text room_id r winner final ended_at ≡ x
      → Outcome d s room_id r final ended_at (save_text d s final x)
  unfolding save_text
  save_text-Outcome winner (broke e) won wrote = refl
  save_text-Outcome winner (made text) won wrote = save_replay-Outcome winner text _ won wrote refl

  save_won-Outcome :
      (o : Option Player)
      → final.winner ≡ o
      → Outcome d s room_id r final ended_at (save_won d s room_id r final ended_at o)
  unfolding save_won
  save_won-Outcome none won = refl
  save_won-Outcome (some winner) won = save_text-Outcome winner _ won refl

  -- saveFinished saves a game only when the record of the room can be written, replays to its end, and ends in exactly the final state of the match. In every other case it leaves the store as it was.
  pub save_finished-Outcome :
      Outcome d s room_id r final ended_at (save_finished d s room_id r final ended_at)
  unfolding save_finished
  save_finished-Outcome = save_won-Outcome final.winner refl
