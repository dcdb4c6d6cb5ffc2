-- ===== src/Replay/Service.antt =====
-- service.go of server/internal/replay: saving, finding and replaying records.
--
-- The store is the memory store. The context of a call is left out: the store's calls end with its
-- error when it is cancelled, the run's outcome is the decoder's.
pub mod Saves
use mathlib.Core.Option
use nadesiko_reversi.Prelude.{ℕ, Option, none, some, List, Text}
use nadesiko_reversi.Prelude.Int.{ℤ}
use nadesiko_reversi.Replay.Types.{GameRecord, Summary, Result}
use nadesiko_reversi.Replay.Store.{
  Entry, MemoryStore, StoreError, save, list, Found, entry, get, random,
}
use nadesiko_reversi.Replay.Store
use nadesiko_reversi.Replay.Replayer.{
  ReplayError, Replayed, replayed, failed, result_record, replay, replay_until,
}
use nadesiko_reversi.Replay.Encode.{EncodeError, Written, written, unwritable, encode_result}
use nadesiko_reversi.Replay.Decode.{Decoder, decode}

-- The errors of the service: those of its parts.
pub data ServiceError : Type 0 where
  of_store : StoreError → ServiceError
  of_replay : ReplayError → ServiceError
  of_record : EncodeError → ServiceError

-- A value or an error.
pub data Answer {ℓ} (A : Type ℓ) : Type ℓ where
  done : A → Answer A
  refused : ServiceError → Answer A

-- `if err := s.store.Save(ctx, entry); err != nil { return …, err }`
abbrev pub after_save {ℓ} :
    {A : Type ℓ} → MemoryStore × Option StoreError → A → MemoryStore × Answer A
after_save (s, none) a = (s, done a)
after_save (s, some e) a = (s, refused (of_store e))

-- SaveSource, from the replay on
unfoldable pub save_replayed : MemoryStore → Text → Replayed → MemoryStore × Answer GameRecord
unfolding save result_record
save_replayed s source (failed e) = (s, refused (of_replay e))
save_replayed s source (replayed r) =
    after_save (save s (record { game = result_record r; source = source })) (result_record r)

-- func (s *Service) SaveSource
unfoldable pub save_source : Decoder → MemoryStore → Text → MemoryStore × Answer GameRecord
unfolding save_replayed replay decode
save_source d s source = save_replayed s source (replay source (decode d source))

-- SaveResult, from the encoding on
unfoldable pub save_written : MemoryStore → Result → Written → MemoryStore × Answer Text
unfolding save result_record
save_written s r (unwritable e) = (s, refused (of_record e))
save_written s r (written source) =
    after_save (save s (record { game = result_record r; source = source })) source

-- func (s *Service) SaveResult, of a result that is no nil
unfoldable pub save_result : MemoryStore → Result → MemoryStore × Answer Text
unfolding save_written encode_result
save_result s r = save_written s r (encode_result (some r))

-- func (s *Service) List
abbrev pub summaries : MemoryStore → List Summary
summaries s = list s

abbrev pub game_of : Found → Answer GameRecord
game_of (entry e) = done e.game
game_of (Found.failed e) = refused (of_store e)

abbrev pub text_of : Found → Answer Text
text_of (entry e) = done e.source
text_of (Found.failed e) = refused (of_store e)

-- func (s *Service) Get
unfoldable pub game : MemoryStore → Text → Answer GameRecord
unfolding get
game s id = game_of (get s id)

-- func (s *Service) Random, with the generator of the store
unfoldable pub random_game : (ℕ → ℕ) → MemoryStore → Option (Answer GameRecord)
unfolding random
random_game intn s = Option.map game_of (random intn s)

-- func (s *Service) Source
unfoldable pub source : MemoryStore → Text → Answer Text
unfolding get
source s id = text_of (get s id)

abbrev pub answer_of : Replayed → Answer Result
answer_of (replayed r) = done r
answer_of (failed e) = refused (of_replay e)

-- Replay and ReplayUntil, for what Source answers
unfoldable pub replay_source : (Text → Replayed) → Answer Text → Answer Result
replay_source run (refused e) = refused e
replay_source run (done text) = answer_of (run text)

-- func (s *Service) Replay
unfoldable pub replay_game : Decoder → MemoryStore → Text → Answer Result
unfolding replay_source source replay decode
replay_game d s id = replay_source (λ text. replay text (decode d text)) (source s id)

-- func (s *Service) ReplayUntil
unfoldable pub replay_game_until : Decoder → MemoryStore → Text → ℤ → Answer Result
unfolding replay_source source replay_until decode
replay_game_until d s id n =
    replay_source (λ text. replay_until text (decode d text) n) (source s id)
