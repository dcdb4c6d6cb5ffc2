-- ===== src/Replay/Store.antt =====
-- store.go of server/internal/replay: finished games, kept in memory in the order of their first
-- save. The mutex makes each call one step.
pub mod Order
pub mod Reads
use mathlib.Core.Option
use nadesiko_reversi.Prelude.{
  ℕ, Bool, true, false, Option, none, some, List, [], ◌∷◌, ◌++◌, Text, length, get_elem?, is_some,
  if◌then◌else◌,
}
use nadesiko_reversi.Prelude.Assoc.{Map, lookup, insert}
use nadesiko_reversi.Replay.Types.{GameRecord, Summary}
use nadesiko_reversi.Replay.Record.{clone_record, record_summary, game_id_valid}

-- type Entry
pub record Entry : Type 0 where
  pub game : GameRecord
  pub source : Text

-- func (e Entry) Clone
unfoldable pub clone_entry : Entry → Entry
clone_entry e = record e { game = clone_record e.game }

-- type MemoryStore; intn is an argument of random
pub record MemoryStore : Type 0 where
  pub entries : Map Entry
  pub order : List Text

-- func NewMemoryStore
abbrev pub new_store : MemoryStore
new_store = record { entries = []; order = [] }

-- The errors of the store: the error of ValidateGameID for the id, and NotFoundError.
pub data StoreError : Type 0 where
  bad_game_id : Text → StoreError
  not_found : Text → StoreError

-- func (s *MemoryStore) Save
unfoldable pub save : MemoryStore → Entry → MemoryStore × Option StoreError
save s entry =
    let id = entry.game.game_id in
    if game_id_valid id
    then (
      record {
        entries = insert id (clone_entry entry) s.entries;
        order = if is_some (lookup id s.entries) then s.order else s.order ++ id ∷ [];
      },
      none,
    )
    else (s, some (bad_game_id id))

-- one round of the loop of List
unfoldable pub summarise : Map Entry → List Text → List Summary
summarise entries [] = []
summarise entries (id ∷ ids) =
    let rest = summarise entries ids in
    elim (lookup id entries) [ none ↦ rest | some entry ↦ record_summary entry.game ∷ rest ]

-- func (s *MemoryStore) List
unfoldable pub list : MemoryStore → List Summary
unfolding summarise
list s = summarise s.entries s.order

-- What Get and Random return.
pub data Found : Type 0 where
  entry : Entry → Found
  failed : StoreError → Found

abbrev pub found_at : Text → Option Entry → Found
found_at id none = failed (not_found id)
found_at id (some e) = entry (clone_entry e)

-- func (s *MemoryStore) Get
unfoldable pub get : MemoryStore → Text → Found
get s id = found_at id (lookup id s.entries)

-- Random, by the id that was drawn; none for an index outside the order, which panics in Go
abbrev pub drawn : MemoryStore → Option Text → Option Found
drawn s none = none
drawn s (some id) = some (found_at id (lookup id s.entries))

-- Random, by the ids in the order
unfoldable pub random_among : (ℕ → ℕ) → MemoryStore → List Text → Option Found
random_among intn s [] = some (failed (not_found []))
random_among intn s (id ∷ ids) = drawn s (get_elem? s.order (intn (length s.order)))

-- func (s *MemoryStore) Random, with the generator intn
unfoldable pub random : (ℕ → ℕ) → MemoryStore → Option Found
unfolding random_among
random intn s = random_among intn s s.order

-- func (s *MemoryStore) Len
abbrev pub len : MemoryStore → ℕ
len s = length s.order
