-- ===== src/Replay/Store/Order.antt =====
-- The store's two fields agree: the order names each stored game once, and no other.
use nadesiko_reversi.Prelude.{
  ℕ, ◌+◌, ◌≡◌, sym, refl, subst, Option, none, some, List, [], ◌∷◌, ◌++◌, Text, text_eq, is_some,
  arith, if◌then◌else◌, if_cases,
}
use nadesiko_reversi.Prelude.Assoc.{lookup, lookup-insert}
use nadesiko_reversi.Replay.Record.{game_id_valid, clone_record}
use nadesiko_reversi.Replay.Store.{Entry, clone_entry, MemoryStore, new_store, StoreError, save}

-- How often a text stands in a list.
unfoldable pub count : Text → List Text → ℕ
count id [] = 0
count id (x ∷ xs) = (if text_eq id x then 1 else 0) + count id xs

-- The id that an entry is stored under is its own.
abbrev pub Named : Text → Option Entry → Type 0
Named id none = Unit
Named id (some e) = e.game.game_id ≡ id

-- Each stored game stands once in the order, under its own id, and no other id does.
pub record IsKept (s : MemoryStore) : Type 0 where
  pub once : (id : Text) → count id s.order ≡ (if is_some (lookup id s.entries) then 1 else 0)
  pub named : (id : Text) → Named id (lookup id s.entries)

count-append :
    (id last : Text) (xs : List Text)
    → count id (xs ++ last ∷ []) ≡ count id xs + (if text_eq id last then 1 else 0)
unfolding count
count-append id last [] = omega arith
count-append id last (x ∷ xs) = omega (arith, count-append id last xs)

pub new_store-IsKept : IsKept new_store
unfolding count lookup
new_store-IsKept = record { once = λ id. refl; named = λ id. tt }

save-once :
    (s : MemoryStore) (e : Entry) (id : Text)
    → IsKept s
    → count id (save s e).0.order ≡ (if is_some (lookup id (save s e).0.entries) then 1 else 0)
unfolding save
save-once s e id v = ground (
  arith,
  v.once id,
  lookup-insert e.game.game_id id (clone_entry e) s.entries,
  count-append id e.game.game_id s.order,
)

save-Named :
    (s : MemoryStore) (e : Entry) (id : Text) → IsKept s → Named id (lookup id (save s e).0.entries)
unfolding save clone_entry clone_record
save-Named s e id v =
    if_cases (λ (x : MemoryStore × Option StoreError). Named id (lookup id x.0.entries))
      (game_id_valid e.game.game_id) _ _
      (λ ok. subst (Named id) (sym (lookup-insert e.game.game_id id (clone_entry e) s.entries)) (
        if_cases (Named id) (text_eq e.game.game_id id) _ _ (λ same. ground (arith, same))
          (λ apart. v.named id)))
      (λ bad. v.named id)

-- Every save keeps the agreement of the entries and the order.
pub save-IsKept : (s : MemoryStore) (e : Entry) → IsKept s → IsKept (save s e).0
save-IsKept s e v = record { once = λ id. save-once s e id v; named = λ id. save-Named s e id v }

-- A history of saves, some of which may be refused.
pub data Saved (s : MemoryStore) : MemoryStore → Type 0 where
  here : Saved s s
  next : {t : MemoryStore} (e : Entry) → Saved s t → Saved s (save t e).0

-- Whatever is saved into a new store, its order names each stored game once and no other id, and
-- each game is stored under its own id.
pub Saved-IsKept : {s : MemoryStore} → Saved new_store s → IsKept s
Saved-IsKept here = new_store-IsKept
Saved-IsKept (next {t} e path) = save-IsKept t e (Saved-IsKept path)
