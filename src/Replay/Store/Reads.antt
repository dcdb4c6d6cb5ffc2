-- ===== src/Replay/Store/Reads.antt =====
-- What the reads of the store find.
use nadesiko_reversi.Prelude.{
  ℕ, zero, suc, ◌≤◌, ◌<◌, ◌≡◌, ◌≢◌, ◌∙◌, sym, refl, ap, subst, Option, some, List, [], ◌∷◌, map,
  Text, text_eq, length, length-map, get_elem?, is_some, Bool, true, false, arith, if◌then◌else◌,
  Option-cases, inl, inr,
}
use nadesiko_reversi.Prelude.Assoc.{Map, lookup, lookup-insert}
use nadesiko_reversi.Protocol.Clone.{clone_state_idem}
use nadesiko_reversi.Replay.Types.{Summary}
use nadesiko_reversi.Replay.Record.{game_id_valid, record_summary, clone_record}
use nadesiko_reversi.Replay.Store.{
  Entry, clone_entry, MemoryStore, save, summarise, list, Found, entry, found_at, get, random_among,
  random, len,
}
use nadesiko_reversi.Replay.Store.Order.{IsKept, Named, count}

clone_entry_idem : (e : Entry) → clone_entry (clone_entry e) ≡ clone_entry e
unfolding clone_entry clone_record
clone_entry_idem e =
    λ i. record e { game = record e.game { final_state = clone_state_idem e.game.final_state i } }

found_at_if :
    (b : Bool) (id : Text) (e : Entry) (o : Option Entry)
    → found_at id (if b then some (clone_entry e) else o)
      ≡ (if b then entry (clone_entry e) else found_at id o)
found_at_if true id e o = ap entry (clone_entry_idem e)
found_at_if false id e o = refl

-- After the save of an entry with a valid game id, Get finds a copy of the entry under that id, in
-- place of what was there, and what it found before under any other.
pub get-save :
    (s : MemoryStore) (e : Entry) (id : Text)
    → game_id_valid e.game.game_id ≡ true
    → get (save s e).0 id ≡ (if text_eq e.game.game_id id then entry (clone_entry e) else get s id)
unfolding get save
get-save s e id ok =
    rw (ok, lookup-insert e.game.game_id id (clone_entry e) s.entries)
      (found_at_if (text_eq e.game.game_id id) id e (lookup id s.entries))

-- The ids in a list are all stored.
Stored : Map Entry → List Text → Type 0
Stored m ids = (id : Text) → 1 ≤ count id ids → is_some (lookup id m) ≡ true

head-Stored :
    (m : Map Entry) (id : Text) (ids : List Text)
    → Stored m (id ∷ ids)
    → is_some (lookup id m) ≡ true
unfolding Stored count
head-Stored m id ids all = all id (ground arith)

tail-Stored : (m : Map Entry) (id : Text) (ids : List Text) → Stored m (id ∷ ids) → Stored m ids
unfolding Stored count
tail-Stored m id ids all j h = all j (omega (arith, h))

summarise-ids :
    (m : Map Entry) (ids : List Text)
    → ((id : Text) → Named id (lookup id m))
    → Stored m ids
    → map (λ (x : Summary). x.game_id) (summarise m ids) ≡ ids
unfolding summarise record_summary
summarise-ids m [] named all = refl
summarise-ids m (id ∷ ids) named all = elim (Option-cases (lookup id m)) [
  | inl e ↦ absurd (ground (arith, e, head-Stored m id ids all))
  | inr (x, e) ↦
      rw (e, summarise)
        (λ i.
          (subst (Named id) e (named id)) i
          ∷ summarise-ids m ids named (tail-Stored m id ids all) i)
]

-- In a store whose order and entries agree, List gives one summary for each stored game, in the
-- order of their first saves, and Len is their number.
pub list-order :
    (s : MemoryStore)
    → IsKept s
    → (map (λ (x : Summary). x.game_id) (list s) ≡ s.order) × (length (list s) ≡ len s)
unfolding list Stored
list-order s v =
    let ids = summarise-ids s.entries s.order v.named (λ id h. ground (arith, v.once id, h)) in
    (ids, sym (length-map (list s) _) ∙ ap length ids)

get_elem?-count :
    (ids : List Text) (i : ℕ)
    → i < length ids
    → (id : Text) × (get_elem? ids i ≡ some id) × (1 ≤ count id ids)
unfolding count
get_elem?-count [] i h = absurd (omega arith)
get_elem?-count (x ∷ xs) zero h = (x, refl, ground arith)
get_elem?-count (x ∷ xs) (suc i) h =
    let (id, e, c) = get_elem?-count xs i (omega arith) in (id, e, omega (arith, c))

-- The result of a draw that finds a stored game under the id that it names.
unfoldable pub Draws : MemoryStore → Option Found → Type 0
Draws s o =
    (id : Text) × (e : Entry) × (lookup id s.entries ≡ some e) × (o ≡ some (entry (clone_entry e)))

random_among-Draws :
    (intn : ℕ → ℕ) (s : MemoryStore) (ids : List Text)
    → IsKept s
    → ((n : ℕ) → 1 ≤ n → intn n < n)
    → s.order ≡ ids
    → ids ≢ []
    → Draws s (random_among intn s ids)
unfolding Draws random_among
random_among-Draws intn s [] v range e filled = absurd (filled refl)
random_among-Draws intn s (x ∷ xs) v range e filled =
    let within : intn (length s.order) < length s.order =
      range (length s.order) (ground (arith, ap length e)) in
    let (id, at, c) = get_elem?-count s.order (intn (length s.order)) within in
    elim (Option-cases (lookup id s.entries)) [
      | inl f ↦ absurd (ground (arith, f, c, v.once id))
      | inr (found, f) ↦ (id, found, f, rw (at, f) refl)
    ]

-- With a generator of numbers below its bound, Random on a store that holds a game never fails and
-- never leaves the order: it gives a copy of a stored game.
pub random-Draws :
    (intn : ℕ → ℕ) (s : MemoryStore)
    → IsKept s
    → ((n : ℕ) → 1 ≤ n → intn n < n)
    → s.order ≢ []
    → Draws s (random intn s)
unfolding random
random-Draws intn s v range filled = random_among-Draws intn s s.order v range refl filled
