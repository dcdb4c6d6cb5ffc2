-- ===== src/Match/Manager/Names.antt =====
-- The names of rooms: no room is ever made under a name that another one has.
use nadesiko_reversi.Prelude.{
  drop, ℕ, suc, ◌<◌, ◌≡◌, ◌≢◌, ◌∙◌, sym, refl, ap, Option, none, some, Text, String, [], text_eq,
  true, false, not, arith, if_both, Option-cases, inl, inr, leb, length,
}
use nadesiko_reversi.Prelude.Assoc.{Map, lookup, insert, delete, lookup-insert, lookup-delete}
use nadesiko_reversi.Prelude.Decimal.{decimal-injective}
use nadesiko_reversi.Protocol.Types.{Command}
use nadesiko_reversi.Runtime.{Runner}
use nadesiko_reversi.Match.Room.{
  Room, JoinResult, joined, SubmitResult, LeaveResult, left, is_closed,
}
use nadesiko_reversi.Match.Room
use nadesiko_reversi.Match.Manager.{
  Manager, new_manager, room_name, Place, put_room, drop_room, place_of, known_place, waiting_place,
  add_room, place_new, place_for, room_for_join, release_on_join_failure, MemberResult, enroll,
  enter, join, submit_in, submit_from, submit, settle_left, leave_from, leave, close, seats,
}

-- No room has a name of a number that is still to come.
pub Fresh : Manager → Type 0
Fresh m = (i : ℕ) → m.next_id < i → lookup (room_name i) m.rooms ≡ none

-- A room in its place.
Placed : Map Room → Place → Type 0
Placed rooms place = lookup place.0 rooms ≡ some place.1

room_name-injective : (m n : ℕ) → room_name m ≡ room_name n → m ≡ n
unfolding room_name
room_name-injective m n e = decimal-injective m n (ap (drop 5) e)

absent-insert :
    (key other : Text) (room : Room) (rooms : Map Room)
    → lookup other rooms ≡ none
    → key ≢ other
    → lookup other (insert key room rooms) ≡ none
absent-insert key other room rooms e apart = ground (arith, lookup-insert key other room rooms)

absent-delete :
    (key other : Text) (rooms : Map Room)
    → lookup other rooms ≡ none
    → lookup other (delete key rooms) ≡ none
absent-delete key other rooms e = ground (arith, lookup-delete key other rooms)

known-apart :
    (key other : Text) (rooms : Map Room) (room : Room)
    → lookup key rooms ≡ some room
    → lookup other rooms ≡ none
    → key ≢ other
known-apart key other rooms room e f same =
    absurd (some_none (sym e ∙ ap (λ k. lookup k rooms) same ∙ f))
  where
    some_none : some room ≡ none → ⊥
    some_none h = absurd cc

-- A room written back under its key adds no name.
put_room-Fresh :
    (m : Manager) (key : Text) (old room : Room)
    → Fresh m
    → lookup key m.rooms ≡ some old
    → Fresh (put_room m key room)
unfolding Fresh
put_room-Fresh m key old room v e i h =
    absent-insert key (room_name i) room m.rooms (v i h)
      (known-apart key (room_name i) m.rooms old e (v i h))

drop_room-Fresh : (m : Manager) (key : Text) → Fresh m → Fresh (drop_room m key)
unfolding Fresh
drop_room-Fresh m key v i h = absent-delete key (room_name i) m.rooms (v i h)

-- A new room has a name that no room had, and it is placed under it.
add_room-Fresh :
    (seed_for : Text → ℕ) (m : Manager)
    → Fresh m
    → Fresh (add_room seed_for m).0 × Placed (add_room seed_for m).0.rooms (add_room seed_for m).1
unfolding Fresh Placed add_room
add_room-Fresh seed_for m v = (
  λ i h.
      absent-insert (room_name (suc m.next_id)) (room_name i) _ m.rooms (v i (omega (arith, h)))
        (λ e. let same = room_name-injective (suc m.next_id) i e in omega (arith, same, h)),
  ground (
    arith,
    lookup-insert (room_name (suc m.next_id)) (room_name (suc m.next_id))
        (Room.new_room (room_name (suc m.next_id)) (seed_for (room_name (suc m.next_id)))) m.rooms,
  ),
)

-- The place that is found for a player is in the manager that comes with it.
Lodged : Manager × Place → Type 0
Lodged x = Fresh x.0 × Placed x.0.rooms x.1

place_of-Placed :
    (rooms : Map Room) (key : Option Text) (place : Place)
    → place_of rooms key ≡ some place
    → Placed rooms place
unfolding Placed
place_of-Placed rooms none place e = absurd cc
place_of-Placed rooms (some key) place e = elim (Option-cases (lookup key rooms)) [
  | inl f ↦ absurd (ground (arith, e, f))
  | inr (room, f) ↦ ground (arith, e, f)
]

waiting_place-Placed :
    (m : Manager) (place : Place) → waiting_place m ≡ some place → Placed m.rooms place
unfolding waiting_place Placed
waiting_place-Placed m place e = elim (Option-cases (lookup m.waiting m.rooms)) [
  | inl f ↦ absurd (ground (arith, e, f))
  | inr (room, f) ↦ ground (arith, e, f)
]

place_new-Lodged :
    (seed_for : Text → ℕ) (m : Manager) (o : Option Place)
    → Fresh m
    → ((place : Place) → o ≡ some place → Placed m.rooms place)
    → Lodged (place_new seed_for m o)
unfolding place_new Lodged
place_new-Lodged seed_for m (some place) v placed = (v, placed place refl)
place_new-Lodged seed_for m none v placed = add_room-Fresh seed_for m v

place_for-Lodged :
    (seed_for : Text → ℕ) (m : Manager) (id : Text) (o : Option Place)
    → Fresh m
    → ((place : Place) → o ≡ some place → Placed m.rooms place)
    → Lodged (place_for seed_for m id o)
unfolding place_for Lodged Fresh
place_for-Lodged seed_for m id (some place) v placed = (v, placed place refl)
place_for-Lodged seed_for m id none v placed =
    place_new-Lodged seed_for (record m { players = delete id m.players }) _ v
      (waiting_place-Placed (record m { players = delete id m.players }))

enroll-Fresh :
    (m : Manager) (id : Text) (room : Room) (result : JoinResult)
    → Fresh m
    → Fresh (enroll m id room result).0
unfolding enroll release_on_join_failure Fresh
enroll-Fresh m id room (joined p c b) v = v
enroll-Fresh m id room (JoinResult.refused e) v =
    if_both Fresh (leb 1 (length (seats room))) _ _ v (drop_room-Fresh m room.id v)
enroll-Fresh m id room (JoinResult.broken e) v =
    if_both Fresh (leb 1 (length (seats room))) _ _ v (drop_room-Fresh m room.id v)

enter-Fresh :
    (runner : Runner) (m : Manager) (id : Text) (place : Place)
    → Fresh m
    → Placed m.rooms place
    → Fresh (enter runner m id place).0
unfolding enter Placed
enter-Fresh runner m id (key, room) v placed =
    let now : Room × JoinResult = Room.join runner room id in
    enroll-Fresh (put_room m key now.0) id now.0 now.1 (put_room-Fresh m key room now.0 v placed)

join-Fresh :
    (runner : Runner) (seed_for : Text → ℕ) (m : Manager) (id : Text)
    → Fresh m
    → Fresh (join runner seed_for m id).0
unfolding join room_for_join known_place Lodged
join-Fresh runner seed_for m id v =
    let (fresh, placed) =
      place_for-Lodged seed_for m id (known_place m id) v
        (place_of-Placed m.rooms (lookup id m.players)) in
    if_both (λ (x : Manager × MemberResult). Fresh x.0) (text_eq id []) _ _ v
      (enter-Fresh runner (room_for_join seed_for m id).0 id (room_for_join seed_for m id).1 fresh
        placed)

submit_in-Fresh :
    (runner : Runner) (m : Manager) (key id : Text) (c : Command) (o : Option Room)
    → lookup key m.rooms ≡ o
    → Fresh m
    → Fresh (submit_in runner m key id c o).0
unfolding submit_in
submit_in-Fresh runner m key id c none e v = v
submit_in-Fresh runner m key id c (some room) e v = put_room-Fresh m key room _ v e

submit_from-Fresh :
    (runner : Runner) (m : Manager) (key id : Text) (c : Command) (own : Option Text)
    → Fresh m
    → Fresh (submit_from runner m key id c own).0
unfolding submit_from
submit_from-Fresh runner m key id c none v = v
submit_from-Fresh runner m key id c (some own) v =
    if_both (λ (x : Manager × SubmitResult). Fresh x.0) (not (text_eq own key)) _ _ v
      (submit_in-Fresh runner m key id c (lookup key m.rooms) refl v)

settle_left-Fresh :
    (m : Manager) (id key : Text) (room : Room) (result : LeaveResult)
    → Fresh m
    → Fresh (settle_left m id key room result).0
unfolding settle_left Fresh
settle_left-Fresh m id key room (LeaveResult.refused e) v = v
settle_left-Fresh m id key room (left false) v = v
settle_left-Fresh m id key room (left true) v = drop_room-Fresh m key v

leave_from-Fresh :
    (m : Manager) (id : Text) (o : Option Place)
    → Fresh m
    → ((place : Place) → o ≡ some place → Placed m.rooms place)
    → Fresh (leave_from m id o).0
unfolding leave_from Placed
leave_from-Fresh m id none v placed = v
leave_from-Fresh m id (some (key, room)) v placed =
    settle_left-Fresh (put_room m key (Room.leave room id).0) id key (Room.leave room id).0
      (Room.leave room id).1
      (put_room-Fresh m key room (Room.leave room id).0 v (placed (key, room) refl))

-- One call on the manager.
pub data Step (m : Manager) : Manager → Type 0 where
  joins : (runner : Runner) (seed_for : Text → ℕ) (id : Text) → Step m (join runner seed_for m id).0
  submits : (runner : Runner) (key id : Text) (c : Command) → Step m (submit runner m key id c).0
  leaves : (id : Text) → Step m (leave m id).0
  closes : (reason : String) → Step m (close m reason).0

pub data Reach (m : Manager) : Manager → Type 0 where
  here : Reach m m
  next : {q t : Manager} → Reach m q → Step q t → Reach m t

Step-Fresh : {m q : Manager} → Step m q → Fresh m → Fresh q
unfolding submit leave known_place close Fresh lookup
Step-Fresh {m} (joins runner seed_for id) v = join-Fresh runner seed_for m id v
Step-Fresh {m} (submits runner key id c) v =
    submit_from-Fresh runner m key id c (lookup id m.players) v
Step-Fresh {m} (leaves id) v =
    leave_from-Fresh m id (known_place m id) v (place_of-Placed m.rooms (lookup id m.players))
Step-Fresh {m} (closes reason) v = λ i h. refl

new_manager-Fresh : Fresh new_manager
unfolding Fresh lookup
new_manager-Fresh i h = refl

-- Whatever calls a new manager gets, the name that it gives to its next room, and every later name,
-- is free: a new room never takes the place of another one.
pub Reach-Fresh : {m : Manager} → Reach new_manager m → Fresh m
Reach-Fresh here = new_manager-Fresh
Reach-Fresh (next path step) = Step-Fresh step (Reach-Fresh path)
