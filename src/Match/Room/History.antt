-- ===== src/Match/Room/History.antt =====
-- Histories of a room: the operations that the manager calls, in any order, with any players,
-- commands and answers of the engine.
use nadesiko_reversi.Prelude.{
  ℕ, ◌≤◌, ◌≡◌, refl, false, if_both, if◌then◌else◌, sym, subst, ap, ◌||◌, Option-cases, Option, inl,
  inr, Text, String, length,
}
use nadesiko_reversi.Protocol.Types.{Command, Player, State}
use nadesiko_reversi.Runtime.{Runner}
use nadesiko_reversi.Match.Types.{RoomPhase}
use nadesiko_reversi.Match.Hub.{event_buffer, Seat}
use nadesiko_reversi.Match.Room.{
  Room, new_room, is_connected, LeaveResult, JoinResult, SubmitResult, is_closed, join, submit,
  submit_at, seat_of, leave, disconnect, settle_leave, close_room, notify_others, paused_phase,
  broadcast,
}
use nadesiko_reversi.Match.Room.Invariant.{IsWellFormed, new_room-IsWellFormed}
use nadesiko_reversi.Match.Room.Joining.{join-IsWellFormed}
use nadesiko_reversi.Match.Room.Playing.{submit-IsWellFormed}
use nadesiko_reversi.Match.Room.Leaving.{leave-IsWellFormed, close_room-IsWellFormed}

-- One call on the room. The engine may answer each call differently.
pub data Step (r : Room) : Room → Type 0 where
  joins : (runner : Runner) (id : Text) → Step r (join runner r id).0
  submits : (runner : Runner) (id : Text) (c : Command) → Step r (submit runner r id c).0
  leaves : (id : Text) → Step r (leave r id).0
  closes : (reason : String) → Step r (close_room r reason)

pub data Reach (r : Room) : Room → Type 0 where
  here : Reach r r
  next : {q t : Room} → Reach r q → Step q t → Reach r t

-- Every call keeps the invariant.
pub Step-IsWellFormed : {r q : Room} → Step r q → IsWellFormed r → IsWellFormed q
Step-IsWellFormed (joins runner id) v = join-IsWellFormed runner _ id v
Step-IsWellFormed (submits runner id c) v = submit-IsWellFormed runner _ id c v
Step-IsWellFormed (leaves id) v = leave-IsWellFormed _ id v
Step-IsWellFormed (closes reason) v = close_room-IsWellFormed _ reason v.wiring

pub Reach-IsWellFormed : {r q : Room} → IsWellFormed r → Reach r q → IsWellFormed q
Reach-IsWellFormed v here = v
Reach-IsWellFormed v (next path step) = Step-IsWellFormed step (Reach-IsWellFormed v path)

-- Whatever happens to a new room, it stays well formed: the phase fits the seats, no event is ever
-- sent on a closed channel, no channel is closed twice, and at most 16 events wait in a channel.
pub Reach-new_room :
    (id : Text) (seed : ℕ) (r : Room)
    → Reach (new_room id seed) r
    → IsWellFormed r
      × (r.hub.fault ≡ false)
      × ((i : ℕ) → length (r.hub.channels i).buffer ≤ event_buffer)
Reach-new_room id seed r path =
    let v = Reach-IsWellFormed (new_room-IsWellFormed id seed) path in
    (v, v.sound.faultless, v.sound.bounded)

-- The room is closed and holds the game state `o`.
abbrev IsOver : Option State → Room → Type 0
IsOver o r = (r.phase ≡ RoomPhase.closed) × (r.state ≡ o)

close_room-IsOver :
    (r : Room) (reason : String) (o : Option State) → IsOver o r → IsOver o (close_room r reason)
unfolding close_room broadcast
close_room-IsOver r reason o h = if_both (IsOver o) (is_closed r.phase) _ _ h (refl, h.1)

settle_leave-IsOver :
    (r : Room) (id : Text) (o : Option State) → IsOver o r → IsOver o (settle_leave r id).0
unfolding settle_leave notify_others
settle_leave-IsOver r id o h =
    if_both (λ (x : Room × LeaveResult). IsOver o x.0) (is_connected r.dark || is_connected r.light)
      _ _ (ap paused_phase h.0, h.1) (close_room-IsOver r _ o h)

disconnect-IsOver :
    (r : Room) (p : Player) (s : Seat) (o : Option State) → IsOver o r → IsOver o (disconnect r p s)
unfolding disconnect
disconnect-IsOver r p s o h = if_both (IsOver o) s.connected _ _ h h

leave-IsOver : (r : Room) (id : Text) (o : Option State) → IsOver o r → IsOver o (leave r id).0
unfolding leave
leave-IsOver r id o h = elim (Option-cases (seat_of r id)) [
  | inl e ↦ rw (e, leave) h
  | inr ((p, s), e) ↦
      rw (e, leave) (settle_leave-IsOver (disconnect r p s) id o (disconnect-IsOver r p s o h))
]

if_closed {ℓ} :
    {A : Type ℓ} (x y : A) (p : RoomPhase)
    → p ≡ RoomPhase.closed
    → (if is_closed p then x else y) ≡ x
if_closed x y p e = rw e

-- A join or a command finds a closed room and changes nothing.
join_closed :
    (runner : Runner) (r : Room) (id : Text) → r.phase ≡ RoomPhase.closed → (join runner r id).0 ≡ r
unfolding join
join_closed runner r id e = ap (λ (x : Room × JoinResult). x.0) (if_closed _ _ r.phase e)

submit_closed :
    (runner : Runner) (r : Room) (id : Text) (c : Command)
    → r.phase ≡ RoomPhase.closed
    → (submit runner r id c).0 ≡ r
unfolding submit submit_at
submit_closed runner r id c e = elim (Option-cases (seat_of r id)) [
  | inl f ↦ rw (f, submit)
  | inr ((p, s), f) ↦
      rw (f, submit) (ap (λ (x : Room × SubmitResult). x.0) (if_closed _ _ r.phase e))
]

-- A closed room stays closed, and the state of its game is settled, whatever is called on it.
pub closed_is_final :
    {r q : Room}
    → Step r q
    → r.phase ≡ RoomPhase.closed
    → (q.phase ≡ RoomPhase.closed) × (q.state ≡ r.state)
closed_is_final {r} (joins runner id) e =
    subst (IsOver r.state) (sym (join_closed runner r id e)) (e, refl)
closed_is_final {r} (submits runner id c) e =
    subst (IsOver r.state) (sym (submit_closed runner r id c e)) (e, refl)
closed_is_final {r} (leaves id) e = leave-IsOver r id r.state (e, refl)
closed_is_final {r} (closes reason) e = close_room-IsOver r reason r.state (e, refl)
