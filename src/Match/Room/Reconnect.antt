-- ===== src/Match/Room/Reconnect.antt =====
-- A player who leaves a running game and comes back finds the seat and the game as they were.
use nadesiko_reversi.Prelude.{◌≡◌, subst, none, some, true, false, Text, arith, inl, inr}
use nadesiko_reversi.Protocol.Types.{Player}
use nadesiko_reversi.Runtime.{Runner}
use nadesiko_reversi.Match.Types.{RoomPhase}
use nadesiko_reversi.Match.Hub.{Seat}
use nadesiko_reversi.Match.Room.{
  Room, joined, LeaveResult, left, seat_of, take, resume, put_dark, put_light, rejoin, join_at,
  join, disconnect, settle_leave, leave, notify_others,
}
use nadesiko_reversi.Match.Room.Invariant.{IsWellFormed}
use nadesiko_reversi.Match.Room.Seating.{Found, seat_of-Found}

-- What leaving a running game leaves behind: the other player waits in a suspended room.
Suspended : Room → Room → Text → Player → Seat → Type 0
Suspended r q id p s =
    (q.phase ≡ RoomPhase.suspended)
    × (q.state ≡ r.state)
    × (q.dark ≡ put_dark p (some (record s { events = none; connected = false })) r.dark)
    × (q.light ≡ put_light p (some (record s { events = none; connected = false })) r.light)

leave-Suspended :
    (r : Room) (id : Text) (p : Player) (s : Seat)
    → IsWellFormed r
    → r.phase ≡ RoomPhase.playing
    → Found r id p s
    → Suspended r (settle_leave (disconnect r p s) id).0 id p s
      × ((settle_leave (disconnect r p s) id).1 ≡ left false)
unfolding disconnect settle_leave notify_others Found Suspended
leave-Suspended r id p s v playing (i, inl (e, f)) = rw e (ground (arith, v.phase_fits))
leave-Suspended r id p s v playing (i, inr (e, f)) = rw e (ground (arith, v.phase_fits))

resumed-playing :
    (runner : Runner) (r q : Room) (id : Text) (p : Player) (s : Seat)
    → IsWellFormed r
    → r.phase ≡ RoomPhase.playing
    → Found r id p s
    → Suspended r q id p s
    → let back = join runner q id in
      (back.1 ≡ joined p q.hub.next true)
      × (back.0.phase ≡ RoomPhase.playing)
      × (back.0.state ≡ r.state)
unfolding Suspended Found join join_at rejoin resume take seat_of notify_others
resumed-playing runner r q id p s v playing (i, inl (e, f)) (sus, kept, d, l) =
    rw (sus, d, l, kept, e) (ground (arith, v.phase_fits))
resumed-playing runner r q id p s v playing (i, inr (e, f)) (sus, kept, d, l) =
    rw (sus, d, l, kept, e) (ground (arith, v.phase_fits, v.apart))

leave_at :
    (r : Room) (id : Text) (p : Player) (s : Seat)
    → seat_of r id ≡ some (p, s)
    → settle_leave (disconnect r p s) id ≡ leave r id
unfolding leave
leave_at r id p s e = rw (e, leave)

-- The leaving `away` of the player, and the joining after it.
abbrev Returns : Runner → Room → Text → Player → Room × LeaveResult → Type 0
Returns runner r id p away =
    let back = join runner away.0 id in
    (away.1 ≡ left false)
    × (away.0.phase ≡ RoomPhase.suspended)
    × (back.1 ≡ joined p away.0.hub.next true)
    × (back.0.phase ≡ RoomPhase.playing)
    × (back.0.state ≡ r.state)

-- A seated player of a well-formed room whose game runs, who leaves and joins again: the leaving suspends the game without
-- closing the room, and the joining is a reconnection on the same seat with the channel that it
-- makes, after which the game runs on from the state it had, whatever the engine would answer.
pub reconnect :
    (runner : Runner) (r : Room) (id : Text) (p : Player) (s : Seat)
    → IsWellFormed r
    → r.phase ≡ RoomPhase.playing
    → seat_of r id ≡ some (p, s)
    → let away = leave r id in
      let back = join runner away.0 id in
      (away.1 ≡ left false)
      × (away.0.phase ≡ RoomPhase.suspended)
      × (back.1 ≡ joined p away.0.hub.next true)
      × (back.0.phase ≡ RoomPhase.playing)
      × (back.0.state ≡ r.state)
unfolding Suspended
reconnect runner r id p s v playing e =
    let found = seat_of-Found r id p s e in
    let (gone, told) = leave-Suspended r id p s v playing found in
    let returned = resumed-playing runner r _ id p s v playing found gone in
    subst (Returns runner r id p) (leave_at r id p s e)
      (told, gone.0, returned.0, returned.1, returned.2)
