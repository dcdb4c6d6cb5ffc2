-- ===== src/Match/Manager/Refusals.antt =====
-- Joins that the manager turns down.
use nadesiko_reversi.Prelude.{
  ◌≡◌, subst, ◌≢◌, refl, Option, none, some, Text, text_eq, [], arith, if_cases, ℕ,
}
use nadesiko_reversi.Prelude.Assoc.{lookup}
use nadesiko_reversi.Runtime.{Runner}
use nadesiko_reversi.Match.Types.{RoomPhase}
use nadesiko_reversi.Match.Room.{Room, JoinResult, join_error, plain}
use nadesiko_reversi.Match.Room
use nadesiko_reversi.Match.Manager.{
  Manager, Place, MemberResult, refused, known_place, place_for, room_for_join, enroll, enter, join,
}

known_place_of :
    (m : Manager) (id key : Text) (room : Room)
    → lookup id m.players ≡ some key
    → lookup key m.rooms ≡ some room
    → known_place m id ≡ some (key, room)
unfolding known_place
known_place_of m id key room e f = ground (arith, e, f)

room_join_closed :
    (runner : Runner) (room : Room) (id : Text)
    → room.phase ≡ RoomPhase.closed
    → Room.join runner room id ≡ (room, join_error id (plain "roomは終了しています"))
unfolding Room.join
room_join_closed runner room id e = rw e refl

-- The answer to a player whose room is closed.
abbrev TurnedDown : Text → Manager × MemberResult → Type 0
TurnedDown id x = x.1 ≡ refused (record { player_id = id; message = plain "roomは終了しています" })

enter_closed :
    (runner : Runner) (m : Manager) (id key : Text) (room : Room)
    → room.phase ≡ RoomPhase.closed
    → TurnedDown id (enter runner m id (key, room))
unfolding enter enroll
enter_closed runner m id key room closed = rw (room_join_closed runner room id closed) refl

closed_place :
    (runner : Runner) (seed_for : Text → ℕ) (m : Manager) (id key : Text) (room : Room)
    → room.phase ≡ RoomPhase.closed
    → (o : Option Place) → o ≡ some (key, room)
    → TurnedDown id (enter runner (place_for seed_for m id o).0 id (place_for seed_for m id o).1)
unfolding place_for
closed_place runner seed_for m id key room closed none e = absurd cc
closed_place runner seed_for m id key room closed (some place) e =
    let same : (key, room) ≡ place = cc in
    subst (λ q. TurnedDown id (enter runner m id q)) same (enter_closed runner m id key room closed)

-- A player whose room has closed, because its game has ended, cannot join any room while the
-- manager keeps that room: each join is refused, whatever other room waits for a player.
pub join-closed_room :
    (runner : Runner) (seed_for : Text → ℕ) (m : Manager) (id key : Text) (room : Room)
    → id ≢ []
    → lookup id m.players ≡ some key
    → lookup key m.rooms ≡ some room
    → room.phase ≡ RoomPhase.closed
    → (join runner seed_for m id).1
      ≡ refused (record { player_id = id; message = plain "roomは終了しています" })
unfolding join room_for_join
join-closed_room runner seed_for m id key room named e f closed =
    if_cases (TurnedDown id) (text_eq id []) _ _ (λ same. absurd (named (ground (arith, same))))
      (λ other.
        closed_place runner seed_for m id key room closed (known_place m id)
          (known_place_of m id key room e f))
