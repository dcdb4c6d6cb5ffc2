-- ===== src/Match/Manager/Frames.antt =====
-- What a call on the manager leaves alone.
use nadesiko_reversi.Prelude.{
  ◌≡◌, ◌≢◌, ◌∙◌, refl, Option, none, some, Text, text_eq, true, false, arith, inl, inr,
  Option-cases, if_cases, not,
}
use nadesiko_reversi.Prelude.Assoc.{Map, lookup, lookup-insert, lookup-delete}
use nadesiko_reversi.Protocol.Types.{Command}
use nadesiko_reversi.Runtime.{Runner}
use nadesiko_reversi.Match.Room.{Room, SubmitResult, LeaveResult, left}
use nadesiko_reversi.Match.Room
use nadesiko_reversi.Match.Manager.{
  Manager, put_room, drop_room, submit_in, submit_from, submit, place_of, known_place, settle_left,
  leave_from, leave,
}

-- The room under a key is the same in both.
abbrev SameRoom : Text → Manager → Manager → Type 0
SameRoom key m m' = lookup key m'.rooms ≡ lookup key m.rooms

put_room-SameRoom :
    (m : Manager) (key other : Text) (room : Room)
    → other ≢ key
    → SameRoom other m (put_room m key room)
put_room-SameRoom m key other room apart = ground (arith, lookup-insert key other room m.rooms)

drop_room-SameRoom :
    (m : Manager) (key other : Text) → other ≢ key → SameRoom other m (drop_room m key)
drop_room-SameRoom m key other apart = ground (arith, lookup-delete key other m.rooms)

module _ (runner : Runner) (m : Manager) (room_id player_id : Text) (command : Command) where
  submit_in-SameRoom :
      (other : Text) (o : Option Room)
      → other ≢ room_id
      → SameRoom other m (submit_in runner m room_id player_id command o).0
  unfolding submit_in
  submit_in-SameRoom other none apart = refl
  submit_in-SameRoom other (some room) apart = put_room-SameRoom m room_id other _ apart

  submit_from-SameRoom :
      (other : Text) (own : Option Text)
      → own ≢ some other
      → SameRoom other m (submit_from runner m room_id player_id command own).0
  unfolding submit_from
  submit_from-SameRoom other none apart = refl
  submit_from-SameRoom other (some own) apart =
      if_cases (λ (x : Manager × SubmitResult). SameRoom other m x.0) (not (text_eq own room_id)) _
        _ (λ foreign. refl) λ same. submit_in-SameRoom other _ (ground (arith, same, apart))

-- A command leaves alone every room but the one that its player has joined, whatever room the
-- command names.
pub submit-other_rooms :
    (runner : Runner) (m : Manager) (room_id player_id : Text) (command : Command) (other : Text)
    → lookup player_id m.players ≢ some other
    → lookup other (submit runner m room_id player_id command).0.rooms ≡ lookup other m.rooms
unfolding submit
submit-other_rooms runner m room_id player_id command other apart =
    submit_from-SameRoom runner m room_id player_id command other _ apart

settle_left-SameRoom :
    (m : Manager) (player_id key other : Text) (room : Room) (result : LeaveResult)
    → other ≢ key
    → SameRoom other m (settle_left m player_id key room result).0
unfolding settle_left
settle_left-SameRoom m player_id key other room (LeaveResult.refused e) apart = refl
settle_left-SameRoom m player_id key other room (left false) apart = refl
settle_left-SameRoom m player_id key other room (left true) apart =
    drop_room-SameRoom m key other apart

leave_from-SameRoom :
    (m : Manager) (player_id other : Text) (rooms : Map Room) (own : Option Text)
    → own ≢ some other
    → SameRoom other m (leave_from m player_id (place_of rooms own)).0
unfolding leave_from
leave_from-SameRoom m player_id other rooms none apart = refl
leave_from-SameRoom m player_id other rooms (some key) apart =
    elim (Option-cases (lookup key rooms)) [
      | inl e ↦ rw e refl
      | inr (room, e) ↦ rw e (
          settle_left-SameRoom (put_room m key (Room.leave room player_id).0) player_id key other
            (Room.leave room player_id).0 _ (ground (arith, apart))
          ∙ put_room-SameRoom m key other (Room.leave room player_id).0 (ground (arith, apart)))
    ]

-- A player who leaves changes no room but the one that the player has joined.
pub leave-other_rooms :
    (m : Manager) (player_id other : Text)
    → lookup player_id m.players ≢ some other
    → lookup other (leave m player_id).0.rooms ≡ lookup other m.rooms
unfolding leave known_place
leave-other_rooms m player_id other apart =
    leave_from-SameRoom m player_id other m.rooms (lookup player_id m.players) apart
