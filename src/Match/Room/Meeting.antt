-- ===== src/Match/Room/Meeting.antt =====
-- The second player of a room: the game starts, or the seat is given back.
use nadesiko_reversi.Prelude.{
  ℕ, ◌≡◌, ◌≢◌, ◌∙◌, refl, ap, sym, subst, true, false, none, some, Text, arith,
}
use nadesiko_reversi.Protocol.Types.{light, State, Response}
use nadesiko_reversi.Protocol.Clone.{clone_state}
use nadesiko_reversi.Runtime.{RunError, Runner, answer, failed, new_game}
use nadesiko_reversi.Match.Types.{RoomPhase}
use nadesiko_reversi.Match.Hub.{Seat}
use nadesiko_reversi.Match.Room.{
  Room, JoinResult, joined, broken, seat_of, open_seat, begin, start_game, take_seat, take, join_at,
  join, broadcast,
}

begin-start :
    (r : Room) (id : Text) (c : ℕ) (a : Response) (s : State)
    → a.ok ≡ true
    → a.state ≡ some s
    → ((begin r id light c (answer a)).1 ≡ joined light c false)
      × ((begin r id light c (answer a)).0.phase ≡ RoomPhase.playing)
      × ((begin r id light c (answer a)).0.state ≡ some (clone_state s))
      × ((begin r id light c (answer a)).0.dark ≡ r.dark)
      × ((begin r id light c (answer a)).0.light ≡ r.light)
unfolding begin broadcast
begin-start r id c a s ok given = rw (given, ok) (refl, refl, refl, refl, refl)

abbrev pub newcomer : Text → ℕ → Seat
newcomer id c = record { player_id = id; events = some c; connected = true }

-- A second player goes through to the start of the game.
join-second :
    (runner : Runner) (r : Room) (id : Text) (d : Seat)
    → r.phase ≡ RoomPhase.waiting
    → r.dark ≡ some d
    → r.light ≡ none
    → d.player_id ≢ id
    → join runner r id
      ≡ start_game runner (take r light (newcomer id r.hub.next)) id light r.hub.next
unfolding join join_at take_seat take seat_of open_seat
join-second runner r id d waiting e f other = rw (waiting, e, f) (ground (arith, other))

-- What the joining `x` of a second player gives when the game starts in the state `s`.
abbrev Starts : Room → Text → State → Room × JoinResult → Type 0
Starts r id s x =
    (x.1 ≡ joined light r.hub.next false)
    × (x.0.phase ≡ RoomPhase.playing)
    × (x.0.state ≡ some (clone_state s))
    × (x.0.dark ≡ r.dark)
    × (x.0.light ≡ some (newcomer id r.hub.next))

-- A player who joins a waiting room with one other player in it, when the engine makes a game with
-- the state `s`: the player gets the seat light with a new channel, and the game runs from a copy
-- of that state, with the first player's seat as it was.
pub second_player_starts :
    (runner : Runner) (r : Room) (id : Text) (d : Seat) (a : Response) (s : State)
    → r.phase ≡ RoomPhase.waiting
    → r.dark ≡ some d
    → r.light ≡ none
    → d.player_id ≢ id
    → new_game runner r.id r.seed ≡ answer a
    → a.ok ≡ true
    → a.state ≡ some s
    → ((join runner r id).1 ≡ joined light r.hub.next false)
      × ((join runner r id).0.phase ≡ RoomPhase.playing)
      × ((join runner r id).0.state ≡ some (clone_state s))
      × ((join runner r id).0.dark ≡ r.dark)
      × ((join runner r id).0.light ≡ some (newcomer id r.hub.next))
unfolding start_game take
second_player_starts runner r id d a s waiting e f other answered ok given =
    let seated : Room = take r light (newcomer id r.hub.next) in
    subst (Starts r id s)
      (ap (begin seated id light r.hub.next) (sym answered)
        ∙ sym (join-second runner r id d waiting e f other))
      (begin-start seated id r.hub.next a s ok given)

-- What the joining `x` of a second player gives when the engine has failed.
abbrev GivesBack : Room → RunError → Room × JoinResult → Type 0
GivesBack r err x =
    (x.1 ≡ broken err)
    × (x.0.phase ≡ r.phase)
    × (x.0.state ≡ r.state)
    × (x.0.dark ≡ r.dark)
    × (x.0.light ≡ r.light)

-- A player who joins a waiting room with one other player in it, when the engine fails: the player
-- gets its error, and the seats, the phase and the state of the room are as they were.
pub second_player_fails :
    (runner : Runner) (r : Room) (id : Text) (d : Seat) (err : RunError)
    → r.phase ≡ RoomPhase.waiting
    → r.dark ≡ some d
    → r.light ≡ none
    → d.player_id ≢ id
    → new_game runner r.id r.seed ≡ failed err
    → ((join runner r id).1 ≡ broken err)
      × ((join runner r id).0.phase ≡ r.phase)
      × ((join runner r id).0.state ≡ r.state)
      × ((join runner r id).0.dark ≡ r.dark)
      × ((join runner r id).0.light ≡ r.light)
unfolding start_game take begin
second_player_fails runner r id d err waiting e f other answered =
    let seated : Room = take r light (newcomer id r.hub.next) in
    subst (GivesBack r err)
      (ap (begin seated id light r.hub.next) (sym answered)
        ∙ sym (join-second runner r id d waiting e f other))
      (refl, refl, refl, refl, sym f)
