-- ===== src/Match/Manager.antt =====
-- server/internal/match/manager.go: which player is in which room, and when a room is dropped.
--
-- Each method is one step on the manager. The map of rooms holds the rooms themselves: a room that
-- a call has changed is written back under its key. `seed_for` is the function of WithSeedFunc.
pub mod Frames
pub mod Names
pub mod Refusals
use mathlib.Core.Option
use nadesiko_reversi.Prelude.{
  ℕ, suc, String, Bool, true, false, not, ◌&&◌, Option, none, some, List, [], ◌∷◌, ◌++◌, map, Text,
  codes, text_eq, leb, length, if◌then◌else◌,
}
use nadesiko_reversi.Prelude.Assoc.{Map, lookup, insert, delete}
use nadesiko_reversi.Prelude.Decimal.{decimal}
use nadesiko_reversi.Protocol.Types.{
  Player, dark, light, Command, Error, ErrorCode, invalid_request, Response,
}
use nadesiko_reversi.Runtime.{RunError, Runner}
use nadesiko_reversi.Match.Types.{JoinError, LeaveError, rejected}
use nadesiko_reversi.Match.Hub.{Seat}
use nadesiko_reversi.Match.Room.{
  Room, new_room, plain, is_closed, JoinResult, joined, SubmitResult, responded, LeaveResult, left,
  close_room,
}
use nadesiko_reversi.Match.Room

-- type Membership, the channel by its number in the room
pub record Membership : Type 0 where
  pub room_id : Text
  pub player_id : Text
  pub seat : Player
  pub events : ℕ
  pub reconnected : Bool

-- type Manager; "" stands in `waiting` for no room
pub record Manager : Type 0 where
  pub rooms : Map Room
  pub players : Map Text
  pub waiting : Text
  pub next_id : ℕ

-- func NewManager
abbrev pub new_manager : Manager
new_manager = record { rooms = []; players = []; waiting = []; next_id = 0 }

-- `fmt.Sprintf("room-%d", n)`
unfoldable pub room_name : ℕ → Text
room_name n = codes "room-" ++ decimal n

-- func (r *Room) Seats, the player of one seat
abbrev pub seated : Option Seat → List Text
seated none = []
seated (some s) = s.player_id ∷ []

-- func (r *Room) Seats, without the keys
abbrev pub seats : Room → List Text
seats r = seated r.dark ++ seated r.light

-- A room with the key that it is found under.
abbrev pub Place : Type 0
Place = Text × Room

-- The changed room behind the pointer of a key.
abbrev pub put_room : Manager → Text → Room → Manager
put_room m key room = record m { rooms = insert key room m.rooms }

-- `delete(m.rooms, id)`, and no waiting room if it was that
abbrev pub drop_room : Manager → Text → Manager
drop_room m id = record m {
  rooms = delete id m.rooms;
  waiting = if text_eq m.waiting id then [] else m.waiting;
}

abbrev pub place_of : Map Room → Option Text → Option Place
place_of rooms none = none
place_of rooms (some key) = Option.map (λ room. (key, room)) (lookup key rooms)

-- The room that the manager has for the player.
unfoldable pub known_place : Manager → Text → Option Place
known_place m player_id = place_of m.rooms (lookup player_id m.players)

abbrev pub open_place : Text → Option Room → Option Place
open_place key none = none
open_place key (some room) = if is_closed room.phase then none else some (key, room)

-- The room that waits for its second player.
unfoldable pub waiting_place : Manager → Option Place
waiting_place m =
    if text_eq m.waiting [] then none else open_place m.waiting (lookup m.waiting m.rooms)

-- roomForJoin, where no room waits
unfoldable pub add_room : (Text → ℕ) → Manager → Manager × Place
add_room seed_for m =
    let n = suc m.next_id in
    let name = room_name n in
    let room = new_room name (seed_for name) in
    (record m { rooms = insert name room m.rooms; waiting = name; next_id = n }, (name, room))

-- roomForJoin, for a player without a room
unfoldable pub place_new : (Text → ℕ) → Manager → Option Place → Manager × Place
unfolding add_room
place_new seed_for m (some found) = (m, found)
place_new seed_for m none = add_room seed_for m

-- roomForJoin, from the player's own room on
unfoldable pub place_for : (Text → ℕ) → Manager → Text → Option Place → Manager × Place
unfolding place_new
place_for seed_for m player_id (some found) = (m, found)
place_for seed_for m player_id none =
    let forgotten = record m { players = delete player_id m.players } in
    place_new seed_for forgotten (waiting_place forgotten)

-- func (m *Manager) roomForJoin
unfoldable pub room_for_join : (Text → ℕ) → Manager → Text → Manager × Place
unfolding place_for known_place waiting_place
room_for_join seed_for m player_id = place_for seed_for m player_id (known_place m player_id)

-- func (m *Manager) releaseOnJoinFailure
unfoldable pub release_on_join_failure : Manager → Room → Manager
release_on_join_failure m room = if leb 1 (length (seats room)) then m else drop_room m room.id

-- What Join returns.
pub data MemberResult : Type 0 where
  member : Membership → MemberResult
  refused : JoinError → MemberResult
  broken : RunError → MemberResult

-- Join, from the result of the room's join on
unfoldable pub enroll : Manager → Text → Room → JoinResult → Manager × MemberResult
unfolding release_on_join_failure
enroll m player_id room (joined p c reconnected) = (
  record m {
    players = insert player_id room.id m.players;
    waiting = if leb 2 (length (seats room)) && text_eq m.waiting room.id then [] else m.waiting;
  },
  member (record {
    room_id = room.id;
    player_id = player_id;
    seat = p;
    events = c;
    reconnected = reconnected;
  }),
)
enroll m player_id room (JoinResult.refused e) = (release_on_join_failure m room, refused e)
enroll m player_id room (JoinResult.broken e) = (release_on_join_failure m room, broken e)

-- Join, with the room that the player goes to
unfoldable pub enter : Runner → Manager → Text → Place → Manager × MemberResult
unfolding enroll
enter runner m player_id (key, room) =
    let (now, result) = Room.join runner room player_id in
    enroll (put_room m key now) player_id now result

-- func (m *Manager) Join
unfoldable pub join : Runner → (Text → ℕ) → Manager → Text → Manager × MemberResult
unfolding enter room_for_join
join runner seed_for m player_id =
    if text_eq player_id []
    then (m, refused (record { player_id = []; message = plain "playerIDが必要です" }))
    else (let (found, place) = room_for_join seed_for m player_id in
        enter runner found player_id place)

abbrev pub no_room : String → SubmitResult
no_room message = responded (rejected invalid_request (plain message) none)

-- Submit, in the player's own room
unfoldable pub submit_in :
    Runner → Manager → Text → Text → Command → Option Room → Manager × SubmitResult
submit_in runner m room_id player_id command none = (m, no_room "roomが存在しません")
submit_in runner m room_id player_id command (some room) =
    let (now, result) = Room.submit runner room player_id command in
    (put_room m room_id now, result)

-- Submit, from the player's own room on
unfoldable pub submit_from :
    Runner → Manager → Text → Text → Command → Option Text → Manager × SubmitResult
unfolding submit_in
submit_from runner m room_id player_id command none = (m, no_room "roomに参加していません")
submit_from runner m room_id player_id command (some own) =
    if not (text_eq own room_id)
    then (m, no_room "参加していないroomへのcommandです")
    else submit_in runner m room_id player_id command (lookup room_id m.rooms)

-- func (m *Manager) Submit
unfoldable pub submit : Runner → Manager → Text → Text → Command → Manager × SubmitResult
unfolding submit_from
submit runner m room_id player_id command =
    submit_from runner m room_id player_id command (lookup player_id m.players)

-- the deletes of `for _, seated := range room.Seats()`
abbrev pub forget_all : List Text → Map Text → Map Text
forget_all [] players = players
forget_all (p ∷ ps) players = forget_all ps (delete p players)

abbrev pub not_joined : Text → LeaveError
not_joined player_id = record { player_id = player_id; message = plain "roomに参加していません" }

-- Leave, from the result of the room's leave on
unfoldable pub settle_left :
    Manager → Text → Text → Room → LeaveResult → Manager × Option LeaveError
settle_left m player_id key room (LeaveResult.refused e) = (m, some e)
settle_left m player_id key room (left false) = (m, none)
settle_left m player_id key room (left true) = (
  drop_room (record m { players = delete player_id (forget_all (seats room) m.players) }) key,
  none,
)

-- Leave, from the player's room on
unfoldable pub leave_from : Manager → Text → Option Place → Manager × Option LeaveError
unfolding settle_left
leave_from m player_id none = (m, some (not_joined player_id))
leave_from m player_id (some (key, room)) =
    let (now, result) = Room.leave room player_id in
    settle_left (put_room m key now) player_id key now result

-- func (m *Manager) Leave
unfoldable pub leave : Manager → Text → Manager × Option LeaveError
unfolding leave_from known_place
leave m player_id = leave_from m player_id (known_place m player_id)

-- func (m *Manager) Room
abbrev pub room_at : Manager → Text → Option Room
room_at m id = lookup id m.rooms

-- func (m *Manager) RoomCount
abbrev pub room_count : Manager → ℕ
room_count m = length m.rooms

-- func (m *Manager) PlayerCount
abbrev pub player_count : Manager → ℕ
player_count m = length m.players

-- func (m *Manager) Close, with the rooms that it closes
unfoldable pub close : Manager → String → Manager × List Room
close m reason = (
  record m { rooms = []; players = []; waiting = [] },
  map (λ (e : Place). close_room e.1 reason) m.rooms,
)
