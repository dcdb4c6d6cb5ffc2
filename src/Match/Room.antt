-- ===== src/Match/Room.antt =====
-- server/internal/match/room.go: one game of two seats. Each operation holds the room's mutex for
-- its whole length, so it is one function on the room.
--
-- The map of seats has the two keys that openSeat gives, and is the two fields `dark` and `light`;
-- a loop over it takes dark first.
pub mod Invariant
pub mod Seating
pub mod Joining
pub mod Playing
pub mod Leaving
pub mod History
pub mod Taken
pub mod Commands
pub mod Accepting
pub mod Meeting
pub mod Valid
pub mod Reconnect
pub mod Delivery
use nadesiko_reversi.Prelude.{
  ℕ, String, Bool, true, false, not, ◌&&◌, ◌||◌, Option, none, some, List, [], Text, text_eq,
  if◌then◌else◌, is_some,
}
use nadesiko_reversi.Protocol.Types.{
  Player, dark, light, player_eq, is_finished, State, Event as GameEvent, Command, Error, ErrorCode,
  invalid_request, game_finished, invalid_state, not_your_turn, Message, Response,
}
use nadesiko_reversi.Protocol.Clone.{clone_state, clone_response}
use nadesiko_reversi.Protocol.Validate.{command_validate}
use nadesiko_reversi.Runtime.{RunError, Evaluated, answer, failed, Runner, new_game, apply_command}
use nadesiko_reversi.Match.Types.{EventType, RoomPhase, Event, JoinError, LeaveError, rejected}
use nadesiko_reversi.Match.Hub.{Hub, no_channels, make_channel, close_channel, Seat, deliver}

-- type Room, with the channels that it has made
pub record Room : Type 0 where
  pub id : Text
  pub seed : ℕ
  pub dark : Option Seat
  pub light : Option Seat
  pub state : Option State
  pub phase : RoomPhase
  pub hub : Hub

-- func newRoom
unfoldable pub new_room : Text → ℕ → Room
new_room id seed = record {
  id = id;
  seed = seed;
  dark = none;
  light = none;
  state = none;
  phase = RoomPhase.waiting;
  hub = no_channels;
}

abbrev pub plain : String → Message
plain format = record { format = format; args = [] }

abbrev pub is_connected : Option Seat → Bool
is_connected none = false
is_connected (some s) = s.connected

-- The seat, if it is the player's.
abbrev pub claim : Player → Option Seat → Text → Option (Player × Seat)
claim p none player_id = none
claim p (some s) player_id = if text_eq s.player_id player_id then some (p, s) else none

-- func (r *Room) seatOf
unfoldable pub seat_of : Room → Text → Option (Player × Seat)
seat_of r player_id = elim (claim dark r.dark player_id) [
  | some found ↦ some found
  | none ↦ claim light r.light player_id
]

abbrev pub is_closed : RoomPhase → Bool
is_closed RoomPhase.closed = true
is_closed _ = false

-- func (r *Room) openSeat
unfoldable pub open_seat : Room → Option Player
open_seat r =
    if not (is_some r.dark) then some dark else if not (is_some r.light) then some light else none

-- `r.seats[player] = s`, and `delete(r.seats, player)` for none
abbrev pub put_dark : Player → Option Seat → Option Seat → Option Seat
put_dark dark s d = s
put_dark _ s d = d

abbrev pub put_light : Player → Option Seat → Option Seat → Option Seat
put_light light s l = s
put_light _ s l = l

abbrev pub put_seat : Room → Player → Option Seat → Room
put_seat r p s = record r { dark = put_dark p s r.dark; light = put_light p s r.light }

-- func (r *Room) bothConnectedLocked
abbrev pub both_connected : Room → Bool
both_connected r = is_connected r.dark && is_connected r.light

-- one round of the loop of broadcast
unfoldable pub broadcast_to : Room → (Player → Event) → Player → Option Seat → Hub → Hub
broadcast_to r build p none h = h
broadcast_to r build p (some s) h =
    if s.connected then deliver h s (record (build p) { room_id = r.id; seat = p }) else h

-- func (r *Room) broadcast
unfoldable pub broadcast : Room → (Player → Event) → Room
broadcast r build = record r {
  hub = broadcast_to r build light r.light (broadcast_to r build dark r.dark r.hub);
}

-- An event of the room with its state.
abbrev pub notice : Room → EventType → Option GameEvent → String → Player → Event
notice r type game_event reason p = record {
  type = type;
  room_id = r.id;
  seat = p;
  state = r.state;
  game_event = game_event;
  reason = reason;
}

-- one round of the loop of notifyOthersLocked
unfoldable pub notify_to : Room → Text → EventType → String → Player → Option Seat → Hub → Hub
notify_to r player_id type reason p none h = h
notify_to r player_id type reason p (some s) h =
    if text_eq s.player_id player_id || not s.connected
    then h
    else deliver h s (notice r type none reason p)

-- func (r *Room) notifyOthersLocked
unfoldable pub notify_others : Room → Text → EventType → String → Room
notify_others r player_id type reason = record r {
  hub =
      notify_to r player_id type reason light r.light
        (notify_to r player_id type reason dark r.dark r.hub);
}

-- What join returns: the seat, the channel of the events and whether it is a reconnection.
pub data JoinResult : Type 0 where
  joined : Player → ℕ → Bool → JoinResult
  refused : JoinError → JoinResult
  broken : RunError → JoinResult

abbrev pub join_error : Text → Message → JoinResult
join_error player_id message = refused (record { player_id = player_id; message = message })

-- A seat taken with a new channel.
unfoldable pub take : Room → Player → Seat → Room
take r p s = put_seat (record r { hub = make_channel r.hub }) p (some s)

-- rejoin, up to the seat's own connection
unfoldable pub resume : Room → Player → Seat → Room
unfolding take
resume r p back =
    let seated = take r p back in
    record seated {
      phase = elim seated.phase [
        | RoomPhase.suspended ↦
            if both_connected seated then RoomPhase.playing else RoomPhase.suspended
        | other ↦ other
      ];
    }

-- join, where the player has a seat
unfoldable pub rejoin : Room → Text → Player → Seat → Room × JoinResult
rejoin r player_id p s =
    if s.connected
    then (r, join_error player_id (plain "既に参加しています"))
    else let back = record s { events = some r.hub.next; connected = true } in
      let resumed = resume r p back in
      let told = record resumed {
        hub = deliver resumed.hub back (notice resumed EventType.state none "" p);
      } in
      (
        notify_others told player_id EventType.opponent_returned "相手が再接続しました",
        joined p r.hub.next true,
      )

-- The message of a game that did not start.
abbrev start_message : Option Error → Message
start_message none = plain "対局を開始できません"
start_message (some e) = e.message

-- join, from the answer of the engine on: `p` is the seat of the second player
unfoldable pub begin : Room → Text → Player → ℕ → Evaluated → Room × JoinResult
begin seated player_id p c (failed e) = (put_seat seated p none, broken e)
begin seated player_id p c (answer response) =
    let turned_down : Room × JoinResult =
      (put_seat seated p none, join_error player_id (start_message response.error)) in
    elim response.state [
      | none ↦ turned_down
      | some s ↦
          let playing = record seated { state = some (clone_state s); phase = RoomPhase.playing } in
          if response.ok
          then (broadcast playing (notice playing EventType.matched none ""), joined p c false)
          else turned_down
    ]

-- join, where the second player has taken the last seat `p` of `seated`
unfoldable pub start_game : Runner → Room → Text → Player → ℕ → Room × JoinResult
unfolding begin
start_game runner seated player_id p c =
    begin seated player_id p c (new_game runner seated.id seated.seed)

-- join, where the player has no seat and `p` is open
unfoldable pub take_seat : Runner → Room → Text → Player → Room × JoinResult
unfolding start_game
take_seat runner r player_id p =
    let fresh : Seat = record {
      player_id = player_id;
      events = some r.hub.next;
      connected = true;
    } in
    let seated = take r p fresh in
    if is_some seated.dark && is_some seated.light
    then start_game runner seated player_id p r.hub.next
    else (let waiting = record seated { phase = RoomPhase.waiting } in
        (
          record waiting {
            hub =
                deliver waiting.hub fresh
                  (record (notice waiting EventType.waiting none "" p) { state = none });
          },
          joined p r.hub.next false,
        ))

-- join in an open room, by the seat of the player and the seat that is open
unfoldable pub join_at :
    Runner → Room → Text → Option (Player × Seat) → Option Player → Room × JoinResult
unfolding rejoin take_seat
join_at runner r player_id (some (p, s)) free = rejoin r player_id p s
join_at runner r player_id none (some p) = take_seat runner r player_id p
join_at runner r player_id none none = (r, join_error player_id (plain "roomは満席です"))

-- func (r *Room) join
unfoldable pub join : Runner → Room → Text → Room × JoinResult
unfolding join_at
join runner r player_id =
    if is_closed r.phase
    then (r, join_error player_id (plain "roomは終了しています"))
    else join_at runner r player_id (seat_of r player_id) (open_seat r)

-- What submit returns: the response, or the failure of the engine.
pub data SubmitResult : Type 0 where
  responded : Response → SubmitResult
  broken : RunError → SubmitResult

abbrev pub refuse : ErrorCode → Message → Option State → SubmitResult
refuse code message s = responded (rejected code message s)

-- The new state, and the end of the room with the end of the game.
unfoldable pub decide : Room → State → Room
decide r s = record r {
  state = some (clone_state s);
  phase = if is_finished (clone_state s).phase then RoomPhase.closed else r.phase;
}

-- The last event of a room whose game has ended.
unfoldable pub announce_end : Room → Room
announce_end r =
    if is_closed r.phase then broadcast r (notice r EventType.closed none "対局が終了しました") else r

-- submit, after the engine has accepted a command with the new state
unfoldable pub accept : Room → Option GameEvent → State → Room
unfolding decide announce_end
accept r game_event s =
    let decided = decide r s in
    announce_end (broadcast decided (notice decided EventType.state game_event ""))

-- submit, from the state of the engine's response on
unfoldable pub settle_response : Room → State → Response → Option State → Room × SubmitResult
unfolding accept
settle_response r current response none =
    (r, responded (clone_response (record response { state = some (clone_state current) })))
settle_response r current response (some s) =
    if response.ok
    then (accept r response.event s, responded (clone_response response))
    else (r, responded (clone_response response))

-- submit, from the answer of the engine on
unfoldable pub settle : Room → State → Evaluated → Room × SubmitResult
unfolding settle_response
settle r current (failed e) = (r, broken e)
settle r current (answer response) = settle_response r current response response.state

-- submit, for a command that passed its checks, on the current state
unfoldable pub play : Runner → Room → Command → Option State → Room × SubmitResult
unfolding settle
play runner r command none = (r, refuse invalid_state (plain "相手の参加を待っています") none)
play runner r command (some current) =
    settle r current (apply_command runner (clone_state current) command)

-- submit, from the check of the command on
unfoldable pub checked : Runner → Room → Command → Option Error → Room × SubmitResult
unfolding play
checked runner r command (some e) = (r, refuse e.code e.message r.state)
checked runner r command none = play runner r command r.state

-- submit, for a player with the seat `p`
unfoldable pub submit_at : Runner → Room → Player → Command → Room × SubmitResult
unfolding checked
submit_at runner r p command =
    if is_closed r.phase
    then (r, refuse game_finished (plain "roomは終了しています") r.state)
    else if not (is_some r.state)
    then (r, refuse invalid_state (plain "相手の参加を待っています") none)
    else if not (player_eq command.player p)
    then (r, refuse not_your_turn (plain "自分の席以外のcommandは送れません") r.state)
    else checked runner r command (command_validate command)

-- func (r *Room) submit
unfoldable pub submit : Runner → Room → Text → Command → Room × SubmitResult
unfolding submit_at
submit runner r player_id command = elim (seat_of r player_id) [
  | none ↦ (r, refuse invalid_request (plain "このroomに参加していません") r.state)
  | some (p, s) ↦ submit_at runner r p command
]

-- releaseSeatsLocked, for one seat
unfoldable pub release_seat : Option Seat → Hub → Option Seat × Hub
release_seat none h = (none, h)
release_seat (some s) h = (
  some (record s { events = none; connected = false }),
  elim s.events [ none ↦ h | some c ↦ close_channel h c ],
)

-- func (r *Room) releaseSeatsLocked
unfoldable pub release_seats : Room → Room
unfolding release_seat
release_seats r =
    let (d, h) = release_seat r.dark r.hub in
    let (l, h') = release_seat r.light h in record r { dark = d; light = l; hub = h' }

-- func (r *Room) closeLocked, and close
unfoldable pub close_room : Room → String → Room
unfolding release_seats
close_room r reason =
    if is_closed r.phase
    then release_seats r
    else let ended = record r { phase = RoomPhase.closed } in
      release_seats (broadcast ended (notice ended EventType.closed none reason))

-- What leave returns: whether the room is empty now.
pub data LeaveResult : Type 0 where
  left : Bool → LeaveResult
  refused : LeaveError → LeaveResult

-- leave, up to the seat's own disconnection
unfoldable pub disconnect : Room → Player → Seat → Room
unfolding release_seat
disconnect r p s =
    if s.connected
    then (let (s', h) = release_seat (some s) r.hub in put_seat (record r { hub = h }) p s')
    else r

-- the phase of a room that one of two players has left
abbrev pub paused_phase : RoomPhase → RoomPhase
paused_phase RoomPhase.playing = RoomPhase.suspended
paused_phase x = x

-- leave, after the seat's own disconnection
unfoldable pub settle_leave : Room → Text → Room × LeaveResult
settle_leave gone player_id =
    if is_connected gone.dark || is_connected gone.light
    then (let paused = record gone { phase = paused_phase gone.phase } in
        (notify_others paused player_id EventType.opponent_left "相手が切断しました", left false))
    else (close_room gone "全員が切断しました", left true)

-- func (r *Room) leave
unfoldable pub leave : Room → Text → Room × LeaveResult
unfolding disconnect settle_leave
leave r player_id = elim (seat_of r player_id) [
  | none ↦ (r, refused (record { player_id = player_id; message = plain "このroomに参加していません" }))
  | some (p, s) ↦ settle_leave (disconnect r p s) player_id
]
