-- ===== src/Tests/Rooms.antt =====
-- Rooms, on concrete values: alice and bob meet, play, leave and come back.
use nadesiko_reversi.Prelude.{
  sym, ◌∙◌, ℕ, ◌≡◌, ◌≢◌, ◌≤◌, refl, inl, inr, true, false, none, some, codes, text_dec, length,
}
use nadesiko_reversi.Protocol.Types.{light, dark, Player}
use nadesiko_reversi.Runtime.{Runner, failed, timeout, new_game, apply_command, answer}
use nadesiko_reversi.Match.Types.{RoomPhase, EventType, Event}
use nadesiko_reversi.Match.Hub.{Seat, event_buffer, no_channels, make_channel}
use nadesiko_reversi.Match.Room.{
  JoinResult, responded, Room, new_room, join, take, open_seat, seat_of, submit, leave, left,
  joined, broadcast, notice,
}
use nadesiko_reversi.Match.Room.Invariant.{IsWellFormed, new_room-IsWellFormed}
use nadesiko_reversi.Match.Room.History.{
  joins, leaves, Reach, here, next, Reach-IsWellFormed, Reach-new_room, closed_is_final,
}
use nadesiko_reversi.Match.Room.Commands.{MayPlay, Outcome, submit-Outcome}
use nadesiko_reversi.Match.Room.Valid.{HoldsValid, Step-HoldsValid}
use nadesiko_reversi.Match.Room.Delivery.{Sits, enqueue, addressed, waiting_in, broadcast_delivers}
use nadesiko_reversi.Protocol.Clone.{clone_state, clone_response}
use nadesiko_reversi.Protocol.Validate.{command_validate}
use nadesiko_reversi.Protocol.Codes.{player_valid}
use nadesiko_reversi.Protocol.Board.{in_bounds}
use nadesiko_reversi.Match.Room.Accepting.{submit-accept}
use nadesiko_reversi.Match.Room.Taken.{Takes}
use nadesiko_reversi.Match.Room.Meeting.{newcomer, second_player_starts, second_player_fails}
use nadesiko_reversi.Match.Room.Reconnect.{reconnect}
use nadesiko_reversi.Tests.Values.{opened, opening, placing, engine, engine-IsContract, alice, bob}

abbrev empty_room : Room
empty_room = new_room (codes "room-1") 7

abbrev alone : Room
alone = (join engine empty_room alice).0

abbrev started : Room
started = (join engine alone bob).0

abbrev met : Reach empty_room started
met = next (next here (joins engine alice)) (joins engine bob)

Reach-new_room_example :
    IsWellFormed started
    × (started.hub.fault ≡ false)
    × ((i : ℕ) → length (started.hub.channels i).buffer ≤ event_buffer)
Reach-new_room_example = Reach-new_room (codes "room-1") 7 started met

started-IsWellFormed : IsWellFormed started
started-IsWellFormed = Reach-IsWellFormed (new_room-IsWellFormed (codes "room-1") 7) met

abbrev over : Room
over = record started { phase = RoomPhase.closed }

closed_is_final_example :
    ((leave over alice).0.phase ≡ RoomPhase.closed) × ((leave over alice).0.state ≡ over.state)
closed_is_final_example = closed_is_final (leaves alice) refl

submit-Outcome_example : Outcome engine started alice placing (submit engine started alice placing)
submit-Outcome_example = submit-Outcome engine started alice placing

empty_room-HoldsValid : HoldsValid empty_room
unfolding new_room
empty_room-HoldsValid = tt

Step-HoldsValid_example : HoldsValid alone
Step-HoldsValid_example =
    Step-HoldsValid (joins engine alice) engine-IsContract empty_room-HoldsValid

started-playing : started.phase ≡ RoomPhase.playing
unfolding join new_room open_seat seat_of text_dec broadcast take new_game
started-playing = refl

alice_seat :
    seat_of started alice
    ≡ some (dark, record { player_id = alice; events = some 0; connected = true })
unfolding join new_room open_seat seat_of text_dec broadcast no_channels make_channel take new_game
alice_seat = refl

reconnect_example :
    let away = leave started alice in
    let back = join engine away.0 alice in
    (away.1 ≡ left false)
    × (away.0.phase ≡ RoomPhase.suspended)
    × (back.1 ≡ joined dark away.0.hub.next true)
    × (back.0.phase ≡ RoomPhase.playing)
    × (back.0.state ≡ started.state)
reconnect_example =
    reconnect engine started alice dark _ started-IsWellFormed started-playing alice_seat

abbrev news : Player → Event
news p = notice started EventType.matched none "" p

alice_sits : started.dark ≡ some (record { player_id = alice; events = some 0; connected = true })
unfolding join new_room open_seat seat_of text_dec broadcast no_channels make_channel take new_game
alice_sits = refl

broadcast_delivers_example :
    waiting_in (broadcast started news).hub 0
    ≡ enqueue (waiting_in started.hub 0) (addressed started news dark)
broadcast_delivers_example =
    broadcast_delivers started news dark
      (record { player_id = alice; events = some 0; connected = true }) 0
      started-IsWellFormed.wiring (inl (refl, alice_sits)) refl

empty_room-seats : (p : Player) (s : Seat) → Sits empty_room p s → s.events ≢ some 3
unfolding new_room
empty_room-seats p s (inl (e, f)) h = cc
empty_room-seats p s (inr (e, f)) h = cc

started-state : started.state ≡ some (clone_state opening)
unfolding join new_room open_seat seat_of text_dec broadcast take new_game
started-state = refl

placing-valid : command_validate placing ≡ none
unfolding command_validate player_valid in_bounds text_dec
placing-valid = refl

alice-MayPlay : MayPlay started alice placing
alice-MayPlay = record {
  player = dark;
  seat = record { player_id = alice; events = some 0; connected = true };
  seated = alice_seat;
  own_seat = refl;
  well_formed = placing-valid;
  phase_open = λ e. open_phases (sym started-playing ∙ e);
  current = clone_state opening;
  started = started-state;
}
  where
    open_phases : RoomPhase.playing ≢ RoomPhase.closed
    open_phases e = cc

engine_answers : apply_command engine (clone_state alice-MayPlay.current) placing ≡ answer opened
unfolding apply_command
engine_answers = refl

submit-accept_example :
    (t : Room) × (submit engine started alice placing ≡ (t, responded (clone_response opened)))
    × Takes started opened.event opening t
submit-accept_example =
    submit-accept engine started alice placing alice-MayPlay opened opening engine_answers refl refl

abbrev alice_alone : Seat
alice_alone = record { player_id = alice; events = some 0; connected = true }

alone-waiting : alone.phase ≡ RoomPhase.waiting
unfolding join new_room open_seat seat_of text_dec take
alone-waiting = refl

alone-dark : alone.dark ≡ some alice_alone
unfolding join new_room open_seat seat_of text_dec take no_channels
alone-dark = refl

alone-light : alone.light ≡ none
unfolding join new_room open_seat seat_of text_dec take
alone-light = refl

alice-other : alice ≢ bob
alice-other e = cc

engine_begins : new_game engine alone.id alone.seed ≡ answer opened
unfolding new_game
engine_begins = refl

second_player_starts_example :
    ((join engine alone bob).1 ≡ joined light alone.hub.next false)
    × ((join engine alone bob).0.phase ≡ RoomPhase.playing)
    × ((join engine alone bob).0.state ≡ some (clone_state opening))
    × ((join engine alone bob).0.dark ≡ alone.dark)
    × ((join engine alone bob).0.light ≡ some (newcomer bob alone.hub.next))
second_player_starts_example =
    second_player_starts engine alone bob alice_alone opened opening alone-waiting alone-dark
      alone-light alice-other engine_begins refl refl

abbrev stalled : Runner
stalled request = failed timeout

stalled_fails : new_game stalled alone.id alone.seed ≡ failed timeout
unfolding new_game
stalled_fails = refl

second_player_fails_example :
    ((join stalled alone bob).1 ≡ JoinResult.broken timeout)
    × ((join stalled alone bob).0.phase ≡ alone.phase)
    × ((join stalled alone bob).0.state ≡ alone.state)
    × ((join stalled alone bob).0.dark ≡ alone.dark)
    × ((join stalled alone bob).0.light ≡ alone.light)
second_player_fails_example =
    second_player_fails stalled alone bob alice_alone timeout alone-waiting alone-dark alone-light
      alice-other stalled_fails
