-- ===== src/Match/Room/Taken.antt =====
-- What a room holds, and what its players are told, after submit has taken a new state.
use mathlib.Core.Option
use nadesiko_reversi.Prelude.{
  ℕ, ◌≡◌, ◌≢◌, ◌∙◌, ap, refl, true, false, Option, none, some, arith, if_both, if◌then◌else◌,
}
use nadesiko_reversi.Protocol.Types.{Player, State, Event as GameEvent, is_finished}
use nadesiko_reversi.Protocol.Clone.{clone_state, clone_state_idem, clone_event as clone_game_event}
use nadesiko_reversi.Match.Types.{Event, EventType, RoomPhase, clone_event}
use nadesiko_reversi.Match.Hub.{Seat}
use nadesiko_reversi.Match.Room.{Room, is_closed, notice, broadcast, decide, announce_end, accept}
use nadesiko_reversi.Match.Room.Invariant.{IsWired, rehub-IsWired, broadcast-Keeps}
use nadesiko_reversi.Match.Room.Delivery.{Sits, enqueue, waiting_in, broadcast_delivers}

-- What a player is told of a move: the new state and the event of the move.
abbrev pub news : Room → Option GameEvent → State → Player → Event
news r event s p = record {
  type = EventType.state;
  room_id = r.id;
  seat = p;
  state = some (clone_state s);
  game_event = Option.map clone_game_event event;
  reason = "";
}

-- What a player is told at the end of the game.
abbrev pub end_news : Room → State → Player → Event
end_news r s p = record {
  type = EventType.closed;
  room_id = r.id;
  seat = p;
  state = some (clone_state s);
  game_event = none;
  reason = "対局が終了しました";
}

-- The room `t` is the room `r` with the new state `s`: closed where the game is over, and else in the
-- phase it had, with the same players, each of whom finds the news at the end of its
-- channel, if less than sixteen events wait there.
pub record Takes (r : Room) (event : Option GameEvent) (s : State) (t : Room) : Type 0 where
  pub holds : t.state ≡ some (clone_state s)
  pub ended : is_finished s.phase ≡ true → t.phase ≡ RoomPhase.closed
  pub goes_on : is_finished s.phase ≡ false → t.phase ≡ r.phase
  pub same_dark : t.dark ≡ r.dark
  pub same_light : t.light ≡ r.light
  pub told :
      IsWired r
      → r.phase ≢ RoomPhase.closed
      → is_finished s.phase ≡ false
      → (p : Player) (seat : Seat) (c : ℕ) → Sits r p seat
      → seat.events ≡ some c
      → waiting_in t.hub c ≡ enqueue (waiting_in r.hub c) (news r event s p)
  pub told_end :
      IsWired r
      → is_finished s.phase ≡ true
      → (p : Player) (seat : Seat) (c : ℕ) → Sits r p seat
      → seat.events ≡ some c
      → waiting_in t.hub c
        ≡ enqueue (enqueue (waiting_in r.hub c) (news r event s p)) (end_news r s p)

pub open_test : (p : RoomPhase) → p ≢ RoomPhase.closed → is_closed p ≡ false
open_test p h = ground arith

-- The room in the middle of the work: the state and the phase are set, the move is told.
abbrev moved : Room → Option GameEvent → State → Room
moved r event s =
    let decided = decide r s in broadcast decided (notice decided EventType.state event "")

decide-IsWired : (r : Room) (s : State) → IsWired r → IsWired (decide r s)
unfolding decide
decide-IsWired r s v = record {
  sound = v.sound;
  dark_wired = v.dark_wired;
  light_wired = v.light_wired;
  apart = v.apart;
}

moved-IsWired :
    (r : Room) (event : Option GameEvent) (s : State) → IsWired r → IsWired (moved r event s)
unfolding broadcast
moved-IsWired r event s v =
    let w = decide-IsWired r s v in
    rehub-IsWired _ _ w (broadcast-Keeps _ w.dark_wired w.light_wired _)

module _ (r : Room) (event : Option GameEvent) (s : State) where
  accept-ended :
      is_finished s.phase ≡ true
      → accept r event s
        ≡ broadcast (moved r event s) (notice (moved r event s) EventType.closed none "対局が終了しました")
  unfolding accept announce_end decide broadcast clone_state
  accept-ended h = rw h refl

  accept-goes_on :
      is_finished s.phase ≡ false → r.phase ≢ RoomPhase.closed → accept r event s ≡ moved r event s
  unfolding accept announce_end decide broadcast clone_state
  accept-goes_on h k = rw (h, open_test r.phase k) refl

  same_news :
      (p : Player)
      → clone_event
          (record (notice (decide r s) EventType.state event "" p) { room_id = r.id; seat = p })
        ≡ news r event s p
  unfolding clone_event decide
  same_news p = ap (λ t. record (news r event s p) { state = some t }) (clone_state_idem s)

  same_end_news :
      (p : Player)
      → clone_event (record (notice (moved r event s) EventType.closed none "対局が終了しました" p) {
        room_id = r.id;
        seat = p;
      })
        ≡ end_news r s p
  unfolding clone_event decide broadcast
  same_end_news p = ap (λ t. record (end_news r s p) { state = some t }) (clone_state_idem s)

  module _ (p : Player) (seat : Seat) (c : ℕ) (v : IsWired r) (sits : Sits r p seat)
      (at : seat.events ≡ some c) where
    moved-told :
        waiting_in (moved r event s).hub c ≡ enqueue (waiting_in r.hub c) (news r event s p)
    unfolding decide
    moved-told =
        broadcast_delivers (decide r s) _ p seat c (decide-IsWired r s v) sits at
        ∙ ap (enqueue (waiting_in r.hub c)) (same_news p)

    ended-told :
        waiting_in
          (broadcast
            (moved r event s)
            (notice (moved r event s) EventType.closed none "対局が終了しました")).hub
          c
        ≡ enqueue (enqueue (waiting_in r.hub c) (news r event s p)) (end_news r s p)
    unfolding decide broadcast
    ended-told =
        broadcast_delivers (moved r event s) _ p seat c (moved-IsWired r event s v) sits at
        ∙ ap (enqueue (waiting_in (moved r event s).hub c)) (same_end_news p)
        ∙ ap (λ waiting. enqueue waiting (end_news r s p)) moved-told

  accept-phase :
      (accept r event s).phase ≡ (if is_finished s.phase then RoomPhase.closed else r.phase)
  unfolding accept announce_end decide broadcast clone_state
  accept-phase =
      if_both (λ (x : Room). x.phase ≡ (moved r event s).phase) (is_closed (moved r event s).phase)
        _ _ refl refl

  accept-same :
      ((accept r event s).state ≡ some (clone_state s))
      × ((accept r event s).dark ≡ r.dark)
      × ((accept r event s).light ≡ r.light)
  unfolding accept announce_end decide broadcast
  accept-same =
      if_both
        (λ (x : Room). (x.state ≡ some (clone_state s)) × (x.dark ≡ r.dark) × (x.light ≡ r.light))
        (is_closed (moved r event s).phase) _ _ (refl, refl, refl) (refl, refl, refl)

  -- What submit does with an accepted state, in full.
  pub accept-Takes : Takes r event s (accept r event s)
  accept-Takes = record {
    holds = accept-same.0;
    ended = λ h. accept-phase ∙ rw h refl;
    goes_on = λ h. accept-phase ∙ rw h refl;
    same_dark = accept-same.1;
    same_light = accept-same.2;
    told = λ v k h p seat c sits at.
        ap (λ (x : Room). waiting_in x.hub c) (accept-goes_on h k) ∙ moved-told p seat c v sits at;
    told_end = λ v h p seat c sits at.
        ap (λ (x : Room). waiting_in x.hub c) (accept-ended h) ∙ ended-told p seat c v sits at;
  }
