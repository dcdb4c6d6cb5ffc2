-- ===== src/Match/Room/Playing.antt =====
-- A command keeps the invariant of the room, whatever the engine answers.
use nadesiko_reversi.Prelude.{
  ◌≡◌, ◌≢◌, refl, Option, none, some, Text, is_some, if◌then◌else◌, Option-cases, if_both, inl, inr,
  not,
}
use nadesiko_reversi.Protocol.Types.{
  Player, State, Command, Response, player_eq, is_finished, Event as GameEvent, Error,
}
use nadesiko_reversi.Protocol.Clone.{clone_state}
use nadesiko_reversi.Protocol.Validate.{command_validate}
use nadesiko_reversi.Runtime.{Runner, Evaluated, answer, failed, apply_command}
use nadesiko_reversi.Match.Types.{RoomPhase}
use nadesiko_reversi.Match.Room.{
  Room, SubmitResult, seat_of, is_closed, play, submit_at, announce_end, decide, accept,
  settle_response, settle, checked, submit,
}
use nadesiko_reversi.Match.Room.Invariant.{PhaseFits, IsWellFormed, broadcast-IsWellFormed}
use nadesiko_reversi.Match.Room.Seating.{rephase-IsWired}

-- An accepted state is what a playing or suspended room may hold.
decided-IsWellFormed :
    (r : Room) (s : State)
    → IsWellFormed r
    → r.state ≢ none
    → IsWellFormed (record r {
      state = some s;
      phase = if is_finished s.phase then RoomPhase.closed else r.phase;
    })
decided-IsWellFormed r s v started = record {
  wiring = rephase-IsWired r _ _ v.wiring;
  phase_fits =
      if_both (λ (x : RoomPhase). PhaseFits x r.dark r.light (some s)) (is_finished s.phase)
        RoomPhase.closed r.phase tt (fits r.phase v.phase_fits);
}
  where
    fits :
        (x : RoomPhase) → PhaseFits x r.dark r.light r.state → PhaseFits x r.dark r.light (some s)
    fits RoomPhase.waiting h = absurd (started h.2)
    fits RoomPhase.playing h = (h.0, h.1, λ e. cc)
    fits RoomPhase.suspended h = (h.0, h.1, h.2, h.3, λ e. cc)
    fits RoomPhase.closed h = tt

announce_end-IsWellFormed : (r : Room) → IsWellFormed r → IsWellFormed (announce_end r)
unfolding announce_end
announce_end-IsWellFormed r v =
    if_both IsWellFormed (is_closed r.phase) _ _ (broadcast-IsWellFormed r _ v) v

accept-IsWellFormed :
    (r : Room) (e : Option GameEvent) (s : State)
    → IsWellFormed r
    → r.state ≢ none
    → IsWellFormed (accept r e s)
unfolding accept decide
accept-IsWellFormed r e s v started =
    announce_end-IsWellFormed _
      (broadcast-IsWellFormed _ _ (decided-IsWellFormed r (clone_state s) v started))

settle_response-IsWellFormed :
    (r : Room) (current : State) (a : Response) (o : Option State)
    → IsWellFormed r
    → r.state ≢ none
    → IsWellFormed (settle_response r current a o).0
unfolding settle_response
settle_response-IsWellFormed r current a none v started = v
settle_response-IsWellFormed r current a (some s) v started =
    if_both (λ (x : Room × SubmitResult). IsWellFormed x.0) a.ok _ _
      (accept-IsWellFormed r a.event s v started) v

settle-IsWellFormed :
    (r : Room) (current : State) (e : Evaluated)
    → IsWellFormed r
    → r.state ≢ none
    → IsWellFormed (settle r current e).0
unfolding settle
settle-IsWellFormed r current (failed e) v started = v
settle-IsWellFormed r current (answer a) v started =
    settle_response-IsWellFormed r current a a.state v started

play-IsWellFormed :
    (runner : Runner) (r : Room) (c : Command) (o : Option State)
    → IsWellFormed r
    → r.state ≡ o
    → IsWellFormed (play runner r c o).0
unfolding play
play-IsWellFormed runner r c none v e = v
play-IsWellFormed runner r c (some s) v e =
    settle-IsWellFormed r s (apply_command runner (clone_state s) c) v (λ f. cc)

checked-IsWellFormed :
    (runner : Runner) (r : Room) (c : Command) (o : Option Error)
    → IsWellFormed r
    → IsWellFormed (checked runner r c o).0
unfolding checked
checked-IsWellFormed runner r c (some e) v = v
checked-IsWellFormed runner r c none v = play-IsWellFormed runner r c r.state v refl

submit_at-IsWellFormed :
    (runner : Runner) (r : Room) (p : Player) (c : Command)
    → IsWellFormed r
    → IsWellFormed (submit_at runner r p c).0
unfolding submit_at
submit_at-IsWellFormed runner r p c v = if_both WF (is_closed r.phase) _ _ v (
    if_both WF (not (is_some r.state)) _ _ v (
      if_both WF (not (player_eq c.player p)) _ _ v
        (checked-IsWellFormed runner r c (command_validate c) v)))
  where
    WF : Room × SubmitResult → Type 0
    WF x = IsWellFormed x.0

-- A command keeps the invariant, on every branch.
pub submit-IsWellFormed :
    (runner : Runner) (r : Room) (id : Text) (c : Command)
    → IsWellFormed r
    → IsWellFormed (submit runner r id c).0
unfolding submit
submit-IsWellFormed runner r id c v = elim (Option-cases (seat_of r id)) [
  | inl e ↦ rw (e, submit) v
  | inr ((p, s), e) ↦ rw (e, submit) (submit_at-IsWellFormed runner r p c v)
]
