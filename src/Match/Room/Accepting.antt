-- ===== src/Match/Room/Accepting.antt =====
-- A command that may be played, and that the engine accepts, is played.
use nadesiko_reversi.Prelude.{
  ◌≡◌, ◌≢◌, ◌∙◌, ap, subst, true, false, not, Option, none, some, Text, arith, is_some, if_cases,
  Bool, if◌then◌else◌,
}
use nadesiko_reversi.Protocol.Types.{Player, player_eq, State, Command, Response, Error}
use nadesiko_reversi.Protocol.Clone.{clone_state, clone_response}
use nadesiko_reversi.Protocol.Validate.{command_validate}
use nadesiko_reversi.Runtime.{Runner, Evaluated, answer, failed, apply_command}
use nadesiko_reversi.Match.Types.{RoomPhase}
use nadesiko_reversi.Match.Hub.{Seat}
use nadesiko_reversi.Match.Room.{
  Room, SubmitResult, responded, is_closed, seat_of, accept, settle_response, settle, checked, play,
  submit_at, submit,
}
use nadesiko_reversi.Match.Room.Commands.{MayPlay}
use nadesiko_reversi.Match.Room.Taken.{open_test, Takes, accept-Takes}

-- The test fails, so its first branch is not taken.
past {ℓ} : {A : Type ℓ} (b : Bool) (x y z : A) → b ≡ false → y ≡ z → (if b then x else y) ≡ z
past true x y z e f = absurd cc
past false x y z e f = f

module _ (r : Room) (a : Response) (s : State) (ok : a.ok ≡ true) (given : a.state ≡ some s) where
  -- What a submission gives whose command is played.
  abbrev pub played : Room × SubmitResult
  played = (accept r a.event s, responded (clone_response a))

  settle_response-played :
      (current : State) (o : Option State) → o ≡ some s → settle_response r current a o ≡ played
  unfolding settle_response
  settle_response-played current none e = absurd cc
  settle_response-played current (some t) e =
      if_cases (λ (x : Room × SubmitResult). x ≡ played) a.ok _ _
        (λ yes.
          let same : t ≡ s = cc in
          ap (λ u. (accept r a.event u, responded (clone_response a))) same)
        (λ no. absurd (ground (arith, ok, no)))

  settle-played : (current : State) (e : Evaluated) → e ≡ answer a → settle r current e ≡ played
  unfolding settle
  settle-played current (failed e) h = absurd cc
  settle-played current (answer b) h =
      let same : a ≡ b = cc in
      subst (λ x. settle_response r current x x.state ≡ played) same
        (settle_response-played current a.state given)

  module _ (runner : Runner) (c : Command) (current : State)
      (answered : apply_command runner (clone_state current) c ≡ answer a) where
    play-played : (o : Option State) → o ≡ some current → play runner r c o ≡ played
    unfolding play
    play-played none e = absurd cc
    play-played (some t) e =
        let same : current ≡ t = cc in
        subst (λ x. settle r x (apply_command runner (clone_state x) c) ≡ played) same
          (settle-played current _ answered)

    checked-played :
        (o : Option Error) → o ≡ none → r.state ≡ some current → checked runner r c o ≡ played
    unfolding checked
    checked-played none e started = play-played r.state started
    checked-played (some err) e started = absurd cc

    submit_at-played :
        (p : Player)
        → r.phase ≢ RoomPhase.closed
        → player_eq c.player p ≡ true
        → command_validate c ≡ none
        → r.state ≡ some current
        → submit_at runner r p c ≡ played
    unfolding submit_at
    submit_at-played p phase_open own valid started =
        past (is_closed r.phase) _ _ played (open_test r.phase phase_open) (
          past (not (is_some r.state)) _ _ played (ground (arith, started)) (
            past (not (player_eq c.player p)) _ _ played (ground (arith, own))
              (checked-played (command_validate c) valid started)))

submit_from_seat :
    (runner : Runner) (r : Room) (id : Text) (c : Command) (p : Player) (s : Seat)
    → seat_of r id ≡ some (p, s)
    → submit runner r id c ≡ submit_at runner r p c
unfolding submit
submit_from_seat runner r id c p s e = rw (e, submit)

-- A command that its sender may play in the room, when the engine accepts it on a copy of the room's state with a new state, is played: the sender gets a copy of the engine's response, and the room holds a copy of the new state. The room keeps its players, is closed if the game is over and else stays in its phase, and where its channels were wired, each player's channel has the new state and event behind the events that wait there, and the end of the game after it; each of the two is lost where sixteen wait.
pub submit-accept :
    (runner : Runner) (r : Room) (id : Text) (c : Command) (m : MayPlay r id c) (a : Response)
    (s : State)
    → apply_command runner (clone_state m.current) c ≡ answer a
    → a.ok ≡ true
    → a.state ≡ some s
    → (t : Room) × (submit runner r id c ≡ (t, responded (clone_response a))) × Takes r a.event s t
submit-accept runner r id c m a s answered ok given = (
  accept r a.event s,
  submit_from_seat runner r id c m.player m.seat m.seated
      ∙ submit_at-played r a s ok given runner c m.current answered m.player m.phase_open m.own_seat
          m.well_formed m.started,
  accept-Takes r a.event s,
)
