-- ===== src/Match/Room/Commands.antt =====
-- Commands: what an accepted one has passed, and that a refused one changes nothing.
use nadesiko_reversi.Prelude.{
  ◌≡◌, ◌≢◌, refl, true, not, Option, none, some, Text, arith, is_some, if_cases, Option-cases, inl,
  inr,
}
use nadesiko_reversi.Protocol.Types.{Player, player_eq, State, Command, Response, Error}
use nadesiko_reversi.Protocol.Clone.{clone_state, clone_response}
use nadesiko_reversi.Protocol.Validate.{command_validate}
use nadesiko_reversi.Runtime.{Runner, Evaluated, answer, failed, apply_command}
use nadesiko_reversi.Match.Types.{RoomPhase}
use nadesiko_reversi.Match.Hub.{Seat}
use nadesiko_reversi.Match.Room.{
  Room, SubmitResult, responded, is_closed, seat_of, accept, settle_response, settle, checked, play,
  submit_at, submit,
}
use nadesiko_reversi.Match.Room.Joining.{open_phase}
use nadesiko_reversi.Match.Room.Taken.{Takes, accept-Takes}

-- What the room has checked when it lets the engine see the command `c` of a player.
pub record MayPlay (r : Room) (id : Text) (c : Command) : Type 0 where
  pub player : Player
  pub seat : Seat
  pub seated : seat_of r id ≡ some (player, seat)
  pub own_seat : player_eq c.player player ≡ true
  pub well_formed : command_validate c ≡ none
  pub phase_open : r.phase ≢ RoomPhase.closed
  pub current : State
  pub started : r.state ≡ some current

-- The room after a submission: unchanged with any result, or the room that has taken the state of an
-- accepting answer to a command that may be played.
pub data Outcome (runner : Runner) (r : Room) (id : Text) (c : Command)
    : Room × SubmitResult → Type 0 where
  refused : (q : SubmitResult) → Outcome runner r id c (r, q)
  accepted :
      (m : MayPlay r id c) (a : Response) (s : State)
      → apply_command runner (clone_state m.current) c ≡ answer a
      → a.ok ≡ true
      → a.state ≡ some s
      → (t : Room) → Takes r a.event s t
      → Outcome runner r id c (t, responded (clone_response a))

settle_response-Outcome :
    (runner : Runner) (r : Room) (id : Text) (c : Command) (m : MayPlay r id c) (a : Response)
    (o : Option State)
    → apply_command runner (clone_state m.current) c ≡ answer a
    → a.state ≡ o
    → Outcome runner r id c (settle_response r m.current a o)
unfolding settle_response
settle_response-Outcome runner r id c m a none h e = refused _
settle_response-Outcome runner r id c m a (some s) h e =
    if_cases (Outcome runner r id c) a.ok _ _
      (λ ok. accepted m a s h ok e (accept r a.event s) (accept-Takes r a.event s)) (λ _. refused _)

settle-Outcome :
    (runner : Runner) (r : Room) (id : Text) (c : Command) (m : MayPlay r id c) (e : Evaluated)
    → apply_command runner (clone_state m.current) c ≡ e
    → Outcome runner r id c (settle r m.current e)
unfolding settle
settle-Outcome runner r id c m (failed e) h = refused _
settle-Outcome runner r id c m (answer a) h =
    settle_response-Outcome runner r id c m a a.state h refl

module _ (runner : Runner) (r : Room) (id : Text) (c : Command) (p : Player) (s : Seat)
    (seated : seat_of r id ≡ some (p, s)) where
  play-Outcome :
      (o : Option State)
      → r.state ≡ o
      → r.phase ≢ RoomPhase.closed
      → player_eq c.player p ≡ true
      → command_validate c ≡ none
      → Outcome runner r id c (play runner r c o)
  unfolding play
  play-Outcome none e open_room own valid = refused _
  play-Outcome (some current) e open_room own valid =
      settle-Outcome runner r id c may (apply_command runner (clone_state current) c) refl
    where
      may : MayPlay r id c
      may = record {
        player = p;
        seat = s;
        seated = seated;
        own_seat = own;
        well_formed = valid;
        phase_open = open_room;
        current = current;
        started = e;
      }

  checked-Outcome :
      (o : Option Error)
      → command_validate c ≡ o
      → r.phase ≢ RoomPhase.closed
      → player_eq c.player p ≡ true
      → Outcome runner r id c (checked runner r c o)
  unfolding checked
  checked-Outcome (some e) h open_room own = refused _
  checked-Outcome none h open_room own = play-Outcome r.state refl open_room own h

  submit_at-Outcome : Outcome runner r id c (submit_at runner r p c)
  unfolding submit_at
  submit_at-Outcome =
      if_cases (Outcome runner r id c) (is_closed r.phase) _ _ (λ _. refused _)
        λ open_room.
          if_cases (Outcome runner r id c) (not (is_some r.state)) _ _ (λ _. refused _)
            λ _.
              if_cases (Outcome runner r id c) (not (player_eq c.player p)) _ _ (λ _. refused _)
                λ own.
                  checked-Outcome (command_validate c) refl (open_phase r.phase open_room)
                    (ground arith)

-- A submission either leaves the whole room as it was, or gives a room that holds a copy of the state of an accepting answer, to a command that its sender may play: sent in an open, started room by the player whose seat the command names, and well formed. That room keeps its players, is closed if the game is over and else stays in its phase, and where its channels were wired, each player's channel has the new state and event behind the events that wait there, and the end of the game after it; each of the two is lost where sixteen wait.
pub submit-Outcome :
    (runner : Runner) (r : Room) (id : Text) (c : Command)
    → Outcome runner r id c (submit runner r id c)
unfolding submit
submit-Outcome runner r id c = elim (Option-cases (seat_of r id)) [
  | inl e ↦ rw (e, submit) (refused _)
  | inr ((p, s), e) ↦ rw (e, submit) (submit_at-Outcome runner r id c p s e)
]
