-- ===== src/Local/Answers.antt =====
-- What the local service shows: the state with every answer to a command, and the HTTP status.
use mathlib.Core.Option
use nadesiko_reversi.Prelude.{
  ◌≡◌, ◌≢◌, refl, sym, subst, Bool, true, false, not, Option, none, some, text_eq, if_both, arith,
}
use nadesiko_reversi.Protocol.Types.{
  version, apply_command, State, Command, Request, Response, Error,
}
use nadesiko_reversi.Protocol.Clone.{clone_state}
use nadesiko_reversi.Protocol.Validate.{command_validate}
use nadesiko_reversi.Runtime.{RunError, Evaluated, answer, failed, Runner}
use nadesiko_reversi.Local.{
  Service, Reply, responded, broken, copy_response, rejected, conclude, continue, advance, checked,
  commanded, dispatch, evaluate, page, serve,
}
use nadesiko_reversi.Local.Laws.{Effect, kept, taken, evaluate-Effect}

-- A response comes with a state.
abbrev pub Shows : Reply → Type 0
Shows (responded a) = a.state ≢ none
Shows (broken e) = Unit

rejected-Shows :
    (s : Service) (current : State) → s.state ≡ some current → Option.map clone_state s.state ≢ none
rejected-Shows s current e = rw e (λ h. cc)

conclude-Shows :
    (s : Service) (current : State) (a : Response) (o : Option State)
    → a.state ≡ o
    → Shows (conclude s current a o).1
unfolding conclude copy_response
conclude-Shows s current a none e = λ h. cc
conclude-Shows s current a (some t) e =
    if_both (λ (x : Service × Reply). Shows x.1) a.ok _ _ (rw e (λ h. cc)) (rw e (λ h. cc))

continue-Shows : (s : Service) (current : State) (e : Evaluated) → Shows (continue s current e).1
unfolding continue
continue-Shows s current (failed e) = tt
continue-Shows s current (answer a) = conclude-Shows s current a a.state refl

module _ (runner : Runner) (s : Service) (current : State) (e : s.state ≡ some current) where
  advance-Shows : (c : Command) (o : Option State) → s.state ≡ o → Shows (advance runner s c o).1
  unfolding advance rejected
  advance-Shows c none f = absurd (ground (arith, e, f))
  advance-Shows c (some t) f = continue-Shows s t _

  checked-Shows : (c : Command) (o : Option Error) → Shows (checked runner s c o).1
  unfolding checked rejected
  checked-Shows c none = advance-Shows c s.state refl
  checked-Shows c (some err) = rejected-Shows s current e

  commanded-Shows : (o : Option Command) → Shows (commanded runner s o).1
  unfolding commanded rejected
  commanded-Shows none = rejected-Shows s current e
  commanded-Shows (some c) = checked-Shows c (command_validate c)

-- While the service holds a match, every response to an applyCommand request comes with a state,
-- whether the command is refused by the service, refused by the engine or accepted.
pub answers_with_state :
    (runner : Runner) (s : Service) (current : State) (request : Request)
    → s.state ≡ some current
    → request.action ≡ apply_command
    → Shows (evaluate runner s request).1
unfolding evaluate dispatch rejected
answers_with_state runner s current request e act =
    subst (λ a. Shows (dispatch runner s request a).1) (sym act)
      (if_both (λ (x : Service × Reply). Shows x.1) (not (text_eq request.version version)) _ _
        (rejected-Shows s current e) (commanded-Shows runner s current e request.command))

page-status : (s : Service) (e : RunError) → (page s (broken e)).0 ≢ 200
unfolding page
page-status s e = ground arith

Effect-page :
    (runner : Runner) (s : Service) (request : Request) (x : Service × Reply)
    → Effect runner s request x
    → (page x.0 x.1).0 ≢ 200
    → x.0.state ≡ s.state
unfolding page
Effect-page runner s request x (kept reply) bad = refl
Effect-page runner s request x (taken e a state asked h ok f) bad = absurd (bad refl)

-- A request that is answered by a page with another status than 200 has left the match as it was.
pub failing_page_keeps :
    (runner : Runner) (s : Service) (body : Option Request) (ends : Bool)
    → (serve runner s body ends).1.0 ≢ 200
    → (serve runner s body ends).0.state ≡ s.state
unfolding serve
failing_page_keeps runner s none ends bad = refl
failing_page_keeps runner s (some request) false bad = refl
failing_page_keeps runner s (some request) true bad =
    Effect-page runner s request _ (evaluate-Effect runner s request) bad
