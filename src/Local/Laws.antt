-- ===== src/Local/Laws.antt =====
-- What a call of the local service may do to the match it holds.
use nadesiko_reversi.Prelude.{◌≡◌, refl, true, not, Option, none, some, text_eq, if_cases, arith}
use nadesiko_reversi.Protocol.Types.{
  version, Action, new_game, apply_command, State, Command, Request, Response, Error,
}
use nadesiko_reversi.Protocol.Clone.{clone_state}
use nadesiko_reversi.Protocol.Validate.{command_validate}
use nadesiko_reversi.Protocol.Validate.States.{IsValidState}
use nadesiko_reversi.Protocol.Validate.Requests.{IfGiven, IsValidResponse}
use nadesiko_reversi.Protocol.Validate.Copies.{clone_state-IsValidState, response-IsValidState}
use nadesiko_reversi.Runtime.{Evaluated, answer, failed, Runner}
use nadesiko_reversi.Runtime
use nadesiko_reversi.Runtime.Contract.{IsContract}
use nadesiko_reversi.Local.{
  Service, Reply, responded, broken, copy_response, begin, start, conclude, continue, advance,
  checked, commanded, dispatch, evaluate,
}

-- What the engine is asked for a request: the request itself for a new game, and the command on a
-- copy of the service's own state, whatever state the request carries.
pub data Asked (runner : Runner) (s : Service) (request : Request) : Evaluated → Type 0 where
  fresh : request.action ≡ new_game → Asked runner s request (runner request)
  onward :
      (command : Command) (current : State)
      → request.action ≡ apply_command
      → request.version ≡ version
      → request.command ≡ some command
      → command_validate command ≡ none
      → s.state ≡ some current
      → Asked runner s request (Runtime.apply_command runner (clone_state current) command)

-- What Evaluate may do: keep the match, or take the copy of a state that the engine has accepted.
pub data Effect (runner : Runner) (s : Service) (request : Request) : Service × Reply → Type 0 where
  kept : (reply : Reply) → Effect runner s request (s, reply)
  taken :
      (e : Evaluated) (a : Response) (state : State)
      → Asked runner s request e
      → e ≡ answer a
      → a.ok ≡ true
      → a.state ≡ some state
      → Effect runner s request
          (record s { state = some (clone_state state) }, responded (copy_response a))

module _ (runner : Runner) (s : Service) (request : Request) where
  begin-Effect :
      (a : Response)
      → Asked runner s request (answer a)
      → (o : Option State) → a.state ≡ o
      → Effect runner s request (begin s a o)
  unfolding begin
  begin-Effect a asked none e = kept _
  begin-Effect a asked (some state) e =
      if_cases (Effect runner s request) a.ok _ _ (λ ok. taken (answer a) a state asked refl ok e)
        (λ no. kept _)

  start-Effect : (e : Evaluated) → Asked runner s request e → Effect runner s request (start s e)
  unfolding start
  start-Effect (failed e) asked = kept (broken e)
  start-Effect (answer a) asked = begin-Effect a asked a.state refl

  conclude-Effect :
      (current : State) (a : Response)
      → Asked runner s request (answer a)
      → (o : Option State) → a.state ≡ o
      → Effect runner s request (conclude s current a o)
  unfolding conclude
  conclude-Effect current a asked none e = kept _
  conclude-Effect current a asked (some state) e =
      if_cases (Effect runner s request) a.ok _ _ (λ ok. taken (answer a) a state asked refl ok e)
        (λ no. kept _)

  continue-Effect :
      (current : State) (e : Evaluated)
      → Asked runner s request e
      → Effect runner s request (continue s current e)
  unfolding continue
  continue-Effect current (failed e) asked = kept (broken e)
  continue-Effect current (answer a) asked = conclude-Effect current a asked a.state refl

  module _ (act : request.action ≡ apply_command) (ver : request.version ≡ version) where
    advance-Effect :
        (c : Command)
        → request.command ≡ some c
        → command_validate c ≡ none
        → (o : Option State) → s.state ≡ o
        → Effect runner s request (advance runner s c o)
    unfolding advance
    advance-Effect c given fits none e = kept _
    advance-Effect c given fits (some current) e =
        continue-Effect current _ (onward c current act ver given fits e)

    checked-Effect :
        (c : Command)
        → request.command ≡ some c
        → (o : Option Error) → command_validate c ≡ o
        → Effect runner s request (checked runner s c o)
    unfolding checked
    checked-Effect c given none fits = advance-Effect c given fits s.state refl
    checked-Effect c given (some e) fits = kept _

    commanded-Effect :
        (o : Option Command) → request.command ≡ o → Effect runner s request (commanded runner s o)
    unfolding commanded
    commanded-Effect none given = kept _
    commanded-Effect (some c) given = checked-Effect c given (command_validate c) refl

  dispatch-Effect :
      (a : Action) → request.action ≡ a → Effect runner s request (dispatch runner s request a)
  unfolding dispatch
  dispatch-Effect new_game e = start-Effect (runner request) (fresh e)
  dispatch-Effect apply_command e =
      if_cases (Effect runner s request) (not (text_eq request.version version)) _ _ (λ no. kept _)
        (λ same. commanded-Effect e (ground (arith, same)) request.command refl)
  dispatch-Effect (Action.other t) e = kept _

  -- Whatever the request and the engine's answer, Evaluate keeps the match, or it takes the copy of
  -- a state that the engine has accepted when asked for a new game, or for a checked command on a
  -- copy of the service's own state.
  pub evaluate-Effect : Effect runner s request (evaluate runner s request)
  unfolding evaluate
  evaluate-Effect = dispatch-Effect request.action refl

-- Any number of calls, each with an engine that keeps the contract.
pub data Served (s : Service) : Service → Type 0 where
  here : Served s s
  next :
      {t : Service} (runner : Runner) (request : Request)
      → IsContract runner
      → Served s t
      → Served s (evaluate runner t request).0

Asked-IsValidResponse :
    (runner : Runner) (s : Service) (request : Request) (e : Evaluated) (a : Response)
    → IsContract runner
    → Asked runner s request e
    → e ≡ answer a
    → IsValidResponse a
unfolding Runtime.apply_command
Asked-IsValidResponse runner s request e a contract (fresh act) h = contract request a h
Asked-IsValidResponse runner s request e a contract (onward c current act ver given fits held) h =
    contract _ a h

Effect-valid :
    (runner : Runner) (s : Service) (request : Request) (x : Service × Reply)
    → IsContract runner
    → Effect runner s request x
    → IfGiven IsValidState s.state
    → IfGiven IsValidState x.0.state
Effect-valid runner s request x contract (kept reply) v = v
Effect-valid runner s request x contract (taken e a state asked h ok f) v =
    clone_state-IsValidState state (
      response-IsValidState a state (Asked-IsValidResponse runner s request e a contract asked h) f)

-- From a service that holds no match or a valid state, any sequence of requests, well formed or not,
-- with engines that keep the contract leads to a service that holds no match or a valid state.
pub Served-valid :
    {s t : Service} → Served s t → IfGiven IsValidState s.state → IfGiven IsValidState t.state
Served-valid here v = v
Served-valid (next {t} runner request contract path) v =
    Effect-valid runner t request _ contract (evaluate-Effect runner t request)
      (Served-valid path v)
