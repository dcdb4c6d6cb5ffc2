-- ===== src/Runtime/Contract.antt =====
-- Whatever the engine's process prints, an answer of Gonako.Evaluate passes Response.Validate.
use nadesiko_reversi.Prelude.{
  ◌≡◌, true, false, Option, none, some, arith, refl, if_both, not, length, ◌==◌, text_eq, codes,
  is_some, ◌||◌, inl, inr, Option-cases, subst,
}
use nadesiko_reversi.Protocol.Types.{
  version, contents, Player, Action, Error, Request, Response, Command, State, Board, Phase,
  playing, finished, new_game, apply_command,
}
use nadesiko_reversi.Protocol.Codes.{code_valid, code_dec, player_valid}
use nadesiko_reversi.Protocol.Validate.{
  or_else, message_empty, board_validate, phase_validate, state_validate, command_validate,
  apply_validate, action_validate, request_validate, response_validate,
}
use nadesiko_reversi.Protocol.Validate.Requests.{
  IfGiven, error_iff, IsValidResponse, response_validate_iff,
}
use nadesiko_reversi.Runtime.{
  RunOutcome, stopped, printed, answer, Runner, rejected, decode_output, evaluate,
}

-- An error that a rejection may carry: a listed code and a message.
abbrev pub ErrorFits : Error → Type 0
ErrorFits e = (code_valid e.code ≡ true) × (message_empty e.message ≡ false)

abbrev Fits : Option Error → Type 0
Fits = IfGiven ErrorFits

or_else-Fits : (a b : Option Error) → Fits a → Fits b → Fits (or_else a b)
or_else-Fits none b f g = g
or_else-Fits (some e) b f g = f

board_validate-Fits : (b : Board) → Fits (board_validate b)
unfolding board_validate code_valid code_dec
board_validate-Fits b = ground arith

phase_validate-Fits : (p : Phase) (s : State) → Fits (phase_validate p s)
unfolding phase_validate code_valid code_dec
phase_validate-Fits playing s = ground arith
phase_validate-Fits finished s = go s.winner
  where
    go : (w : Option Player) → Fits (phase_validate finished (record s { winner = w }))
    go none = (refl, refl)
    go (some w) =
        if_both Fits (not (player_valid w)) _ _ (refl, refl)
          (if_both Fits (not (length (contents s.legal_moves) == 0)) _ _ (refl, refl) tt)
phase_validate-Fits (Phase.other t) s = tt

command_validate-Fits : (c : Command) → Fits (command_validate c)
unfolding command_validate code_valid code_dec
command_validate-Fits c = ground arith

state_validate-Fits : (s : State) → Fits (state_validate s)
unfolding state_validate code_valid code_dec
state_validate-Fits s = ground (arith, phase_validate-Fits s.phase s, board_validate-Fits s.board)

apply_validate-Fits :
    (s : Option State) (c : Option Command) (r : Request) → Fits (apply_validate s c r)
unfolding apply_validate code_valid code_dec
apply_validate-Fits none c r = (refl, refl)
apply_validate-Fits (some s) none r = (refl, refl)
apply_validate-Fits (some s) (some c) r =
    if_both Fits (not (text_eq r.game_id (codes "")) || is_some r.seed) _ _ (refl, refl)
      (or_else-Fits (state_validate s) (command_validate c) (state_validate-Fits s)
        (command_validate-Fits c))

action_validate-Fits : (a : Action) (r : Request) → Fits (action_validate a r)
unfolding action_validate code_valid code_dec
action_validate-Fits new_game r = ground arith
action_validate-Fits apply_command r = apply_validate-Fits r.state r.command r
action_validate-Fits (Action.other t) r = (refl, refl)

pub request_validate-Fits : (r : Request) → Fits (request_validate r)
unfolding request_validate code_valid code_dec
request_validate-Fits r =
    if_both Fits (not (text_eq r.version version)) _ _ (refl, refl)
      (action_validate-Fits r.action r)

rejected-IsValidResponse : (e : Error) → ErrorFits e → IsValidResponse (rejected e)
unfolding rejected
rejected-IsValidResponse e fits = record {
  versioned = refl;
  fields = inr (refl, (error_iff e).0 fits, refl, tt);
}

-- Every answer of a runner is a response of the form that Response.Validate checks.
abbrev pub IsContract : Runner → Type 0
IsContract runner = (q : Request) (a : Response) → runner q ≡ answer a → IsValidResponse a

decode_output-IsValidResponse :
    (o : RunOutcome) (a : Response) → decode_output o ≡ answer a → IsValidResponse a
unfolding decode_output
decode_output-IsValidResponse (stopped e) a h = cc
decode_output-IsValidResponse (printed none) a h = cc
decode_output-IsValidResponse (printed (some r)) a h = elim (Option-cases (response_validate r)) [
  | inl e ↦
      let same : r ≡ a = ground arith in subst IsValidResponse same ((response_validate_iff r).0 e)
  | inr (err, e) ↦ absurd (ground arith)
]

-- Whatever its process prints and whatever it is asked, every response that Gonako.Evaluate gives without an error has the form that Response.Validate checks, the refusals of malformed requests that it makes itself included. This form does not ask for the state in a refusal, nor for legal moves that are all different.
pub evaluate-IsContract : (run : Request → RunOutcome) → IsContract (evaluate run)
unfolding evaluate
evaluate-IsContract run q a h = elim (Option-cases (request_validate q)) [
  | inl e ↦ decode_output-IsValidResponse (run q) a (rw (e, evaluate) at h)
  | inr (err, e) ↦
      let answered : answer (rejected err) ≡ answer a = rw (e, evaluate) at h in
      let same : rejected err ≡ a = cc in
      subst IsValidResponse same
        (rejected-IsValidResponse err (subst (λ o. Fits o) e (request_validate-Fits q)))
]
