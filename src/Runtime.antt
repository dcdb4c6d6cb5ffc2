-- ===== src/Runtime.antt =====
-- server/internal/runtime: the boundary to the rule engine.
--
-- The engine is a process of its own: what one call of it prints is a parameter, a value of
-- `RunOutcome` for each request.
pub mod Contract
use nadesiko_reversi.Prelude.{◌≡◌, refl, true, false, Bool, Option, none, some, Text, ℕ, arith}
use nadesiko_reversi.Prelude.Int.{ℤ}
use nadesiko_reversi.Protocol.Types.{
  version, Error, ErrorCode, State, Command, Request, Response, new_game_request,
  apply_command_request,
}
use nadesiko_reversi.Protocol.Validate.{request_validate, response_validate}

-- The failures of the engine: TimeoutError, ExecError with its exit code, DecodeError with the
-- breach of the contract where the output was a response, and a cancelled context.
pub data RunError : Type 0 where
  timeout : RunError
  exec : ℤ → RunError
  decode : Option Error → RunError
  canceled : RunError

-- What Gonako.run leaves to Evaluate: an error, or an output that may decode as a response.
pub data RunOutcome : Type 0 where
  stopped : RunError → RunOutcome
  printed : Option Response → RunOutcome

-- The pair (response, err) of Runner.Evaluate.
pub data Evaluated : Type 0 where
  answer : Response → Evaluated
  failed : RunError → Evaluated

-- The interface Runner.
abbrev pub Runner : Type 0
Runner = Request → Evaluated

-- func rejected, of runtime.go
unfoldable pub rejected : Error → Response
rejected e = record { version = version; ok = false; state = none; event = none; error = some e }

-- Evaluate after the process has ended
unfoldable pub decode_output : RunOutcome → Evaluated
decode_output (stopped e) = failed e
decode_output (printed none) = failed (decode none)
decode_output (printed (some response)) = elim (response_validate response) [
  | none ↦ answer response
  | some e ↦ failed (decode (some e))
]

-- func (g *Gonako) Evaluate
unfoldable pub evaluate : (Request → RunOutcome) → Runner
unfolding decode_output rejected
evaluate run request = elim (request_validate request) [
  | none ↦ decode_output (run request)
  | some e ↦ answer (rejected e)
]

-- func NewGame
unfoldable pub new_game : Runner → Text → ℕ → Evaluated
new_game runner game_id seed = runner (new_game_request game_id seed)

-- func ApplyCommand
unfoldable pub apply_command : Runner → State → Command → Evaluated
apply_command runner s c = runner (apply_command_request s c)
