-- ===== src/Local.antt =====
-- server/internal/localgame: one match in memory for two players at one screen.
--
-- The mutex makes each call one step. The engine is the parameter `Runner`; what the HTTP body
-- decodes to is a parameter of `serve`.
pub mod Laws
pub mod Answers
use mathlib.Core.Option
use nadesiko_reversi.Prelude.{
  ℕ, String, Bool, true, false, not, ◌&&◌, Option, none, some, [], text_eq, if◌then◌else◌,
}
use nadesiko_reversi.Protocol.Types.{
  version, Action, new_game, apply_command, State, Command, Request, Response, ErrorCode, Error,
  Message, unsupported_version, invalid_request, invalid_state, invalid_json,
}
use nadesiko_reversi.Protocol.Clone.{clone_state, clone_event}
use nadesiko_reversi.Protocol.Validate.{command_validate}
use nadesiko_reversi.Runtime.{RunError, timeout, Evaluated, answer, failed, Runner}
use nadesiko_reversi.Runtime

-- type Service; the runner is an argument of evaluate
pub record Service : Type 0 where
  pub state : Option State

-- func NewService
abbrev pub new_service : Service
new_service = record { state = none }

abbrev pub say : String → Message
say format = record { format = format; args = [] }

-- func rejected
unfoldable pub rejected : ErrorCode → Message → Option State → Response
rejected code message state = record {
  version = version;
  ok = false;
  state = Option.map clone_state state;
  event = none;
  error = some (record { code = code; message = message });
}

-- func cloneResponse
unfoldable pub copy_response : Response → Response
copy_response r = record r {
  state = Option.map clone_state r.state;
  event = Option.map clone_event r.event;
}

-- The pair (response, err) of Evaluate.
pub data Reply : Type 0 where
  responded : Response → Reply
  broken : RunError → Reply

-- Evaluate for newGame, from the response and its state on
unfoldable pub begin : Service → Response → Option State → Service × Reply
begin s response none = (s, responded (copy_response response))
begin s response (some state) =
    if response.ok
    then (record s { state = some (clone_state state) }, responded (copy_response response))
    else (s, responded (copy_response response))

-- Evaluate for newGame, from the answer of the engine on
unfoldable pub start : Service → Evaluated → Service × Reply
unfolding begin
start s (failed e) = (s, broken e)
start s (answer response) = begin s response response.state

-- Evaluate for applyCommand with the state `current`, from the response and its state on
unfoldable pub conclude : Service → State → Response → Option State → Service × Reply
conclude s current response none =
    (s, responded (copy_response (record response { state = some (clone_state current) })))
conclude s current response (some state) =
    if response.ok
    then (record s { state = some (clone_state state) }, responded (copy_response response))
    else (s, responded (copy_response response))

-- Evaluate for applyCommand with the state `current`, from the answer of the engine on
unfoldable pub continue : Service → State → Evaluated → Service × Reply
unfolding conclude
continue s current (failed e) = (s, broken e)
continue s current (answer response) = conclude s current response response.state

-- Evaluate for applyCommand, with a command that passed its check
unfoldable pub advance : Runner → Service → Command → Option State → Service × Reply
unfolding continue
advance runner s command none =
    (s, responded (rejected invalid_state (say "先に新しい対局を開始してください") none))
advance runner s command (some current) =
    continue s current (Runtime.apply_command runner (clone_state current) command)

-- Evaluate for applyCommand, from the check of the command on
unfoldable pub checked : Runner → Service → Command → Option Error → Service × Reply
unfolding advance
checked runner s command (some e) = (s, responded (rejected e.code e.message s.state))
checked runner s command none = advance runner s command s.state

-- Evaluate for applyCommand, from the command on
unfoldable pub commanded : Runner → Service → Option Command → Service × Reply
unfolding checked
commanded runner s none = (s, responded (rejected invalid_request (say "commandが必要です") s.state))
commanded runner s (some command) = checked runner s command (command_validate command)

-- Evaluate for each action
unfoldable pub dispatch : Runner → Service → Request → Action → Service × Reply
unfolding start commanded
dispatch runner s request new_game = start s (runner request)
dispatch runner s request apply_command =
    if not (text_eq request.version version)
    then (s, responded (rejected unsupported_version (say "対応していないバージョンです") s.state))
    else commanded runner s request.command
dispatch runner s request (Action.other t) =
    (s, responded (rejected invalid_request (say "actionはnewGameまたはapplyCommandです") s.state))

-- func (s *Service) Evaluate
unfoldable pub evaluate : Runner → Service → Request → Service × Reply
unfolding dispatch
evaluate runner s request = dispatch runner s request request.action

-- func (s *Service) Snapshot
abbrev pub snapshot : Service → Option State
snapshot s = Option.map clone_state s.state

abbrev pub is_timeout : RunError → Bool
is_timeout timeout = true
is_timeout _ = false

-- The status of the HTTP response and its body.
abbrev pub Page : Type 0
Page = ℕ × Response

-- ServeHTTP, from the reply of the service on
unfoldable pub page : Service → Reply → Page
page s (responded response) = (200, response)
page s (broken e) =
    if is_timeout e
    then (504, rejected invalid_json (say "ルール評価が時間内に完了しませんでした") (snapshot s))
    else (502, rejected invalid_json (say "ルール評価に失敗しました") (snapshot s))

-- func (h *Handler) ServeHTTP: `body` is what the first Decode gives, `ends` whether the body ends
-- after it.
unfoldable pub serve : Runner → Service → Option Request → Bool → Service × Page
unfolding page
serve runner s none ends = (s, (400, rejected invalid_json (say "JSONを解析できません") none))
serve runner s (some request) ends =
    if not ends
    then (s, (400, rejected invalid_json (say "JSON objectは1件だけ送信してください") none))
    else (let (t, reply) = evaluate runner s request in (t, page t reply))
