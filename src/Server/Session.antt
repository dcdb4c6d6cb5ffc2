-- ===== src/Server/Session.antt =====
-- The loop of handleMatch of server/main.go: the frames of one connection, one after the other.
--
-- The frames come from the bytes that the client sends, `clock` gives the time of each round, and
-- json.Unmarshal is a parameter. What goes to the queue of the peer is a list; the connection's own
-- end and the events of the room are not part of the loop.
pub mod Loop
pub mod Rounds
use mathlib.Core.Option
use nadesiko_reversi.Prelude.{
  ℕ, zero, suc, ◌+◌, ◌/◌, ◌%◌, String, Bool, true, false, not, Option, none, some, List, [], ◌∷◌,
  ◌++◌, Text, codes, ltb, ◌==◌, if◌then◌else◌,
}
use nadesiko_reversi.Protocol.Types.{
  version, ErrorCode, invalid_request, invalid_json, invalid_state, Command, Response, new_error,
}
use nadesiko_reversi.Runtime.{Runner}
use nadesiko_reversi.Replay.Decode.{Decoder}
use nadesiko_reversi.Server.Frames.{
  WsFrame, FrameError, connection, malformed, too_large, Step, got, stopped, read_frame,
  close_frame,
}
use nadesiko_reversi.Server.Limits.{Float64, RateLimiter, allow}
use nadesiko_reversi.Server.Ledger.{
  Desk, Submitted, answered, engine_failed, incomplete, submit_command,
}

-- the bytes of a character in a Go string
abbrev pub utf8_char : ℕ → List ℕ
utf8_char c =
    if ltb c 128
    then c ∷ []
    else if ltb c 2048
    then (192 + c / 64) ∷ (128 + c % 64) ∷ []
    else if ltb c 65536
    then (224 + c / 4096) ∷ (128 + c / 64 % 64) ∷ (128 + c % 64) ∷ []
    else (240 + c / 262144) ∷ (128 + c / 4096 % 64) ∷ (128 + c / 64 % 64) ∷ (128 + c % 64) ∷ []

-- the bytes of a text in a Go string
abbrev pub utf8_bytes : Text → List ℕ
utf8_bytes [] = []
utf8_bytes (c ∷ cs) = utf8_char c ++ utf8_bytes cs

-- What is put into the queue of the peer: a frame, or a response that sendJSON makes a text of.
pub data Outgoing : Type 0 where
  frame : WsFrame → Outgoing
  json : Response → Outgoing

-- What the loop changes.
pub record Session : Type 0 where
  pub desk : Desk
  pub limiter : RateLimiter
  pub queue : List Outgoing

-- What the loop does not change: the engine, the float64 operations, the decoder, the room, the player, the reading of a
-- command, and the time of each round, as a number and as a text.
pub record Setting : Type 0 where
  pub engine : Runner
  pub float : Float64
  pub decoder : Decoder
  pub room_id : Text
  pub player_id : Text
  pub command_of : List ℕ → Option Command
  pub clock : ℕ → ℕ
  pub date : ℕ → Text

abbrev pub put : Session → Outgoing → Session
put s o = record s { queue = s.queue ++ o ∷ [] }

-- a refusal of handleMatch itself
abbrev pub refusal : ErrorCode → String → Outgoing
refusal code message = json (record {
  version = version;
  ok = false;
  state = none;
  event = none;
  error = some (new_error code message);
})

-- handleMatch, what is sent for the outcome of submitCommand
unfoldable pub report : Session → Submitted → Session
report s (engine_failed e) = put s (refusal invalid_state "対局を処理できませんでした")
report s incomplete = put s (refusal invalid_state "対局を処理できませんでした")
report s (answered response) = if not response.ok then put s (json response) else s

-- handleMatch, a command that was read
unfoldable pub run_command : Setting → ℕ → Session → Option Command → Session
unfolding report submit_command
run_command e round s none = put s (refusal invalid_json "JSONを解析できません")
run_command e round s (some command) =
    let step =
      submit_command e.engine e.decoder s.desk (e.date round) e.room_id e.player_id command in
    report (record s { desk = step.0 }) step.1

-- handleMatch, a text frame
unfoldable pub on_text : Setting → ℕ → Session → List ℕ → Session
unfolding run_command allow
on_text e round s payload =
    let step = allow e.float s.limiter (e.clock round) in
    let now = record s { limiter = step.0 } in
    if not step.1
    then put now (refusal invalid_request "操作が速すぎます。少し待ってからもう一度お試しください")
    else run_command e round now (e.command_of payload)

-- handleMatch, the switch on the kind of a frame; whether the loop goes on
unfoldable pub on_frame : Setting → ℕ → Session → WsFrame → Session × Bool
unfolding on_text
on_frame e round s f =
    if f.opcode == 8
    then (put s (frame (record { opcode = 8; payload = f.payload })), false)
    else if f.opcode == 9
    then (put s (frame (record { opcode = 10; payload = f.payload })), true)
    else if f.opcode == 1
    then (on_text e round s f.payload, true)
    else (s, true)

-- handleMatch, a frame that cannot be read
unfoldable pub on_error : Session → FrameError → Session
unfolding close_frame
on_error s connection = s
on_error s malformed = put s (frame (close_frame 1002 (utf8_bytes (codes "WebSocketの形式が不正です"))))
on_error s too_large = put s (frame (close_frame 1009 (utf8_bytes (codes "メッセージが大きすぎます"))))

-- The loop of handleMatch, for at most so many rounds; none where they do not suffice.
unfoldable pub serve : ℕ → Setting → ℕ → Session → List ℕ → Option Session
unfolding on_frame on_error read_frame
serve zero e round s input = none
serve (suc fuel) e round s input = elim (read_frame input) [
  | stopped err ↦ some (on_error s err)
  | got f rest ↦
      let step = on_frame e round s f in
      let later = serve fuel e (suc round) step.0 rest in if step.1 then later else some step.0
]
