-- ===== src/Server/Pages.antt =====
-- The pages of server/main.go: the health of the server, and a replay.
pub mod Served
use mathlib.Core.Option
use nadesiko_reversi.Prelude.{
  ℕ, zero, suc, ◌+◌, ◌-◌, ◌*◌, ◌/◌, Bool, true, false, not, ◌&&◌, ◌||◌, Option, none, some, List,
  [], ◌∷◌, ◌++◌, map, Text, codes, text_eq, leb, ltb, ◌==◌, all, length, is_some, if◌then◌else◌,
  ◌>>=◌,
}
use nadesiko_reversi.Prelude.Int.{ℤ, pos, negsuc, ltb_ℤ}
use nadesiko_reversi.Prelude.Decimal.{decimal, read_digits}
use nadesiko_reversi.Protocol.Types.{Player, State, new_game_request}
use nadesiko_reversi.Runtime.{Runner, Evaluated, answer, failed}
use nadesiko_reversi.Replay.Types.{Frame, Result}
use nadesiko_reversi.Replay.Record.{game_id_valid}
use nadesiko_reversi.Replay.Lines.{trim_space}
use nadesiko_reversi.Replay.Grammar.{is_digit}
use nadesiko_reversi.Replay.Store.{MemoryStore}
use nadesiko_reversi.Replay.Decode.{Decoder}
use nadesiko_reversi.Replay.Service.{Answer, done, refused, source, replay_game}
use nadesiko_reversi.Server.Origin.{Net, parse_public_origin}

-- func (a *demoApp) gonakoReady, for what rulesReady says, where it is set
unfoldable pub gonako_ready : Bool → Option Bool → Bool
gonako_ready verified none = verified
gonako_ready verified (some ready) = verified && ready

abbrev ready_after : Evaluated → Bool
ready_after (failed e) = false
ready_after (answer response) = response.ok && is_some response.state

-- func verifyRules; whether it returns nil
unfoldable pub verify_rules : Runner → Bool
unfolding new_game_request
verify_rules runner = ready_after (runner (new_game_request (codes "startup-check") 1))

-- func (a *demoApp) handleHealth: the status and the label
unfoldable pub handle_health : Bool → Option Bool → ℕ × Text
unfolding gonako_ready
handle_health verified rules_ready =
    if not (gonako_ready verified rules_ready) then (503, codes "degraded") else (200, codes "ok")

-- What handleReplay answers: a status of 400, 404 or 500, or 200 with a game.
pub data ReplayPage : Type 0 where
  bad_request not_found internal_error : ReplayPage
  ok : Text → Text → List (ℤ × State) → Player → ReplayPage

-- handleReplay, from the replay on
unfoldable pub replay_page : Text → Text → Answer Result → ReplayPage
replay_page game_id text (refused e) = internal_error
replay_page game_id text (done r) =
    ok game_id text (map (λ (f : Frame). (f.move_number, f.state)) (r.first ∷ r.later))
      r.script.winner

-- handleReplay, from the source on
unfoldable pub source_page : Decoder → MemoryStore → Text → Answer Text → ReplayPage
unfolding replay_page replay_game
source_page d s game_id (refused e) = not_found
source_page d s game_id (done text) = replay_page game_id text (replay_game d s game_id)

-- func (a *demoApp) handleReplay
unfoldable pub handle_replay : Decoder → MemoryStore → Text → ReplayPage
unfolding source_page source game_id_valid
handle_replay d s game_id =
    if not (game_id_valid game_id) then bad_request else source_page d s game_id (source s game_id)
