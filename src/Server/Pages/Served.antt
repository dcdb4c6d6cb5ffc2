-- ===== src/Server/Pages/Served.antt =====
-- When the server is healthy, and which replays it serves.
use nadesiko_reversi.Prelude.{◌≡◌, refl, true, List, ◌∷◌, map, Text}
use nadesiko_reversi.Prelude.Int.{ℤ}
use nadesiko_reversi.Protocol.Types.{State}
use nadesiko_reversi.Replay.Types.{Result, Frame}
use nadesiko_reversi.Replay.Record.{game_id_valid}
use nadesiko_reversi.Replay.Store.{MemoryStore}
use nadesiko_reversi.Replay.Replayer.{replayed, replay}
use nadesiko_reversi.Replay.Decode.{Decoder, decode}
use nadesiko_reversi.Replay.Service.{done, save_source, source, replay_game}
use nadesiko_reversi.Replay.Service.Saves.{replay-named, Kept, save_source-Kept}
use nadesiko_reversi.Server.Pages.{ok, replay_page, source_page, handle_replay}

abbrev pub frames_of : Result → List (ℤ × State)
frames_of r = map (λ (f : Frame). (f.move_number, f.state)) (r.first ∷ r.later)

handle_replay-found :
    (d : Decoder) (s : MemoryStore) (game_id text : Text) (r : Result)
    → game_id_valid game_id ≡ true
    → source s game_id ≡ done text
    → replay_game d s game_id ≡ done r
    → handle_replay d s game_id ≡ ok game_id text (frames_of r) r.script.winner
unfolding handle_replay source_page replay_page
handle_replay-found d s game_id text r valid found played = rw (valid, found, played) refl

-- A record that SaveSource saved is served under the id of its game: with its text, its winner and a position for the start and for each move.
pub handle_replay-save_source :
    (d : Decoder) (s : MemoryStore) (text : Text) (r : Result)
    → replay text (decode d text) ≡ replayed r
    → handle_replay d (save_source d s text).0 r.script.game_id
      ≡ ok r.script.game_id text (frames_of r) r.script.winner
handle_replay-save_source d s text r e =
    let kept : Kept d s text r = save_source-Kept d s text r e in
    handle_replay-found d (save_source d s text).0 r.script.game_id text r (replay-named d text r e)
      kept.text_kept kept.replays
