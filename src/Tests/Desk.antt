-- ===== src/Tests/Desk.antt =====
-- The server's settings and its desk, on concrete values.
use nadesiko_reversi.Prelude.{
  ◌⊎◌, ℕ, List, arith, ◌*◌, ◌≡◌, ◌≢◌, refl, true, false, none, some, [], ◌∷◌, Text, codes, text_eq,
  text_dec, if◌then◌else◌,
}
use nadesiko_reversi.Protocol.Types.{light}
use nadesiko_reversi.Replay.Lines.{trim_space}
use nadesiko_reversi.Replay.Record.{game_id_valid}
use nadesiko_reversi.Protocol.Codes.{player_valid}
use nadesiko_reversi.Protocol.Board.{in_bounds}
use nadesiko_reversi.Prelude.Decimal.{int_text}
use nadesiko_reversi.Replay.Store.{new_store}
use nadesiko_reversi.Replay.Encode.{
  written, header_lines, rules_version_line, start_line, player_word, place_text, place_line,
  end_text, end_line, add_cells, board_totals, encode_result,
}
use nadesiko_reversi.Replay.Service.{save_source}
use nadesiko_reversi.Match.Manager.{new_manager}
use nadesiko_reversi.Server.Ledger.{
  RoomRecord, made, record_text, move_lines, move_line, placement_line, join_lines, save_finished,
  Desk,
}
use nadesiko_reversi.Server.Ledger.Writing.{played_game, record_text-encode_result}
use nadesiko_reversi.Server.Ledger.Saving.{Outcome, save_finished-Outcome}
use nadesiko_reversi.Match.Manager
use nadesiko_reversi.Server.Origin.{Url, Net, parse_public_origin, origin_text}
use nadesiko_reversi.Server.Origin.Allowed.{IsPublic}
use nadesiko_reversi.Server.Settings.{DemoConfig, load_config, second}
use nadesiko_reversi.Server.Settings.Bounds.{InRange, load_config-InRange}
use nadesiko_reversi.Server.Pages.{ok, handle_replay}
use nadesiko_reversi.Server.Pages.Served.{frames_of, handle_replay-save_source}
use nadesiko_reversi.Server.Origin.Local.{Request, allow_origin, IsLocal, allow_origin-Allowed}
use nadesiko_reversi.Server.Limits.{new_limiter}
use nadesiko_reversi.Tests.Server.{naturals}
use nadesiko_reversi.Tests.Managers.{joined_twice}
use nadesiko_reversi.Server.Session.{Session, Setting, serve}
use nadesiko_reversi.Server.Session.Rounds.{Grows, serve-Grows}
use nadesiko_reversi.Tests.Values.{ending, placing, placement, engine, alice}
use nadesiko_reversi.Tests.Texts.{source, decoder, again, replays}

handle_replay-save_source_example :
    handle_replay decoder (save_source decoder new_store source).0 (codes "game-1")
    ≡ ok (codes "game-1") source (frames_of again) light
handle_replay-save_source_example = handle_replay-save_source decoder new_store source again replays

abbrev ledger_room : RoomRecord
ledger_room = record {
  seed = 7;
  started_at = codes "2024-05-01T10:00:00Z";
  moves = record { command = placing; event = placement } ∷ [];
  ready = false;
  finished = true;
  save_error = none;
}

abbrev ended_at : Text
ended_at = codes "2024-05-01T10:05:00Z"

abbrev ledger_text : Text
ledger_text = join_lines (
    codes "# グラデーションリバーシ 対局記録 v1"
    ∷ codes "# 開始 2024-05-01T10:00:00Z"
    ∷ codes "# 終了 2024-05-01T10:05:00Z"
    ∷ []
    ∷ codes "「1」でルール版宣言"
    ∷ codes "「room-1」と7で対局開始"
    ∷ []
    ∷ codes "2と3で黒着手    # 色90、1個変換"
    ∷ []
    ∷ codes "「白」で対局終了   # 1手、色合計200、駒1"
    ∷ []
    ∷ [])

ledger_made : record_text (codes "room-1") ledger_room light ending ended_at ≡ made ledger_text
unfolding record_text move_lines move_line placement_line place_line place_text player_word
    start_line header_lines rules_version_line end_line end_text board_totals add_cells
    game_id_valid player_valid in_bounds int_text join_lines
ledger_made = refl

record_text-encode_result_example :
    encode_result (some (played_game (codes "room-1") ledger_room light ending ended_at))
    ≡ written ledger_text
record_text-encode_result_example =
    record_text-encode_result (codes "room-1") ledger_room light ending ended_at ledger_text refl
      refl ledger_made

save_finished-Outcome_example :
    Outcome decoder new_store
      (codes "room-1")
      ledger_room
      ending
      ended_at
      (save_finished decoder new_store (codes "room-1") ledger_room ending ended_at)
save_finished-Outcome_example =
    save_finished-Outcome decoder new_store (codes "room-1") ledger_room ending ended_at

abbrev desk : Desk
desk = record { matches = joined_twice; store = new_store; room = ledger_room }

abbrev site : Url
site = record {
  scheme = codes "https";
  opaque = [];
  has_user = false;
  host = codes "reversi.example";
  path = [];
  raw_query = [];
  fragment = [];
}

abbrev address : Text
address = codes "https://reversi.example"

-- A network library that knows one address.
abbrev net : Net
net = record {
  parse = λ t. if text_eq t address then some site else none;
  to_lower = λ t. t;
  split_host = λ t. none;
  equal_fold = λ a b. text_eq a b;
  loopback_ip = λ t. false;
}

configured : parse_public_origin net address ≡ some address
unfolding parse_public_origin text_dec
configured = refl

abbrev visit : Request
visit = record {
  remote_addr = codes "203.0.113.7:50000";
  host = codes "reversi.example";
  origin = address;
}

let_in : allow_origin net address visit ≡ true
unfolding allow_origin text_dec
let_in = refl

allow_origin-Allowed_example :
    IsLocal net visit
    ⊎ ((u : Url) × (net.parse (trim_space address) ≡ some u)
        × (origin_text (net.to_lower u.scheme) (net.to_lower u.host) ≡ address)
        × (address ≢ [])
        × IsPublic net address)
allow_origin-Allowed_example = allow_origin-Allowed net address address visit configured let_in

abbrev config : DemoConfig
config = record {
  addr = codes "127.0.0.1:4173";
  web_dir = codes "web";
  rules_dir = codes "rules";
  public_origin = [];
  max_connections = 20;
  max_rooms = 10;
  command_rate = 2;
  command_burst = 8;
  idle_timeout = 600 * second;
  max_connection_age = 3300 * second;
  ping_interval = 30 * second;
  read_timeout = 75 * second;
}

loaded :
    load_config net (λ name. []) (codes "127.0.0.1:4173") false (codes "web") (codes "rules")
    ≡ some config
unfolding load_config text_dec
loaded = refl

load_config-InRange_example : InRange config
load_config-InRange_example =
    load_config-InRange net (λ name. []) (codes "127.0.0.1:4173") false (codes "web")
      (codes "rules") config loaded

abbrev setting : Setting
setting = record {
  engine = engine;
  float = naturals;
  decoder = decoder;
  room_id = codes "room-1";
  player_id = alice;
  command_of = λ bytes. some placing;
  clock = λ round. round;
  date = λ round. ended_at;
}

abbrev session : Session
session = record { desk = desk; limiter = new_limiter naturals 2 8 0; queue = [] }

-- A text of two bytes, and the start of another frame.
abbrev input : List ℕ
input = 129 ∷ 130 ∷ 0 ∷ 0 ∷ 0 ∷ 0 ∷ 104 ∷ 105 ∷ 129 ∷ []

serve-Grows_example : (t : Session) × (serve 10 setting 0 session input ≡ some t) × Grows session t
serve-Grows_example = serve-Grows 10 setting 0 session input (omega arith)
