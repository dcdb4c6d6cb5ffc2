-- ===== src/Server/Settings.antt =====
-- The settings of server/main.go that are read from the environment, and the count of connections.
--
-- `getenv` is a function of the name.
pub mod Bounds
use mathlib.Core.Option
use nadesiko_reversi.Prelude.{
  ℕ, zero, suc, ◌+◌, ◌-◌, ◌*◌, ◌/◌, Bool, true, false, not, ◌&&◌, ◌||◌, Option, none, some, List,
  [], ◌∷◌, ◌++◌, map, Text, codes, text_eq, leb, ltb, ◌==◌, all, length, is_some, if◌then◌else◌,
  ◌>>=◌,
}
use nadesiko_reversi.Prelude.Int.{ℤ, pos, negsuc, ltb_ℤ}
use nadesiko_reversi.Prelude.Decimal.{decimal, read_digits}
use nadesiko_reversi.Protocol.Types.{Player, State, new_game_request}
use nadesiko_reversi.Runtime.{Runner, Evaluated, answer, failed}
use nadesiko_reversi.Replay.Types.{Frame, Result}
use nadesiko_reversi.Replay.Record.{game_id_valid}
use nadesiko_reversi.Replay.Lines.{trim_space}
use nadesiko_reversi.Replay.Grammar.{is_digit}
use nadesiko_reversi.Replay.Store.{MemoryStore}
use nadesiko_reversi.Replay.Decode.{Decoder}
use nadesiko_reversi.Replay.Service.{Answer, done, refused, source, replay_game}
use nadesiko_reversi.Server.Origin.{Net, parse_public_origin}

abbrev up_to : ℕ → ℕ → Option ℕ
up_to bound n = if leb n bound then some n else none

-- the digits of a number, of which there is one at least
unfoldable pub digits_value : Text → Option ℕ
digits_value [] = none
digits_value (c ∷ cs) = if all is_digit (c ∷ cs) then some (read_digits 0 (c ∷ cs)) else none

abbrev negated : ℕ → ℤ
negated zero = pos 0
negated (suc n) = negsuc n

-- `strconv.Atoi`
unfoldable pub parse_int : Text → Option ℤ
unfolding digits_value
parse_int [] = none
parse_int (c ∷ cs) =
    if c == 45
    then Option.map negated (digits_value cs >>= up_to 9223372036854775808)
    else if c == 43
    then Option.map pos (digits_value cs >>= up_to 9223372036854775807)
    else Option.map pos (digits_value (c ∷ cs) >>= up_to 9223372036854775807)

-- envInt, for the number that Atoi reads
unfoldable pub in_range : ℕ → ℕ → Option ℤ → Option ℕ
in_range low high none = none
in_range low high (some (negsuc n)) = none
in_range low high (some (pos n)) = if ltb n low || ltb high n then none else some n

-- func envInt, for bounds that are not negative; none for its error
unfoldable pub env_int : (Text → Text) → Text → ℕ → ℕ → ℕ → Option ℕ
unfolding in_range parse_int trim_space
env_int getenv name fallback low high =
    let raw : Text = trim_space (getenv name) in
    if text_eq raw [] then some fallback else in_range low high (parse_int raw)

-- func envSeconds, in nanoseconds
unfoldable pub env_seconds : (Text → Text) → Text → ℕ → ℕ → ℕ → Option ℕ
unfolding env_int
env_seconds getenv name fallback low high =
    env_int getenv name (fallback / 1000000000) (low / 1000000000) (high / 1000000000)
    >>= λ seconds. some (seconds * 1000000000)

-- resolveAddr, for the number that Atoi reads
unfoldable pub port_addr : Option ℕ → Option Text
port_addr none = none
port_addr (some n) = some (codes "0.0.0.0:" ++ decimal n)

-- func resolveAddr; none for its errors
unfoldable pub resolve_addr : Text → Bool → Text → Option Text
unfolding port_addr in_range parse_int trim_space
resolve_addr addr addr_set port =
    if addr_set
    then (if text_eq (trim_space addr) [] then none else some addr)
    else if text_eq (trim_space port) []
    then some addr
    else port_addr (in_range 1 65535 (parse_int (trim_space port)))

-- type demoConfig; the two directories are passed on as they are
pub record DemoConfig : Type 0 where
  pub addr : Text
  pub web_dir : Text
  pub rules_dir : Text
  pub public_origin : Text
  pub max_connections : ℕ
  pub max_rooms : ℕ
  pub command_rate : ℕ
  pub command_burst : ℕ
  pub idle_timeout : ℕ
  pub max_connection_age : ℕ
  pub ping_interval : ℕ
  pub read_timeout : ℕ

-- nanoseconds
abbrev pub second : ℕ
second = 1000000000

-- func loadConfig; none for its errors
unfoldable pub load_config : Net → (Text → Text) → Text → Bool → Text → Text → Option DemoConfig
unfolding resolve_addr env_int env_seconds parse_public_origin
load_config net getenv addr addr_set web_dir rules_dir = do
  listen ← resolve_addr addr addr_set (getenv (codes "PORT"))
  public_origin ← parse_public_origin net (getenv (codes "PUBLIC_ORIGIN"))
  max_connections ← env_int getenv (codes "MAX_CONNECTIONS") 20 1 10000
  max_rooms ← env_int getenv (codes "MAX_ROOMS") 10 1 10000
  command_rate ← env_int getenv (codes "COMMAND_RATE_PER_SEC") 2 1 1000
  command_burst ← env_int getenv (codes "COMMAND_BURST") 8 1 1000
  idle_timeout ←
      env_seconds getenv (codes "IDLE_TIMEOUT_SECONDS") (600 * second) (60 * second)
        (86400 * second)
  max_age ←
      env_seconds getenv (codes "MAX_CONNECTION_SECONDS") (3300 * second) (60 * second)
        (86400 * second)
  some (record {
    addr = listen;
    web_dir = web_dir;
    rules_dir = rules_dir;
    public_origin = public_origin;
    max_connections = max_connections;
    max_rooms = max_rooms;
    command_rate = command_rate;
    command_burst = command_burst;
    idle_timeout = idle_timeout;
    max_connection_age = max_age;
    ping_interval = 30 * second;
    read_timeout = 2 * (30 * second) + 15 * second;
  })

-- func (a *demoApp) admit: the count of connections, and whether the connection is let in
unfoldable pub admit : ℕ → ℕ → ℕ × Bool
admit max_connections connections =
    if ltb max_connections (connections + 1) then (connections, false) else (connections + 1, true)
