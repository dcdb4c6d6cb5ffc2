-- ===== src/Server/Settings/Bounds.antt =====
-- The settings stay in their ranges, and a replay that is stored is served.
use nadesiko_reversi.Prelude.{
  ℕ, ◌+◌, ◌*◌, ◌/◌, ◌≤◌, ◌<◌, ◌≡◌, refl, subst, Bool, Option, none, some, [], Text, codes, text_eq,
  arith, if_cases, ◌>>=◌,
}
use nadesiko_reversi.Prelude.Int.{ℤ, pos, negsuc}
use nadesiko_reversi.Replay.Lines.{trim_space}
use nadesiko_reversi.Server.Origin.{Net, parse_public_origin}
use nadesiko_reversi.Server.Settings.{
  in_range, parse_int, env_int, env_seconds, DemoConfig, load_config, second, resolve_addr,
}

in_range-bounds :
    (low high n : ℕ) (x : Option ℤ) → in_range low high x ≡ some n → (low ≤ n) × (n ≤ high)
unfolding in_range
in_range-bounds low high n none h = absurd cc
in_range-bounds low high n (some (negsuc m)) h = absurd cc
in_range-bounds low high n (some (pos m)) h = ground (arith, h)

env_int-bounds :
    (getenv : Text → Text) (name : Text) (fallback low high n : ℕ)
    → low ≤ fallback
    → fallback ≤ high
    → env_int getenv name fallback low high ≡ some n
    → (low ≤ n) × (n ≤ high)
unfolding env_int
env_int-bounds getenv name fallback low high n h k e =
    if_cases (λ (x : Option ℕ). x ≡ some n → (low ≤ n) × (n ≤ high))
      (text_eq (trim_space (getenv name)) []) _ _ (λ unset e. ground (arith, h, k, e))
      (λ set e. in_range-bounds low high n (parse_int (trim_space (getenv name))) e) e

bind-some :
    {A : Type 0} {B : Type 0} (x : Option A) (f : A → Option B) (b : B)
    → (x >>= f) ≡ some b
    → (a : A) × (x ≡ some a) × (f a ≡ some b)
bind-some (some a) f b h = (a, refl, h)
bind-some none f b h = absurd cc

some-injective : {A : Type 0} (a b : A) → some a ≡ some b → a ≡ b
some-injective a b h = cc

env_seconds-bounds :
    (getenv : Text → Text) (name : Text) (fallback n : ℕ)
    → 60 ≤ fallback
    → fallback ≤ 86400
    → env_seconds getenv name (fallback * second) (60 * second) (86400 * second) ≡ some n
    → (60 * second ≤ n) × (n ≤ 86400 * second)
unfolding env_seconds
env_seconds-bounds getenv name fallback n h k e =
    let (s, read, same) =
      bind-some (env_int getenv name (fallback * second / second) 60 86400) _ n e in
    let (low, high) =
      env_int-bounds getenv name (fallback * second / second) 60 86400 s (omega (arith, h))
        (omega (arith, k)) read in
    let whole : s * second ≡ n = cc in (omega (arith, low, whole), omega (arith, high, whole))

-- The settings of a server that starts.
pub record InRange (c : DemoConfig) : Type 0 where
  pub connections : (1 ≤ c.max_connections) × (c.max_connections ≤ 10000)
  pub rooms : (1 ≤ c.max_rooms) × (c.max_rooms ≤ 10000)
  pub rate : (1 ≤ c.command_rate) × (c.command_rate ≤ 1000)
  pub burst : (1 ≤ c.command_burst) × (c.command_burst ≤ 1000)
  pub idle : (60 * second ≤ c.idle_timeout) × (c.idle_timeout ≤ 86400 * second)
  pub age : (60 * second ≤ c.max_connection_age) × (c.max_connection_age ≤ 86400 * second)
  pub pings : 2 * c.ping_interval < c.read_timeout

-- A server starts with settings in their ranges only, whatever the environment: with at least one connection, room and command, with limits on time between a minute and a day, and with a read timeout that outlasts two pings.
pub load_config-InRange :
    (net : Net) (getenv : Text → Text) (addr : Text) (addr_set : Bool) (web rules : Text)
    (c : DemoConfig)
    → load_config net getenv addr addr_set web rules ≡ some c
    → InRange c
unfolding load_config
load_config-InRange net getenv addr addr_set web rules c h =
    let (a, _, h1) = bind-some (resolve_addr addr addr_set (getenv (codes "PORT"))) _ c h in
    let (o, _, h2) = bind-some (parse_public_origin net (getenv (codes "PUBLIC_ORIGIN"))) _ c h1 in
    let (connections, e3, h3) =
      bind-some (env_int getenv (codes "MAX_CONNECTIONS") 20 1 10000) _ c h2 in
    let (rooms, e4, h4) = bind-some (env_int getenv (codes "MAX_ROOMS") 10 1 10000) _ c h3 in
    let (rate, e5, h5) =
      bind-some (env_int getenv (codes "COMMAND_RATE_PER_SEC") 2 1 1000) _ c h4 in
    let (burst, e6, h6) = bind-some (env_int getenv (codes "COMMAND_BURST") 8 1 1000) _ c h5 in
    let (idle, e7, h7) =
      bind-some
        (env_seconds getenv (codes "IDLE_TIMEOUT_SECONDS") (600 * second) (60 * second)
          (86400 * second))
        _ c h6 in
    let (age, e8, h8) =
      bind-some
        (env_seconds getenv (codes "MAX_CONNECTION_SECONDS") (3300 * second) (60 * second)
          (86400 * second))
        _ c h7 in
    let whole : record {
      addr = a;
      web_dir = web;
      rules_dir = rules;
      public_origin = o;
      max_connections = connections;
      max_rooms = rooms;
      command_rate = rate;
      command_burst = burst;
      idle_timeout = idle;
      max_connection_age = age;
      ping_interval = 30 * second;
      read_timeout = 2 * (30 * second) + 15 * second;
    }
        ≡ c =
      some-injective _ _ h8 in
    subst InRange whole (record {
      connections = env_int-bounds getenv _ 20 1 10000 connections (omega arith) (omega arith) e3;
      rooms = env_int-bounds getenv _ 10 1 10000 rooms (omega arith) (omega arith) e4;
      rate = env_int-bounds getenv _ 2 1 1000 rate (omega arith) (omega arith) e5;
      burst = env_int-bounds getenv _ 8 1 1000 burst (omega arith) (omega arith) e6;
      idle = env_seconds-bounds getenv _ 600 idle (omega arith) (omega arith) e7;
      age = env_seconds-bounds getenv _ 3300 age (omega arith) (omega arith) e8;
      pings = omega arith;
    })
