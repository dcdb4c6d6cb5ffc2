-- ===== src/Server/Origin/Local.antt =====
-- localWebSocketOrigin and allowWebSocketOrigin of server/main.go.
use nadesiko_reversi.Prelude.{
  ◌≡◌, ◌≢◌, refl, Bool-cases, ◌⊎◌, inl, inr, Bool, true, false, ◌&&◌, ◌||◌, Option, none, some, [],
  Text, codes, text_eq, if◌then◌else◌, arith,
}
use nadesiko_reversi.Replay.Lines.{trim_space}
use nadesiko_reversi.Server.Origin.{
  Url, Net, or_host, is_empty, origin_text, parse_public_origin, public_origin_matches,
}
use nadesiko_reversi.Server.Origin.Allowed.{IsPublic, public_origin_matches-IsPublic}

-- What the two functions read of a request: RemoteAddr, Host, and the header Origin.
pub record Request : Type 0 where
  pub remote_addr : Text
  pub host : Text
  pub origin : Text

-- localWebSocketOrigin, the test of the remote address
unfoldable pub is_local_peer : Net → Option Text → Bool
is_local_peer net none = false
is_local_peer net (some host) = net.loopback_ip host

-- localWebSocketOrigin, the test of the request's host
unfoldable pub is_local_host : Net → Text → Bool
is_local_host net host = net.equal_fold host (codes "localhost") || net.loopback_ip host

-- localWebSocketOrigin, the test of the header
unfoldable pub same_origin : Net → Text → Option Url → Bool
same_origin net host none = false
same_origin net host (some u) =
    (text_eq u.scheme (codes "http") || text_eq u.scheme (codes "https"))
    && net.equal_fold u.host host
    && is_empty u.path
    && is_empty u.raw_query

-- func localWebSocketOrigin
unfoldable pub local_origin : Net → Request → Bool
unfolding is_local_peer is_local_host same_origin
local_origin net r =
    is_local_peer net (net.split_host r.remote_addr)
    && is_local_host net (or_host r.host (net.split_host r.host))
    && same_origin net r.host (net.parse r.origin)

-- func (a *demoApp) allowWebSocketOrigin
unfoldable pub allow_origin : Net → Text → Request → Bool
unfolding local_origin public_origin_matches
allow_origin net public_origin r =
    if local_origin net r then true else public_origin_matches net public_origin r.origin

-- A request from the machine itself, to a name of it, from a page of the same host.
pub record IsLocal (net : Net) (r : Request) : Type 0 where
  pub peer :
      (host : Text) × (net.split_host r.remote_addr ≡ some host) × (net.loopback_ip host ≡ true)
  pub addressed : is_local_host net (or_host r.host (net.split_host r.host)) ≡ true
  pub page : (u : Url) × (net.parse r.origin ≡ some u) × (net.equal_fold u.host r.host ≡ true)

is_local_peer-host :
    (net : Net) (x : Option Text)
    → is_local_peer net x ≡ true
    → (host : Text) × (x ≡ some host) × (net.loopback_ip host ≡ true)
unfolding is_local_peer
is_local_peer-host net none h = absurd cc
is_local_peer-host net (some host) h = (host, refl, h)

same_origin-url :
    (net : Net) (host : Text) (x : Option Url)
    → same_origin net host x ≡ true
    → (u : Url) × (x ≡ some u) × (net.equal_fold u.host host ≡ true)
unfolding same_origin
same_origin-url net host none h = absurd cc
same_origin-url net host (some u) h = (u, refl, third _ _ _ _ h)
  where
    third : (a b c d : Bool) → (a && b && c && d) ≡ true → b ≡ true
    third true true c d h = refl
    third true false c d h = absurd (ground (arith, h))
    third false b c d h = absurd (ground (arith, h))

both : (a b c : Bool) → (a && b && c) ≡ true → (a ≡ true) × (b ≡ true) × (c ≡ true)
both a b c h = (ground (arith, h), ground (arith, h), ground (arith, h))

local_origin-IsLocal : (net : Net) (r : Request) → local_origin net r ≡ true → IsLocal net r
unfolding local_origin
local_origin-IsLocal net r h =
    let (peer, addressed, page) = both _ _ _ h in
    record {
      peer = is_local_peer-host net (net.split_host r.remote_addr) peer;
      addressed = addressed;
      page = same_origin-url net r.host (net.parse r.origin) page;
    }

-- A connection that is let in comes from the machine itself, to a name of it and from a page of the same host; or else its Origin header names exactly the configured public origin, which is one with https or one with http on a loopback host.
pub allow_origin-Allowed :
    (net : Net) (raw public_origin : Text) (r : Request)
    → parse_public_origin net raw ≡ some public_origin
    → allow_origin net public_origin r ≡ true
    → IsLocal net r
      ⊎ ((u : Url) × (net.parse (trim_space r.origin) ≡ some u)
          × (origin_text (net.to_lower u.scheme) (net.to_lower u.host) ≡ public_origin)
          × (public_origin ≢ [])
          × IsPublic net public_origin)
unfolding allow_origin
allow_origin-Allowed net raw public_origin r configured h = elim (Bool-cases (local_origin net r)) [
  | inl here ↦ inl (local_origin-IsLocal net r here)
  | inr away ↦ inr (
      public_origin_matches-IsPublic net raw public_origin r.origin configured
        (rw (away, allow_origin) at h))
]
