-- ===== src/Server/Origin.antt =====
-- parsePublicOrigin, loopbackHost and publicOriginMatches of server/main.go.
--
-- What they use of net, net/url and strings on whole texts is a parameter, a value of `Net`.
pub mod Allowed
pub mod Local
use nadesiko_reversi.Prelude.{
  ℕ, Bool, true, false, not, ◌&&◌, ◌||◌, Option, none, some, List, [], ◌∷◌, ◌++◌, Text, codes,
  text_eq, ◌==◌, if◌then◌else◌,
}
use nadesiko_reversi.Replay.Lines.{trim_space}

-- type URL of net/url; `has_user` is whether User is set
pub record Url : Type 0 where
  pub scheme : Text
  pub opaque : Text
  pub has_user : Bool
  pub host : Text
  pub path : Text
  pub raw_query : Text
  pub fragment : Text

-- url.Parse, strings.ToLower, the host of net.SplitHostPort, strings.EqualFold, and whether
-- net.ParseIP gives a loopback address.
pub record Net : Type 0 where
  pub parse : Text → Option Url
  pub to_lower : Text → Text
  pub split_host : Text → Option Text
  pub equal_fold : Text → Text → Bool
  pub loopback_ip : Text → Bool

abbrev is_bracket : ℕ → Bool
is_bracket c = c == 91 || c == 93

-- `strings.Trim(name, "[]")`, at the front
unfoldable pub trim_front : Text → Text
trim_front [] = []
trim_front (c ∷ cs) = let rest = trim_front cs in if is_bracket c then rest else c ∷ cs

abbrev keep_end : ℕ → Text → Text
keep_end c [] = if is_bracket c then [] else c ∷ []
keep_end c (d ∷ ds) = c ∷ d ∷ ds

-- `strings.Trim(name, "[]")`, at the back
unfoldable pub trim_back : Text → Text
trim_back [] = []
trim_back (c ∷ cs) = keep_end c (trim_back cs)

abbrev pub or_host : Text → Option Text → Text
or_host host none = host
or_host host (some name) = name

-- func loopbackHost
unfoldable pub loopback_host : Net → Text → Bool
unfolding trim_front trim_back
loopback_host net host =
    let name = or_host host (net.split_host host) in
    net.equal_fold name (codes "localhost") || net.loopback_ip (trim_back (trim_front name))

abbrev pub is_empty : Text → Bool
is_empty t = text_eq t []

-- an origin of a scheme and a host
abbrev pub origin_text : Text → Text → Text
origin_text scheme host = scheme ++ (codes "://" ++ host)

-- parsePublicOrigin, for a parsed text
unfoldable pub origin_of : Net → Url → Option Text
unfolding loopback_host
origin_of net u =
    let scheme = net.to_lower u.scheme in
    if not (text_eq scheme (codes "https"))
      && not (text_eq scheme (codes "http") && loopback_host net u.host)
    then none
    else if is_empty u.host
        || not (is_empty u.opaque)
        || u.has_user
        || not (is_empty u.path) && not (text_eq u.path (codes "/"))
        || not (is_empty u.raw_query)
        || not (is_empty u.fragment)
    then none
    else some (origin_text scheme (net.to_lower u.host))

abbrev pub parsed_origin : Net → Option Url → Option Text
parsed_origin net none = none
parsed_origin net (some u) = origin_of net u

-- func parsePublicOrigin; none for its errors
unfoldable pub parse_public_origin : Net → Text → Option Text
unfolding origin_of trim_space
parse_public_origin net raw =
    if is_empty (trim_space raw) then some [] else parsed_origin net (net.parse (trim_space raw))

-- publicOriginMatches, for a parsed header
unfoldable pub url_matches : Net → Text → Url → Bool
url_matches net public_origin u =
    let scheme = net.to_lower u.scheme in
    if not (text_eq scheme (codes "https")) && not (text_eq scheme (codes "http"))
    then false
    else if is_empty u.host
        || not (is_empty u.opaque)
        || u.has_user
        || not (is_empty u.path)
        || not (is_empty u.raw_query)
        || not (is_empty u.fragment)
    then false
    else text_eq (origin_text scheme (net.to_lower u.host)) public_origin

abbrev pub parsed_matches : Net → Text → Option Url → Bool
parsed_matches net public_origin none = false
parsed_matches net public_origin (some u) = url_matches net public_origin u

-- func publicOriginMatches
unfoldable pub public_origin_matches : Net → Text → Text → Bool
unfolding url_matches trim_space
public_origin_matches net public_origin header =
    if is_empty public_origin
    then false
    else if is_empty (trim_space header)
    then false
    else parsed_matches net public_origin (net.parse (trim_space header))
