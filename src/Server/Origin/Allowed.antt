-- ===== src/Server/Origin/Allowed.antt =====
-- Which origins a configured server accepts.
use nadesiko_reversi.Prelude.{
  ◌≡◌, ◌≢◌, ◌∙◌, sym, ap, refl, ◌⊎◌, inl, inr, Bool, true, false, not, ◌&&◌, Option, none, some, [],
  Text, codes, text_eq, if◌then◌else◌, arith, if_cases,
}
use nadesiko_reversi.Replay.Lines.{trim_space}
use nadesiko_reversi.Server.Origin.{
  Url, Net, loopback_host, is_empty, origin_text, origin_of, parsed_origin, parse_public_origin,
  url_matches, parsed_matches, public_origin_matches,
}

-- An origin that the server may be configured with: none, one with https, or one with http on a
-- loopback host.
abbrev pub IsPublic : Net → Text → Type 0
IsPublic net origin =
    (origin ≡ [])
    ⊎ ((host : Text) × ((origin ≡ origin_text (codes "https") (net.to_lower host))
          ⊎ ((origin ≡ origin_text (codes "http") (net.to_lower host))
              × (loopback_host net host ≡ true))))

-- What the two conditions on an origin let through.
checked :
    {A : Type 0} (https http loopback bad : Bool) (x origin : A)
    → (if not https && not (http && loopback) then none else if bad then none else some x)
      ≡ some origin
    → (x ≡ origin) × ((https ≡ true) ⊎ ((http ≡ true) × (loopback ≡ true)))
checked true http loopback false x origin h = (ground (arith, h), inl refl)
checked false true true false x origin h = (ground (arith, h), inr (refl, refl))
checked true http loopback true x origin h = absurd cc
checked false true true true x origin h = absurd cc
checked false true false bad x origin h = absurd cc
checked false false loopback bad x origin h = absurd cc

same_text : (a b : Text) → text_eq a b ≡ true → a ≡ b
same_text a b h = ground (arith, h)

origin_of-IsPublic :
    (net : Net) (u : Url) (origin : Text) → origin_of net u ≡ some origin → IsPublic net origin
unfolding origin_of
origin_of-IsPublic net u origin h =
    let scheme : Text = net.to_lower u.scheme in
    let (same, allowed) =
      checked (text_eq scheme (codes "https")) (text_eq scheme (codes "http"))
        (loopback_host net u.host) _ _ origin h in
    inr (
      u.host,
      elim allowed [
        | inl https ↦
            inl (sym same ∙ ap (λ s. origin_text s (net.to_lower u.host)) (same_text _ _ https))
        | inr (http, loopback) ↦ inr (
          sym same ∙ ap (λ s. origin_text s (net.to_lower u.host)) (same_text _ _ http),
          loopback,
        )
      ],
    )

-- The public origin that a server is configured with is none, one with https, or one with http on a loopback host, whatever the text in its setting.
pub parse_public_origin-IsPublic :
    (net : Net) (raw origin : Text)
    → parse_public_origin net raw ≡ some origin
    → IsPublic net origin
unfolding parse_public_origin
parse_public_origin-IsPublic net raw origin h =
    if_cases (λ (x : Option Text). x ≡ some origin → IsPublic net origin)
      (is_empty (trim_space raw)) _ _ (λ unset e. inl (ground (arith, e)))
      (λ set e. by_url (net.parse (trim_space raw)) e) h
  where
    by_url : (x : Option Url) → parsed_origin net x ≡ some origin → IsPublic net origin
    by_url none e = absurd cc
    by_url (some u) e = origin_of-IsPublic net u origin e

url_matches-same :
    (net : Net) (origin : Text) (u : Url)
    → url_matches net origin u ≡ true
    → origin_text (net.to_lower u.scheme) (net.to_lower u.host) ≡ origin
unfolding url_matches
url_matches-same net origin u h = same_text _ _ (second _ _ _ h)
  where
    second : (a b c : Bool) → (if a then false else if b then false else c) ≡ true → c ≡ true
    second false false c h = h
    second true b c h = absurd cc
    second false true c h = absurd cc

-- A connection whose Origin header is accepted against a configured public origin comes from an https origin, or from an http origin on a loopback host, and its header names exactly the configured origin.
pub public_origin_matches-IsPublic :
    (net : Net) (raw origin header : Text)
    → parse_public_origin net raw ≡ some origin
    → public_origin_matches net origin header ≡ true
    → (u : Url) × (net.parse (trim_space header) ≡ some u)
      × (origin_text (net.to_lower u.scheme) (net.to_lower u.host) ≡ origin)
      × (origin ≢ [])
      × IsPublic net origin
unfolding public_origin_matches
public_origin_matches-IsPublic net raw origin header configured h =
    let (filled, matched) = third _ _ _ h in
    let (u, parsed, same) = by_url (net.parse (trim_space header)) refl matched in
    (u, parsed, same, apart origin filled, parse_public_origin-IsPublic net raw origin configured)
  where
    third :
        (a b c : Bool)
        → (if a then false else if b then false else c) ≡ true
        → (a ≡ false) × (c ≡ true)
    third false false c h = (refl, h)
    third true b c h = absurd cc
    third false true c h = absurd cc

    apart : (o : Text) → is_empty o ≡ false → o ≢ []
    apart o h = λ e. ground (arith, h, e)

    by_url :
        (x : Option Url)
        → net.parse (trim_space header) ≡ x
        → parsed_matches net origin x ≡ true
        → (u : Url) × (net.parse (trim_space header) ≡ some u)
          × (origin_text (net.to_lower u.scheme) (net.to_lower u.host) ≡ origin)
    by_url none e h = absurd cc
    by_url (some u) e h = (u, e, url_matches-same net origin u h)
