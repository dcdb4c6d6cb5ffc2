-- ===== src/Protocol/Validate/Requests.antt =====
-- What Request.Validate and Response.Validate accept.
use text.Mathlib.TextEquality.{eq_iff}
use nadesiko_reversi.Prelude.{
  ◌≡◌, ◌≢◌, ◌↔◌, ◌⊎◌, true, false, Option, none, some, [], arith, Text, ℕ, inl, inr, Bool-cases,
}
use nadesiko_reversi.Protocol.Types.{
  version, new_game, apply_command, Request, Response, State, Command, Error, ErrorCode, Message,
  new_game_request, apply_command_request,
}
use nadesiko_reversi.Protocol.Codes.{code_valid, code_valid_iff}
use nadesiko_reversi.Protocol.Validate.{
  state_validate, command_validate, event_validate, request_validate, success_validate,
  rejection_validate, response_validate, message_empty,
}
use nadesiko_reversi.Protocol.Validate.States.{IsValidState, state_validate_iff}
use nadesiko_reversi.Protocol.Validate.Commands.{
  IsValidCommand, command_validate_iff, IsValidEvent, event_validate_iff,
}

-- A property of the value behind a pointer that must not be nil, and of one that may be.
abbrev pub Given : {A : Type 0} → (A → Type 0) → Option A → Type 0
Given P none = ⊥
Given P (some a) = P a

abbrev pub IfGiven : {A : Type 0} → (A → Type 0) → Option A → Type 0
IfGiven P none = Unit
IfGiven P (some a) = P a

-- Each action carries its own fields and none of the other's.
pub record IsValidRequest (r : Request) : Type 0 where
  pub versioned : r.version ≡ version
  pub fields :
      ((r.action ≡ new_game)
        × (r.game_id ≢ [])
        × (r.seed ≢ none)
        × (r.state ≡ none)
        × (r.command ≡ none))
      ⊎ ((r.action ≡ apply_command)
          × Given IsValidState r.state
          × Given IsValidCommand r.command
          × (r.game_id ≡ [])
          × (r.seed ≡ none))

abbrev StateGiven : Option State → Option Command → Type 0
StateGiven (some s) (some c) = (state_validate s ≡ none) × (command_validate c ≡ none)
StateGiven _ _ = ⊥

Given-iff :
    (s : Option State) (c : Option Command)
    → StateGiven s c ↔ (Given IsValidState s × Given IsValidCommand c)
Given-iff (some s) (some c) = (
  λ h. ((state_validate_iff s).0 h.0, (command_validate_iff c).0 h.1),
  λ h. ((state_validate_iff s).1 h.0, (command_validate_iff c).1 h.1),
)
Given-iff (some s) none = (λ h. absurd h, λ h. absurd h.1)
Given-iff none c = (λ h. absurd h, λ h. absurd h.0)

-- What the request's own checks say, with the validity of its parts kept as calls.
abbrev Checks : Request → Type 0
Checks r =
    (r.version ≡ version)
    × (((r.action ≡ new_game)
          × (r.game_id ≢ [])
          × (r.seed ≢ none)
          × (r.state ≡ none)
          × (r.command ≡ none))
        ⊎ ((r.action ≡ apply_command)
            × StateGiven r.state r.command
            × (r.game_id ≡ [])
            × (r.seed ≡ none)))

Checks-iff : (r : Request) → (request_validate r ≡ none) ↔ Checks r
unfolding request_validate
Checks-iff r = (λ h. ground arith, λ h. ground arith)

-- Request.Validate accepts exactly the valid requests.
pub request_validate_iff : (r : Request) → (request_validate r ≡ none) ↔ IsValidRequest r
request_validate_iff r = (accepted, described)
  where
    accepted : request_validate r ≡ none → IsValidRequest r
    accepted h =
        let (v, fields) = (Checks-iff r).0 h in
        elim fields [
          | inl f ↦ record { versioned = v; fields = inl f }
          | inr (a, g, i, s) ↦
              let parts = (Given-iff r.state r.command).0 g in
              record { versioned = v; fields = inr (a, parts.0, parts.1, i, s) }
        ]

    described : IsValidRequest r → request_validate r ≡ none
    described v = elim (v.fields) [
      | inl f ↦ (Checks-iff r).1 (v.versioned, inl f)
      | inr (a, s, c, i, e) ↦
          (Checks-iff r).1 (v.versioned, inr (a, (Given-iff r.state r.command).1 (s, c), i, e))
    ]

pub record IsValidError (e : Error) : Type 0 where
  pub known : (t : Text) → e.code ≢ ErrorCode.other t
  pub worded : e.message.format ≢ ""

-- What Response.Validate checks: an answer is either a success with a state or a rejection with a
-- reason. It is weaker than docs/contracts, where a rejection has the state before the command and
-- the event of a placement its changes.
pub record IsValidResponse (r : Response) : Type 0 where
  pub versioned : r.version ≡ version
  pub fields :
      ((r.ok ≡ true) × (r.error ≡ none) × Given IsValidState r.state × IfGiven IsValidEvent r.event)
      ⊎ ((r.ok ≡ false)
          × Given IsValidError r.error
          × (r.event ≡ none)
          × IfGiven IsValidState r.state)

success_iff :
    (r : Response)
    → (success_validate r ≡ none) ↔ (
        (r.error ≡ none)
        × Given (λ s. state_validate s ≡ none) r.state
        × IfGiven (λ e. event_validate e ≡ none) r.event)
unfolding success_validate
success_iff r = (λ h. ground arith, λ h. ground arith)

not_empty : (m : Message) → m.format ≢ "" → message_empty m ≡ false
not_empty m h = elim (Bool-cases (message_empty m)) [
  | inl e ↦ absurd (h ((eq_iff m.format "").0 e))
  | inr e ↦ e
]

pub error_iff :
    (e : Error) → ((code_valid e.code ≡ true) × (message_empty e.message ≡ false)) ↔ IsValidError e
error_iff e = (
  λ h. record {
    known = (code_valid_iff e.code).0 h.0;
    worded = λ w. cc (h.1, (eq_iff e.message.format "").1 w);
  },
  λ v. ((code_valid_iff e.code).1 v.known, not_empty e.message v.worded),
)

rejection_iff :
    (r : Response)
    → (rejection_validate r ≡ none) ↔ (
        Given (λ e. (code_valid e.code ≡ true) × (message_empty e.message ≡ false)) r.error
        × (r.event ≡ none)
        × IfGiven (λ s. state_validate s ≡ none) r.state)
unfolding rejection_validate
rejection_iff r = (λ h. ground arith, λ h. ground arith)

Given-map :
    {A : Type 0} {P Q : A → Type 0} (o : Option A) → ((a : A) → P a → Q a) → Given P o → Given Q o
Given-map none f h = h
Given-map (some a) f h = f a h

IfGiven-map :
    {A : Type 0} {P Q : A → Type 0} (o : Option A)
    → ((a : A) → P a → Q a)
    → IfGiven P o
    → IfGiven Q o
IfGiven-map none f h = h
IfGiven-map (some a) f h = f a h

response_accepted : (r : Response) → response_validate r ≡ none → IsValidResponse r
unfolding response_validate
response_accepted r h = elim (Bool-cases r.ok) [
  | inl o ↦
      let (e, s, ev) = (success_iff r).0 (ground arith) in
      record {
        versioned = ground arith;
        fields = inl (
          o,
          e,
          Given-map r.state (λ a. (state_validate_iff a).0) s,
          IfGiven-map r.event (λ a. (event_validate_iff a).0) ev,
        );
      }
  | inr o ↦
      let (e, ev, s) = (rejection_iff r).0 (ground arith) in
      record {
        versioned = ground arith;
        fields = inr (
          o,
          Given-map r.error (λ a. (error_iff a).0) e,
          ev,
          IfGiven-map r.state (λ a. (state_validate_iff a).0) s,
        );
      }
]

response_described : (r : Response) → IsValidResponse r → response_validate r ≡ none
unfolding response_validate
response_described r v = elim (v.fields) [
  | inl (o, e, s, ev) ↦
      let ok = (success_iff r).1 (
        e,
        Given-map r.state (λ a. (state_validate_iff a).1) s,
        IfGiven-map r.event (λ a. (event_validate_iff a).1) ev,
      ) in
      let same = v.versioned in ground arith
  | inr (o, e, ev, s) ↦
      let ok = (rejection_iff r).1 (
        Given-map r.error (λ a. (error_iff a).1) e,
        ev,
        IfGiven-map r.state (λ a. (state_validate_iff a).1) s,
      ) in
      let same = v.versioned in ground arith
]

-- Response.Validate accepts exactly the responses of the known version that either are ok, with no error, a state that State.Validate accepts and perhaps an event that Event.Validate accepts, or are not ok, with a listed error and its message, no event, and perhaps such a state. A rejection without a state and a placement without changes are accepted.
pub response_validate_iff : (r : Response) → (response_validate r ≡ none) ↔ IsValidResponse r
response_validate_iff r = (response_accepted r, response_described r)

-- The requests that the server builds carry what their action needs: NewGameRequest passes its
-- check when the game has a name, ApplyCommandRequest when the state and the command pass theirs.
pub built_requests_valid :
    (game_id : Text) (seed : ℕ) (s : State) (c : Command)
    → ((request_validate (new_game_request game_id seed) ≡ none) ↔ (game_id ≢ []))
      × ((request_validate (apply_command_request s c) ≡ none)
          ↔ ((state_validate s ≡ none) × (command_validate c ≡ none)))
unfolding request_validate new_game_request apply_command_request
built_requests_valid game_id seed s c =
    ((λ h. ground arith, λ h. ground arith), (λ h. ground arith, λ h. ground arith))
