-- ===== src/Protocol/Codes.antt =====
-- Player.Valid, Phase.Valid, ErrorCode.Valid and the list of error codes
-- (server/internal/protocol/protocol.go and errors.go).
use nadesiko_reversi.Prelude.{
  Bool, true, false, ◌||◌, ◌≡◌, refl, ◌≢◌, ◌↔◌, ◌⊎◌, List, [], ◌∷◌, any, Text, text_eq, test, arith,
  ℕ_discrete,
}
use nadesiko_reversi.Protocol.Types.{
  Player, dark, light, player_eq, Phase, playing, finished, ErrorCode, invalid_json,
  unsupported_version, invalid_request, invalid_state, invalid_command, invalid_coordinate,
  occupied, illegal_move, not_your_turn, stale_turn, pass_not_allowed, game_finished,
}

-- func (p Player) Valid
unfoldable pub player_valid : Player → Bool
player_valid p = player_eq p dark || player_eq p light

-- `==` on the string type Phase.
abbrev pub phase_eq : Phase → Phase → Bool
phase_eq playing playing = true
phase_eq finished finished = true
phase_eq (Phase.other a) (Phase.other b) = text_eq a b
phase_eq _ _ = false

-- func (p Phase) Valid
unfoldable pub phase_valid : Phase → Bool
phase_valid p = phase_eq p playing || phase_eq p finished

-- `==` on the string type ErrorCode.
unfoldable pub code_dec : Discrete ErrorCode
unfolding ℕ_discrete
code_dec = hlevel ℕ_discrete

abbrev pub code_eq : ErrorCode → ErrorCode → Bool
code_eq a b = test (code_dec a b)

-- var errorCodes, and func ErrorCodes
unfoldable pub error_codes : List ErrorCode
error_codes =
    invalid_json ∷ unsupported_version ∷ invalid_request ∷ invalid_state ∷ invalid_command
    ∷ invalid_coordinate ∷ occupied ∷ illegal_move ∷ not_your_turn ∷ stale_turn ∷ pass_not_allowed
    ∷ game_finished ∷ []

-- func (c ErrorCode) Valid
unfoldable pub code_valid : ErrorCode → Bool
unfolding error_codes
code_valid c = any (code_eq c) error_codes

-- The lists of constants and the validity tests agree.
pub player_valid_iff : (p : Player) → (player_valid p ≡ true) ↔ ((p ≡ dark) ⊎ (p ≡ light))
unfolding player_valid
player_valid_iff p = ground arith

pub phase_valid_iff : (p : Phase) → (phase_valid p ≡ true) ↔ ((p ≡ playing) ⊎ (p ≡ finished))
unfolding phase_valid
phase_valid_iff p = ground arith

-- A code is valid exactly when it is one of the twelve constants.
pub code_valid_iff : (c : ErrorCode) → (code_valid c ≡ true) ↔ ((t : Text) → c ≢ ErrorCode.other t)
unfolding code_valid code_dec
code_valid_iff (ErrorCode.other t) = (λ h. cc, λ h. absurd (h t refl))
code_valid_iff _ = (λ h t. cc, λ h. refl)
