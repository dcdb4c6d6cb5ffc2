-- ===== src/Protocol/Validate/States.antt =====
-- What State.Validate accepts, against a description of a valid state by propositions.
use nadesiko_reversi.Prelude.{
  ◌≡◌, ◌≢◌, ◌↔◌, ◌⊎◌, true, none, some, List, [], ◌∷◌, all, length, All, arith,
}
use nadesiko_reversi.Prelude.Int.{ℤ, pos, ◌≤ℤ◌, ◌<ℤ◌}
use nadesiko_reversi.Protocol.Types.{
  version, board_size, board_cells, contents, dark, light, playing, finished, Position, State,
}
use nadesiko_reversi.Protocol.Board.{in_bounds}
use nadesiko_reversi.Protocol.Codes.{player_valid, phase_valid}
use nadesiko_reversi.Protocol.Validate.{
  board_validate, phase_validate, state_validate, move_in_bounds,
}

-- A position with both coordinates from 0 to 7.
abbrev pub OnBoard : ℤ → ℤ → Type 0
OnBoard row col =
    (pos 0 ≤ℤ row) × (row <ℤ pos board_size) × (pos 0 ≤ℤ col) × (col <ℤ pos board_size)

-- The winner and the moves that each phase allows.
abbrev pub PhaseAgrees : State → Type 0
PhaseAgrees s =
    ((s.phase ≡ playing) × (s.winner ≡ none))
    ⊎ ((s.phase ≡ finished)
        × ((s.winner ≡ some dark) ⊎ (s.winner ≡ some light))
        × (contents s.legal_moves ≡ []))

-- A state that the checks of State.Validate describe. It is weaker than docs/contracts, where the
-- legal moves of a state are all different and in row-major order.
pub record IsValidState (s : State) : Type 0 where
  pub versioned : s.version ≡ version
  pub named : s.game_id ≢ []
  pub cells : length (contents s.board) ≡ board_cells
  pub turn : pos 0 ≤ℤ s.turn_number
  pub player : (s.current_player ≡ dark) ⊎ (s.current_player ≡ light)
  pub passes : (pos 0 ≤ℤ s.consecutive_passes) × (s.consecutive_passes ≤ℤ pos 2)
  pub moves : All (λ m. OnBoard m.row m.col) (contents s.legal_moves)
  pub agrees : PhaseAgrees s

pub in_bounds_iff : (row col : ℤ) → (in_bounds row col ≡ true) ↔ OnBoard row col
unfolding in_bounds
in_bounds_iff row col = ground arith

all_moves_iff :
    (ms : List Position) → (all move_in_bounds ms ≡ true) ↔ All (λ m. OnBoard m.row m.col) ms
all_moves_iff [] = ground arith
all_moves_iff (m ∷ ms) = ground (arith, in_bounds_iff m.row m.col, all_moves_iff ms)

pub length-eq-zero : {A : Type 0} (xs : List A) → (length xs ≡ 0) ↔ (xs ≡ [])
length-eq-zero [] = ground arith
length-eq-zero (x ∷ xs) = ground arith

phase_validate_iff :
    (s : State) → (phase_valid s.phase ≡ true) → (phase_validate s.phase s ≡ none) ↔ PhaseAgrees s
unfolding phase_validate player_valid phase_valid
phase_validate_iff s h = ground (arith, length-eq-zero (contents s.legal_moves))

-- The checks before the switch on the phase.
Fields : State → Type 0
Fields s =
    (s.version ≡ version)
    × (s.game_id ≢ [])
    × (length (contents s.board) ≡ board_cells)
    × (pos 0 ≤ℤ s.turn_number)
    × ((s.current_player ≡ dark) ⊎ (s.current_player ≡ light))
    × (pos 0 ≤ℤ s.consecutive_passes)
    × (s.consecutive_passes ≤ℤ pos 2)
    × (phase_valid s.phase ≡ true)
    × (all move_in_bounds (contents s.legal_moves) ≡ true)
    × (phase_validate s.phase s ≡ none)

state_validate-Fields : (s : State) → (state_validate s ≡ none) → Fields s
unfolding state_validate board_validate player_valid Fields
state_validate-Fields s h = ground arith

Fields-state_validate : (s : State) → Fields s → (state_validate s ≡ none)
unfolding state_validate board_validate player_valid Fields
Fields-state_validate s h = ground arith

phase_valid_of_agrees : (s : State) → PhaseAgrees s → phase_valid s.phase ≡ true
unfolding phase_valid
phase_valid_of_agrees s h = ground arith

-- State.Validate accepts exactly the states that have the known version, a name, 64 cells, a turn of zero or more, one of the two players to move, zero to two passes in a row and legal moves on the board, and that are either in play without a winner, or finished with a winner and no legal moves. Whether a move is listed twice is not checked.
pub state_validate_iff : (s : State) → (state_validate s ≡ none) ↔ IsValidState s
unfolding Fields
state_validate_iff s = (accepted, described)
  where
    accepted : state_validate s ≡ none → IsValidState s
    accepted h =
        let (v, n, b, t, p, low, high, ph, ms, r) = state_validate-Fields s h in
        record {
          versioned = v;
          named = n;
          cells = b;
          turn = t;
          player = p;
          passes = (low, high);
          moves = (all_moves_iff (contents s.legal_moves)).0 ms;
          agrees = (phase_validate_iff s ph).0 r;
        }

    described : IsValidState s → state_validate s ≡ none
    described v = Fields-state_validate s (
      v.versioned,
      v.named,
      v.cells,
      v.turn,
      v.player,
      v.passes.0,
      v.passes.1,
      phase_valid_of_agrees s v.agrees,
      (all_moves_iff (contents s.legal_moves)).1 v.moves,
      (phase_validate_iff s (phase_valid_of_agrees s v.agrees)).1 v.agrees,
    )
