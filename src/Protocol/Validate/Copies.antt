-- ===== src/Protocol/Validate/Copies.antt =====
-- Copies are as valid as their originals.
use nadesiko_reversi.Prelude.{◌≡◌, subst, some, inl, inr}
use nadesiko_reversi.Protocol.Types.{State, Response}
use nadesiko_reversi.Protocol.Clone.{clone_board_lem, contents-clone_slice, clone_state}
use nadesiko_reversi.Protocol.Validate.States.{IsValidState}
use nadesiko_reversi.Protocol.Validate.Requests.{Given, IfGiven, IsValidResponse}

pub clone_state-IsValidState : (s : State) → IsValidState s → IsValidState (clone_state s)
unfolding clone_state
clone_state-IsValidState s v = record {
  versioned = v.versioned;
  named = v.named;
  cells = rw (clone_board_lem s.board) (v.cells);
  turn = v.turn;
  player = v.player;
  passes = v.passes;
  moves = rw (contents-clone_slice s.legal_moves) (v.moves);
  agrees = rw (contents-clone_slice s.legal_moves) (v.agrees);
}

-- The state of a valid response is valid.
pub response-IsValidState :
    (a : Response) (s : State) → IsValidResponse a → a.state ≡ some s → IsValidState s
response-IsValidState a s v e = elim (v.fields) [
  | inl (ok, err, given, ev) ↦ subst (Given IsValidState) e given
  | inr (ok, err, ev, given) ↦ subst (IfGiven IsValidState) e given
]
