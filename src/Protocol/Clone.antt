-- ===== src/Protocol/Clone.antt =====
-- The copies that the server hands out: Board.Clone and State.Clone of
-- server/internal/protocol/protocol.go, and the copy of an event's changes that match and
-- localgame make.
use nadesiko_reversi.Prelude.{◌≡◌, refl, none, some, List, [], ◌∷◌, map, ap}
use mathlib.Core.Option
use nadesiko_reversi.Protocol.Types.{
  Slice, nil, elems, contents, Cell, Board, State, Event, Response,
}

-- `append([]T(nil), xs...)`: the copy of a slice without elements is nil.
unfoldable pub append_to_nil {ℓ} : {A : Type ℓ} → List A → Slice A
append_to_nil [] = nil
append_to_nil (x ∷ xs) = elems (x ∷ xs)

-- `if xs != nil { out = append([]T(nil), xs...) }`
unfoldable pub clone_slice {ℓ} : {A : Type ℓ} → Slice A → Slice A
unfolding append_to_nil
clone_slice nil = nil
clone_slice (elems xs) = append_to_nil xs

-- One round of the loop of Board.Clone: `make` leaves nil, and NewCell(*cell) is written for a piece.
unfoldable pub clone_cell : Cell → Cell
clone_cell none = none
clone_cell (some color) = some color

-- func (b Board) Clone. `make` gives a slice that is not nil, also at length 0.
unfoldable pub clone_board : Board → Board
unfolding clone_cell
clone_board nil = nil
clone_board (elems cells) = elems (map clone_cell cells)

-- func (s State) Clone
unfoldable pub clone_state : State → State
unfolding clone_board clone_slice
clone_state s = record s { board = clone_board s.board; legal_moves = clone_slice s.legal_moves }

-- The copy of a game event in Event.clone and in cloneResponse.
unfoldable pub clone_event : Event → Event
unfolding clone_slice
clone_event e = record e { changes = clone_slice e.changes }

-- func cloneResponse, of match/errors.go and of localgame/service.go
unfoldable pub clone_response : Response → Response
unfolding clone_state clone_event
clone_response r = record r {
  state = Option.map clone_state r.state;
  event = Option.map clone_event r.event;
}

map-clone_cell : (cells : List Cell) → map clone_cell cells ≡ cells
unfolding clone_cell
map-clone_cell [] = refl
map-clone_cell (none ∷ cells) = ap (◌∷◌ none) (map-clone_cell cells)
map-clone_cell (some c ∷ cells) = ap (◌∷◌ (some c)) (map-clone_cell cells)

-- The copy of a board is the board.
pub clone_board_lem : (b : Board) → clone_board b ≡ b
unfolding clone_board
clone_board_lem nil = refl
clone_board_lem (elems cells) = ap elems (map-clone_cell cells)

-- A copied slice has the same elements.
pub contents-clone_slice {ℓ} : {A : Type ℓ} (s : Slice A) → contents (clone_slice s) ≡ contents s
unfolding clone_slice
contents-clone_slice nil = refl
contents-clone_slice (elems []) = refl
contents-clone_slice (elems (x ∷ xs)) = refl

pub clone_slice_idem {ℓ} : {A : Type ℓ} (s : Slice A) → clone_slice (clone_slice s) ≡ clone_slice s
unfolding clone_slice
clone_slice_idem nil = refl
clone_slice_idem (elems []) = refl
clone_slice_idem (elems (x ∷ xs)) = refl

-- A second copy is equal to the first, nil slices included.
pub clone_state_idem : (s : State) → clone_state (clone_state s) ≡ clone_state s
unfolding clone_state
clone_state_idem s = λ i. record s {
  board = ap clone_board (clone_board_lem s.board) i;
  legal_moves = clone_slice_idem s.legal_moves i;
}
