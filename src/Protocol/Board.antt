-- ===== src/Protocol/Board.antt =====
-- Board geometry: Index, InBounds, NewBoard and Board.At of server/internal/protocol/protocol.go.
use nadesiko_reversi.Prelude.{
  ℕ, zero, suc, ◌+◌, ◌*◌, ◌<◌, ◌≡◌, refl, inl, inr, Bool-cases, Bool, true, false, ◌&&◌, Option,
  none, some, List, arith, if◌then◌else◌, ◌==◌, length, get_elem?, replicate,
}
use nadesiko_reversi.Prelude.Int.{ℤ, pos, negsuc, ltb_ℤ, leb_ℤ, ◌+ℤ◌, ◌*ℤ◌, eq_ℤ}
use nadesiko_reversi.Protocol.Types.{
  Cell, Board, elems, contents, board_size, board_cells, State, Position,
}

-- func InBounds
unfoldable pub in_bounds : ℤ → ℤ → Bool
in_bounds row col =
    leb_ℤ (pos 0) row
    && ltb_ℤ row (pos board_size)
    && leb_ℤ (pos 0) col
    && ltb_ℤ col (pos board_size)

-- func Index
unfoldable pub index : ℤ → ℤ → ℤ
index row col = row *ℤ pos board_size +ℤ col

-- func NewBoard
unfoldable pub new_board : Board
new_board = elems (replicate board_cells none)

-- `b[i]`; none is the panic of an index out of range.
unfoldable pub cell_at : List Cell → ℤ → Option Cell
cell_at cells (pos i) = get_elem? cells i
cell_at cells (negsuc i) = none

-- func (b Board) At
unfoldable pub at : Board → ℤ → ℤ → Option Cell
at b row col =
    if in_bounds row col && length (contents b) == board_cells
    then cell_at (contents b) (index row col)
    else some none

-- func (s State) IsLegalMove, over what `range` sees of the moves
unfoldable pub is_move_in : List Position → ℤ → ℤ → Bool
is_move_in List.[] row col = false
is_move_in (List.◌∷◌ move moves) row col =
    if eq_ℤ move.row row && eq_ℤ move.col col then true else is_move_in moves row col

unfoldable pub is_legal_move : State → ℤ → ℤ → Bool
unfolding is_move_in
is_legal_move s row col = is_move_in (contents s.legal_moves) row col

-- A coordinate on the board is a number below 8.
pub in_bounds-pos :
    (row col : ℤ)
    → in_bounds row col ≡ true
    → (r c : ℕ) × (row ≡ pos r) × (col ≡ pos c) × (r < board_size) × (c < board_size)
unfolding in_bounds
in_bounds-pos (pos r) (pos c) h = (r, c, refl, refl, ground arith, ground arith)
in_bounds-pos (pos r) (negsuc c) h = absurd (ground arith)
in_bounds-pos (negsuc r) c h = absurd (ground arith)

index-pos : (r c : ℕ) → index (pos r) (pos c) ≡ pos (r * 8 + c)
unfolding index ◌*ℤ◌ ◌+ℤ◌
index-pos r c = ground arith

-- A position on the board has an index below 64.
pub index-bounds :
    (row col : ℤ) → in_bounds row col ≡ true → (i : ℕ) × (index row col ≡ pos i) × (i < board_cells)
index-bounds row col h =
    let (r, c, er, ec, hr, hc) = in_bounds-pos row col h in
    (r * 8 + c, rw (er, ec) (index-pos r c), omega arith)

-- Positions on the board with one index are one position.
pub index-injective :
    (r c r' c' : ℤ)
    → in_bounds r c ≡ true
    → in_bounds r' c' ≡ true
    → index r c ≡ index r' c'
    → (r ≡ r') × (c ≡ c')
index-injective r c r' c' h h' e =
    let (i, j, er, ec, hi, hj) = in_bounds-pos r c h in
    let (i', j', er', ec', hi', hj') = in_bounds-pos r' c' h' in
    let same : pos (i * 8 + j) ≡ pos (i' * 8 + j') = cc (index-pos i j, index-pos i' j') in
    let sums : i * 8 + j ≡ i' * 8 + j' = cc in
    let rows : i ≡ i' = omega arith in let cols : j ≡ j' = omega arith in (cc, cc)

pub get_elem?-lt {ℓ} :
    {A : Type ℓ} (xs : List A) (i : ℕ) → i < length xs → (a : A) × (get_elem? xs i ≡ some a)
get_elem?-lt List.[] i h = absurd (omega arith)
get_elem?-lt (List.◌∷◌ x xs) zero h = (x, refl)
get_elem?-lt (List.◌∷◌ x xs) (suc i) h = get_elem?-lt xs i (omega arith)

-- `At` never indexes out of range, whatever the board and the position.
pub at-total : (b : Board) (row col : ℤ) → (c : Cell) × (at b row col ≡ some c)
unfolding at cell_at
at-total b row col = elim (Bool-cases (in_bounds row col && length (contents b) == board_cells)) [
  | inl h ↦
      let (i, e, lt) = index-bounds row col (ground arith) in
      let (c, found) = get_elem?-lt (contents b) i (ground arith) in (c, rw (h, e) found)
  | inr h ↦ (none, rw h)
]
