-- ===== src/Protocol/Validate/Commands.antt =====
-- What Command.Validate and Event.Validate accept.
use nadesiko_reversi.Prelude.{
  Option, ◌≡◌, ◌≢◌, ◌↔◌, ◌⊎◌, true, none, some, List, [], ◌∷◌, all, All, arith,
}
use nadesiko_reversi.Prelude.Int.{ℤ, pos, ◌≤ℤ◌}
use nadesiko_reversi.Protocol.Types.{
  contents, dark, light, place, pass, placed, passed, Command, Change, Event,
}
use nadesiko_reversi.Protocol.Board.{in_bounds}
use nadesiko_reversi.Protocol.Codes.{player_valid}
use nadesiko_reversi.Protocol.Validate.{
  place_validate, command_validate, placed_validate, event_validate,
}
use nadesiko_reversi.Protocol.Validate.States.{OnBoard, in_bounds_iff, length-eq-zero}

-- Both coordinates are given and lie on the board.
abbrev pub PlacesOnBoard : Option ℤ → Option ℤ → Type 0
PlacesOnBoard (some row) (some col) = OnBoard row col
PlacesOnBoard _ _ = ⊥

-- A placement names a position on the board, a pass names none.
abbrev pub Shape : Command → Type 0
Shape c =
    ((c.type ≡ place) × PlacesOnBoard c.row c.col)
    ⊎ ((c.type ≡ pass) × (c.row ≡ none) × (c.col ≡ none))

pub record IsValidCommand (c : Command) : Type 0 where
  pub identified : c.command_id ≢ []
  pub player : (c.player ≡ dark) ⊎ (c.player ≡ light)
  pub turn : pos 0 ≤ℤ c.expected_turn
  pub shape : Shape c

pub place_validate_iff :
    (row col : Option ℤ) → (place_validate row col ≡ none) ↔ PlacesOnBoard row col
unfolding place_validate
place_validate_iff (some row) (some col) = ground (arith, in_bounds_iff row col)
place_validate_iff (some row) none = ground arith
place_validate_iff none col = ground arith

accepted : (c : Command) → command_validate c ≡ none → IsValidCommand c
unfolding command_validate player_valid
accepted c h = record {
  identified = ground arith;
  player = ground arith;
  turn = ground arith;
  shape = ground (arith, place_validate_iff c.row c.col);
}

described : (c : Command) → IsValidCommand c → command_validate c ≡ none
unfolding command_validate player_valid
described c v = ground (arith, place_validate_iff c.row c.col)

-- Command.Validate accepts exactly the valid commands.
pub command_validate_iff : (c : Command) → (command_validate c ≡ none) ↔ IsValidCommand c
command_validate_iff c = (accepted c, described c)

all_changes_iff :
    (cs : List Change)
    → (all (λ c. in_bounds c.row c.col) cs ≡ true) ↔ All (λ c. OnBoard c.row c.col) cs
all_changes_iff [] = ground arith
all_changes_iff (c ∷ cs) = ground (arith, in_bounds_iff c.row c.col, all_changes_iff cs)

-- What an event of each type carries.
abbrev pub Carries : Event → Type 0
Carries e =
    ((e.type ≡ placed)
      × PlacesOnBoard e.row e.col
      × (e.placed_color ≢ none)
      × All (λ c. OnBoard c.row c.col) (contents e.changes))
    ⊎ ((e.type ≡ passed)
        × (e.row ≡ none)
        × (e.col ≡ none)
        × (e.placed_color ≡ none)
        × (contents e.changes ≡ []))

pub record IsValidEvent (e : Event) : Type 0 where
  pub identified : e.command_id ≢ []
  pub player : (e.player ≡ dark) ⊎ (e.player ≡ light)
  pub turn : pos 1 ≤ℤ e.turn_number
  pub carries : Carries e

placed_validate_iff :
    (row col : Option ℤ) (e : Event)
    → (placed_validate row col e ≡ none) ↔ (
        PlacesOnBoard row col
        × (e.placed_color ≢ none)
        × All (λ c. OnBoard c.row c.col) (contents e.changes))
unfolding placed_validate
placed_validate_iff (some row) (some col) e =
    ground (arith, in_bounds_iff row col, all_changes_iff (contents e.changes))
placed_validate_iff (some row) none e = ground arith
placed_validate_iff none col e = ground arith

event_accepted : (e : Event) → event_validate e ≡ none → IsValidEvent e
unfolding event_validate player_valid
event_accepted e h = record {
  identified = ground arith;
  player = ground arith;
  turn = ground arith;
  carries = ground (arith, placed_validate_iff e.row e.col e, length-eq-zero (contents e.changes));
}

event_described : (e : Event) → IsValidEvent e → event_validate e ≡ none
unfolding event_validate player_valid
event_described e v =
    ground (arith, placed_validate_iff e.row e.col e, length-eq-zero (contents e.changes))

-- Event.Validate accepts exactly the valid events.
pub event_validate_iff : (e : Event) → (event_validate e ≡ none) ↔ IsValidEvent e
event_validate_iff e = (event_accepted e, event_described e)
