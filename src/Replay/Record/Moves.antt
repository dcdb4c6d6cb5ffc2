-- ===== src/Replay/Record/Moves.antt =====
-- Moves of a record and commands of the contract carry the same play.
use nadesiko_reversi.Prelude.{drop, ◌≡◌, ◌∙◌, sym, ap, none, arith, ℕ, ◌+◌}
use nadesiko_reversi.Prelude.Int.{ℤ, pos, ◌+ℤ◌}
use nadesiko_reversi.Prelude.Decimal.{int_text, decimal, decimal-injective}
use nadesiko_reversi.Protocol.Types.{Command}
use nadesiko_reversi.Protocol.Validate.{command_validate, place_validate}
use nadesiko_reversi.Replay.Types.{Move}
use nadesiko_reversi.Replay.Record.{
  placement_validate, type_validate, move_validate, move_command, move_from_command,
}

-- A valid move comes back from the command that a replay makes of it, whatever the turn.
pub move_from_command-move_command :
    (m : Move) (t : ℤ) → move_validate m ≡ none → move_from_command (move_command m t) ≡ m
unfolding move_validate type_validate placement_validate move_command move_from_command
move_from_command-move_command m t h = ground arith

-- The command that a replay makes of a valid move is valid at every turn from 0 on.
pub move_command-command_validate :
    (m : Move) (n : ℕ) → move_validate m ≡ none → command_validate (move_command m (pos n)) ≡ none
unfolding move_validate type_validate placement_validate move_command command_validate
    place_validate
move_command-command_validate m n h = ground arith

-- The move taken from a valid command is valid.
pub move_from_command-move_validate :
    (c : Command) → command_validate c ≡ none → move_validate (move_from_command c) ≡ none
unfolding move_validate type_validate placement_validate move_from_command command_validate
    place_validate
move_from_command-move_validate c h = ground arith

next_turn : (n : ℕ) → pos n +ℤ pos 1 ≡ pos (n + 1)
unfolding ◌+ℤ◌
next_turn n = ground arith

-- The commands of two turns of a replay have different ids.
pub command_id-injective :
    (m m' : Move) (s t : ℕ)
    → (move_command m (pos s)).command_id ≡ (move_command m' (pos t)).command_id
    → s ≡ t
unfolding move_command int_text
command_id-injective m m' s t e =
    let digits : decimal (s + 1) ≡ decimal (t + 1) =
      sym (ap int_text (next_turn s)) ∙ ap (drop 7) e ∙ ap int_text (next_turn t) in
    let same = decimal-injective (s + 1) (t + 1) digits in omega arith
