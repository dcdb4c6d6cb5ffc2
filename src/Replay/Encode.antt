-- ===== src/Replay/Encode.antt =====
-- server/internal/replay/encode.go: a game written as a record that can be run.
use nadesiko_reversi.Prelude.{
  ℕ, ◌+◌, not, Option, none, some, List, [], ◌∷◌, ◌++◌, Text, codes, text_eq, length, if◌then◌else◌,
}
use nadesiko_reversi.Prelude.Int.{ℤ}
use nadesiko_reversi.Prelude.Decimal.{decimal, int_text}
use nadesiko_reversi.Protocol.Types.{
  Player, dark, light, CommandType, place, pass, Cell, Board, contents, Event, is_finished,
}
use nadesiko_reversi.Protocol.Board.{in_bounds}
use nadesiko_reversi.Protocol.Codes.{player_valid}
use nadesiko_reversi.Replay.Types.{rules_version, Move, Script, Frame, Result}
use nadesiko_reversi.Replay.Record.{game_id_valid}
use nadesiko_reversi.Replay.Replayer.{final_state, or_zero}

-- The errors of this file.
pub data EncodeError : Type 0 where
  no_result : EncodeError
  bad_game_id : Text → EncodeError
  off_board : ℤ → ℤ → EncodeError
  bad_player : Player → EncodeError
  bad_winner : Player → EncodeError
  no_coordinates : EncodeError
  bad_move : Text → EncodeError
  at_move : ℤ → EncodeError → EncodeError
  no_winner : EncodeError

-- The pair of a text and an error.
pub data Written : Type 0 where
  written : Text → Written
  unwritable : EncodeError → Written

-- `line, err := …; if err != nil { return "", err }`
infixl 5 ◌>>=◌
abbrev pub ◌>>=◌ : Written → (Text → Written) → Written
written s >>= f = f s
unwritable e >>= f = unwritable e

-- func RecordFileName
unfoldable pub record_file_name : Text → Written
record_file_name game_id =
    if game_id_valid game_id
    then written (game_id ++ codes ".nako3")
    else unwritable (bad_game_id game_id)

-- func playerWord
unfoldable pub player_word : Player → Text
player_word light = codes "白"
player_word _ = codes "黒"

-- func wordPlayer
unfoldable pub word_player : Text → Option Player
word_player word =
    if text_eq word (codes "黒")
    then some dark
    else if text_eq word (codes "白")
    then some light
    else none

-- the line of a time in the header
abbrev time_line : Text → Text → List Text
time_line prefix [] = []
time_line prefix (c ∷ cs) = (prefix ++ c ∷ cs) ∷ []

-- func HeaderLines
unfoldable pub header_lines : Text → Text → List Text
header_lines started_at ended_at =
    codes "# グラデーションリバーシ 対局記録 v1"
    ∷ (time_line (codes "# 開始 ") started_at ++ time_line (codes "# 終了 ") ended_at)

-- func RulesVersionLine
unfoldable pub rules_version_line : Text
rules_version_line = codes "「" ++ (rules_version ++ codes "」でルール版宣言")

-- func StartLine
unfoldable pub start_line : Text → ℕ → Written
start_line game_id seed =
    if game_id_valid game_id
    then written (codes "「" ++ (game_id ++ (codes "」と" ++ (decimal seed ++ codes "で対局開始"))))
    else unwritable (bad_game_id game_id)

-- func PlaceLine, the text
unfoldable pub place_text : Player → ℤ → ℤ → ℕ → ℕ → Text
place_text player row col color changed =
    int_text row
    ++ (codes "と"
        ++ (int_text col
            ++ (codes "で"
                ++ (player_word player
                    ++ (codes "着手    # 色"
                        ++ (decimal color ++ (codes "、" ++ (decimal changed ++ codes "個変換"))))))))

-- func PlaceLine
unfoldable pub place_line : Player → ℤ → ℤ → ℕ → ℕ → Written
unfolding place_text player_word
place_line player row col color changed =
    if not (in_bounds row col)
    then unwritable (off_board row col)
    else if not (player_valid player)
    then unwritable (bad_player player)
    else written (place_text player row col color changed)

-- func PassLine
unfoldable pub pass_line : Player → Written
unfolding player_word
pass_line player =
    if not (player_valid player)
    then unwritable (bad_player player)
    else written (player_word player ++ codes "パス")

-- func EndLine, the text
unfoldable pub end_text : Player → ℕ → ℕ → ℕ → Text
end_text winner move_count color_sum piece_count =
    codes "「"
    ++ (player_word winner
        ++ (codes "」で対局終了   # "
            ++ (decimal move_count
                ++ (codes "手、色合計" ++ (decimal color_sum ++ (codes "、駒" ++ decimal piece_count))))))

-- func EndLine
unfoldable pub end_line : Player → ℕ → ℕ → ℕ → Written
unfolding end_text player_word
end_line winner move_count color_sum piece_count =
    if not (player_valid winner)
    then unwritable (bad_winner winner)
    else written (end_text winner move_count color_sum piece_count)

-- one round of the loop of boardTotals
unfoldable pub add_cells : ℕ → ℕ → List Cell → ℕ × ℕ
add_cells color_sum pieces [] = (color_sum, pieces)
add_cells color_sum pieces (none ∷ cells) = add_cells color_sum pieces cells
add_cells color_sum pieces (some color ∷ cells) = add_cells (color_sum + color) (pieces + 1) cells

-- func boardTotals
unfoldable pub board_totals : Board → ℕ × ℕ
unfolding add_cells
board_totals b = add_cells 0 0 (contents b)

abbrev pub event_color : Option Event → ℕ
event_color none = 0
event_color (some e) = or_zero e.placed_color

abbrev pub event_changed : Option Event → ℕ
event_changed none = 0
event_changed (some e) = length (contents e.changes)

-- encodeFrame, the case of a placement
unfoldable pub encode_placement : Player → Option ℤ → Option ℤ → Option Event → Written
unfolding place_line
encode_placement player (some row) (some col) event =
    place_line player row col (event_color event) (event_changed event)
encode_placement player _ _ event = unwritable no_coordinates

-- encodeFrame, for the frame's move and its event
unfoldable pub encode_move : CommandType → Move → Option Event → Written
unfolding encode_placement pass_line
encode_move pass m event = pass_line m.player
encode_move place m event = encode_placement m.player m.row m.col event
encode_move (CommandType.other t) m event = unwritable (bad_move t)

-- func encodeFrame, with the error that EncodeResult makes of its error
unfoldable pub encode_frame : Frame → Move → Written
unfolding encode_move
encode_frame f m = elim (encode_move m.type m f.event) [
  | written line ↦ written line
  | unwritable e ↦ unwritable (at_move f.move_number e)
]

-- `out.WriteString(line); out.WriteString("\n")` for each line, and what comes after
unfoldable pub write_lines : List Text → Text → Text
write_lines [] rest = rest
write_lines (line ∷ lines) rest = line ++ (10 ∷ write_lines lines rest)

-- the lines of the loop of EncodeResult
pub data Lines : Type 0 where
  lines : List Text → Lines
  unwritable : EncodeError → Lines

abbrev pub add_line : Text → Lines → Lines
add_line l (lines ls) = lines (l ∷ ls)
add_line l (unwritable e) = unwritable e

abbrev pub with_line : Written → Lines → Lines
with_line (written l) ls = add_line l ls
with_line (unwritable e) ls = unwritable e

-- the loop of EncodeResult
unfoldable pub encode_frames : List Frame → Lines
unfolding encode_frame
encode_frames [] = lines []
encode_frames (f ∷ fs) =
    let rest = encode_frames fs in
    elim f.move [ none ↦ rest | some m ↦ with_line (encode_frame f m) rest ]

-- the end line of EncodeResult
unfoldable pub encode_end : Result → Option Player → Written
unfolding end_line board_totals
encode_end r none = unwritable no_winner
encode_end r (some winner) =
    let totals : ℕ × ℕ = board_totals (final_state r).board in
    end_line winner (length r.later) totals.0 totals.1

-- the lines up to the moves
abbrev pub head_lines : Script → Text → List Text
head_lines script first =
    header_lines script.started_at script.ended_at ++ ([] ∷ rules_version_line ∷ first ∷ [] ∷ [])

-- EncodeResult, from the moves on
unfoldable pub encode_moves : Result → Text → Lines → Written
unfolding encode_end
encode_moves r first (unwritable e) = unwritable e
encode_moves r first (lines moves) =
    let before = head_lines r.script first ++ moves in
    if not (is_finished (final_state r).phase)
    then written (write_lines before [])
    else encode_end r (final_state r).winner >>= λ last.
        written (write_lines (before ++ ([] ∷ last ∷ [])) [])

-- func EncodeResult; none is a nil result
unfoldable pub encode_result : Option Result → Written
unfolding start_line encode_frames encode_moves
encode_result none = unwritable no_result
encode_result (some r) = start_line r.script.game_id r.script.seed >>= λ first.
    encode_moves r first (encode_frames r.later)
