-- ===== src/Server/Ledger/Writing.antt =====
-- The text that saveFinished writes, and the one that EncodeResult writes for the same game.
use mathlib.Core.List.{append_assoc}
use nadesiko_reversi.Prelude.{
  ℕ, ◌≡◌, ◌∙◌, sym, ap, refl, true, Option, none, some, List, [], ◌∷◌, ◌++◌, map, Text, length,
  length-map,
}
use nadesiko_reversi.Prelude.Int.{ℤ, pos}
use nadesiko_reversi.Protocol.Types.{
  Player, CommandType, place, pass, Command, Event, State, contents, is_finished,
}
use nadesiko_reversi.Replay.Types.{Move, Frame, Result, rules_version}
use nadesiko_reversi.Protocol.Types
use nadesiko_reversi.Replay.Replayer.{final_state, last_state}
use nadesiko_reversi.Replay.Scan.{no_lines, scanned, scan}
use nadesiko_reversi.Replay.Scan.Lines.{IsTime}
use nadesiko_reversi.Replay.Scan.Written.{NotesFit}
use nadesiko_reversi.Replay.Scan.RoundTrip.{outline_of, scan-encode_result}
use nadesiko_reversi.Replay.Encode.{
  Written, written, Lines, lines, header_lines, rules_version_line, start_line, place_line,
  end_line, board_totals, encode_placement, encode_move, encode_frame, with_line, encode_frames,
  write_lines, encode_end, encode_moves, encode_result, head_lines,
}
use nadesiko_reversi.Replay.Encode
use nadesiko_reversi.Server.Ledger.{
  AcceptedMove, RoomRecord, Made, made, broke, ◌>>=◌, of_written, placement_line, move_line,
  move_lines, join_lines, first_lines, record_text,
}

-- The move of a command.
abbrev pub played_move : Command → Move
played_move c = record { player = c.player; type = c.type; row = c.row; col = c.col }

-- A frame with an accepted move, its event and a state.
abbrev pub played_frame : State → AcceptedMove → Frame
played_frame final m = record {
  turn_number = pos 0;
  move_number = pos 0;
  line = 0;
  move = some (played_move m.command);
  state = final;
  event = some m.event;
}

-- The game that a room has played, as a result that EncodeResult takes.
abbrev pub played_game : Text → RoomRecord → Player → State → Text → Result
played_game room_id r winner final ended_at = record {
  script = record {
    version = Types.version;
    game_id = room_id;
    seed = r.seed;
    winner = winner;
    moves = map (λ (m : AcceptedMove). played_move m.command) r.moves;
    header_count = pos 1;
    footer_count = pos 1;
    rules_version = rules_version;
    version_count = pos 1;
    ok = true;
    failure = none;
    frames = [];
    started_at = r.started_at;
    ended_at = ended_at;
  };
  outline = no_lines;
  first = record {
    turn_number = pos 0;
    move_number = pos 0;
    line = 0;
    move = none;
    state = final;
    event = none;
  };
  later = map (played_frame final) r.moves;
}

last_state-played :
    (f : Frame) (final : State) (ms : List AcceptedMove)
    → f.state ≡ final
    → last_state f (map (played_frame final) ms) ≡ final
unfolding last_state
last_state-played f final [] e = e
last_state-played f final (m ∷ ms) e = last_state-played (played_frame final m) final ms refl

of_written-made : (w : Written) (line : Text) → of_written w ≡ made line → w ≡ written line
of_written-made (written l) line e = cc
of_written-made (Encode.Written.unwritable err) line e = absurd cc

placement_line-made :
    (event : Event) (player : Player) (row col : Option ℤ) (color : Option ℕ) (line : Text)
    → event.placed_color ≡ color
    → placement_line player row col color (length (contents event.changes)) ≡ made line
    → encode_placement player row col (some event) ≡ written line
unfolding placement_line encode_placement
placement_line-made event player none col color line e h = absurd cc
placement_line-made event player (some row) none color line e h = absurd cc
placement_line-made event player (some row) (some col) none line e h = absurd cc
placement_line-made event player (some row) (some col) (some color) line e h =
    rw e (of_written-made _ line h)

move_line-made :
    (t : CommandType) (m : AcceptedMove) (line : Text)
    → move_line t m ≡ made line
    → encode_move t (played_move m.command) (some m.event) ≡ written line
unfolding move_line encode_move
move_line-made place m line h =
    placement_line-made m.event m.command.player m.command.row m.command.col m.event.placed_color
      line refl h
move_line-made pass m line h = of_written-made _ line h
move_line-made (CommandType.other t) m line h = absurd cc

-- What a chain of steps gives.
pub bind-made :
    {A : Type 0} {B : Type 0} (x : Made A) (f : A → Made B) (b : B)
    → (x >>= f) ≡ made b
    → (a : A) × (x ≡ made a) × (f a ≡ made b)
bind-made (made a) f b h = (a, refl, h)
bind-made (broke e) f b h = absurd cc

encode_frames-line :
    (f : Frame) (fs : List Frame) (m : Move) (line : Text) (ls : List Text)
    → f.move ≡ some m
    → encode_move m.type m f.event ≡ written line
    → encode_frames fs ≡ lines ls
    → encode_frames (f ∷ fs) ≡ lines (line ∷ ls)
unfolding encode_frame encode_frames
encode_frames-line f fs m line ls moved one others =
    let framed : encode_frame f m ≡ written line = rw (one, encode_frame) refl in
    rw (moved, encode_frames, framed, others) refl

encode_frames-played :
    (final : State) (ms : List AcceptedMove) (ls : List Text)
    → move_lines ms ≡ made ls
    → encode_frames (map (played_frame final) ms) ≡ lines ls
unfolding move_lines encode_frames
encode_frames-played final [] ls h = let same : [] ≡ ls = cc in ap lines same
encode_frames-played final (m ∷ ms) ls h =
    let (line, one, h1) = bind-made (move_line m.command.type m) _ ls h in
    let (more, others, h2) = bind-made (move_lines ms) _ ls h1 in
    let same : line ∷ more ≡ ls = cc in
    encode_frames-line (played_frame final m) (map (played_frame final) ms) (played_move m.command)
      line more refl (move_line-made m.command.type m line one)
      (encode_frames-played final ms more others)
    ∙ ap lines same

-- Joining with a last empty line writes a line feed after each of the others.
pub join_lines-last : (ls : List Text) → join_lines (ls ++ [] ∷ []) ≡ write_lines ls []
unfolding join_lines write_lines
join_lines-last [] = refl
join_lines-last (l ∷ []) = refl
join_lines-last (l ∷ next ∷ ls) = ap (λ t. l ++ (10 ∷ t)) (join_lines-last (next ∷ ls))

-- The lines of a finished record, with and without the last one.
joined-written :
    (before ls : List Text) (last : Text)
    → join_lines (before ++ (ls ++ ([] ∷ last ∷ [] ∷ [])))
      ≡ write_lines ((before ++ ls) ++ ([] ∷ last ∷ [])) []
joined-written before ls last =
    ap join_lines (
      sym (append_assoc before ls ([] ∷ last ∷ [] ∷ []))
      ∙ sym (append_assoc (before ++ ls) ([] ∷ last ∷ []) ([] ∷ [])))
    ∙ join_lines-last ((before ++ ls) ++ ([] ∷ last ∷ []))

-- The parts of a text that saveFinished writes.
abbrev pub Parts : Text → RoomRecord → Player → State → Text → Text → Type 0
Parts room_id r winner final ended_at text =
    (start : Text) × (ls : List Text) × (last : Text) × (start_line room_id r.seed ≡ written start)
    × (move_lines r.moves ≡ made ls)
    × (end_line winner (length r.moves) ((board_totals final.board).0)
          ((board_totals final.board).1)
        ≡ written last)
    × (join_lines (first_lines r ended_at start ++ (ls ++ ([] ∷ last ∷ [] ∷ []))) ≡ text)

record_text-Parts :
    (room_id : Text) (r : RoomRecord) (winner : Player) (final : State) (ended_at text : Text)
    → record_text room_id r winner final ended_at ≡ made text
    → Parts room_id r winner final ended_at text
unfolding record_text
record_text-Parts room_id r winner final ended_at text h =
    let (start, started, h1) = bind-made (of_written (start_line room_id r.seed)) _ text h in
    let (ls, moved, h2) = bind-made (move_lines r.moves) _ text h1 in
    let (last, ended, h3) =
      bind-made (of_written (end_line winner (length r.moves) _ _)) _ text h2 in
    (start, ls, last, of_written-made _ start started, moved, of_written-made _ last ended, cc)

encode_end-line :
    (g : Result) (w : Player) (final : State) (n : ℕ) (last : Text)
    → final_state g ≡ final
    → length g.later ≡ n
    → end_line w n ((board_totals final.board).0) ((board_totals final.board).1) ≡ written last
    → encode_end g (some w) ≡ written last
unfolding encode_end
encode_end-line g w final n last state size ended = rw (state, size) ended

finished-written :
    (g : Result) (w : Player) (first last : Text) (ls : List Text)
    → is_finished (final_state g).phase ≡ true
    → (final_state g).winner ≡ some w
    → encode_end g (some w) ≡ written last
    → encode_moves g first (lines ls)
      ≡ written (write_lines ((head_lines g.script first ++ ls) ++ ([] ∷ last ∷ [])) [])
unfolding encode_moves
finished-written g w first last ls over won ended = rw (over, won, ended) refl

encode_result-lines :
    (g : Result) (start : Text) (ls : List Text)
    → start_line g.script.game_id g.script.seed ≡ written start
    → encode_frames g.later ≡ lines ls
    → encode_result (some g) ≡ encode_moves g start (lines ls)
unfolding encode_result
encode_result-lines g start ls started moved = rw (started, moved) refl

-- The text that saveFinished writes for a finished room is the text that EncodeResult writes for the game with the moves and events of the room.
pub record_text-encode_result :
    (room_id : Text) (r : RoomRecord) (winner : Player) (final : State) (ended_at text : Text)
    → is_finished final.phase ≡ true
    → final.winner ≡ some winner
    → record_text room_id r winner final ended_at ≡ made text
    → encode_result (some (played_game room_id r winner final ended_at)) ≡ written text
record_text-encode_result room_id r winner final ended_at text over won h =
    let game : Result = played_game room_id r winner final ended_at in
    let (start, ls, last, started, moved, ended, joined) =
      record_text-Parts room_id r winner final ended_at text h in
    let state : final_state game ≡ final = last_state-played game.first final r.moves refl in
    encode_result-lines game start ls started (encode_frames-played final r.moves ls moved)
    ∙ finished-written game winner start last ls
        (ap (λ (s : State). is_finished s.phase) state ∙ over)
        (ap (λ (s : State). s.winner) state ∙ won)
        (encode_end-line game winner final (length r.moves) last state (length-map r.moves _) ended)
    ∙ ap written (sym (joined-written (first_lines r ended_at start) ls last) ∙ joined)

-- The text that saveFinished writes for a finished room is read with the times of the room, with one line of each kind of the header and with every move of the room, its line and its annotation.
pub scan-record_text :
    (room_id : Text) (r : RoomRecord) (winner : Player) (final : State) (ended_at text : Text)
    → is_finished final.phase ≡ true
    → final.winner ≡ some winner
    → IsTime r.started_at
    → IsTime ended_at
    → NotesFit (map (played_frame final) r.moves)
    → record_text room_id r winner final ended_at ≡ made text
    → scan text ≡ scanned (outline_of (played_game room_id r winner final ended_at))
scan-record_text room_id r winner final ended_at text over won v w fits h =
    scan-encode_result (played_game room_id r winner final ended_at) text v w fits
      (record_text-encode_result room_id r winner final ended_at text over won h)
