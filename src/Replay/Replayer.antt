-- ===== src/Replay/Replayer.antt =====
-- replay.go of server/internal/replay: the frames of a decoded record, and the checks on them.
--
-- What Decoder.Decode gives for a source is a parameter, a value of `Decoded`.
pub mod Loop
pub mod Checks
use mathlib.Core.Option
use nadesiko_reversi.Prelude.{
  ℕ, zero, suc, String, Bool, true, false, not, ◌&&◌, ◌||◌, Option, none, some, List, [], ◌∷◌, Text,
  codes, length, get_elem?, leb, ltb, ◌==◌, ◌-◌, ◌+◌, ◌≤◌, if◌then◌else◌, is_some,
}
use nadesiko_reversi.Prelude.Int.{ℤ, pos, negsuc, ◌-ℤ◌, ltb_ℤ, pos_part}
use nadesiko_reversi.Protocol.Types.{
  version, Player, dark, light, player_eq, is_finished, Phase, playing, finished, Command, State,
  Event, Arg, str, number, Message, contents,
}
use nadesiko_reversi.Protocol.Clone.{clone_state, clone_event}
use nadesiko_reversi.Replay.Types.{
  rules_version, Move, ScriptFrame, ScriptFailure, Script, GameRecord, MoveLine, Outline,
  RecordErrorCode, syntax_error, illegal_move, mismatch, unfinished, SourceError, Frame, Result,
}
use nadesiko_reversi.Replay.Lines.{line_at}
use nadesiko_reversi.Replay.Record.{move_command, is_complete}

-- The failures of a replay: a SourceError, the failure of a script's run, a cancelled context, and
-- the error of ReplayUntil for a negative number of moves.
pub data ReplayError : Type 0 where
  at_source : SourceError → ReplayError
  script_failed : ReplayError
  canceled : ReplayError
  negative : ℤ → ReplayError

-- What Decode returns.
pub data Decoded : Type 0 where
  decoded : Script → Outline → Decoded
  undecodable : ReplayError → Decoded

-- func (r Result) FinalState
unfoldable pub last_state : Frame → List Frame → State
last_state f [] = f.state
last_state f (g ∷ fs) = last_state g fs

abbrev pub final_state : Result → State
final_state r = last_state r.first r.later

-- func (r Result) FrameAt
unfoldable pub frame_at : Result → ℤ → Option Frame
frame_at r n = if ltb_ℤ n (pos 0) then none else get_elem? (r.first ∷ r.later) (pos_part n)

-- the loop of Result.Record
unfoldable pub frame_commands : List Frame → List Command
frame_commands [] = []
frame_commands (f ∷ fs) =
    let rest = frame_commands fs in
    elim f.move [ none ↦ rest | some m ↦ move_command m (f.turn_number -ℤ pos 1) ∷ rest ]

-- func (r Result) Record
unfoldable pub result_record : Result → GameRecord
unfolding frame_commands
result_record r = record {
  version = version;
  rules_version = rules_version;
  game_id = r.script.game_id;
  seed = r.script.seed;
  started_at = r.script.started_at;
  ended_at = r.script.ended_at;
  winner = r.script.winner;
  commands = frame_commands r.later;
  final_state = final_state r;
}

-- type Options
pub record Options : Type 0 where
  pub until : ℤ
  pub require_finished : Bool
  pub strict : Bool

-- A SourceError of the whole record.
abbrev pub record_error : RecordErrorCode → Message → SourceError
record_error code message = record {
  code = code;
  line = 0;
  source = [];
  move_number = pos 0;
  rule_code = none;
  message = message;
}

abbrev pub line_of : Option MoveLine → ℕ
line_of none = 0
line_of (some l) = l.line

-- func (o Outline) locate, the line
abbrev pub locate : Outline → ℕ → ℕ
locate o index = line_of (get_elem? o.move_lines index)

-- illegalMoveError with a failure
unfoldable pub illegal_at : Text → Outline → ScriptFailure → SourceError
unfolding line_at
illegal_at source outline failure =
    let index = failure.move_number -ℤ pos 1 in
    let line = if ltb_ℤ index (pos 0) then 0 else locate outline (pos_part index) in
    record {
      code = illegal_move;
      line = line;
      source = line_at source line;
      move_number = failure.move_number;
      rule_code = some failure.code;
      message = failure.message;
    }

-- func illegalMoveError
unfoldable pub illegal_move_error : Text → Outline → Option ScriptFailure → SourceError
unfolding illegal_at
illegal_move_error source outline none =
    record_error illegal_move (record { format = "棋譜を再生できません"; args = [] })
illegal_move_error source outline (some failure) = illegal_at source outline failure

abbrev pub or_zero : Option ℕ → ℕ
or_zero none = 0
or_zero (some n) = n

-- the comparison of verifyAnnotation, for an annotated line and the event of its move
unfoldable pub compare_annotation : MoveLine → ℕ → Event → Option SourceError
compare_annotation line index event =
    let color = or_zero event.placed_color in
    let changed = length (contents event.changes) in
    if not (line.color == color) || not (line.changed == changed)
    then some (record {
      code = mismatch;
      line = line.line;
      source = line.text;
      move_number = pos (suc index);
      rule_code = none;
      message = record {
        format = "注釈と再生結果が違います (注釈=色%d・%d個変換, 再生=色%d・%d個変換)";
        args =
            number (pos line.color)
            ∷ number (pos line.changed)
            ∷ number (pos color)
            ∷ number (pos changed)
            ∷ [];
      };
    })
    else none

-- func verifyAnnotation, by the line of the move and the event of its frame
unfoldable pub verify_annotation : Option MoveLine → ℕ → Option Event → Option SourceError
unfolding compare_annotation
verify_annotation none index event = none
verify_annotation (some line) index none = none
verify_annotation (some line) index (some event) =
    if line.annotated then compare_annotation line index event else none

-- the text of a player in a message
abbrev pub player_text : Player → Text
player_text dark = codes "dark"
player_text light = codes "light"
player_text (Player.other t) = t

abbrev pub phase_text : Phase → Text
phase_text playing = codes "playing"
phase_text finished = codes "finished"
phase_text (Phase.other t) = t

abbrev pub winner_mismatch : Player → Text → SourceError
winner_mismatch recorded replayed = record_error mismatch (record {
  format = "記録された勝者と再生結果が違います (記録=%s, 再生=%s)";
  args = str (player_text recorded) ∷ str replayed ∷ [];
})

-- the comparison of the winners that ends verifyFinished
unfoldable pub verify_winner : Player → Option Player → Option SourceError
verify_winner recorded none = some (winner_mismatch recorded (codes "なし"))
verify_winner recorded (some w) =
    if player_eq w recorded then none else some (winner_mismatch recorded (player_text w))

-- func verifyFinished
unfoldable pub verify_finished : Result → Option SourceError
unfolding verify_winner
verify_finished r =
    let final = final_state r in
    if not (is_complete r.script)
    then some (record_error unfinished (record { format = "終了行がありません"; args = [] }))
    else if not (is_finished final.phase)
    then some
        (record (record_error unfinished (record {
          format = "終了行があるのに対局が終わりません (phase=%s)";
          args = str (phase_text final.phase) ∷ [];
        })) { move_number = pos (length r.script.moves) })
    else verify_winner r.script.winner final.winner

-- The frames of the loop of ReplayWith, or the error that stops it.
pub data Frames : Type 0 where
  frames : List Frame → Frames
  stopped : SourceError → Frames

abbrev pub add_frame : Frame → Frames → Frames
add_frame f (frames fs) = frames (f ∷ fs)
add_frame f (stopped e) = stopped e

-- one frame of the loop of ReplayWith
abbrev pub frame_of : Outline → ℕ → Move → ScriptFrame → Frame
frame_of outline index move from = record {
  turn_number = from.turn_number;
  move_number = from.move_number;
  line = locate outline index;
  move = some move;
  state = clone_state from.state;
  event = Option.map clone_event from.event;
}

-- the strict check of one frame
unfoldable pub frame_check : Bool → Outline → ℕ → Frame → Option SourceError
unfolding verify_annotation
frame_check strict outline index f =
    if strict then verify_annotation (get_elem? outline.move_lines index) index f.event else none

abbrev pub unless : Option SourceError → Frames → Frames
unless none fs = fs
unless (some e) fs = stopped e

-- The loop of ReplayWith: `index` moves are done, `left` are to do.
unfoldable pub replay_moves : Bool → Outline → ℕ → ℕ → List Move → List ScriptFrame → Frames
unfolding frame_check
replay_moves strict outline index (suc left) (m ∷ ms) (s ∷ ss) =
    let f = frame_of outline index m s in
    unless (frame_check strict outline index f)
      (add_frame f (replay_moves strict outline (suc index) left ms ss))
replay_moves strict outline index left ms ss = frames []

-- What ReplayWith returns.
pub data Replayed : Type 0 where
  replayed : Result → Replayed
  failed : ReplayError → Replayed

-- the check that ends ReplayWith
unfoldable pub finish : Bool → Result → Option SourceError → Replayed
finish required r none = replayed r
finish required r (some e) = if required then failed (at_source e) else replayed r

-- ReplayWith, from the frames on
unfoldable pub conclude : Options → Script → Outline → State → Frames → Replayed
unfolding finish verify_finished
conclude options script outline start (stopped e) = failed (at_source e)
conclude options script outline start (frames later) =
    let r : Result = record {
      script = script;
      outline = outline;
      first = record {
        turn_number = pos 0;
        move_number = pos 0;
        line = 0;
        move = none;
        state = clone_state start;
        event = none;
      };
      later = later;
    } in
    finish options.require_finished r (verify_finished r)

-- the number of moves that ReplayWith gives
abbrev pub limit : Options → Script → ℕ
limit options script =
    if ltb_ℤ options.until (pos 0) || ltb (length script.moves) (pos_part options.until)
    then length script.moves
    else pos_part options.until

abbrev pub frame_count_error : Script → SourceError
frame_count_error script = record_error syntax_error (record {
  format = "再生結果の盤面数が指し手と合いません: 指し手%d、盤面%d";
  args = number (pos (length script.moves)) ∷ number (pos (length script.frames)) ∷ [];
})

-- ReplayWith, for a script whose moves were all applied
unfoldable pub replay_frames : Options → Script → Outline → List ScriptFrame → Replayed
unfolding conclude replay_moves
replay_frames options script outline [] = failed (at_source (frame_count_error script))
replay_frames options script outline (s ∷ ss) =
    if not (length ss == length script.moves)
    then failed (at_source (frame_count_error script))
    else conclude options script outline s.state
        (replay_moves options.strict outline 0 (limit options script) script.moves ss)

-- func (r *Replayer) ReplayWith, from what was decoded on
unfoldable pub replay_with : Text → Decoded → Options → Replayed
unfolding replay_frames
replay_with source (undecodable e) options = failed e
replay_with source (decoded script outline) options =
    if not script.ok
    then failed (at_source (illegal_move_error source outline script.failure))
    else replay_frames options script outline script.frames

-- the options of Replay
abbrev pub whole_game : Options
whole_game = record { until = negsuc 0; require_finished = true; strict = true }

-- func (r *Replayer) Replay
unfoldable pub replay : Text → Decoded → Replayed
unfolding replay_with
replay source d = replay_with source d whole_game

-- func (r *Replayer) ReplayUntil
unfoldable pub replay_until : Text → Decoded → ℤ → Replayed
unfolding replay_with
replay_until source d n =
    if ltb_ℤ n (pos 0)
    then failed (negative n)
    else replay_with source d (record { until = n; require_finished = false; strict = false })
