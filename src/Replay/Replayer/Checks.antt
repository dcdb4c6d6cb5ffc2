-- ===== src/Replay/Replayer/Checks.antt =====
-- What a replay that succeeds has checked, and the frames that it gives.
use mathlib.Core.Option
use nadesiko_reversi.Prelude.{
  ◌≡◌, ◌∙◌, sym, refl, ap, subst, ℕ, suc, ◌+◌, ◌≤◌, ◌<◌, true, false, Option, none, some, length,
  get_elem?, arith, Text, inl, inr, Bool-cases, ◌||◌, ltb, if◌then◌else◌,
}
use nadesiko_reversi.Prelude.Int.{ℤ, pos, negsuc, eq_ℤ, ltb_ℤ, pos_part}
use nadesiko_reversi.Protocol.Types.{Player, Phase, finished, is_finished}
use nadesiko_reversi.Replay.Types.{Move, ScriptFrame, Script, MoveLine, Outline, Frame, Result}
use nadesiko_reversi.Replay.Replayer.{
  decoded, final_state, Options, verify_winner, line_of, verify_finished, frame_of, replayed, limit,
  replay_with, whole_game, replay,
}
use nadesiko_reversi.Protocol.Clone.{clone_state, clone_event}
use nadesiko_reversi.Replay.Replayer.Loop.{Follow-length, Made, Follow-Made, replay_with-Done}

limit-bound : (options : Options) (script : Script) → limit options script ≤ length script.moves
limit-bound options script = ground arith

verify_winner-none : (w : Player) (o : Option Player) → verify_winner w o ≡ none → o ≡ some w
unfolding verify_winner
verify_winner-none w o e = ground arith

is_complete-count : (n : ℤ) → eq_ℤ n (pos 1) ≡ true → n ≡ pos 1
is_complete-count n e = ground arith

finished-phase : (p : Phase) → is_finished p ≡ true → p ≡ finished
finished-phase p e = ground arith

-- The last frame of the game: the record is complete, the game is over, and its winner is the
-- record's.
pub record IsFinished (r : Result) : Type 0 where
  pub complete : r.script.footer_count ≡ pos 1
  pub over : (final_state r).phase ≡ finished
  pub won : (final_state r).winner ≡ some r.script.winner

verify_finished-IsFinished : (r : Result) → verify_finished r ≡ none → IsFinished r
unfolding verify_finished
verify_finished-IsFinished r e = record {
  complete = is_complete-count r.script.footer_count (ground (arith, e));
  over = finished-phase (final_state r).phase (ground (arith, e));
  won = verify_winner-none r.script.winner (final_state r).winner (ground (arith, e));
}

-- Replay on a decoded record, when it gives a result: all moves of the script have a frame, the
-- record has exactly one end line, the last state is finished, and its winner is the one that the
-- end line names.
pub replay-IsFinished :
    (source : Text) (script : Script) (o : Outline) (r : Result)
    → replay source (decoded script o) ≡ replayed r
    → (r.script ≡ script) × (length r.later ≡ length script.moves) × IsFinished r
unfolding replay
replay-IsFinished source script o r e =
    let d = replay_with-Done whole_game script o r source e in
    (
      d.same_script,
      Follow-length true o 0 _ script.moves d.ss r.later d.follow d.counted
          (limit-bound whole_game script),
      verify_finished-IsFinished r (d.ended refl),
    )

-- How many of the moves are shown when so many are asked for.
pub data Shown : ℤ → ℕ → ℕ → Type 0 where
  below_zero : (k moves : ℕ) → Shown (negsuc k) moves moves
  beyond_end : (n moves : ℕ) → moves < n → Shown (pos n) moves moves
  asked_for : (n moves : ℕ) → n ≤ moves → Shown (pos n) moves n

limit-Shown :
    (options : Options) (script : Script)
    → Shown options.until (length script.moves) (limit options script)
limit-Shown options script = shown options.until (length script.moves)
  where
    shown :
        (until : ℤ) (moves : ℕ)
        → Shown until moves
            (if ltb_ℤ until (pos 0) || ltb moves (pos_part until) then moves else pos_part until)
    shown (pos n) moves =
        let positive : ltb (n + 0) 0 ≡ false = ground arith in
        elim (Bool-cases (ltb moves n)) [
          | inl more ↦ rw (positive, more) (beyond_end n moves (ground (arith, more)))
          | inr within ↦ rw (positive, within) (asked_for n moves (ground (arith, within)))
        ]
    shown (negsuc k) moves =
        let negative : ltb 0 (0 + suc k) ≡ true = ground arith in rw negative (below_zero k moves)

-- The frame of the move `m` with index `i`, from the frame `s` of the script after it.
pub record IsFrame (o : Outline) (i : ℕ) (m : Move) (s : ScriptFrame) (f : Frame) : Type 0 where
  pub turn : f.turn_number ≡ s.turn_number
  pub number : f.move_number ≡ s.move_number
  pub move : f.move ≡ some m
  pub held : f.state ≡ clone_state s.state
  pub event : f.event ≡ Option.map clone_event s.event
  pub listed : (l : MoveLine) → get_elem? o.move_lines i ≡ some l → f.line ≡ l.line
  pub unlisted : get_elem? o.move_lines i ≡ none → f.line ≡ 0

frame_of-IsFrame :
    (o : Outline) (i : ℕ) (m : Move) (s : ScriptFrame) → IsFrame o i m s (frame_of o i m s)
frame_of-IsFrame o i m s = record {
  turn = refl;
  number = refl;
  move = refl;
  held = refl;
  event = refl;
  listed = λ l e. ap line_of e;
  unlisted = λ e. ap line_of e;
}

-- ReplayWith, when it gives a result: it has a frame for each of the moves that were asked for, for all where that number is negative or more than there are, and no more. The frame of the i-th move holds that move, a copy of the state and of the event that the script reports after it with its turn and number, and the number of the i-th line of a move in the outline, or zero where there is none.
pub replay_with-frames :
    (source : Text) (script : Script) (o : Outline) (options : Options) (r : Result)
    → replay_with source (decoded script o) options ≡ replayed r
    → Shown options.until (length script.moves) (length r.later)
      × ((i : ℕ) (m : Move) (s : ScriptFrame)
          → i < length r.later
          → get_elem? script.moves i ≡ some m
          → get_elem? script.frames (suc i) ≡ some s
          → (f : Frame) × (get_elem? r.later i ≡ some f) × IsFrame o i m s f)
replay_with-frames source script o options r e =
    let d = replay_with-Done options script o r source e in
    let count : length r.later ≡ limit options script =
      Follow-length options.strict o 0 _ script.moves d.ss r.later d.follow d.counted
        (limit-bound options script) in
    (
      subst (Shown options.until (length script.moves)) (sym count) (limit-Shown options script),
      λ i m s h a b.
          let k : 0 + i ≡ i = omega arith in
          let at : get_elem? d.ss i ≡ some s = ap (λ fs. get_elem? fs (suc i)) (sym d.given) ∙ b in
          let below : i < limit options script = subst (λ n. i < n) count h in
          (
            frame_of o i m s,
            (subst (Made options.strict o r.later i m s) k (
                Follow-Made options.strict o 0 _ script.moves d.ss r.later d.follow i m s below a
                  at)).0,
            frame_of-IsFrame o i m s,
          ),
    )
