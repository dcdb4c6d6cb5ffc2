-- ===== src/Replay/Replayer/Loop.antt =====
-- The loop of ReplayWith: what it has gone through when it gives frames.
use nadesiko_reversi.Prelude.{
  ◌≡◌, ◌∙◌, sym, refl, ap, subst, ℕ, zero, suc, ◌+◌, ◌≤◌, ◌<◌, Bool, true, false, not, ◌==◌, Option,
  none, some, List, [], ◌∷◌, length, get_elem?, arith, inl, inr, Bool-cases, ==_iff, if_cases, Text,
}
use nadesiko_reversi.Replay.Types.{Move, ScriptFrame, Script, Outline, SourceError, Frame, Result}
use nadesiko_reversi.Replay.Replayer.{
  decoded, Options, verify_finished, Frames, frames, stopped, add_frame, frame_of, frame_check,
  unless, replay_moves, Replayed, replayed, finish, conclude, limit, replay_frames, replay_with,
}

-- The frames `fs` of the moves `ms`, from the script's frames `ss`: the first `left` of them, each
-- with its check passed.
abbrev pub Follow : Bool → Outline → ℕ → ℕ → List Move → List ScriptFrame → List Frame → Type 0
Follow strict o index (suc left) (m ∷ ms) (s ∷ ss) (f ∷ fs) =
    (f ≡ frame_of o index m s)
    × (frame_check strict o index f ≡ none)
    × Follow strict o (suc index) left ms ss fs
Follow strict o index (suc left) (m ∷ ms) (s ∷ ss) [] = ⊥
Follow strict o index (suc left) (m ∷ ms) [] fs = fs ≡ []
Follow strict o index (suc left) [] ss fs = fs ≡ []
Follow strict o index zero ms ss fs = fs ≡ []

unless-frames :
    (o : Option SourceError) (x : Frames) (fs : List Frame)
    → unless o x ≡ frames fs
    → (o ≡ none) × (x ≡ frames fs)
unless-frames none x fs e = (refl, e)
unless-frames (some err) x fs e = absurd cc

Follow-add :
    (strict : Bool) (o : Outline) (index left : ℕ) (m : Move) (ms : List Move) (s : ScriptFrame)
    (ss : List ScriptFrame) (x : Frames) (fs : List Frame)
    → frame_check strict o index (frame_of o index m s) ≡ none
    → ((gs : List Frame) → x ≡ frames gs → Follow strict o (suc index) left ms ss gs)
    → add_frame (frame_of o index m s) x ≡ frames fs
    → Follow strict o index (suc left) (m ∷ ms) (s ∷ ss) fs
Follow-add strict o index left m ms s ss (stopped err) fs check more e = absurd cc
Follow-add strict o index left m ms s ss (frames gs) fs check more e =
    let same : frame_of o index m s ∷ gs ≡ fs = cc in
    subst (Follow strict o index (suc left) (m ∷ ms) (s ∷ ss)) same (refl, check, more gs refl)

replay_moves-Follow :
    (strict : Bool) (o : Outline) (index left : ℕ) (ms : List Move) (ss : List ScriptFrame)
    (fs : List Frame)
    → replay_moves strict o index left ms ss ≡ frames fs
    → Follow strict o index left ms ss fs
unfolding replay_moves
replay_moves-Follow strict o index zero ms ss fs e = cc
replay_moves-Follow strict o index (suc left) [] ss fs e = cc
replay_moves-Follow strict o index (suc left) (m ∷ ms) [] fs e = cc
replay_moves-Follow strict o index (suc left) (m ∷ ms) (s ∷ ss) fs e =
    let (check, added) = unless-frames _ _ fs e in
    Follow-add strict o index left m ms s ss _ fs check
      (λ gs. replay_moves-Follow strict o (suc index) left ms ss gs) added

-- Where both lists last, there is a frame for each of the moves that were asked for.
pub Follow-length :
    (strict : Bool) (o : Outline) (index left : ℕ) (ms : List Move) (ss : List ScriptFrame)
    (fs : List Frame)
    → Follow strict o index left ms ss fs
    → length ms ≡ length ss
    → left ≤ length ms
    → length fs ≡ left
Follow-length strict o index zero ms ss fs v e h = ap length v
Follow-length strict o index (suc left) [] ss fs v e h = absurd (omega (arith, h))
Follow-length strict o index (suc left) (m ∷ ms) [] fs v e h = absurd (omega (arith, e))
Follow-length strict o index (suc left) (m ∷ ms) (s ∷ ss) [] v e h = absurd v
Follow-length strict o index (suc left) (m ∷ ms) (s ∷ ss) (f ∷ fs) (_, _, v) e h =
    ap suc
      (Follow-length strict o (suc index) left ms ss fs v (omega (arith, e)) (omega (arith, h)))

-- Frame `i` is made from `s` for the `k`-th move, and has passed its check.
abbrev pub Made : Bool → Outline → List Frame → ℕ → Move → ScriptFrame → ℕ → Type 0
Made strict o fs i m s k =
    (get_elem? fs i ≡ some (frame_of o k m s)) × (frame_check strict o k (frame_of o k m s) ≡ none)

-- The frame of a move is made from the script's frame of that move, and has passed its check.
pub Follow-Made :
    (strict : Bool) (o : Outline) (index left : ℕ) (ms : List Move) (ss : List ScriptFrame)
    (fs : List Frame)
    → Follow strict o index left ms ss fs
    → (i : ℕ) (m : Move) (s : ScriptFrame) → i < left
    → get_elem? ms i ≡ some m
    → get_elem? ss i ≡ some s
    → Made strict o fs i m s (index + i)
Follow-Made strict o index zero ms ss fs v i m s h a b = absurd (omega (arith, h))
Follow-Made strict o index (suc left) [] ss fs v i m s h a b = absurd cc
Follow-Made strict o index (suc left) (m' ∷ ms) [] fs v i m s h a b = absurd cc
Follow-Made strict o index (suc left) (m' ∷ ms) (s' ∷ ss) [] v i m s h a b = absurd v
Follow-Made strict o index (suc left) (m' ∷ ms) (s' ∷ ss) (f ∷ fs) (e, check, v) zero m s h a b =
    let same_m : m' ≡ m = cc in
    let same_s : s' ≡ s = cc in
    let f_is : f ≡ frame_of o index m s =
      e ∙ ap (λ x. frame_of o index x s') same_m ∙ ap (λ x. frame_of o index m x) same_s in
    let here : index ≡ index + 0 = omega arith in
    subst (Made strict o (f ∷ fs) 0 m s) here
      (ap some f_is, subst (λ x. frame_check strict o index x ≡ none) f_is check)
Follow-Made strict o index (suc left) (m' ∷ ms) (s' ∷ ss) (f ∷ fs) (e, check, v) (suc i) m s h a b =
    let shift : suc index + i ≡ index + suc i = omega arith in
    subst (Made strict o fs i m s) shift
      (Follow-Made strict o (suc index) left ms ss fs v i m s (omega (arith, h)) a b)

-- What ReplayWith has gone through when it gives `r`: `start` and `ss` are the script's frames.
pub record Done (options : Options) (script : Script) (o : Outline) (r : Result) : Type 0 where
  pub start : ScriptFrame
  pub ss : List ScriptFrame
  pub given : script.frames ≡ start ∷ ss
  pub counted : length script.moves ≡ length ss
  pub same_script : r.script ≡ script
  pub follow : Follow options.strict o 0 (limit options script) script.moves ss r.later
  pub ended : options.require_finished ≡ true → verify_finished r ≡ none

finish-replayed :
    (b : Bool) (q r : Result) (o : Option SourceError)
    → finish b q o ≡ replayed r
    → (q ≡ r) × (b ≡ true → o ≡ none)
unfolding finish
finish-replayed b q r none e = (cc, λ h. refl)
finish-replayed true q r (some err) e = absurd cc
finish-replayed false q r (some err) e = (cc, λ h. absurd cc)

module _ (options : Options) (script : Script) (o : Outline) (r : Result) where
  conclude-Done :
      (start : ScriptFrame) (ss : List ScriptFrame) (x : Frames)
      → script.frames ≡ start ∷ ss
      → length script.moves ≡ length ss
      → ((fs : List Frame)
          → x ≡ frames fs
          → Follow options.strict o 0 (limit options script) script.moves ss fs)
      → conclude options script o start.state x ≡ replayed r
      → Done options script o r
  unfolding conclude
  conclude-Done start ss (stopped err) given counted follow e = absurd cc
  conclude-Done start ss (frames fs) given counted follow e =
      let (same, ended) = finish-replayed options.require_finished _ r _ e in
      record {
        start = start;
        ss = ss;
        given = given;
        counted = counted;
        same_script = ap (λ (q : Result). q.script) (sym same);
        follow =
            subst
              (λ (q : Result).
                Follow options.strict o 0 (limit options script) script.moves ss q.later)
              same (follow fs refl);
        ended = λ h. subst (λ (q : Result). verify_finished q ≡ none) same (ended h);
      }

  replay_frames-Done :
      (fs : List ScriptFrame)
      → script.frames ≡ fs
      → replay_frames options script o fs ≡ replayed r
      → Done options script o r
  unfolding replay_frames
  replay_frames-Done [] given e = absurd cc
  replay_frames-Done (s ∷ ss) given e = elim (Bool-cases (length ss == length script.moves)) [
    | inl same ↦
        conclude-Done s ss _ given (sym ((==_iff _ _).0 same))
          (λ fs. replay_moves-Follow options.strict o 0 _ script.moves ss fs)
          (rw (same, replay_frames) at e)
    | inr apart ↦ absurd (ground (arith, apart, e))
  ]

  pub replay_with-Done :
      (source : Text)
      → replay_with source (decoded script o) options ≡ replayed r
      → Done options script o r
  unfolding replay_with
  replay_with-Done source e =
      if_cases (λ (x : Replayed). x ≡ replayed r → Done options script o r) (not script.ok) _ _
        (λ bad h. absurd cc) (λ ok h. replay_frames-Done script.frames refl h) e
