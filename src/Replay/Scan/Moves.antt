-- ===== src/Replay/Scan/Moves.antt =====
-- The lines of the moves of a record, written and read back.
use mathlib.Core.List.{append_assoc, append-nil}
use nadesiko_reversi.Prelude.{
  ℕ, suc, ◌+◌, ◌≡◌, ◌∙◌, sym, ap, refl, subst, false, Option, none, some, List, [], ◌∷◌, ◌++◌, Text,
  length, length-append, arith,
}
use nadesiko_reversi.Protocol.Types.{Event}
use nadesiko_reversi.Replay.Types.{Move, MoveLine, Outline, Frame}
use nadesiko_reversi.Replay.Lines.Laws.{AllLines}
use nadesiko_reversi.Replay.Scan.{scan_lines}
use nadesiko_reversi.Replay.Scan.Written.{
  scan_lines-Reads, noted, move_lines_of, NotesFit, Wrote, move-Wrote,
}
use nadesiko_reversi.Replay.Encode.{
  Written, written, unwritable, Lines, lines, encode_move, encode_frame, with_line, encode_frames,
}
use nadesiko_reversi.Replay.Encode

-- The outline with more lines of moves.
abbrev pub more_moves : Outline → List MoveLine → Outline
more_moves o ls = record o { move_lines = o.move_lines ++ ls }

-- The written lines `ls` of the frames `fs`, and what Scan makes of them.
pub record Scans (fs : List Frame) (ls : List Text) : Type 0 where
  pub single : AllLines ls
  pub scan :
      (number : ℕ) (o : Outline) (rest : List Text)
      → scan_lines number o (ls ++ rest)
        ≡ scan_lines
            (number + length ls)
            (more_moves o (move_lines_of (length o.move_lines) number fs))
            rest

encode_frame-written :
    (f : Frame) (m : Move) (line : Text)
    → encode_frame f m ≡ written line
    → encode_move m.type m f.event ≡ written line
unfolding encode_frame
encode_frame-written f m line e = wrapped (encode_move m.type m f.event) refl
  where
    wrapped :
        (w : Written)
        → encode_move m.type m f.event ≡ w
        → encode_move m.type m f.event ≡ written line
    wrapped (written l) h = ground (arith, e, h)
    wrapped (unwritable err) h = absurd (ground (arith, e, h))

with_line-lines :
    (w : Written) (x : Lines) (ls : List Text)
    → with_line w x ≡ lines ls
    → (line : Text) × (more : List Text) × (w ≡ written line)
      × (x ≡ lines more)
      × (line ∷ more ≡ ls)
with_line-lines (written l) (lines more) ls e = (l, more, refl, refl, cc)
with_line-lines (written l) (Encode.Lines.unwritable err) ls e = absurd cc
with_line-lines (unwritable err) x ls e = absurd cc

-- The line of a move in the outline.
abbrev line_of_move : ℕ → ℕ → Text → Move → Option Event → MoveLine
line_of_move count number line m event = noted m.type event (record {
  number = count + 1;
  line = number;
  text = line;
  annotated = false;
  color = 0;
  changed = 0;
})

move_lines_of-some :
    (count number : ℕ) (f : Frame) (fs : List Frame) (m : Move) (line : Text)
    → f.move ≡ some m
    → encode_move m.type m f.event ≡ written line
    → move_lines_of count number (f ∷ fs)
      ≡ line_of_move count (suc number) line m f.event ∷ move_lines_of (count + 1) (suc number) fs
unfolding move_lines_of
move_lines_of-some count number f fs m line moved e = rw (moved, move_lines_of) (rw e refl)

move_lines_of-none :
    (count number : ℕ) (f : Frame) (fs : List Frame)
    → f.move ≡ none
    → move_lines_of count number (f ∷ fs) ≡ move_lines_of count number fs
unfolding move_lines_of
move_lines_of-none count number f fs moved = rw (moved, move_lines_of) refl

-- A move line added in front of the others.
more_moves-cons :
    (o : Outline) (x : MoveLine) (ls : List MoveLine)
    → more_moves (more_moves o (x ∷ [])) ls ≡ more_moves o (x ∷ ls)
more_moves-cons o x ls =
    ap (λ ms. record o { move_lines = ms }) (append_assoc o.move_lines (x ∷ []) ls)

-- The line of one move and the lines after it.
line-Scans :
    (f : Frame) (fs : List Frame) (m : Move) (line : Text) (more : List Text)
    → f.move ≡ some m
    → encode_move m.type m f.event ≡ written line
    → Wrote m.type f.event line
    → Scans fs more
    → Scans (f ∷ fs) (line ∷ more)
line-Scans f fs m line more moved e w v = record {
  single = (w.reads.single, v.single);
  scan = λ number o rest.
      let x : MoveLine = line_of_move (length o.move_lines) (suc number) line m f.event in
      let next : Outline = more_moves o (x ∷ []) in
      let longer : length (o.move_lines ++ x ∷ []) ≡ length o.move_lines + 1 =
        length-append o.move_lines (x ∷ []) in
      let further : suc number + length more ≡ number + suc (length more) = omega arith in
      scan_lines-Reads number o line w.l (more ++ rest) w.reads
      ∙ ap (λ q. scan_lines (suc number) q (more ++ rest)) (w.adds (suc number) o)
      ∙ v.scan (suc number) next rest
      ∙ ap
          (λ n.
            scan_lines n (more_moves next (move_lines_of (length next.move_lines) (suc number) fs))
              rest)
          further
      ∙ ap
          (λ n.
            scan_lines (number + suc (length more))
              (more_moves next (move_lines_of n (suc number) fs)) rest)
          longer
      ∙ ap (λ q. scan_lines (number + suc (length more)) q rest)
          (more_moves-cons o x (move_lines_of (length o.move_lines + 1) (suc number) fs)
            ∙ ap (more_moves o)
                (sym (move_lines_of-some (length o.move_lines) number f fs m line moved e)));
}

-- A frame without a move has no line.
still-Scans :
    (f : Frame) (fs : List Frame) (ls : List Text) → f.move ≡ none → Scans fs ls → Scans (f ∷ fs) ls
still-Scans f fs ls moved v = record {
  single = v.single;
  scan = λ number o rest.
      v.scan number o rest
      ∙ ap (λ q. scan_lines (number + length ls) (more_moves o q) rest)
          (sym (move_lines_of-none (length o.move_lines) number f fs moved));
}

frame-Scans :
    (f : Frame) (fs : List Frame) (x : Lines) (ls : List Text)
    → NotesFit (f ∷ fs)
    → ((more : List Text) → x ≡ lines more → Scans fs more)
    → (o : Option Move) → f.move ≡ o
    → elim o [ none ↦ x | some m ↦ with_line (encode_frame f m) x ] ≡ lines ls
    → Scans (f ∷ fs) ls
frame-Scans f fs x ls fits later none moved e = still-Scans f fs ls moved (later ls e)
frame-Scans f fs x ls (fits, fits', _) later (some m) moved e =
    let (line, more, w, y, same) = with_line-lines (encode_frame f m) x ls e in
    let wrote = encode_frame-written f m line w in
    subst (Scans (f ∷ fs)) same (
      line-Scans f fs m line more moved wrote (move-Wrote m.type m f.event line fits fits' wrote)
        (later more y))

no-Scans : Scans [] []
unfolding move_lines_of
no-Scans = record {
  single = tt;
  scan = λ number o rest.
      ap (λ n. scan_lines n o rest) (omega arith)
      ∙ ap (λ ms. scan_lines (number + 0) (record o { move_lines = ms }) rest)
          (sym (append-nil o.move_lines));
}

-- The lines that EncodeResult writes for frames are read as those moves.
pub encode_frames-Scans :
    (fs : List Frame) (ls : List Text) → NotesFit fs → encode_frames fs ≡ lines ls → Scans fs ls
unfolding encode_frames
encode_frames-Scans [] ls fits e = let same : [] ≡ ls = cc in subst (Scans []) same no-Scans
encode_frames-Scans (f ∷ fs) ls fits e =
    frame-Scans f fs (encode_frames fs) ls fits (λ more. encode_frames-Scans fs more (fits.2))
      f.move refl e
