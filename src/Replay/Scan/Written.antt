-- ===== src/Replay/Scan/Written.antt =====
-- The line of a move, from its frame to what Scan makes of it.
use nadesiko_reversi.Prelude.{
  ℕ, suc, ◌+◌, ◌<◌, ◌≡◌, ◌∙◌, sym, ap, refl, subst, true, false, Option, none, some, List, [], ◌∷◌,
  ◌++◌, Text, codes, length, arith,
}
use nadesiko_reversi.Prelude.Int.{ℤ, pos}
use nadesiko_reversi.Protocol.Types.{Player, CommandType, place, pass, Event}
use nadesiko_reversi.Protocol.Board.{in_bounds, in_bounds-pos}
use nadesiko_reversi.Replay.Types.{Move, MoveLine, Outline, Frame}
use nadesiko_reversi.Replay.Lines.{trim_space}
use nadesiko_reversi.Replay.Scan.{Line, read_line, add_line, scan_lines}
use nadesiko_reversi.Replay.Scan.Lines.{
  Reads, pass-Reads, place-Reads, note_text, IsInt, annotation_numbers-note,
}
use nadesiko_reversi.Replay.Encode.{
  Written, written, unwritable, player_word, place_text, place_line, pass_line, event_color,
  event_changed, encode_placement, encode_move,
}

-- One line that is read for `l`.
pub scan_lines-Reads :
    (number : ℕ) (o : Outline) (line : Text) (l : Line) (rest : List Text)
    → Reads line l
    → scan_lines number o (line ∷ rest)
      ≡ scan_lines (suc number) (add_line (suc number) line o l) rest
unfolding scan_lines
scan_lines-Reads number o line l rest v =
    let read : read_line (trim_space line) ≡ some l = ap read_line v.tidy ∙ v.read in
    subst
      (λ t.
        scan_lines number o (line ∷ rest)
        ≡ scan_lines (suc number) (add_line (suc number) t o l) rest)
      v.tidy (rw (read, scan_lines) refl)

-- The text of a frame's line.
abbrev pub text_of : Written → Text
text_of (written s) = s
text_of (unwritable e) = []

-- What an annotation adds to the line of a move.
unfoldable pub noted : CommandType → Option Event → MoveLine → MoveLine
noted place event l = record l {
  annotated = true;
  color = event_color event;
  changed = event_changed event;
}
noted _ event l = l

-- The lines of moves that follow `number` lines and `count` moves.
unfoldable pub move_lines_of : ℕ → ℕ → List Frame → List MoveLine
unfolding noted
move_lines_of count number [] = []
move_lines_of count number (f ∷ fs) = elim f.move [
  | none ↦ move_lines_of count number fs
  | some m ↦
      noted m.type f.event (record {
        number = count + 1;
        line = suc number;
        text = text_of (encode_move m.type m f.event);
        annotated = false;
        color = 0;
        changed = 0;
      })
      ∷ move_lines_of (count + 1) (suc number) fs
]

-- The numbers of an annotation fit an int.
abbrev pub NotesFit : List Frame → Type 0
NotesFit [] = Unit {0}
NotesFit (f ∷ fs) = IsInt (event_color f.event) × IsInt (event_changed f.event) × NotesFit fs

-- A written line of a move, and what Scan makes of it.
pub record Wrote (type : CommandType) (event : Option Event) (line : Text) : Type 0 where
  pub l : Line
  pub reads : Reads line l
  pub adds :
      (number : ℕ) (o : Outline)
      → add_line number line o l ≡ record o {
        move_lines =
            o.move_lines
            ++ noted type event (record {
              number = length o.move_lines + 1;
              line = number;
              text = line;
              annotated = false;
              color = 0;
              changed = 0;
            })
              ∷ [];
      }

place_text-Wrote :
    (p : Player) (event : Option Event) (i j : ℕ)
    → IsInt (event_color event)
    → IsInt (event_changed event)
    → i < 8
    → j < 8
    → Wrote place event (place_text p (pos i) (pos j) (event_color event) (event_changed event))
unfolding add_line noted
place_text-Wrote p event i j fits fits' h k = record {
  l = Line.place (note_text (event_color event) (event_changed event));
  reads = place-Reads p i j (event_color event) (event_changed event) h k;
  adds = λ number o.
      rw (annotation_numbers-note (event_color event) (event_changed event) fits fits') refl;
}

place_line-written :
    (p : Player) (row col : ℤ) (color changed : ℕ) (line : Text)
    → place_line p row col color changed ≡ written line
    → (in_bounds row col ≡ true) × (place_text p row col color changed ≡ line)
unfolding place_line
place_line-written p row col color changed line e = ground (arith, e)

placement-Wrote :
    (p : Player) (event : Option Event) (line : Text) (row col : Option ℤ)
    → IsInt (event_color event)
    → IsInt (event_changed event)
    → encode_placement p row col event ≡ written line
    → Wrote place event line
unfolding encode_placement
placement-Wrote p event line none col fits fits' e = absurd cc
placement-Wrote p event line (some row) none fits fits' e = absurd cc
placement-Wrote p event line (some row) (some col) fits fits' e =
    let (within, text) = place_line-written p row col _ _ line e in
    let (i, j, row_is, col_is, h, k) = in_bounds-pos row col within in
    subst (Wrote place event)
      (ap (λ x. place_text p x (pos j) (event_color event) (event_changed event)) (sym row_is)
        ∙ ap (λ x. place_text p row x (event_color event) (event_changed event)) (sym col_is)
        ∙ text)
      (place_text-Wrote p event i j fits fits' h k)

pass_line-written :
    (p : Player) (line : Text) → pass_line p ≡ written line → player_word p ++ codes "パス" ≡ line
unfolding pass_line
pass_line-written p line e = ground (arith, e)

pub move-Wrote :
    (type : CommandType) (m : Move) (event : Option Event) (line : Text)
    → IsInt (event_color event)
    → IsInt (event_changed event)
    → encode_move type m event ≡ written line
    → Wrote type event line
unfolding encode_move add_line noted
move-Wrote place m event line fits fits' e =
    placement-Wrote m.player event line m.row m.col fits fits' e
move-Wrote pass m event line fits fits' e =
    subst (Wrote pass event) (pass_line-written m.player line e)
      (record { l = Line.pass; reads = pass-Reads m.player; adds = λ number o. refl })
move-Wrote (CommandType.other t) m event line fits fits' e = absurd cc
