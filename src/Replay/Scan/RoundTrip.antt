-- ===== src/Replay/Scan/RoundTrip.antt =====
-- What Scan makes of a record that EncodeResult wrote.
use mathlib.Core.List.{append_assoc, append-nil}
use nadesiko_reversi.Prelude.{
  ℕ, suc, ◌+◌, ◌≡◌, ◌∙◌, ap, refl, subst, Bool, true, false, not, Option, none, some, List, [], ◌∷◌,
  ◌++◌, Text, arith, if◌then◌else◌,
}
use nadesiko_reversi.Protocol.Types.{Player, is_finished}
use nadesiko_reversi.Replay.Types.{Outline, Result}
use nadesiko_reversi.Replay.Record.{game_id_valid}
use nadesiko_reversi.Replay.Replayer.{final_state}
use nadesiko_reversi.Replay.Lines.Laws.{AllLines, AllLines-append, split_lines-write_lines}
use nadesiko_reversi.Replay.Scan.{scanned, scan_lines, scan, no_lines, add_line, blank, end}
use nadesiko_reversi.Replay.Scan.Lines.{
  IsTime, blank-Reads, rules-Reads, start_text, start-Reads, end-Reads,
}
use nadesiko_reversi.Replay.Scan.Written.{scan_lines-Reads, move_lines_of, NotesFit}
use nadesiko_reversi.Replay.Scan.Head.{time_lines, head_outline, head-scan, header-AllLines}
use nadesiko_reversi.Replay.Scan.Moves.{Scans, encode_frames-Scans}
use nadesiko_reversi.Replay.Encode.{
  Written, written, unwritable, ◌>>=◌, Lines, lines, header_lines, rules_version_line, write_lines,
  start_line, end_text, end_line, encode_end, encode_frames, encode_moves, encode_result,
  head_lines,
}
use nadesiko_reversi.Replay.Encode

-- The outline of what EncodeResult writes.
abbrev pub outline_of : Result → Outline
outline_of r =
    let s = r.script.started_at in
    let e = r.script.ended_at in
    record (head_outline s e) {
      move_lines = move_lines_of 0 (5 + time_lines s + time_lines e) r.later;
      footer_lines = if is_finished (final_state r).phase then 1 else 0;
    }

-- What stands behind the moves.
record Tail (done : Bool) (tail : List Text) : Type 0 where
  single : AllLines tail
  scan :
      (number : ℕ) (o : Outline)
      → o.footer_lines ≡ 0
      → scan_lines number o (tail ++ [] ∷ [])
        ≡ scanned (record o { footer_lines = if done then 1 else 0 })

open-Tail : Tail false []
unfolding scan_lines add_line
open-Tail = record {
  single = tt;
  scan = λ number o e.
      scan_lines-Reads number o [] blank [] blank-Reads
      ∙ ap (λ k. scanned (record o { footer_lines = k })) e;
}

end-Tail :
    (w : Player) (moves colors pieces : ℕ) → Tail true ([] ∷ end_text w moves colors pieces ∷ [])
unfolding scan_lines add_line
end-Tail w moves colors pieces = record {
  single = (refl, ((end-Reads w moves colors pieces).single, tt));
  scan = λ number o e.
      scan_lines-Reads number o [] blank (end_text w moves colors pieces ∷ [] ∷ []) blank-Reads
      ∙ scan_lines-Reads (suc number) o _ end ([] ∷ []) (end-Reads w moves colors pieces)
      ∙ scan_lines-Reads (suc (suc number)) _ [] blank [] blank-Reads
      ∙ ap (λ k. scanned (record o { footer_lines = k })) (ap (λ k. k + 1) e);
}

end_line-written :
    (w : Player) (moves colors pieces : ℕ) (line : Text)
    → end_line w moves colors pieces ≡ written line
    → end_text w moves colors pieces ≡ line
unfolding end_line
end_line-written w moves colors pieces line e = ground (arith, e)

encode_end-Tail :
    (r : Result) (o : Option Player) (line : Text)
    → encode_end r o ≡ written line
    → Tail true ([] ∷ line ∷ [])
unfolding encode_end
encode_end-Tail r none line e = absurd cc
encode_end-Tail r (some w) line e =
    subst (λ l. Tail true ([] ∷ l ∷ [])) (end_line-written w _ _ _ line e) (end-Tail w _ _ _)

-- The lines before the tail, and the whole text.
abbrev TailOf : Bool → List Text → Text → Type 0
TailOf done before source =
    (tail : List Text) × Tail done tail × (write_lines (before ++ tail) [] ≡ source)

finished-tail :
    (r : Result) (before : List Text) (x : Written) (source : Text)
    → encode_end r (final_state r).winner ≡ x
    → (x >>= λ last. written (write_lines (before ++ ([] ∷ last ∷ [])) [])) ≡ written source
    → TailOf true before source
finished-tail r before (written line) source e h = (_, encode_end-Tail r _ line e, cc)
finished-tail r before (unwritable err) source e h = absurd cc

moves-tail :
    (r : Result) (before : List Text) (source : Text) (done : Bool)
    → (if not done
        then written (write_lines before [])
        else encode_end r (final_state r).winner >>= λ last.
            written (write_lines (before ++ ([] ∷ last ∷ [])) []))
      ≡ written source
    → TailOf done before source
moves-tail r before source false h =
    ([], open-Tail, ap (λ ls. write_lines ls []) (append-nil before) ∙ cc)
moves-tail r before source true h =
    finished-tail r before (encode_end r (final_state r).winner) source refl h

-- The text that EncodeResult writes for lines of moves.
encode_moves-tail :
    (r : Result) (first : Text) (x : Lines) (source : Text)
    → encode_moves r first x ≡ written source
    → (moves : List Text) × (x ≡ lines moves)
      × TailOf (is_finished (final_state r).phase) (head_lines r.script first ++ moves) source
unfolding encode_moves
encode_moves-tail r first (lines moves) source h =
    (moves, refl, moves-tail r (head_lines r.script first ++ moves) source _ h)
encode_moves-tail r first (Encode.Lines.unwritable err) source h = absurd cc

start_line-written :
    (id first : Text) (seed : ℕ)
    → start_line id seed ≡ written first
    → (game_id_valid id ≡ true) × (start_text id seed ≡ first)
unfolding start_line
start_line-written id first seed h = ground (arith, h)

-- The header, the moves and the tail, read from the written text.
module _ (r : Result) (v : IsTime r.script.started_at) (w : IsTime r.script.ended_at)
    (valid : game_id_valid r.script.game_id ≡ true) where
  scan-written :
      (moves tail : List Text)
      → Scans r.later moves
      → Tail (is_finished (final_state r).phase) tail
      → scan (
          write_lines
            ((head_lines r.script (start_text r.script.game_id r.script.seed) ++ moves) ++ tail)
            [])
        ≡ scanned (outline_of r)
  unfolding scan
  scan-written moves tail m t =
      let head : List Text = head_lines r.script (start_text r.script.game_id r.script.seed) in
      let head_single : AllLines head =
        AllLines-append (header_lines r.script.started_at r.script.ended_at) _
          (header-AllLines r.script.started_at r.script.ended_at v w)
          (
            refl,
            (
              rules-Reads.single,
              ((start-Reads r.script.game_id r.script.seed valid).single, (refl, tt)),
            ),
          ) in
      let single : AllLines ((head ++ moves) ++ tail) =
        AllLines-append (head ++ moves) tail (AllLines-append head moves head_single m.single)
          t.single in
      let o : Outline = head_outline r.script.started_at r.script.ended_at in
      ap (scan_lines 0 no_lines) (split_lines-write_lines ((head ++ moves) ++ tail) single)
      ∙ ap (scan_lines 0 no_lines)
          (append_assoc (head ++ moves) tail ([] ∷ []) ∙ append_assoc head moves (tail ++ [] ∷ []))
      ∙ head-scan r.script (moves ++ (tail ++ [] ∷ [])) v w valid
      ∙ m.scan _ o (tail ++ [] ∷ [])
      ∙ t.scan _ _ refl

-- What EncodeResult writes, Scan reads back: the times, the version, and each move with its line and its annotation.
pub scan-encode_result :
    (r : Result) (source : Text)
    → IsTime r.script.started_at
    → IsTime r.script.ended_at
    → NotesFit r.later
    → encode_result (some r) ≡ written source
    → scan source ≡ scanned (outline_of r)
unfolding encode_result
scan-encode_result r source v w fits h =
    from_start (start_line r.script.game_id r.script.seed) refl h
  where
    from_start :
        (x : Written)
        → start_line r.script.game_id r.script.seed ≡ x
        → (x >>= λ first. encode_moves r first (encode_frames r.later)) ≡ written source
        → scan source ≡ scanned (outline_of r)
    from_start (unwritable e) k h = absurd cc
    from_start (written first) k h =
        let (valid, same) = start_line-written r.script.game_id first r.script.seed k in
        let (moves, some_moves, (tail, t, whole)) =
          encode_moves-tail r first (encode_frames r.later) source h in
        subst (λ s. scan s ≡ scanned (outline_of r))
          (ap (λ f. write_lines ((head_lines r.script f ++ moves) ++ tail) []) same ∙ whole)
          (scan-written r v w valid moves tail (encode_frames-Scans r.later moves fits some_moves)
            t)
