-- ===== src/Replay/Scan/Head.antt =====
-- What Scan makes of the lines before the moves.
use mathlib.Core.List.{append_assoc}
use nadesiko_reversi.Prelude.{
  ℕ, suc, ◌+◌, ◌≡◌, ◌∙◌, ap, refl, true, List, [], ◌∷◌, ◌++◌, Text, codes, arith, text_dec,
}
use nadesiko_reversi.Replay.Types.{rules_version, Outline, Script}
use nadesiko_reversi.Replay.Record.{game_id_valid}
use nadesiko_reversi.Replay.Lines.Laws.{AllLines}
use nadesiko_reversi.Replay.Scan.{scan_lines, no_lines, add_line, blank, comment, rules, start}
use nadesiko_reversi.Replay.Scan.Lines.{
  Reads, IsTime, blank-Reads, title-Reads, rules-Reads, start_text, start-Reads,
}
use nadesiko_reversi.Replay.Scan.Times.{
  started-Reads, ended-Reads, started-time, ended-time, started-other, ended-other, title-other,
}
use nadesiko_reversi.Replay.Scan.Written.{scan_lines-Reads}
use nadesiko_reversi.Replay.Encode.{header_lines, rules_version_line, head_lines}

-- One more line where a time is given.
abbrev pub time_lines : Text → ℕ
time_lines [] = 0
time_lines (c ∷ cs) = 1

-- The outline of a header.
abbrev pub head_outline : Text → Text → Outline
head_outline started_at ended_at = record no_lines {
  started_at = started_at;
  ended_at = ended_at;
  rules_version = rules_version;
  rules_version_line = 3 + time_lines started_at + time_lines ended_at;
  rules_version_lines = 1;
  header_lines = 1;
}

-- An outline with the times of the comments.
abbrev timed : Text → Text → Outline
timed started_at ended_at = record no_lines { started_at = started_at; ended_at = ended_at }

-- The four lines after the comments.
body-scan :
    (number : ℕ) (s e id : Text) (seed : ℕ) (rest : List Text)
    → game_id_valid id ≡ true
    → scan_lines number (timed s e) ([] ∷ rules_version_line ∷ start_text id seed ∷ [] ∷ rest)
      ≡ scan_lines
          (suc (suc (suc (suc number))))
          (record (timed s e) {
            rules_version = rules_version;
            rules_version_line = suc (suc number);
            rules_version_lines = 1;
            header_lines = 1;
          })
          rest
unfolding add_line
body-scan number s e id seed rest h =
    scan_lines-Reads number _ [] blank _ blank-Reads
    ∙ scan_lines-Reads (suc number) _ rules_version_line (rules rules_version) _ rules-Reads
    ∙ scan_lines-Reads (suc (suc number)) _ (start_text id seed) start _ (start-Reads id seed h)
    ∙ scan_lines-Reads (suc (suc (suc number))) _ [] blank _ blank-Reads

title-add :
    (number : ℕ) (line : Text)
    → add_line number line no_lines (comment (codes " グラデーションリバーシ 対局記録 v1")) ≡ timed [] []
unfolding add_line
title-add number line = rw (title-other.0, title-other.1) refl

started-add :
    (number c : ℕ) (line cs : Text)
    → IsTime (c ∷ cs)
    → add_line number line (timed [] []) (comment (codes " 開始 " ++ c ∷ cs)) ≡ timed (c ∷ cs) []
unfolding add_line text_dec
started-add number c line cs v = rw (started-time c cs v, started-other (c ∷ cs)) refl

ended-add :
    (number c : ℕ) (line s cs : Text)
    → IsTime (c ∷ cs)
    → add_line number line (timed s []) (comment (codes " 終了 " ++ c ∷ cs)) ≡ timed s (c ∷ cs)
unfolding add_line text_dec
ended-add number c line s cs v = rw (ended-time c cs v, ended-other (c ∷ cs)) refl

-- One comment of the header.
comment-scan :
    (number : ℕ) (o o' : Outline) (line note : Text) (rest : List Text)
    → Reads line (comment note)
    → add_line (suc number) line o (comment note) ≡ o'
    → scan_lines number o (line ∷ rest) ≡ scan_lines (suc number) o' rest
comment-scan number o o' line note rest v e =
    scan_lines-Reads number o line (comment note) rest v
    ∙ ap (λ q. scan_lines (suc number) q rest) e

-- The comments of the header.
comments-scan :
    (s e : Text) (rest : List Text)
    → IsTime s
    → IsTime e
    → scan_lines 0 no_lines (header_lines s e ++ rest)
      ≡ scan_lines (1 + time_lines s + time_lines e) (timed s e) rest
unfolding header_lines
comments-scan [] [] rest v w = comment-scan 0 _ _ _ _ _ title-Reads (title-add _ _)
comments-scan (c ∷ cs) [] rest v w =
    comment-scan 0 _ _ _ _ _ title-Reads (title-add _ _)
    ∙ comment-scan 1 _ _ _ _ _ (started-Reads c cs v) (started-add _ c _ cs v)
comments-scan [] (c ∷ cs) rest v w =
    comment-scan 0 _ _ _ _ _ title-Reads (title-add _ _)
    ∙ comment-scan 1 _ _ _ _ _ (ended-Reads c cs w) (ended-add _ c _ _ cs w)
comments-scan (b ∷ bs) (c ∷ cs) rest v w =
    comment-scan 0 _ _ _ _ _ title-Reads (title-add _ _)
    ∙ comment-scan 1 _ _ _ _ _ (started-Reads b bs v) (started-add _ b _ bs v)
    ∙ comment-scan 2 _ _ _ _ _ (ended-Reads c cs w) (ended-add _ c _ _ cs w)

-- The whole header.
pub head-scan :
    (script : Script) (rest : List Text)
    → IsTime script.started_at
    → IsTime script.ended_at
    → game_id_valid script.game_id ≡ true
    → scan_lines 0 no_lines (head_lines script (start_text script.game_id script.seed) ++ rest)
      ≡ scan_lines
          (5 + time_lines script.started_at + time_lines script.ended_at)
          (head_outline script.started_at script.ended_at)
          rest
head-scan script rest v w h =
    let s = script.started_at in
    let e = script.ended_at in
    let n = 1 + time_lines s + time_lines e in
    let total : suc (suc (suc (suc n))) ≡ 5 + time_lines s + time_lines e = omega arith in
    let third : suc (suc n) ≡ 3 + time_lines s + time_lines e = omega arith in
    ap (scan_lines 0 no_lines) (append_assoc (header_lines s e) _ rest)
    ∙ comments-scan s e _ v w
    ∙ body-scan n s e script.game_id script.seed rest h
    ∙ ap (λ k. scan_lines k (record (head_outline s e) { rules_version_line = suc (suc n) }) rest)
        total
    ∙ ap
        (λ k.
          scan_lines (5 + time_lines s + time_lines e)
            (record (head_outline s e) { rules_version_line = k }) rest)
        third

pub header-AllLines : (s e : Text) → IsTime s → IsTime e → AllLines (header_lines s e)
unfolding header_lines
header-AllLines [] [] v w = (title-Reads.single, tt)
header-AllLines (c ∷ cs) [] v w = (title-Reads.single, ((started-Reads c cs v).single, tt))
header-AllLines [] (c ∷ cs) v w = (title-Reads.single, ((ended-Reads c cs w).single, tt))
header-AllLines (b ∷ bs) (c ∷ cs) v w =
    (title-Reads.single, ((started-Reads b bs v).single, ((ended-Reads c cs w).single, tt)))
