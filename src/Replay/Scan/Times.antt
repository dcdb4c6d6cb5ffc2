-- ===== src/Replay/Scan/Times.antt =====
-- The lines of the header, and the times in them.
use nadesiko_reversi.Prelude.{
  ℕ, ◌≡◌, refl, true, false, not, none, some, ◌∷◌, ◌++◌, Text, codes, ◌==◌, arith,
}
use nadesiko_reversi.Replay.Lines.{is_space}
use nadesiko_reversi.Replay.Lines.Laws.{
  IsLine, EndsWell, EndsWell-append, trim_right-all, trim_space-lem,
}
use nadesiko_reversi.Replay.Grammar.{is_blank, take_word, time_read}
use nadesiko_reversi.Replay.Grammar.Laws.{all-weaken, blank-of-space, take_word-all}
use nadesiko_reversi.Replay.Scan.{comment, read_line}
use nadesiko_reversi.Replay.Scan.Lines.{Reads, IsTime}

-- A time that is given, without spaces.
module _ (c : ℕ) (cs : Text) (v : IsTime (c ∷ cs)) where
  time-IsLine : IsLine (c ∷ cs)
  time-IsLine = all-weaken (λ c. not (is_space c)) (λ c. not (c == 10)) feed (c ∷ cs) v
    where
      feed : (c : ℕ) → not (is_space c) ≡ true → not (c == 10) ≡ true
      feed c h = ground (arith, h)

  time-EndsWell : EndsWell (c ∷ cs)
  time-EndsWell = (trim_right-all (c ∷ cs) v, λ e. cc)

  pub started-Reads : Reads (codes "# 開始 " ++ c ∷ cs) (comment (codes " 開始 " ++ c ∷ cs))
  unfolding read_line
  started-Reads = record {
    single = time-IsLine;
    tidy = trim_space-lem 35 _ refl (EndsWell-append (codes "# 開始 ") _ time-EndsWell);
    read = refl;
  }

  pub ended-Reads : Reads (codes "# 終了 " ++ c ∷ cs) (comment (codes " 終了 " ++ c ∷ cs))
  unfolding read_line
  ended-Reads = record {
    single = time-IsLine;
    tidy = trim_space-lem 35 _ refl (EndsWell-append (codes "# 終了 ") _ time-EndsWell);
    read = refl;
  }

  time-word : take_word (c ∷ cs) ≡ c ∷ cs
  time-word =
      take_word-all (c ∷ cs)
        (all-weaken (λ c. not (is_space c)) (λ c. not (is_blank c)) blank-of-space (c ∷ cs) v)

  time-first : is_blank c ≡ false
  time-first = ground (arith, v)

  pub started-time : time_read (codes "開始") (codes " 開始 " ++ c ∷ cs) ≡ some (c ∷ cs)
  unfolding time_read
  started-time = rw (time-first, time-word) refl

  pub ended-time : time_read (codes "終了") (codes " 終了 " ++ c ∷ cs) ≡ some (c ∷ cs)
  unfolding time_read
  ended-time = rw (time-first, time-word) refl

pub started-other : (t : Text) → time_read (codes "終了") (codes " 開始 " ++ t) ≡ none
unfolding time_read
started-other t = refl

pub ended-other : (t : Text) → time_read (codes "開始") (codes " 終了 " ++ t) ≡ none
unfolding time_read
ended-other t = refl

pub title-other :
    (time_read (codes "開始") (codes " グラデーションリバーシ 対局記録 v1") ≡ none)
    × (time_read (codes "終了") (codes " グラデーションリバーシ 対局記録 v1") ≡ none)
unfolding time_read
title-other = (refl, refl)
