-- ===== src/Replay/Lines/Laws.antt =====
-- Written lines come apart again: splitting at line feeds and trimming.
use nadesiko_reversi.Prelude.{
  ℕ, ◌≡◌, ◌≢◌, ◌∙◌, ap, refl, Bool, true, false, not, List, [], ◌∷◌, ◌++◌, Text, all, ◌==◌, arith,
}
use nadesiko_reversi.Replay.Lines.{
  split_lines, is_space, trim_left, trim_right, keep_last, trim_space,
}
use nadesiko_reversi.Replay.Encode.{write_lines}

abbrev pub is_feed : ℕ → Bool
is_feed c = c == 10

-- A line without a line feed in it.
abbrev pub IsLine : Text → Type 0
IsLine s = all (λ c. not (is_feed c)) s ≡ true

-- A text that is filled and ends in no space.
abbrev pub EndsWell : Text → Type 0
EndsWell s = (trim_right s ≡ s) × (s ≢ [])

keep_last-filled : (c : ℕ) (s : Text) → s ≢ [] → keep_last c s ≡ c ∷ s
keep_last-filled c [] h = absurd (h refl)
keep_last-filled c (d ∷ ds) h = refl

filled-append : (xs ys : Text) → ys ≢ [] → xs ++ ys ≢ []
filled-append [] ys h = h
filled-append (x ∷ xs) ys h = λ e. cc

-- What stands before does not change how a text ends.
pub EndsWell-append : (xs ys : Text) → EndsWell ys → EndsWell (xs ++ ys)
unfolding trim_right
EndsWell-append [] ys v = v
EndsWell-append (x ∷ xs) ys v =
    let (kept, filled) = EndsWell-append xs ys v in
    (ap (keep_last x) kept ∙ keep_last-filled x (xs ++ ys) filled, λ e. cc)

-- Without spaces there is nothing to trim.
pub trim_right-all : (s : Text) → all (λ c. not (is_space c)) s ≡ true → trim_right s ≡ s
unfolding trim_right
trim_right-all [] h = refl
trim_right-all (c ∷ []) h = ground (arith, h)
trim_right-all (c ∷ d ∷ ds) h = ap (keep_last c) (trim_right-all (d ∷ ds) (ground (arith, h)))

-- A text that starts with no space and ends well is trimmed already.
pub trim_space-lem :
    (c : ℕ) (s : Text) → is_space c ≡ false → EndsWell (c ∷ s) → trim_space (c ∷ s) ≡ c ∷ s
unfolding trim_space trim_left
trim_space-lem c s h v = rw h (v.0)

pub split_lines-line :
    (line rest : Text) → IsLine line → split_lines (line ++ 10 ∷ rest) ≡ line ∷ split_lines rest
unfolding split_lines
split_lines-line [] rest h = refl
split_lines-line (c ∷ cs) rest h = ground (arith, split_lines-line cs rest, h)

-- Lines that are written one after the other.
abbrev pub AllLines : List Text → Type 0
AllLines [] = Unit {0}
AllLines (l ∷ ls) = IsLine l × AllLines ls

pub split_lines-write_lines :
    (ls : List Text) → AllLines ls → split_lines (write_lines ls []) ≡ ls ++ [] ∷ []
unfolding write_lines split_lines
split_lines-write_lines [] v = refl
split_lines-write_lines (l ∷ ls) (h, v) =
    split_lines-line l (write_lines ls []) h ∙ ap (◌∷◌ l) (split_lines-write_lines ls v)

pub AllLines-append : (xs ys : List Text) → AllLines xs → AllLines ys → AllLines (xs ++ ys)
AllLines-append [] ys v w = w
AllLines-append (x ∷ xs) ys (h, v) w = (h, AllLines-append xs ys v w)
