-- ===== src/Replay/Grammar.antt =====
-- The regular expressions of server/internal/replay/decode.go, each as a reader by clauses.
--
-- In each of them a greedy run is followed by a character that the run cannot hold, so reading
-- without backtracking gives the match of package regexp. A line holds no line feed, so `.` is any
-- character of it.
pub mod Laws
use mathlib.Core.Option
use nadesiko_reversi.Prelude.{
  ℕ, Bool, true, false, ◌&&◌, ◌||◌, Option, none, some, List, [], ◌∷◌, Text, codes, leb, ltb, ◌==◌,
  if◌then◌else◌, ◌>>=◌, ◌>>◌,
}
use nadesiko_reversi.Prelude.Decimal.{read_digits}

-- \s
abbrev pub is_blank : ℕ → Bool
is_blank c = c == 9 || c == 10 || c == 12 || c == 13 || c == 32

-- \d
abbrev pub is_digit : ℕ → Bool
is_digit c = leb 48 c && leb c 57

-- a literal, which is taken off the front
unfoldable pub strip : Text → Text → Option Text
strip [] s = some s
strip (p ∷ ps) [] = none
strip (p ∷ ps) (c ∷ cs) = if p == c then strip ps cs else none

-- \s*
unfoldable pub skip_blanks : Text → Text
skip_blanks [] = []
skip_blanks (c ∷ cs) = let rest = skip_blanks cs in if is_blank c then rest else c ∷ cs

-- (\S*), and what follows
unfoldable pub take_word : Text → Text
take_word [] = []
take_word (c ∷ cs) = let rest = take_word cs in if is_blank c then [] else c ∷ rest

-- (\d*), and what follows
unfoldable pub span_digits : Text → Text × Text
span_digits [] = ([], [])
span_digits (c ∷ cs) =
    let rest : Text × Text = span_digits cs in
    if is_digit c then (c ∷ rest.0, rest.1) else ([], c ∷ cs)

abbrev some_digits : Text × Text → Option (Text × Text)
some_digits ([], rest) = none
some_digits (d ∷ ds, rest) = some (d ∷ ds, rest)

-- (\d+), and what follows
unfoldable pub digits_then : Text → Option (Text × Text)
unfolding span_digits
digits_then s = some_digits (span_digits s)

abbrev before : ℕ → Text × Text → Text × Text
before c p = (c ∷ p.0, p.1)

-- ([^」]*)」, and what follows
unfoldable pub quoted : Text → Option (Text × Text)
quoted [] = none
quoted (c ∷ cs) =
    let rest = quoted cs in if c == 12301 then some ([], cs) else Option.map (before c) rest

abbrev first_of {ℓ} : {A : Type ℓ} → Option A → Option A → Option A
first_of (some a) o = some a
first_of none o = o

-- (黒|白)
unfoldable pub player_read : Text → Option Text
unfolding strip
player_read s = first_of (strip (codes "黒") s) (strip (codes "白") s)

abbrev ending : Text → Option Text
ending [] = some []
ending (c ∷ cs) = if c == 35 then some cs else none

-- \s*(?:#(.*))?$, with the comment
unfoldable pub line_end : Text → Option Text
unfolding skip_blanks
line_end s = ending (skip_blanks s)

-- ([0-7])
unfoldable pub board_digit : Text → Option Text
board_digit [] = none
board_digit (c ∷ cs) = if leb 48 c && leb c 55 then some cs else none

-- rulesVersionLinePattern, with the version
unfoldable pub rules_version_read : Text → Option Text
unfolding strip line_end
rules_version_read s = do
  s1 ← strip (codes "「") s
  (version, s2) ← quoted s1
  s3 ← strip (codes "でルール版宣言") s2
  _ ← line_end s3
  some version

-- startLinePattern
unfoldable pub start_read : Text → Option Text
unfolding strip line_end
start_read s = do
  s1 ← strip (codes "「") s
  (id, s2) ← quoted s1
  s3 ← strip (codes "と") s2
  (seed, s4) ← digits_then s3
  s5 ← strip (codes "で対局開始") s4
  line_end s5

-- placeLinePattern, with the comment
unfoldable pub place_read : Text → Option Text
unfolding strip board_digit player_read line_end
place_read s = do
  s1 ← board_digit s
  s2 ← strip (codes "と") s1
  s3 ← board_digit s2
  s4 ← strip (codes "で") s3
  s5 ← player_read s4
  s6 ← strip (codes "着手") s5
  line_end s6

-- passLinePattern
unfoldable pub pass_read : Text → Option Text
unfolding strip player_read line_end
pass_read s = do s1 ← player_read s; s2 ← strip (codes "パス") s1; line_end s2

-- endLinePattern
unfoldable pub end_read : Text → Option Text
unfolding strip player_read line_end
end_read s = do
  s1 ← strip (codes "「") s
  s2 ← player_read s1
  s3 ← strip (codes "」で対局終了") s2
  line_end s3

-- placeAnnotationPattern at the front
unfoldable pub annotation_at : Text → Option (Text × Text)
unfolding strip
annotation_at s = do
  s1 ← strip (codes "色") s
  (color, s2) ← digits_then s1
  s3 ← strip (codes "、") s2
  (changed, s4) ← digits_then s3
  _ ← strip (codes "個変換") s4
  some (color, changed)

-- placeAnnotationPattern, at the first place where it matches
unfoldable pub annotation_read : Text → Option (Text × Text)
unfolding annotation_at
annotation_read [] = none
annotation_read (c ∷ cs) = let rest = annotation_read cs in first_of (annotation_at (c ∷ cs)) rest

abbrev some_word : Text → Option Text
some_word [] = none
some_word (c ∷ cs) = some (c ∷ cs)

abbrev blank_first : Text → Option Text
blank_first [] = none
blank_first (c ∷ cs) = if is_blank c then some cs else none

-- startedAtPattern and endedAtPattern, with the word and the time
unfoldable pub time_read : Text → Text → Option Text
unfolding strip skip_blanks
time_read word s = do
  s1 ← strip word (skip_blanks s)
  s2 ← blank_first s1
  some_word (take_word (skip_blanks s2))

-- strconv.Atoi on digits
unfoldable pub atoi : Text → Option ℕ
atoi ds = let n = read_digits 0 ds in if ltb n 9223372036854775808 then some n else none
