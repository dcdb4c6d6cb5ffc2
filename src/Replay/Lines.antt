-- ===== src/Replay/Lines.antt =====
-- lineAt of server/internal/replay/decode.go, with what it uses of package strings.
pub mod Laws
use nadesiko_reversi.Prelude.{
  ℕ, ◌-◌, Bool, ◌||◌, ◌&&◌, Option, none, some, List, [], ◌∷◌, Text, get_elem?, leb, ltb, ◌==◌,
  if◌then◌else◌,
}

abbrev pub add_first : ℕ → List Text → List Text
add_first c [] = (c ∷ []) ∷ []
add_first c (line ∷ lines) = (c ∷ line) ∷ lines

-- `strings.Split(source, "\n")`
unfoldable pub split_lines : Text → List Text
split_lines [] = [] ∷ []
split_lines (c ∷ cs) = let rest = split_lines cs in if c == 10 then [] ∷ rest else add_first c rest

-- unicode.IsSpace
abbrev pub is_space : ℕ → Bool
is_space c =
    leb 9 c && leb c 13
    || c == 32
    || c == 133
    || c == 160
    || c == 5760
    || leb 8192 c && leb c 8202
    || c == 8232
    || c == 8233
    || c == 8239
    || c == 8287
    || c == 12288

-- `strings.TrimLeftFunc(text, unicode.IsSpace)`
unfoldable pub trim_left : Text → Text
trim_left [] = []
trim_left (c ∷ cs) = let rest = trim_left cs in if is_space c then rest else c ∷ cs

abbrev pub keep_last : ℕ → Text → Text
keep_last c [] = if is_space c then [] else c ∷ []
keep_last c (d ∷ ds) = c ∷ d ∷ ds

-- `strings.TrimRightFunc(text, unicode.IsSpace)`
unfoldable pub trim_right : Text → Text
trim_right [] = []
trim_right (c ∷ cs) = keep_last c (trim_right cs)

-- `strings.TrimSpace(text)`
unfoldable pub trim_space : Text → Text
unfolding trim_left trim_right
trim_space text = trim_right (trim_left text)

abbrev pub text_of : Option Text → Text
text_of none = []
text_of (some line) = trim_space line

-- func lineAt
unfoldable pub line_at : Text → ℕ → Text
unfolding split_lines
line_at source line = if ltb line 1 then [] else text_of (get_elem? (split_lines source) (line - 1))
