-- ===== src/Replay/Decode/Location.antt =====
-- The line that locateFailure gives, and the line that the diagnostic is about.
use nadesiko_reversi.Prelude.{
  ℕ, zero, suc, ◌+◌, ◌-◌, ◌≤◌, ◌<◌, ◌≡◌, ◌∙◌, sym, ap, refl, Option, none, some, List, [], ◌∷◌,
  ◌++◌, Text, codes, length, get_elem?, arith,
}
use nadesiko_reversi.Replay.Lines.{split_lines, add_first, line_at, text_of}
use nadesiko_reversi.Replay.Grammar.{atoi}
use nadesiko_reversi.Replay.Decode.{
  Decoder, Diagnostic, diagnostic_read, count_feeds, locate_line, locate_number, locate_diagnostic,
  locate_failure, combined_source,
}

add_first-append :
    (c : ℕ) (xs ys : List Text)
    → length xs ≡ 1 + (length xs - 1)
    → add_first c (xs ++ ys) ≡ add_first c xs ++ ys
add_first-append c [] ys h = absurd (omega (arith, h))
add_first-append c (x ∷ xs) ys h = refl

length-add_first :
    (c : ℕ) (xs : List Text) (n : ℕ) → length xs ≡ suc n → length (add_first c xs) ≡ suc n
length-add_first c [] n h = omega (arith, h)
length-add_first c (x ∷ xs) n h = h

-- A text has one line more than it has line feeds.
pub length-split_lines : (s : Text) → length (split_lines s) ≡ suc (count_feeds s)
unfolding split_lines count_feeds
length-split_lines [] = refl
length-split_lines (c ∷ cs) =
    ground (arith, length-split_lines cs, length-add_first c (split_lines cs) (count_feeds cs))

-- The lines of two texts with a line feed between them.
pub split_lines-append :
    (xs ys : Text) → split_lines (xs ++ 10 ∷ ys) ≡ split_lines xs ++ split_lines ys
unfolding split_lines
split_lines-append [] ys = refl
split_lines-append (c ∷ cs) ys = ground (
  arith,
  split_lines-append cs ys,
  length-split_lines cs,
  add_first-append c (split_lines cs) (split_lines ys),
)

get_elem?-left :
    (xs ys : List Text) (i : ℕ) → i < length xs → get_elem? (xs ++ ys) i ≡ get_elem? xs i
get_elem?-left [] ys i h = absurd (omega (arith, h))
get_elem?-left (x ∷ xs) ys zero h = refl
get_elem?-left (x ∷ xs) ys (suc i) h = get_elem?-left xs ys i (omega (arith, h))

get_elem?-right :
    (xs ys : List Text) (i : ℕ) → get_elem? (xs ++ ys) (length xs + i) ≡ get_elem? ys i
get_elem?-right [] ys i = let same : 0 + i ≡ i = omega arith in ap (get_elem? ys) same
get_elem?-right (x ∷ xs) ys i =
    let same : suc (length xs) + i ≡ suc (length xs + i) = omega arith in
    ap (get_elem? (x ∷ (xs ++ ys))) same ∙ get_elem?-right xs ys i

line_at-suc :
    (source : Text) (n : ℕ) → line_at source (suc n) ≡ text_of (get_elem? (split_lines source) n)
unfolding line_at
line_at-suc source n = let same : suc n - 1 ≡ n = omega arith in ground (arith, same)

-- A line of the record, found in the source that is run.
pub line_at-combined :
    (d : Decoder) (source : Text) (n : ℕ)
    → n ≤ count_feeds source
    → line_at (combined_source d source) (count_feeds d.harness + 1 + suc n)
      ≡ line_at source (suc n)
line_at-combined d source n h =
    let more : Text = codes "対局データ出力" ++ (10 ∷ []) in
    let hs : List Text = split_lines d.harness in
    let parts : split_lines (combined_source d source)
        ≡ hs ++ (split_lines source ++ split_lines more) =
      split_lines-append d.harness _ ∙ ap (λ ls. hs ++ ls) (split_lines-append source more) in
    let moved : count_feeds d.harness + 1 + suc n ≡ suc (length hs + n) =
      omega (arith, length-split_lines d.harness) in
    let within : n < length (split_lines source) = omega (arith, length-split_lines source, h) in
    ap (line_at (combined_source d source)) moved
    ∙ line_at-suc (combined_source d source) (length hs + n)
    ∙ ap (λ ls. text_of (get_elem? ls (length hs + n))) parts
    ∙ ap text_of (get_elem?-right hs _ n ∙ get_elem?-left (split_lines source) _ n within)
    ∙ sym (line_at-suc source n)

-- A location that was found: a line of the record, at that place behind the harness.
abbrev pub IsLocated : Decoder → Text → Text → ℕ → Type 0
IsLocated d diagnostic source line =
    (m : Diagnostic) × (combined : ℕ) × (diagnostic_read diagnostic ≡ some m)
    × (atoi m.digits ≡ some combined)
    × (line ≤ count_feeds source + 1)
    × (combined ≡ count_feeds d.harness + 1 + line)

locate_line-found :
    (harness source : Text) (m : Diagnostic) (combined : ℕ)
    → 1 ≤ (locate_line harness source m combined).0
    → ((locate_line harness source m combined).0 ≤ count_feeds source + 1)
      × (combined ≡ count_feeds harness + 1 + (locate_line harness source m combined).0)
unfolding locate_line
locate_line-found harness source m combined h = ground (arith, h)

locate_number-found :
    (d : Decoder) (diagnostic source : Text) (m : Diagnostic) (x : Option ℕ)
    → diagnostic_read diagnostic ≡ some m
    → atoi m.digits ≡ x
    → 1 ≤ (locate_number d.harness source m x).0
    → IsLocated d diagnostic source (locate_number d.harness source m x).0
unfolding locate_number
locate_number-found d diagnostic source m none e a h = absurd (omega (arith, h))
locate_number-found d diagnostic source m (some combined) e a h =
    let (within, moved) = locate_line-found d.harness source m combined h in
    (m, combined, e, a, within, moved)

locate_diagnostic-found :
    (d : Decoder) (diagnostic source : Text) (x : Option Diagnostic)
    → diagnostic_read diagnostic ≡ x
    → 1 ≤ (locate_diagnostic d.harness source x).0
    → IsLocated d diagnostic source (locate_diagnostic d.harness source x).0
unfolding locate_diagnostic
locate_diagnostic-found d diagnostic source none e h = absurd (omega (arith, h))
locate_diagnostic-found d diagnostic source (some m) e h =
    locate_number-found d diagnostic source m (atoi m.digits) e refl h

same_line :
    (d : Decoder) (source : Text) (combined line : ℕ)
    → 1 ≤ line
    → line ≤ count_feeds source + 1
    → combined ≡ count_feeds d.harness + 1 + line
    → line_at (combined_source d source) combined ≡ line_at source line
same_line d source combined zero h k e = absurd (omega (arith, h))
same_line d source combined (suc n) h k e =
    ap (line_at (combined_source d source)) e ∙ line_at-combined d source n (omega (arith, k))

-- Where locateFailure gives a line, the diagnostic names a line of the source that was run, and that line is the given line of the record: their texts are the same.
pub locate_failure-line_at :
    (d : Decoder) (diagnostic source : Text)
    → 1 ≤ (locate_failure d.harness diagnostic source).0
    → (m : Diagnostic) × (combined : ℕ) × (diagnostic_read diagnostic ≡ some m)
      × (atoi m.digits ≡ some combined)
      × ((locate_failure d.harness diagnostic source).0 ≤ count_feeds source + 1)
      × (line_at (combined_source d source) combined
          ≡ line_at source (locate_failure d.harness diagnostic source).0)
unfolding locate_failure
locate_failure-line_at d diagnostic source h =
    let (m, combined, e, a, within, moved) =
      locate_diagnostic-found d diagnostic source (diagnostic_read diagnostic) refl h in
    (m, combined, e, a, within, same_line d source combined _ h within moved)
