-- ===== src/Replay/Scan/Lines.antt =====
-- Each line that the encoder writes is read for what it is.
use nadesiko_reversi.Prelude.{
  ℕ, ◌+◌, ◌≤◌, ◌<◌, ◌≡◌, ◌≢◌, refl, true, false, not, some, [], ◌∷◌, ◌++◌, Text, codes, all, leb,
  ◌==◌, arith,
}
use nadesiko_reversi.Prelude.Int.{pos}
use nadesiko_reversi.Prelude.Decimal.{decimal, int_text}
use nadesiko_reversi.Protocol.Types.{Player, dark, light}
use nadesiko_reversi.Replay.Types.{rules_version}
use nadesiko_reversi.Replay.Record.{is_id_char, game_id_valid}
use nadesiko_reversi.Replay.Lines.{is_space, trim_space, trim_right}
use nadesiko_reversi.Replay.Lines.Laws.{
  IsLine, EndsWell, EndsWell-append, trim_right-all, trim_space-lem,
}
use nadesiko_reversi.Replay.Grammar.{
  is_digit, quoted, player_read, rules_version_read, start_read, place_read, pass_read, end_read,
  annotation_read,
}
use nadesiko_reversi.Replay.Grammar.Laws.{
  all-append, all-weaken, decimal-all, decimal-IsFilled, decimal-small, digits_then-decimal,
  quoted-append, atoi-decimal,
}
use nadesiko_reversi.Replay.Scan.{
  Line, rules, start, end, pass, place, comment, blank, read_line, annotation_numbers,
}
use nadesiko_reversi.Replay.Encode.{rules_version_line, player_word, place_text, end_text}

-- A written line, and what Scan reads it for.
pub record Reads (line : Text) (l : Line) : Type 0 where
  pub single : IsLine line
  pub tidy : trim_space line ≡ line
  pub read : read_line line ≡ some l

pub blank-Reads : Reads [] blank
unfolding trim_space read_line
blank-Reads = record { single = refl; tidy = refl; read = refl }

pub rules-Reads : Reads rules_version_line (rules rules_version)
unfolding rules_version_line trim_space read_line rules_version_read quoted
rules-Reads = record { single = refl; tidy = refl; read = refl }

digit-feed : (c : ℕ) → is_digit c ≡ true → not (c == 10) ≡ true
digit-feed c h = ground (arith, h)

decimal-IsLine : (n : ℕ) → IsLine (decimal n)
decimal-IsLine n = all-weaken is_digit (λ c. not (c == 10)) digit-feed (decimal n) (decimal-all n)

-- The characters of a game id are no line feeds and no closing brackets.
id_char-feed : (c : ℕ) → is_id_char c ≡ true → not (c == 10) ≡ true
id_char-feed c h = ground (arith, h)

id_char-bracket : (c : ℕ) → is_id_char c ≡ true → not (c == 12301) ≡ true
id_char-bracket c h = ground (arith, h)

id-all : (id : Text) → game_id_valid id ≡ true → all is_id_char id ≡ true
unfolding game_id_valid
id-all id h = ground (arith, h)

-- StartLine
abbrev pub start_text : Text → ℕ → Text
start_text id seed = codes "「" ++ (id ++ (codes "」と" ++ (decimal seed ++ codes "で対局開始")))

start-read :
    (id : Text) (seed : ℕ) → game_id_valid id ≡ true → read_line (start_text id seed) ≡ some start
unfolding read_line rules_version_read start_read
start-read id seed h =
    let named =
      quoted-append id (codes "と" ++ (decimal seed ++ codes "で対局開始"))
        (all-weaken is_id_char (λ c. not (c == 12301)) id_char-bracket id (id-all id h)) in
    rw (named, digits_then-decimal seed 12391 (codes "対局開始") refl) refl

start-EndsWell :
    (id : Text) (seed : ℕ) → EndsWell (id ++ (codes "」と" ++ (decimal seed ++ codes "で対局開始")))
unfolding trim_right
start-EndsWell id seed =
    EndsWell-append id _
      (EndsWell-append (codes "」と") _ (EndsWell-append (decimal seed) _ (refl, λ e. cc)))

pub start-Reads :
    (id : Text) (seed : ℕ) → game_id_valid id ≡ true → Reads (start_text id seed) start
start-Reads id seed h = record {
  single =
      all-append (λ c. not (c == 10)) id _
        (all-weaken is_id_char (λ c. not (c == 10)) id_char-feed id (id-all id h))
        (all-append (λ c. not (c == 10)) (decimal seed) (codes "で対局開始") (decimal-IsLine seed) refl);
  tidy = trim_space-lem 12300 _ refl (EndsWell-append (codes "「") _ (start-EndsWell id seed));
  read = start-read id seed h;
}

pub pass-Reads : (p : Player) → Reads (player_word p ++ codes "パス") pass
unfolding player_word trim_space read_line rules_version_read start_read end_read pass_read
pass-Reads dark = record { single = refl; tidy = refl; read = refl }
pass-Reads light = record { single = refl; tidy = refl; read = refl }
pass-Reads (Player.other t) = record { single = refl; tidy = refl; read = refl }

-- What stands behind the numbers of an end line.
decimal-EndsWell : (n : ℕ) → EndsWell (decimal n)
decimal-EndsWell n = (
  trim_right-all (decimal n)
      (all-weaken is_digit (λ c. not (is_space c)) digit-space (decimal n) (decimal-all n)),
  filled,
)
  where
    digit-space : (c : ℕ) → is_digit c ≡ true → not (is_space c) ≡ true
    digit-space c h = ground (arith, h)

    filled : decimal n ≢ []
    filled e = let (d, ds, f) = decimal-IsFilled n in cc

abbrev totals_text : ℕ → ℕ → ℕ → Text
totals_text moves colors pieces =
    decimal moves ++ (codes "手、色合計" ++ (decimal colors ++ (codes "、駒" ++ decimal pieces)))

totals-IsLine : (moves colors pieces : ℕ) → IsLine (totals_text moves colors pieces)
totals-IsLine moves colors pieces =
    all-append (λ c. not (c == 10)) (decimal moves) _ (decimal-IsLine moves)
      (all-append (λ c. not (c == 10)) (decimal colors) _ (decimal-IsLine colors)
        (decimal-IsLine pieces))

totals-EndsWell : (moves colors pieces : ℕ) → EndsWell (totals_text moves colors pieces)
totals-EndsWell moves colors pieces = EndsWell-append (decimal moves) _ (
    EndsWell-append (codes "手、色合計") _ (
      EndsWell-append (decimal colors) _
        (EndsWell-append (codes "、駒") _ (decimal-EndsWell pieces))))

pub end-Reads : (w : Player) (moves colors pieces : ℕ) → Reads (end_text w moves colors pieces) end
unfolding end_text player_word read_line rules_version_read start_read end_read quoted
end-Reads dark moves colors pieces = record {
  single = totals-IsLine moves colors pieces;
  tidy =
      trim_space-lem 12300 _ refl
        (EndsWell-append (codes "「黒」で対局終了   # ") _ (totals-EndsWell moves colors pieces));
  read = refl;
}
end-Reads light moves colors pieces = record {
  single = totals-IsLine moves colors pieces;
  tidy =
      trim_space-lem 12300 _ refl
        (EndsWell-append (codes "「白」で対局終了   # ") _ (totals-EndsWell moves colors pieces));
  read = refl;
}
end-Reads (Player.other t) moves colors pieces = record {
  single = totals-IsLine moves colors pieces;
  tidy =
      trim_space-lem 12300 _ refl
        (EndsWell-append (codes "「黒」で対局終了   # ") _ (totals-EndsWell moves colors pieces));
  read = refl;
}

-- The comment of a placement.
abbrev pub note_text : ℕ → ℕ → Text
note_text color changed =
    codes " 色" ++ (decimal color ++ (codes "、" ++ (decimal changed ++ codes "個変換")))

abbrev cell_text : ℕ → ℕ → Player → Text → Text
cell_text c d p note =
    c ∷ (codes "と" ++ (d ∷ (codes "で" ++ (player_word p ++ (codes "着手    #" ++ note)))))

-- A digit of the board is no character that starts another line.
abbrev IsCell : ℕ → Type 0
IsCell c = (48 ≤ c) × (c < 56)

word-read : (p : Player) (rest : Text) → player_read (player_word p ++ rest) ≡ some rest
unfolding player_read player_word
word-read dark rest = refl
word-read light rest = refl
word-read (Player.other t) rest = refl

cell-read :
    (c d : ℕ) (p : Player) (note : Text)
    → IsCell c
    → IsCell d
    → read_line (cell_text c d p note) ≡ some (place note)
unfolding read_line rules_version_read start_read end_read pass_read place_read player_word
cell-read c d p note h k =
    let hash : (c == 35) ≡ false = ground arith in
    let bracket : (12300 == c) ≡ false = ground arith in
    let black : (40658 == c) ≡ false = ground arith in
    let white : (30333 == c) ≡ false = ground arith in
    let low : leb 48 c ≡ true = ground arith in
    let high : leb c 55 ≡ true = ground arith in
    let low' : leb 48 d ≡ true = ground arith in
    let high' : leb d 55 ≡ true = ground arith in
    rw (hash, bracket, black, white, low, high, low', high', word-read p (codes "着手    #" ++ note))
      refl

annotation-read :
    (color changed : ℕ)
    → annotation_read (note_text color changed) ≡ some (decimal color, decimal changed)
unfolding annotation_read
annotation-read color changed =
    rw
      (
        digits_then-decimal color 12289 (decimal changed ++ codes "個変換") refl,
        digits_then-decimal changed 20491 (codes "変換") refl,
      )
      refl

-- What an annotation fits into: an int.
abbrev pub IsInt : ℕ → Type 0
IsInt n = n < 9223372036854775808

pub annotation_numbers-note :
    (color changed : ℕ)
    → IsInt color
    → IsInt changed
    → annotation_numbers (note_text color changed) ≡ some (color, changed)
unfolding annotation_numbers
annotation_numbers-note color changed h k =
    rw (annotation-read color changed, atoi-decimal color h, atoi-decimal changed k) refl

note-EndsWell : (color changed : ℕ) → EndsWell (note_text color changed)
unfolding trim_right
note-EndsWell color changed = EndsWell-append (codes " 色") _ (
    EndsWell-append (decimal color) _
      (EndsWell-append (codes "、") _ (EndsWell-append (decimal changed) _ (refl, λ e. cc))))

note-IsLine : (color changed : ℕ) → IsLine (note_text color changed)
note-IsLine color changed =
    all-append (λ c. not (c == 10)) (decimal color) _ (decimal-IsLine color)
      (all-append (λ c. not (c == 10)) (decimal changed) _ (decimal-IsLine changed) refl)

cell-Reads :
    (c d : ℕ) (p : Player) (color changed : ℕ)
    → IsCell c
    → IsCell d
    → Reads (cell_text c d p (note_text color changed)) (place (note_text color changed))
unfolding player_word
cell-Reads c d p color changed h k = record {
  single = cell-IsLine p;
  tidy = trim_space-lem c _ (ground arith) (
      EndsWell-append (c ∷ (codes "と" ++ (d ∷ codes "で"))) _ (
        EndsWell-append (player_word p) _
          (EndsWell-append (codes "着手    #") _ (note-EndsWell color changed))));
  read = cell-read c d p (note_text color changed) h k;
}
  where
    c_feed : not (c == 10) ≡ true
    c_feed = ground arith

    d_feed : not (d == 10) ≡ true
    d_feed = ground arith

    cell-IsLine : (p : Player) → IsLine (cell_text c d p (note_text color changed))
    cell-IsLine dark = rw (c_feed, d_feed) (note-IsLine color changed)
    cell-IsLine light = rw (c_feed, d_feed) (note-IsLine color changed)
    cell-IsLine (Player.other t) = rw (c_feed, d_feed) (note-IsLine color changed)

pub place-Reads :
    (p : Player) (i j color changed : ℕ)
    → i < 8
    → j < 8
    → Reads (place_text p (pos i) (pos j) color changed) (place (note_text color changed))
unfolding place_text int_text
place-Reads p i j color changed h k =
    rw (decimal-small i (omega arith), decimal-small j (omega arith))
      (cell-Reads (48 + i) (48 + j) p color changed (omega arith) (omega arith))

-- A time without spaces.
abbrev pub IsTime : Text → Type 0
IsTime t = all (λ c. not (is_space c)) t ≡ true

pub title-Reads : Reads (codes "# グラデーションリバーシ 対局記録 v1") (comment (codes " グラデーションリバーシ 対局記録 v1"))
unfolding trim_space read_line
title-Reads = record { single = refl; tidy = refl; read = refl }
