-- ===== src/Replay/Decode/Checks.antt =====
-- What holds for a record that Decode lets through.
use nadesiko_reversi.Prelude.{
  ℕ, ◌+◌, ◌≤◌, ◌≡◌, refl, subst, true, Option, none, some, List, [], ◌∷◌, Text, text_dec, arith,
  All,
}
use nadesiko_reversi.Protocol.Types.{version}
use nadesiko_reversi.Replay.Types.{rules_version, Move, Script, Outline, SourceError}
use nadesiko_reversi.Replay.Record.{move_validate, game_id_valid}
use nadesiko_reversi.Replay.Scan.{Scanned, scanned, rejected, scan}
use nadesiko_reversi.Replay.Replayer.{decoded}
use nadesiko_reversi.Replay.Decode.{
  Ran, printed, exec_failed, run_failed, Decoder, outline_error, moves_error, script_error,
  with_times, unless_error, decode_script, decode_run, decode_outline, decode_scanned, decode,
  combined_source,
}

-- A record with one start line and one version line, this version's, and one end line at most.
pub record Headed (o : Outline) : Type 0 where
  pub one_start : o.header_lines ≡ 1
  pub one_end : o.footer_lines ≤ 1
  pub one_version : o.rules_version_lines ≡ 1
  pub same_version : o.rules_version ≡ rules_version

-- A script of this version, with an id and moves that pass their checks.
pub record Checked (s : Script) : Type 0 where
  pub same_version : s.version ≡ version
  pub same_rules : s.rules_version ≡ rules_version
  pub named : game_id_valid s.game_id ≡ true
  pub moves : All (λ m. move_validate m ≡ none) s.moves

outline_error-Headed : (source : Text) (o : Outline) → outline_error source o ≡ none → Headed o
unfolding outline_error text_dec
outline_error-Headed source o h = record {
  one_start = ground (arith, h);
  one_end = ground (arith, h);
  one_version = ground (arith, h);
  same_version = ground (arith, h);
}

pub Headed-outline_error : (source : Text) (o : Outline) → Headed o → outline_error source o ≡ none
unfolding outline_error
Headed-outline_error source o v =
    ground (arith, v.one_start, v.one_end, v.one_version, v.same_version)

moves_error-All :
    (source : Text) (o : Outline) (index : ℕ) (ms : List Move)
    → moves_error source o index ms ≡ none
    → All (λ m. move_validate m ≡ none) ms
unfolding moves_error
moves_error-All source o index [] h = tt
moves_error-All source o index (m ∷ ms) h =
    (ground (arith, h), moves_error-All source o (index + 1) ms (ground (arith, h)))

pub All-moves_error :
    (source : Text) (o : Outline) (index : ℕ) (ms : List Move)
    → All (λ m. move_validate m ≡ none) ms
    → moves_error source o index ms ≡ none
unfolding moves_error
All-moves_error source o index [] v = refl
All-moves_error source o index (m ∷ ms) (h, v) =
    rw (h, moves_error) (All-moves_error source o (index + 1) ms v)

script_error-Checked :
    (source : Text) (o : Outline) (s : Script)
    → o.rules_version ≡ rules_version
    → script_error source o s ≡ none
    → Checked s
unfolding script_error
script_error-Checked source o s e h = record {
  same_version = ground (arith, h);
  same_rules = ground (arith, h, e);
  named = ground (arith, h);
  moves = moves_error-All source o 0 s.moves (ground (arith, h));
}

pub Checked-script_error :
    (source : Text) (o : Outline) (s : Script)
    → o.rules_version ≡ rules_version
    → Checked s
    → script_error source o s ≡ none
unfolding script_error
Checked-script_error source o s e v =
    ground
      (arith, e, v.same_version, v.same_rules, v.named, All-moves_error source o 0 s.moves v.moves)

-- What Decode has checked of what it returns.
pub record Sound (source : Text) (s : Script) (o : Outline) : Type 0 where
  pub read : scan source ≡ scanned o
  pub headed : Headed o
  pub checked : Checked s
  pub started : s.started_at ≡ o.started_at
  pub ended : s.ended_at ≡ o.ended_at

decode_script-Sound :
    (source : Text) (o p : Outline) (x : Option Script) (s : Script)
    → scan source ≡ scanned o
    → outline_error source o ≡ none
    → decode_script source o x ≡ decoded s p
    → Sound source s p
unfolding decode_script
decode_script-Sound source o p none s r h e = absurd cc
decode_script-Sound source o p (some t) s r h e =
    by_check (script_error source o (with_times o t)) refl e
  where
    by_check :
        (y : Option SourceError)
        → script_error source o (with_times o t) ≡ y
        → unless_error y (with_times o t) o ≡ decoded s p
        → Sound source s p
    by_check (some y) k e = absurd cc
    by_check none k e =
        let headed : Headed o = outline_error-Headed source o h in
        let sound : Sound source (with_times o t) o = record {
          read = r;
          headed = headed;
          checked = script_error-Checked source o (with_times o t) headed.same_version k;
          started = refl;
          ended = refl;
        } in
        let same : with_times o t ≡ s = cc in
        let same_outline : o ≡ p = cc in
        subst (λ x. Sound source x p) same
          (subst (Sound source (with_times o t)) same_outline sound)

decode_run-Sound :
    (d : Decoder) (source : Text) (o p : Outline) (x : Ran) (s : Script)
    → scan source ≡ scanned o
    → outline_error source o ≡ none
    → decode_run d source o x ≡ decoded s p
    → Sound source s p
unfolding decode_run
decode_run-Sound d source o p (printed out) s r h e =
    decode_script-Sound source o p (d.unmarshal out) s r h e
decode_run-Sound d source o p (exec_failed err) s r h e = absurd cc
decode_run-Sound d source o p (run_failed err) s r h e = absurd cc

decode_outline-Sound :
    (d : Decoder) (source : Text) (o p : Outline) (x : Option SourceError) (s : Script)
    → scan source ≡ scanned o
    → outline_error source o ≡ x
    → decode_outline d source o x ≡ decoded s p
    → Sound source s p
unfolding decode_outline
decode_outline-Sound d source o p none s r h e = decode_run-Sound d source o p _ s r h e
decode_outline-Sound d source o p (some err) s r h e = absurd cc

decode_scanned-Sound :
    (d : Decoder) (source : Text) (x : Scanned) (s : Script) (o : Outline)
    → scan source ≡ x
    → decode_scanned d source x ≡ decoded s o
    → Sound source s o
unfolding decode_scanned
decode_scanned-Sound d source (scanned p) s o r e = decode_outline-Sound d source p o _ s r refl e
decode_scanned-Sound d source (rejected err) s o r e = absurd cc

-- A decoded record has passed every check: whatever the run printed, it has one start line, at most one end line, one line of this version, and the script is of this version, has a valid id and valid moves, and the times of the record.
pub decode-Sound :
    (d : Decoder) (source : Text) (s : Script) (o : Outline)
    → decode d source ≡ decoded s o
    → Sound source s o
unfolding decode
decode-Sound d source s o e = decode_scanned-Sound d source (scan source) s o refl e

-- A record with such a header whose run prints such a script is decoded, with the times of the record.
pub decode-Headed :
    (d : Decoder) (source : Text) (s : Script) (o : Outline) (out : List ℕ)
    → scan source ≡ scanned o
    → Headed o
    → d.run (combined_source d source) ≡ printed out
    → d.unmarshal out ≡ some s
    → Checked s
    → decode d source ≡ decoded (with_times o s) o
unfolding decode decode_scanned decode_outline decode_run decode_script
decode-Headed d source s o out r v ran read c =
    let timed : Checked (with_times o s) = record {
      same_version = c.same_version;
      same_rules = c.same_rules;
      named = c.named;
      moves = c.moves;
    } in
    rw
      (
        r,
        Headed-outline_error source o v,
        ran,
        read,
        Checked-script_error source o (with_times o s) v.same_version timed,
      )
      refl

-- Whether the harness is run.
abbrev pub IsRun : Text → Type 0
IsRun source = (o : Outline) × (scan source ≡ scanned o) × (outline_error source o ≡ none)

-- A record that is not run gives the same error for each harness and each runner.
pub decode-unrun :
    (d d' : Decoder) (source : Text) → ¬ IsRun source → decode d source ≡ decode d' source
unfolding decode decode_scanned decode_outline
decode-unrun d d' source h = by_scan (scan source) refl
  where
    by_error :
        (o : Outline) (x : Option SourceError)
        → scan source ≡ scanned o
        → outline_error source o ≡ x
        → decode_outline d source o x ≡ decode_outline d' source o x
    by_error o none r e = absurd (h (o, r, e))
    by_error o (some err) r e = refl

    by_scan :
        (x : Scanned) → scan source ≡ x → decode_scanned d source x ≡ decode_scanned d' source x
    by_scan (rejected err) r = refl
    by_scan (scanned o) r = by_error o (outline_error source o) r refl
