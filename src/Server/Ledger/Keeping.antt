-- ===== src/Server/Ledger/Keeping.antt =====
-- What submitCommand keeps in the record of a room and in the store.

use nadesiko_reversi.Prelude.{
  ◌≡◌, ◌∙◌, sym, ap, refl, true, false, not, ◌&&◌, Option, none, some, Text, arith, if_cases,
  if_both, subst, ◌⊎◌, inl, inr,
}
use nadesiko_reversi.Protocol.Types.{Command, Event, State, Response, is_finished}
use nadesiko_reversi.Runtime.{RunError, Runner}
use nadesiko_reversi.Match.Room.{SubmitResult, responded, broken}
use nadesiko_reversi.Match.Manager
use nadesiko_reversi.Replay.Decode.{Decoder}
use nadesiko_reversi.Server.Ledger.{
  Desk, Submitted, answered, engine_failed, incomplete, finish, keep_move, after_submit,
  submit_command,
}
use nadesiko_reversi.Server.Ledger.Entering.{
  Untouched, Enters, Steady, untouched-Steady, entered, entered-Enters, entered-Steady,
}

-- What submitCommand does for each result `x` of the room: `p` is the desk after it and its answer.
pub record Keeps (d : Decoder) (room_id ended_at : Text) (k : Desk) (command : Command)
    (x : SubmitResult) (p : Desk × Submitted) : Type 0 where
  pub failed : (e : RunError) → x ≡ broken e → (p.1 ≡ engine_failed e) × Untouched k p.0
  pub refused :
      (r : Response) → x ≡ responded r → r.ok ≡ false → (p.1 ≡ answered r) × Untouched k p.0
  pub left_out :
      (r : Response)
      → x ≡ responded r
      → r.ok ≡ true
      → (r.event ≡ none) ⊎ (r.state ≡ none)
      → (p.1 ≡ incomplete) × Untouched k p.0
  pub accepted :
      (r : Response) (event : Event) (state : State)
      → x ≡ responded r
      → r.ok ≡ true
      → r.event ≡ some event
      → r.state ≡ some state
      → (p.1 ≡ answered r) × Enters d room_id ended_at k command event state p.0
  pub steady : Steady k p.0

module _ (d : Decoder) (room_id ended_at : Text) (k : Desk) (command : Command) where
  module _ (response : Response) where
    same_response : (r : Response) → responded response ≡ responded r → response ≡ r
    same_response r e = cc

    -- A response that is not entered: not ok, or without its event or its state.
    out-Keeps :
        (out : Submitted)
        → (response.ok ≡ false → out ≡ answered response)
        → (response.ok ≡ true → out ≡ incomplete)
        → (response.ok ≡ true → (response.event ≡ none) ⊎ (response.state ≡ none))
        → Keeps d room_id ended_at k command (responded response) (k, out)
    out-Keeps out bad good partial =
        let steady = untouched-Steady k in
        record {
          failed = λ e h. absurd cc;
          refused = λ r h n.
              let same = same_response r h in
              (bad (ap (λ (a : Response). a.ok) same ∙ n) ∙ ap answered same, (refl, refl));
          left_out = λ r h ok _.
              (good (ap (λ (a : Response). a.ok) (same_response r h) ∙ ok), (refl, refl));
          accepted = λ r event state h ok ev st.
              let same = same_response r h in
              absurd (elim (partial (ap (λ (a : Response). a.ok) same ∙ ok)) [
                | inl none_given ↦
                    let clash : none ≡ some event =
                      sym none_given ∙ ap (λ (a : Response). a.event) same ∙ ev in
                    cc
                | inr none_given ↦
                    let clash : none ≡ some state =
                      sym none_given ∙ ap (λ (a : Response). a.state) same ∙ st in
                    cc
              ]);
          steady = steady;
        }

    keep_move-Keeps :
        (o : Option Event) (q : Option State)
        → response.event ≡ o
        → response.state ≡ q
        → response.ok ≡ true
        → Keeps d room_id ended_at k command
            (responded response)
            (keep_move d room_id k ended_at command response o q)
    unfolding keep_move
    keep_move-Keeps none q e f ok =
        out-Keeps incomplete (λ bad. absurd (ground (arith, ok, bad))) (λ _. refl) (λ _. inl e)
    keep_move-Keeps (some event) none e f ok =
        out-Keeps incomplete (λ bad. absurd (ground (arith, ok, bad))) (λ _. refl) (λ _. inr f)
    keep_move-Keeps (some event) (some state) e f ok =
        let steady = entered-Steady d room_id ended_at k command event state in
        record {
          failed = λ err h. absurd cc;
          refused = λ r h n.
              absurd (ground (arith, ok, ap (λ (a : Response). a.ok) (same_response r h), n));
          left_out = λ r h _ partial.
              let same = same_response r h in
              absurd (elim partial [
                | inl none_given ↦
                    let clash : some event ≡ none =
                      sym e ∙ ap (λ (a : Response). a.event) same ∙ none_given in
                    cc
                | inr none_given ↦
                    let clash : some state ≡ none =
                      sym f ∙ ap (λ (a : Response). a.state) same ∙ none_given in
                    cc
              ]);
          accepted = λ r event' state' h _ ev st.
              let same = same_response r h in
              let same_event : event ≡ event' =
                let given : some event ≡ some event' =
                  sym e ∙ ap (λ (a : Response). a.event) same ∙ ev in
                cc in
              let same_state : state ≡ state' =
                let given : some state ≡ some state' =
                  sym f ∙ ap (λ (a : Response). a.state) same ∙ st in
                cc in
              let after : Desk =
                entered d room_id ended_at k command event state (is_finished state.phase) in
              (
                ap answered same,
                subst (λ ev. Enters d room_id ended_at k command ev state' after) same_event
                    (subst (λ st. Enters d room_id ended_at k command event st after) same_state
                      (entered-Enters d room_id ended_at k command event state)),
              );
          steady = steady;
        }

  after_submit-Keeps :
      (x : SubmitResult)
      → Keeps d room_id ended_at k command x (after_submit d room_id k ended_at command x)
  unfolding after_submit
  after_submit-Keeps (broken e) =
      let steady = untouched-Steady k in
      record {
        failed = λ err h. (let same : e ≡ err = cc in ap engine_failed same, (refl, refl));
        refused = λ r h. absurd cc;
        left_out = λ r h. absurd cc;
        accepted = λ r event state h. absurd cc;
        steady = steady;
      }
  after_submit-Keeps (responded response) =
      if_cases (Keeps d room_id ended_at k command (responded response)) (not response.ok) _ _
        (λ bad.
          out-Keeps response (answered response) (λ _. refl)
            (λ good. absurd (ground (arith, bad, good)))
            (λ good. absurd (ground (arith, bad, good))))
        (λ good.
          keep_move-Keeps response response.event response.state refl refl (ground (arith, good)))

keep_move-matches :
    (d : Decoder) (room_id ended_at : Text) (k : Desk) (command : Command) (r : Response)
    (o : Option Event) (q : Option State)
    → (keep_move d room_id k ended_at command r o q).0.matches ≡ k.matches
unfolding keep_move finish
keep_move-matches d room_id ended_at k command r none q = refl
keep_move-matches d room_id ended_at k command r (some event) none = refl
keep_move-matches d room_id ended_at k command r (some event) (some state) =
    if_both (λ (x : Desk). x.matches ≡ k.matches) (is_finished state.phase && not k.room.finished) _
      _ refl refl

after_submit-matches :
    (d : Decoder) (room_id ended_at : Text) (k : Desk) (command : Command) (x : SubmitResult)
    → (after_submit d room_id k ended_at command x).0.matches ≡ k.matches
unfolding after_submit
after_submit-matches d room_id ended_at k command (broken e) = refl
after_submit-matches d room_id ended_at k command (responded r) =
    if_both (λ (x : Desk × Submitted). x.0.matches ≡ k.matches) (not r.ok) _ _ refl
      (keep_move-matches d room_id ended_at k command r r.event r.state)

pub submit_command-Keeps :
    (runner : Runner) (d : Decoder) (k : Desk) (ended_at room_id player_id : Text)
    (command : Command)
    → Keeps d room_id ended_at k command
        (Manager.submit runner k.matches room_id player_id command).1
        (submit_command runner d k ended_at room_id player_id command)
      × ((submit_command runner d k ended_at room_id player_id command).0.matches
          ≡ (Manager.submit runner k.matches room_id player_id command).0)
unfolding submit_command
submit_command-Keeps runner d k ended_at room_id player_id command =
    let step = Manager.submit runner k.matches room_id player_id command in
    let next : Desk = record k { matches = step.0 } in
    let v = after_submit-Keeps d room_id ended_at next command step.1 in
    (
      record {
        failed = v.failed;
        refused = v.refused;
        left_out = v.left_out;
        accepted = λ r event state h ok e f.
            let (said, n) = v.accepted r event state h ok e f in
            (said, record { moved = n.moved; ended = n.ended; goes_on = n.goes_on });
        steady = record {
          once = v.steady.once;
          signalled = v.steady.signalled;
          grown = v.steady.grown;
        };
      },
      after_submit-matches d room_id ended_at next command step.1,
    )
