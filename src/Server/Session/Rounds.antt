-- ===== src/Server/Session/Rounds.antt =====
-- What the loop of a connection has done by its end.
use mathlib.Core.List.{append_assoc, append-nil}
use nadesiko_reversi.Prelude.{
  ℕ, ◌≤◌, ◌<◌, ◌≡◌, ◌∙◌, sym, ap, refl, Bool, inl, inr, ◌⊎◌, true, false, not, Option, none, some,
  List, [], ◌∷◌, ◌++◌, length, arith, if_cases, ◌==◌, All,
}
use nadesiko_reversi.Protocol.Types.{Command}
use nadesiko_reversi.Server.Frames.{
  WsFrame, FrameError, connection, malformed, too_large, sent, write_frame, close_frame,
  truncate_close_reason, length_bytes,
}
use nadesiko_reversi.Server.Frames.Writes.{write_frame-bytes}
use Prim.Native.Nat.{bit_or}
use nadesiko_reversi.Server.Frames.Accepts.{IsAccepted}
use nadesiko_reversi.Server.Limits.{allow}
use nadesiko_reversi.Server.Ledger.{
  AcceptedMove, Submitted, answered, engine_failed, incomplete, submit_command,
}
use nadesiko_reversi.Server.Ledger.Keeping.{submit_command-Keeps}
use nadesiko_reversi.Server.Session.{
  Outgoing, frame, json, Session, Setting, put, report, run_command, on_text, on_frame, on_error,
  serve,
}
use nadesiko_reversi.Server.Session.Loop.{IsKept, serve-Ends}

-- A reply of the loop: a response that is not ok, or a close or pong frame with at most 125 bytes, which
-- writeFrame writes.
abbrev pub IsReply : Outgoing → Type 0
IsReply (json response) = response.ok ≡ false
IsReply (frame f) =
    ((f.opcode ≡ 8) ⊎ (f.opcode ≡ 10))
    × (length f.payload ≤ 125)
    × ((bytes : List ℕ) × (write_frame f ≡ sent bytes))

-- What a connection has done: moves were added to the record of its room, replies were put
-- in the queue, and a game that was finished has stayed as it was saved.
pub record Grows (s t : Session) : Type 0 where
  pub moves : (more : List AcceptedMove) × (t.desk.room.moves ≡ s.desk.room.moves ++ more)
  pub queue : (out : List Outgoing) × (t.queue ≡ s.queue ++ out) × All IsReply out
  pub once :
      s.desk.room.finished ≡ true
      → (t.desk.store ≡ s.desk.store)
        × (t.desk.room.finished ≡ true)
        × (t.desk.room.save_error ≡ s.desk.room.save_error)

All-append : (xs ys : List Outgoing) → All IsReply xs → All IsReply ys → All IsReply (xs ++ ys)
All-append [] ys v w = w
All-append (x ∷ xs) ys (h, v) w = (h, All-append xs ys v w)

Grows-same : (s : Session) → Grows s s
Grows-same s = record {
  moves = ([], sym (append-nil s.desk.room.moves));
  queue = ([], sym (append-nil s.queue), tt);
  once = λ h. (refl, h, refl);
}

Grows-trans : (s t u : Session) → Grows s t → Grows t u → Grows s u
Grows-trans s t u v w =
    let (more, added) = v.moves in
    let (more', added') = w.moves in
    let (out, put, writable) = v.queue in
    let (out', put', writable') = w.queue in
    record {
      moves = (
        more ++ more',
        added' ∙ ap (λ ms. ms ++ more') added ∙ append_assoc s.desk.room.moves more more',
      );
      queue = (
        out ++ out',
        put' ∙ ap (λ q. q ++ out') put ∙ append_assoc s.queue out out',
        All-append out out' writable writable',
      );
      once = λ h.
          let (store, finished, error) = v.once h in
          let (store', finished', error') = w.once finished in
          (store' ∙ store, finished', error' ∙ error);
    }

Grows-put : (s : Session) (o : Outgoing) → IsReply o → Grows s (put s o)
Grows-put s o h = record {
  moves = ([], sym (append-nil s.desk.room.moves));
  queue = (o ∷ [], refl, (h, tt));
  once = λ h. (refl, h, refl);
}

control-IsReply :
    (f : WsFrame) → (f.opcode ≡ 8) ⊎ (f.opcode ≡ 10) → length f.payload ≤ 125 → IsReply (frame f)
control-IsReply f kind h = (
  kind,
  h,
  (
    bit_or 128 f.opcode ∷ (length_bytes (length f.payload) ++ f.payload),
    write_frame-bytes f (omega (arith, h)),
  ),
)

report-Grows : (s : Session) (x : Submitted) → Grows s (report s x)
unfolding report
report-Grows s (engine_failed err) = Grows-put s _ refl
report-Grows s incomplete = Grows-put s _ refl
report-Grows s (answered response) =
    if_cases (Grows s) (not response.ok) _ _
      (λ bad. Grows-put s (json response) (ground (arith, bad))) (λ good. Grows-same s)

run_command-Grows :
    (e : Setting) (round : ℕ) (s : Session) (o : Option Command) → Grows s (run_command e round s o)
unfolding run_command
run_command-Grows e round s none = Grows-put s _ refl
run_command-Grows e round s (some command) =
    let step =
      submit_command e.engine e.decoder s.desk (e.date round) e.room_id e.player_id command in
    let v =
      (submit_command-Keeps e.engine e.decoder s.desk (e.date round) e.room_id e.player_id
        command).0 in
    let next : Session = record s { desk = step.0 } in
    Grows-trans s next _
      (record {
        moves = v.steady.grown;
        queue = ([], sym (append-nil s.queue), tt);
        once = v.steady.once;
      })
      (report-Grows next step.1)

on_text-Grows :
    (e : Setting) (round : ℕ) (s : Session) (payload : List ℕ) → Grows s (on_text e round s payload)
unfolding on_text
on_text-Grows e round s payload =
    let next : Session = record s { limiter = (allow e.float s.limiter (e.clock round)).0 } in
    let kept : Grows s next = record {
      moves = ([], sym (append-nil s.desk.room.moves));
      queue = ([], sym (append-nil s.queue), tt);
      once = λ h. (refl, h, refl);
    } in
    if_cases (Grows s) (not (allow e.float s.limiter (e.clock round)).1) _ _
      (λ fast. Grows-trans s next _ kept (Grows-put next _ refl))
      (λ slow. Grows-trans s next _ kept (run_command-Grows e round next (e.command_of payload)))

on_frame-Grows :
    (e : Setting) (round : ℕ) (s : Session) (f : WsFrame)
    → IsAccepted f
    → Grows s (on_frame e round s f).0
unfolding on_frame
on_frame-Grows e round s f v =
    if_cases (λ (x : Session × Bool). Grows s x.0) (f.opcode == 8) _ _
      (λ close. Grows-put s _ (control-IsReply _ (inl refl) (v.control (ground (arith, close)))))
      (λ _.
        if_cases (λ (x : Session × Bool). Grows s x.0) (f.opcode == 9) _ _
          (λ ping. Grows-put s _ (control-IsReply _ (inr refl) (v.control (ground (arith, ping)))))
          (λ _.
            if_cases (λ (x : Session × Bool). Grows s x.0) (f.opcode == 1) _ _
              (λ text. on_text-Grows e round s f.payload) (λ pong. Grows-same s)))

on_error-Grows : (s : Session) (err : FrameError) → Grows s (on_error s err)
unfolding on_error close_frame truncate_close_reason
on_error-Grows s connection = Grows-same s
on_error-Grows s malformed = Grows-put s _ (control-IsReply _ (inl refl) (omega arith))
on_error-Grows s too_large = Grows-put s _ (control-IsReply _ (inl refl) (omega arith))

Grows-IsKept : IsKept Grows
Grows-IsKept = record {
  same = Grows-same;
  trans = Grows-trans;
  frame_step = on_frame-Grows;
  error_step = on_error-Grows;
}

-- The loop of a connection ends, whatever bytes the client sends: a round for each byte is enough. By then moves were only added to the record of the room, a game that was finished has stayed as it was saved, and what was put in the queue is responses that are not ok, and close and pong frames of at most 125 bytes, which writeFrame writes. It does not state that such a response is short enough to be sent.
pub serve-Grows :
    (fuel : ℕ) (e : Setting) (round : ℕ) (s : Session) (input : List ℕ)
    → length input < fuel
    → (t : Session) × (serve fuel e round s input ≡ some t) × Grows s t
serve-Grows fuel e round s input h = serve-Ends Grows Grows-IsKept fuel e round s input h
