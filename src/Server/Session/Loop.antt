-- ===== src/Server/Session/Loop.antt =====
-- The loop of a connection ends and keeps what each of its rounds keeps.

use nadesiko_reversi.Prelude.{
  ℕ, zero, suc, ◌<◌, ◌≡◌, sym, refl, subst, Option, some, List, length, arith, if◌then◌else◌,
  if_cases,
}
use nadesiko_reversi.Server.Frames.{WsFrame, FrameError, Step, got, stopped, read_frame}
use nadesiko_reversi.Server.Frames.Accepts.{IsAccepted, read_frame-IsAccepted}
use nadesiko_reversi.Server.Session.{Session, Setting, on_frame, on_error, serve}

-- A relation between the session before and after that each round keeps.
pub record IsKept (R : Session → Session → Type 0) : Type 0 where
  pub same : (s : Session) → R s s
  pub trans : (s t u : Session) → R s t → R t u → R s u
  pub frame_step :
      (e : Setting) (round : ℕ) (s : Session) (f : WsFrame)
      → IsAccepted f
      → R s (on_frame e round s f).0
  pub error_step : (s : Session) (err : FrameError) → R s (on_error s err)

serve-got :
    (fuel : ℕ) (e : Setting) (round : ℕ) (s : Session) (input rest : List ℕ) (f : WsFrame)
    → read_frame input ≡ got f rest
    → serve (suc fuel) e round s input ≡ (
        if (on_frame e round s f).1
        then serve fuel e (suc round) (on_frame e round s f).0 rest
        else some (on_frame e round s f).0)
unfolding serve
serve-got fuel e round s input rest f h = rw (h, serve) refl

serve-stopped :
    (fuel : ℕ) (e : Setting) (round : ℕ) (s : Session) (input : List ℕ) (err : FrameError)
    → read_frame input ≡ stopped err
    → serve (suc fuel) e round s input ≡ some (on_error s err)
unfolding serve
serve-stopped fuel e round s input err h = rw (h, serve) refl

-- What a run of the loop comes to.
abbrev pub Ends : (Session → Session → Type 0) → Session → Option Session → Type 0
Ends R s o = (t : Session) × (o ≡ some t) × R s t

-- One round, where the rounds after it come to an end.
round-Ends :
    (R : Session → Session → Type 0) (k : IsKept R) (fuel : ℕ) (e : Setting) (round : ℕ)
    (s : Session) (input : List ℕ) (x : Step WsFrame)
    → length input < suc fuel
    → ((t : Session) (rest : List ℕ)
        → length rest < fuel
        → Ends R t (serve fuel e (suc round) t rest))
    → read_frame input ≡ x
    → Ends R s (serve (suc fuel) e round s input)
round-Ends R k fuel e round s input (stopped err) h later r =
    (on_error s err, serve-stopped fuel e round s input err r, k.error_step s err)
round-Ends R k fuel e round s input (got f rest) h later r =
    let (accepted, used) = read_frame-IsAccepted input rest f r in
    let step = on_frame e round s f in
    let first = k.frame_step e round s f accepted in
    subst (Ends R s) (sym (serve-got fuel e round s input rest f r)) (
      if_cases (Ends R s) step.1 _ _
        (λ goes.
          let (t, ended, more) = later step.0 rest (omega (arith, h, used)) in
          (t, ended, k.trans s step.0 t first more))
        (λ stops. (step.0, refl, first)))

-- With a round for each byte, the loop comes to an end, and keeps what each round keeps.
pub serve-Ends :
    (R : Session → Session → Type 0) (k : IsKept R) (fuel : ℕ) (e : Setting) (round : ℕ)
    (s : Session) (input : List ℕ)
    → length input < fuel
    → Ends R s (serve fuel e round s input)
serve-Ends R k zero e round s input h = absurd (omega (arith, h))
serve-Ends R k (suc fuel) e round s input h =
    round-Ends R k fuel e round s input (read_frame input) h
      (λ t rest. serve-Ends R k fuel e (suc round) t rest) refl
