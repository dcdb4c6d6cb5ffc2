-- ===== src/Match/Room/Delivery.antt =====
-- What a broadcast puts into the channels of the two seats.
use nadesiko_reversi.Prelude.{
  ℕ, ◌≡◌, ◌≢◌, refl, Option, none, some, List, [], ◌∷◌, ◌++◌, length, ltb, if◌then◌else◌, arith,
  if_both, ap, sym, subst, inl, inr, ◌⊎◌, ◌∙◌,
}
use nadesiko_reversi.Protocol.Types.{Player, dark, light}
use nadesiko_reversi.Match.Types.{Event, clone_event}
use nadesiko_reversi.Match.Hub.{Hub, Seat, event_buffer, send, deliver}
use nadesiko_reversi.Match.Hub.Laws.{IsOpen, Wired}
use nadesiko_reversi.Match.Room.{Room, broadcast, broadcast_to}
use nadesiko_reversi.Match.Room.Invariant.{
  SeatWired, Apart, IsWired, Apart-sym, Keeps-seat, broadcast_to-Keeps,
}

-- The seat `p` of the room.
abbrev pub Sits : Room → Player → Seat → Type 0
Sits r p s = ((p ≡ dark) × (r.dark ≡ some s)) ⊎ ((p ≡ light) × (r.light ≡ some s))

-- An event at the end of the waiting ones, or lost if sixteen wait.
abbrev pub enqueue : List Event → Event → List Event
enqueue waiting e = if ltb (length waiting) event_buffer then waiting ++ e ∷ [] else waiting

-- The event that the seat `p` of the room gets.
abbrev pub addressed : Room → (Player → Event) → Player → Event
addressed r build p = clone_event (record (build p) { room_id = r.id; seat = p })

abbrev pub waiting_in : Hub → ℕ → List Event
waiting_in h c = (h.channels c).buffer

send-same :
    (h : Hub) (c : ℕ) (e : Event)
    → IsOpen h c
    → waiting_in (send h c e) c ≡ enqueue (waiting_in h c) e
unfolding send
send-same h c e o = ground arith

send-other : (h : Hub) (c d : ℕ) (e : Event) → d ≢ c → waiting_in (send h c e) d ≡ waiting_in h d
unfolding send
send-other h c d e n = ground arith

-- One round of the loop: the seat's own channel gets the event, no other channel changes.
round-own :
    (r : Room) (build : Player → Event) (p : Player) (s : Seat) (h : Hub) (c : ℕ)
    → Wired h s.connected s.events
    → s.events ≡ some c
    → waiting_in (broadcast_to r build p (some s) h) c
      ≡ enqueue (waiting_in h c) (addressed r build p)
unfolding broadcast_to deliver
round-own r build p s h c w e = ground (arith, send-same h c (addressed r build p))

round-other :
    (r : Room) (build : Player → Event) (p : Player) (s : Option Seat) (h : Hub) (d : ℕ)
    → ((t : Seat) → s ≡ some t → t.events ≢ some d)
    → waiting_in (broadcast_to r build p s h) d ≡ waiting_in h d
unfolding broadcast_to deliver
round-other r build p none h d n = refl
round-other r build p (some s) h d n =
    if_both (λ (k : Hub). waiting_in k d ≡ waiting_in h d) s.connected _ _
      (if_both (λ (k : Hub). waiting_in k d ≡ waiting_in h d) s.connected _ _
        (sent s.events (n s refl)) refl)
      refl
  where
    sent :
        (o : Option ℕ)
        → o ≢ some d
        → waiting_in (elim o [ none ↦ h | some c ↦ send h c (addressed r build p) ]) d
          ≡ waiting_in h d
    sent none m = refl
    sent (some c) m = send-other h c d (addressed r build p) (λ e. m (ap some (sym e)))

-- The seats of a room are not given one channel.
not-shared :
    (s t : Option Seat) (d : ℕ)
    → Apart s t
    → (u : Seat) → t ≡ some u
    → u.events ≡ some d
    → (w : Seat) → s ≡ some w
    → w.events ≢ some d
not-shared s t d a u f e w g k = ground arith

-- A broadcast in a wired room puts a copy of the event, addressed to the seat, behind the events that
-- wait in the channel of each seat that has one, or loses it where sixteen wait.
pub broadcast_delivers :
    (r : Room) (build : Player → Event) (p : Player) (s : Seat) (c : ℕ)
    → IsWired r
    → Sits r p s
    → s.events ≡ some c
    → waiting_in (broadcast r build).hub c ≡ enqueue (waiting_in r.hub c) (addressed r build p)
unfolding broadcast
broadcast_delivers r build p s c v (inl (e, f)) k = rw e (
    round-other r build light r.light _ c
      (not-shared r.light r.dark c (Apart-sym r.dark r.light v.apart) s f k)
    ∙ subst
        (λ d.
          waiting_in (broadcast_to r build dark d r.hub) c
          ≡ enqueue (waiting_in r.hub c) (addressed r build dark))
        (sym f) (round-own r build dark s r.hub c (subst (SeatWired r.hub) f v.dark_wired) k))
broadcast_delivers r build p s c v (inr (e, f)) k = rw e (
    subst
      (λ l.
        waiting_in (broadcast_to r build light l first) c
        ≡ enqueue (waiting_in first c) (addressed r build light))
      (sym f) (round-own r build light s first c wired k)
    ∙ ap (λ waiting. enqueue waiting (addressed r build light))
        (round-other r build dark r.dark r.hub c (not-shared r.dark r.light c v.apart s f k)))
  where
    first : Hub
    first = broadcast_to r build dark r.dark r.hub

    wired : SeatWired first (some s)
    wired = subst (SeatWired first) f (
        Keeps-seat r.light (broadcast_to-Keeps r build dark r.dark r.hub v.dark_wired)
          v.light_wired)

-- A broadcast leaves alone what waits in a channel that is of no seat of the room.
pub broadcast_elsewhere :
    (r : Room) (build : Player → Event) (c : ℕ)
    → ((p : Player) (s : Seat) → Sits r p s → s.events ≢ some c)
    → waiting_in (broadcast r build).hub c ≡ waiting_in r.hub c
unfolding broadcast
broadcast_elsewhere r build c away =
    round-other r build light r.light _ c (λ t e. away light t (inr (refl, e)))
    ∙ round-other r build dark r.dark r.hub c (λ t e. away dark t (inl (refl, e)))
