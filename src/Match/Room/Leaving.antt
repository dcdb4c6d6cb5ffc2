-- ===== src/Match/Room/Leaving.antt =====
-- Leaving and closing keep the invariant of the room, and close each channel once.
use nadesiko_reversi.Prelude.{
  ℕ, ◌≡◌, refl, sym, subst, Bool, true, false, ◌&&◌, ◌||◌, Option, none, some, Text, String, arith,
  Option-cases, if_both, if_cases, inl, inr,
}
use nadesiko_reversi.Protocol.Types.{Player, State}
use nadesiko_reversi.Match.Types.{EventType, RoomPhase}
use nadesiko_reversi.Match.Hub.{Hub, Seat}
use nadesiko_reversi.Match.Hub.Laws.{
  IsSound, IsOpen, Wired, close_channel-IsSound, close_channel-IsOpen,
}
use nadesiko_reversi.Match.Room.{
  Room, LeaveResult, seat_of, is_connected, broadcast, is_closed, settle_leave, paused_phase,
  release_seat, release_seats, notice, close_room, disconnect, leave,
}
use nadesiko_reversi.Match.Room.Invariant.{
  Apart-sym, IsWired, rehub-IsWired, broadcast-Keeps, SeatWired, OtherChannel, Apart, PhaseFits,
  IsWellFormed, notify_others-IsWellFormed,
}
use nadesiko_reversi.Match.Room.Seating.{Found, seat_of-Found, rephase-IsWired, PhaseFits-at}

-- A seat that is let go, and what that does to the channels.
release_seat-IsSound :
    (s : Option Seat) (h : Hub) → SeatWired h s → IsSound h → IsSound (release_seat s h).1
unfolding release_seat
release_seat-IsSound none h w v = v
release_seat-IsSound (some s) h w v = go s.connected s.events w
  where
    go :
        (b : Bool) (c : Option ℕ)
        → Wired h b c
        → IsSound (release_seat (some (record s { connected = b; events = c })) h).1
    go true (some c) w = close_channel-IsSound h c w v
    go true none w = absurd w
    go false (some c) w = absurd w
    go false none w = v

-- The other seat's channel stays open.
release_seat-Wired :
    (s : Option Seat) (h : Hub) (b : Bool) (c : Option ℕ)
    → ((t : Seat) → s ≡ some t → OtherChannel t.events c)
    → Wired h b c
    → Wired (release_seat s h).1 b c
unfolding release_seat
release_seat-Wired none h b c n w = w
release_seat-Wired (some s) h true (some d) n w = go s.events (n s refl)
  where
    go :
        (c : Option ℕ)
        → OtherChannel c (some d)
        → IsOpen (release_seat (some (record s { events = c })) h).1 d
    go none n = w
    go (some c) n = close_channel-IsOpen h c d (λ e. n (sym e)) w
release_seat-Wired (some s) h true none n w = w
release_seat-Wired (some s) h false (some d) n w = w
release_seat-Wired (some s) h false none n w = w

release_seat-SeatWired :
    (s t : Option Seat) (h : Hub) → Apart s t → SeatWired h t → SeatWired (release_seat s h).1 t
release_seat-SeatWired s none h a w = tt
release_seat-SeatWired s (some t) h a w =
    release_seat-Wired s h t.connected t.events (λ u e. (subst (λ x. Apart x (some t)) e a).1) w

-- A seat that was let go has no channel.
release_seat-away :
    (s t : Option Seat) (h k : Hub)
    → Apart s t
    → SeatWired k (release_seat s h).0 × Apart (release_seat s h).0 t
unfolding release_seat
release_seat-away none t h k a = (tt, tt)
release_seat-away (some s) none h k a = (tt, tt)
release_seat-away (some s) (some t) h k a = (tt, (a.0, tt))

release_seats-IsWired : (r : Room) → IsWired r → IsWired (release_seats r)
unfolding release_seats
release_seats-IsWired r v =
    let first = release_seat r.dark r.hub in
    let w = release_seat-SeatWired r.dark r.light r.hub v.apart v.light_wired in
    let last = (release_seat r.light first.1).1 in
    let apart = (release_seat-away r.dark r.light r.hub r.hub v.apart).1 in
    record {
      sound =
          release_seat-IsSound r.light first.1 w
            (release_seat-IsSound r.dark r.hub v.dark_wired v.sound);
      dark_wired = (release_seat-away r.dark r.light r.hub last v.apart).0;
      light_wired =
          (release_seat-away r.light first.0 first.1 last (Apart-sym first.0 r.light apart)).0;
      apart =
          Apart-sym _ first.0
            (release_seat-away r.light first.0 first.1 r.hub (Apart-sym first.0 r.light apart)).1;
    }

pub closed_phase : (x : RoomPhase) → is_closed x ≡ true → x ≡ RoomPhase.closed
closed_phase x e = ground arith

-- A closed room holds its invariant, from any room whose seats are wired.
pub close_room-IsWellFormed :
    (r : Room) (reason : String) → IsWired r → IsWellFormed (close_room r reason)
unfolding close_room broadcast
close_room-IsWellFormed r reason v =
    let ended = record r { phase = RoomPhase.closed } in
    let told = broadcast ended (notice ended EventType.closed none reason) in
    if_cases IsWellFormed (is_closed r.phase) (release_seats r) (release_seats told)
      (λ e. record {
        wiring = release_seats-IsWired r v;
        phase_fits = PhaseFits-at (release_seats r) (closed_phase r.phase e) tt;
      })
      (λ e. record {
        wiring = release_seats-IsWired told (
            rehub-IsWired ended told.hub (rephase-IsWired r RoomPhase.closed r.state v) (
              broadcast-Keeps ended v.dark_wired v.light_wired
                (notice ended EventType.closed none reason)));
        phase_fits = tt;
      })

-- A disconnected seat keeps the wiring.
disconnect-IsWired :
    (r : Room) (id : Text) (p : Player) (s : Seat)
    → IsWired r
    → Found r id p s
    → IsWired (disconnect r p s)
unfolding disconnect Found
disconnect-IsWired r id p s v (_, inl (e, f)) = rw e (
    if_both IsWired s.connected _ _
      (record {
        sound = release_seat-IsSound (some s) r.hub wired v.sound;
        dark_wired =
            (release_seat-away (some s) r.light r.hub (release_seat (some s) r.hub).1 apart).0;
        light_wired = release_seat-SeatWired (some s) r.light r.hub apart v.light_wired;
        apart = (release_seat-away (some s) r.light r.hub r.hub apart).1;
      })
      v)
  where
    wired : SeatWired r.hub (some s)
    wired = subst (SeatWired r.hub) f v.dark_wired

    apart : Apart (some s) r.light
    apart = subst (λ d. Apart d r.light) f v.apart
disconnect-IsWired r id p s v (_, inr (e, f)) = rw e (
    if_both IsWired s.connected _ _
      (record {
        sound = release_seat-IsSound (some s) r.hub wired v.sound;
        dark_wired = release_seat-SeatWired (some s) r.dark r.hub apart v.dark_wired;
        light_wired =
            (release_seat-away (some s) r.dark r.hub (release_seat (some s) r.hub).1 apart).0;
        apart = Apart-sym _ r.dark (release_seat-away (some s) r.dark r.hub r.hub apart).1;
      })
      v)
  where
    wired : SeatWired r.hub (some s)
    wired = subst (SeatWired r.hub) f v.light_wired

    apart : Apart (some s) r.dark
    apart = Apart-sym r.dark (some s) (subst (Apart r.dark) f v.apart)

-- What the phase will say once the leaver is gone, if somebody is left.
abbrev PausedFits : RoomPhase → Option Seat → Option Seat → Option State → Type 0
PausedFits x d l st = is_connected d || is_connected l ≡ true → PhaseFits (paused_phase x) d l st

-- One seat has just been let go.
dark_left :
    (x : RoomPhase) (s : Seat) (l : Option Seat) (st : Option State)
    → PhaseFits x (some s) l st
    → PausedFits x (some (record s { events = none; connected = false })) l st
dark_left RoomPhase.waiting s l st h c = absurd (ground arith)
dark_left RoomPhase.playing s l st h c = ground arith
dark_left RoomPhase.suspended s l st h c = ground arith
dark_left RoomPhase.closed s l st h c = tt

light_left :
    (x : RoomPhase) (d : Option Seat) (s : Seat) (st : Option State)
    → PhaseFits x d (some s) st
    → PausedFits x d (some (record s { events = none; connected = false })) st
light_left RoomPhase.waiting d s st h c = absurd (ground arith)
light_left RoomPhase.playing d s st h c = ground arith
light_left RoomPhase.suspended d s st h c = ground arith
light_left RoomPhase.closed d s st h c = tt

-- The seat had been left before.
was_away :
    (x : RoomPhase) (d l : Option Seat) (st : Option State)
    → PhaseFits x d l st
    → is_connected d && is_connected l ≡ false
    → PausedFits x d l st
was_away RoomPhase.waiting d l st h a c = h
was_away RoomPhase.playing d l st h a c = absurd (ground arith)
was_away RoomPhase.suspended d l st h a c = h
was_away RoomPhase.closed d l st h a c = tt

abbrev RoomPausedFits : Room → Type 0
RoomPausedFits gone = PausedFits gone.phase gone.dark gone.light gone.state

paused-fits :
    (r : Room) (id : Text) (p : Player) (s : Seat)
    → Found r id p s
    → PhaseFits r.phase r.dark r.light r.state
    → RoomPausedFits (disconnect r p s)
unfolding disconnect release_seat Found
paused-fits r id p s (_, inl (e, f)) fits = rw e (
    if_cases RoomPausedFits s.connected _ _
      (λ _.
        dark_left r.phase s r.light r.state
          (subst (λ d. PhaseFits r.phase d r.light r.state) f fits))
      (λ c. was_away r.phase r.dark r.light r.state fits (ground arith)))
paused-fits r id p s (_, inr (e, f)) fits = rw e (
    if_cases RoomPausedFits s.connected _ _
      (λ _.
        light_left r.phase r.dark s r.state
          (subst (λ l. PhaseFits r.phase r.dark l r.state) f fits))
      (λ c. was_away r.phase r.dark r.light r.state fits (ground arith)))

settle_leave-IsWellFormed :
    (gone : Room) (id : Text)
    → IsWired gone
    → RoomPausedFits gone
    → IsWellFormed (settle_leave gone id).0
unfolding settle_leave
settle_leave-IsWellFormed gone id v fits =
    if_cases (λ (x : Room × LeaveResult). IsWellFormed x.0)
      (is_connected gone.dark || is_connected gone.light) _ _
      (λ some_left.
        notify_others-IsWellFormed _ id _ _
          (record { wiring = rephase-IsWired gone _ _ v; phase_fits = fits some_left }))
      (λ none_left. close_room-IsWellFormed gone _ v)

-- Leaving keeps the invariant, whether the player had a seat or not.
pub leave-IsWellFormed : (r : Room) (id : Text) → IsWellFormed r → IsWellFormed (leave r id).0
unfolding leave
leave-IsWellFormed r id v = elim (Option-cases (seat_of r id)) [
  | inl e ↦ rw (e, leave) v
  | inr ((p, s), e) ↦
      let found = seat_of-Found r id p s e in
      rw (e, leave)
        (settle_leave-IsWellFormed (disconnect r p s) id
          (disconnect-IsWired r id p s v.wiring found) (paused-fits r id p s found v.phase_fits))
]
