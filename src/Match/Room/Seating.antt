-- ===== src/Match/Room/Seating.antt =====
-- Seats of a room: who sits where, taking a seat, and coming back to it.
use nadesiko_reversi.Prelude.{
  ℕ, ◌≡◌, ◌≢◌, sym, subst, ◌⊎◌, Bool, true, false, Option, none, some, Text, arith, if_cases, inl,
  inr,
}
use nadesiko_reversi.Protocol.Types.{Player, dark, light, State}
use nadesiko_reversi.Match.Types.{RoomPhase}
use nadesiko_reversi.Match.Hub.{Hub, Seat, make_channel}
use nadesiko_reversi.Match.Hub.Laws.{
  Wired, make_channel-IsSound, make_channel-IsOpen, make_channel-IsOpen_new,
}
use nadesiko_reversi.Match.Room.{Room, JoinResult, seat_of, is_connected, rejoin, take, resume}
use nadesiko_reversi.Match.Room.Invariant.{
  IsWired, rehub-IsWired, SeatWired, OtherChannel, Apart, PhaseFits, IsWellFormed, Keeps,
  Keeps-seat, deliver-Keeps, rehub-IsWellFormed, notify_others-IsWellFormed,
}

-- The seat that a player is found in.
unfoldable pub Found : Room → Text → Player → Seat → Type 0
Found r id p s =
    (s.player_id ≡ id) × (((p ≡ dark) × (r.dark ≡ some s)) ⊎ ((p ≡ light) × (r.light ≡ some s)))

pub seat_of-Found :
    (r : Room) (id : Text) (p : Player) (s : Seat) → seat_of r id ≡ some (p, s) → Found r id p s
unfolding seat_of Found
seat_of-Found r id p s h = ground arith

pub make_channel-Keeps : (h : Hub) → Keeps h (make_channel h)
make_channel-Keeps h = record { sound = make_channel-IsSound h; wired = wired }
  where
    wired : (b : Bool) (c : Option ℕ) → Wired h b c → Wired (make_channel h) b c
    wired true (some c) w = make_channel-IsOpen h c w
    wired true none w = w
    wired false (some c) w = w
    wired false none w = w

-- The channel that is made next is nobody's yet.
pub next-OtherChannel :
    (h : Hub) (b : Bool) (c : Option ℕ)
    → Wired h b c
    → OtherChannel c (some h.next) × OtherChannel (some h.next) c
next-OtherChannel h true (some c) w = (λ e. omega arith, λ e. omega arith)
next-OtherChannel h true none w = absurd w
next-OtherChannel h false (some c) w = absurd w
next-OtherChannel h false none w = (tt, tt)

-- The other seat, if it is taken, has another player.
abbrev pub OtherPlayer : Text → Option Seat → Type 0
OtherPlayer id none = Unit
OtherPlayer id (some t) = id ≢ t.player_id

abbrev pub other_seat : Room → Player → Option Seat
other_seat r dark = r.light
other_seat r _ = r.dark

abbrev pub connected_seat : Text → ℕ → Seat
connected_seat id c = record { player_id = id; events = some c; connected = true }

-- A seat taken with a new channel keeps the wiring, if the other seat has another player.
pub take-IsWired :
    (r : Room) (p : Player) (id : Text)
    → IsWired r
    → OtherPlayer id (other_seat r p)
    → IsWired (take r p (connected_seat id r.hub.next))
unfolding take
take-IsWired r dark id v n = record {
  sound = make_channel-IsSound r.hub v.sound;
  dark_wired = make_channel-IsOpen_new r.hub;
  light_wired = Keeps-seat r.light (make_channel-Keeps r.hub) v.light_wired;
  apart = fits r.light v.light_wired n;
}
  where
    fits :
        (l : Option Seat)
        → SeatWired r.hub l
        → OtherPlayer id l
        → Apart (some (connected_seat id r.hub.next)) l
    fits none w n = tt
    fits (some t) w n = (n, (next-OtherChannel r.hub t.connected t.events w).1)
take-IsWired r light id v n = record {
  sound = make_channel-IsSound r.hub v.sound;
  dark_wired = Keeps-seat r.dark (make_channel-Keeps r.hub) v.dark_wired;
  light_wired = make_channel-IsOpen_new r.hub;
  apart = fits r.dark v.dark_wired n;
}
  where
    fits :
        (d : Option Seat)
        → SeatWired r.hub d
        → OtherPlayer id d
        → Apart d (some (connected_seat id r.hub.next))
    fits none w n = tt
    fits (some t) w n = (λ e. n (sym e), (next-OtherChannel r.hub t.connected t.events w).0)
take-IsWired r (Player.other x) id v n =
    rehub-IsWired r (make_channel r.hub) v (make_channel-Keeps r.hub)

-- The wiring of the room does not depend on its phase and its state.
pub rephase-IsWired :
    (r : Room) (phase : RoomPhase) (s : Option State)
    → IsWired r
    → IsWired (record r { phase = phase; state = s })
rephase-IsWired r phase s v = record {
  sound = v.sound;
  dark_wired = v.dark_wired;
  light_wired = v.light_wired;
  apart = v.apart;
}

OtherPlayer-of_Apart :
    (s : Seat) (l : Option Seat)
    → (Apart (some s) l → OtherPlayer s.player_id l)
      × (Apart l (some s) → OtherPlayer s.player_id l)
OtherPlayer-of_Apart s none = (λ a. tt, λ a. tt)
OtherPlayer-of_Apart s (some t) = (λ a. a.0, λ a e. a.0 (sym e))

Found-OtherPlayer :
    (r : Room) (id : Text) (p : Player) (s : Seat)
    → IsWired r
    → Found r id p s
    → OtherPlayer s.player_id (other_seat r p)
unfolding Found
Found-OtherPlayer r id p s v (_, inl (e, f)) =
    rw e ((OtherPlayer-of_Apart s r.light).0 (subst (λ d. Apart d r.light) f v.apart))
Found-OtherPlayer r id p s v (_, inr (e, f)) =
    rw e ((OtherPlayer-of_Apart s r.dark).1 (subst (λ l. Apart r.dark l) f v.apart))

-- In an open room only a player of a suspended game is away.
away-suspended :
    (r : Room) (id : Text) (p : Player) (s : Seat)
    → IsWellFormed r
    → Found r id p s
    → s.connected ≡ false
    → r.phase ≢ RoomPhase.closed
    → r.phase ≡ RoomPhase.suspended
unfolding Found
away-suspended r id p s v found away open_room = ground (arith, v.phase_fits)

pub PhaseFits-at :
    (r : Room) {x : RoomPhase}
    → r.phase ≡ x
    → PhaseFits x r.dark r.light r.state
    → PhaseFits r.phase r.dark r.light r.state
PhaseFits-at r e f = subst (λ y. PhaseFits y r.dark r.light r.state) (sym e) f

resume-phase :
    (r : Room) (p : Player) (id : Text) (c : ℕ) (s : Seat)
    → Found r id p s
    → s.connected ≡ false
    → r.phase ≡ RoomPhase.suspended
    → PhaseFits RoomPhase.suspended r.dark r.light r.state
    → let q = resume r p (connected_seat id c) in
      (q.phase ≡ RoomPhase.playing)
      × (is_connected q.dark ≡ true)
      × (is_connected q.light ≡ true)
      × (q.state ≢ none)
unfolding resume take Found
resume-phase r p id c s (_, inl (e, f)) away sus fits = rw e (ground arith)
resume-phase r p id c s (_, inr (e, f)) away sus fits = rw e (ground arith)

-- A player who returns was away: the game was suspended and goes on.
resume-IsWellFormed :
    (r : Room) (p : Player) (s : Seat)
    → IsWellFormed r
    → Found r s.player_id p s
    → s.connected ≡ false
    → r.phase ≢ RoomPhase.closed
    → IsWellFormed (resume r p (connected_seat s.player_id r.hub.next))
unfolding resume
resume-IsWellFormed r p s v found away open_room =
    let sus = away-suspended r s.player_id p s v found away open_room in
    let (e, d, l, t) =
      resume-phase r p s.player_id r.hub.next s found away sus
        (subst (λ x. PhaseFits x r.dark r.light r.state) sus v.phase_fits) in
    record {
      wiring = rephase-IsWired (take r p (connected_seat s.player_id r.hub.next)) _ _ (
          take-IsWired r p s.player_id v.wiring
            (Found-OtherPlayer r s.player_id p s v.wiring found));
      phase_fits = PhaseFits-at (resume r p (connected_seat s.player_id r.hub.next)) e (d, l, t);
    }

pub rejoin-IsWellFormed :
    (r : Room) (p : Player) (s : Seat)
    → IsWellFormed r
    → Found r s.player_id p s
    → r.phase ≢ RoomPhase.closed
    → IsWellFormed (rejoin r s.player_id p s).0
unfolding rejoin resume take
rejoin-IsWellFormed r p s v found open_room =
    if_cases (λ (x : Room × JoinResult). IsWellFormed x.0) s.connected _ _ (λ e. v)
      λ away.
        let q = resume-IsWellFormed r p s v found away open_room in
        notify_others-IsWellFormed _ s.player_id _ _ (
          rehub-IsWellFormed _ _ q (
            deliver-Keeps _ (connected_seat s.player_id r.hub.next) _
              (make_channel-IsOpen_new r.hub)))
