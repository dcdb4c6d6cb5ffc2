-- ===== src/Match/Room/Joining.antt =====
-- A join keeps the invariant of the room, whatever the engine answers.
use nadesiko_reversi.Prelude.{
  ℕ, ◌≡◌, ◌≢◌, refl, sym, subst, ◌⊎◌, true, false, ◌&&◌, Option, none, some, Text, arith, is_some,
  if_both, if_cases, inl, inr,
}
use nadesiko_reversi.Protocol.Types.{Player, dark, light, State, Response}
use nadesiko_reversi.Runtime.{Runner, Evaluated, answer, failed, new_game}
use nadesiko_reversi.Match.Types.{RoomPhase}
use nadesiko_reversi.Match.Hub.{Seat}
use nadesiko_reversi.Match.Hub.Laws.{make_channel-IsOpen_new}
use nadesiko_reversi.Match.Room.{
  Room, JoinResult, seat_of, claim, open_seat, put_seat, is_connected, rejoin, begin, start_game,
  take, take_seat, join_at, is_closed, join,
}
use nadesiko_reversi.Match.Room.Invariant.{
  IsWired, Apart, IsWellFormed, deliver-Keeps, rehub-IsWellFormed, broadcast-IsWellFormed,
}
use nadesiko_reversi.Match.Room.Seating.{
  Found, seat_of-Found, OtherPlayer, connected_seat, take-IsWired, rephase-IsWired, PhaseFits-at,
  rejoin-IsWellFormed,
}

-- In an open room a seat is free only while the game has not started.
open_seat-waiting :
    (r : Room) (p : Player)
    → IsWellFormed r
    → r.phase ≢ RoomPhase.closed
    → open_seat r ≡ some p
    → (r.phase ≡ RoomPhase.waiting)
      × (r.state ≡ none)
      × (r.light ≡ none)
      × (((p ≡ dark) × (r.dark ≡ none)) ⊎ ((p ≡ light) × (is_connected r.dark ≡ true)))
unfolding open_seat
open_seat-waiting r p v open_room h = ground (arith, v.phase_fits)

claim-none : (p : Player) (s : Option Seat) (id : Text) → claim p s id ≡ none → OtherPlayer id s
claim-none p none id h = tt
claim-none p (some s) id h = λ e. ground arith

seat_of-none :
    (r : Room) (id : Text) → seat_of r id ≡ none → OtherPlayer id r.dark × OtherPlayer id r.light
unfolding seat_of
seat_of-none r id h =
    (claim-none dark r.dark id (ground arith), claim-none light r.light id (ground arith))

-- A seat whose player could not start a game is given up.
unseat_light-IsWired : (r : Room) → IsWired r → IsWired (put_seat r light none)
unseat_light-IsWired r v = record {
  sound = v.sound;
  dark_wired = v.dark_wired;
  light_wired = tt;
  apart = alone r.dark;
}
  where
    alone : (d : Option Seat) → Apart d none
    alone none = tt
    alone (some s) = tt

-- The second player comes: the game starts, or the room waits on.
start_game-IsWellFormed :
    (runner : Runner) (seated : Room) (id : Text) (c : ℕ)
    → IsWired seated
    → seated.phase ≡ RoomPhase.waiting
    → seated.state ≡ none
    → is_connected seated.dark ≡ true
    → is_connected seated.light ≡ true
    → IsWellFormed (start_game runner seated id light c).0
unfolding start_game
start_game-IsWellFormed runner seated id c w waits blank d l =
    go (new_game runner seated.id seated.seed)
  where
    back : IsWellFormed (put_seat seated light none)
    back = record {
      wiring = unseat_light-IsWired seated w;
      phase_fits = PhaseFits-at (put_seat seated light none) waits (inr d, refl, blank);
    }

    begun :
        (response : Response) (o : Option State)
        → response.state ≡ o
        → IsWellFormed (begin seated id light c (answer response)).0
    begun response none e = rw (e, begin) back
    begun response (some s) e =
        rw (e, begin)
          (if_both (λ (x : Room × JoinResult). IsWellFormed x.0) response.ok _ _
            (broadcast-IsWellFormed _ _ (record {
              wiring = rephase-IsWired seated RoomPhase.playing _ w;
              phase_fits = (d, l, λ f. cc);
            }))
            back)

    go : (e : Evaluated) → IsWellFormed (begin seated id light c e).0
    go (failed e) = back
    go (answer response) = begun response response.state refl

take_first-IsWellFormed :
    (runner : Runner) (r : Room) (id : Text)
    → IsWired r
    → r.state ≡ none
    → r.light ≡ none
    → IsWellFormed (take_seat runner r id dark).0
unfolding take_seat take
take_first-IsWellFormed runner r id w blank free =
    if_cases (λ (x : Room × JoinResult). IsWellFormed x.0) (is_some r.light) _ _
      (λ e. absurd (ground arith))
      λ e.
        rehub-IsWellFormed _ _
          (record {
            wiring =
                rephase-IsWired (take r dark (connected_seat id r.hub.next)) RoomPhase.waiting _
                  (take-IsWired r dark id w (subst (OtherPlayer id) (sym free) tt));
            phase_fits = (inr refl, free, blank);
          })
          (deliver-Keeps _ (connected_seat id r.hub.next) _ (make_channel-IsOpen_new r.hub))

take_second-IsWellFormed :
    (runner : Runner) (r : Room) (id : Text)
    → IsWired r
    → OtherPlayer id r.dark
    → r.phase ≡ RoomPhase.waiting
    → r.state ≡ none
    → is_connected r.dark ≡ true
    → IsWellFormed (take_seat runner r id light).0
unfolding take_seat take
take_second-IsWellFormed runner r id w n waits blank d =
    if_cases (λ (x : Room × JoinResult). IsWellFormed x.0) (is_some r.dark && true) _ _
      (λ e.
        start_game-IsWellFormed runner (take r light (connected_seat id r.hub.next)) id r.hub.next
          (take-IsWired r light id w n) waits blank d refl)
      (λ e. absurd (ground arith))

take_seat-IsWellFormed :
    (runner : Runner) (r : Room) (id : Text) (p : Player)
    → IsWellFormed r
    → r.phase ≢ RoomPhase.closed
    → seat_of r id ≡ none
    → open_seat r ≡ some p
    → IsWellFormed (take_seat runner r id p).0
take_seat-IsWellFormed runner r id p v open_room absent free =
    let (waits, blank, no_light, side) = open_seat-waiting r p v open_room free in
    elim side [
      | inl (e, _) ↦ rw e (take_first-IsWellFormed runner r id v.wiring blank no_light)
      | inr (e, d) ↦
          rw e (
            take_second-IsWellFormed runner r id v.wiring (seat_of-none r id absent).0 waits blank
              d)
    ]

pub Found-id : (r : Room) (id : Text) (p : Player) (s : Seat) → Found r id p s → s.player_id ≡ id
unfolding Found
Found-id r id p s found = found.0

join_at-IsWellFormed :
    (runner : Runner) (r : Room) (id : Text) (found : Option (Player × Seat)) (free : Option Player)
    → IsWellFormed r
    → r.phase ≢ RoomPhase.closed
    → seat_of r id ≡ found
    → open_seat r ≡ free
    → IsWellFormed (join_at runner r id found free).0
unfolding join_at
join_at-IsWellFormed runner r id (some (p, s)) free v open_room f o =
    let found = seat_of-Found r id p s f in
    let e = Found-id r id p s found in
    subst (λ x. IsWellFormed (rejoin r x p s).0) e
      (rejoin-IsWellFormed r p s v (subst (λ x. Found r x p s) (sym e) found) open_room)
join_at-IsWellFormed runner r id none (some p) v open_room f o =
    take_seat-IsWellFormed runner r id p v open_room f o
join_at-IsWellFormed runner r id none none v open_room f o = v

pub open_phase : (x : RoomPhase) → is_closed x ≡ false → x ≢ RoomPhase.closed
open_phase x h = λ e. ground arith

-- A join keeps the invariant, whether it succeeds or not.
pub join-IsWellFormed :
    (runner : Runner) (r : Room) (id : Text) → IsWellFormed r → IsWellFormed (join runner r id).0
unfolding join
join-IsWellFormed runner r id v =
    if_cases (λ (x : Room × JoinResult). IsWellFormed x.0) (is_closed r.phase) _ _ (λ e. v)
      λ e.
        join_at-IsWellFormed runner r id (seat_of r id) (open_seat r) v (open_phase r.phase e) refl
          refl
