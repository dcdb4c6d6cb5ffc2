-- ===== src/Match/Room/Valid.antt =====
-- With an engine that keeps the contract, a room only ever holds valid game states.
use nadesiko_reversi.Prelude.{
  ℕ, ◌≡◌, refl, Option, none, some, Text, String, if_both, subst, sym, ◌∙◌, Option-cases, inl, inr,
  ◌||◌, ◌&&◌, is_some,
}
use nadesiko_reversi.Protocol.Types.{Player, Command, Response}
use nadesiko_reversi.Protocol.Validate.States.{IsValidState}
use nadesiko_reversi.Protocol.Validate.Requests.{IfGiven, IsValidResponse}
use nadesiko_reversi.Protocol.Validate.Copies.{clone_state-IsValidState, response-IsValidState}
use nadesiko_reversi.Runtime.{Runner, Evaluated, answer, failed, new_game, apply_command}
use nadesiko_reversi.Runtime.Contract.{IsContract}
use nadesiko_reversi.Match.Hub.{Seat}
use nadesiko_reversi.Match.Room.{
  Room, JoinResult, SubmitResult, LeaveResult, seat_of, open_seat, is_connected, is_closed,
  broadcast, notify_others, take, resume, rejoin, begin, start_game, take_seat, join_at, join,
  submit, release_seats, close_room, disconnect, settle_leave, leave,
}
use nadesiko_reversi.Match.Room.Commands.{Outcome, refused, accepted, submit-Outcome}
use nadesiko_reversi.Match.Room.History.{Step, joins, submits, leaves, closes}

abbrev pub HoldsValid : Room → Type 0
HoldsValid r = IfGiven IsValidState r.state

module _ (runner : Runner) (contract : IsContract runner) where
  begin-HoldsValid :
      (r : Room) (id : Text) (p : Player) (c : ℕ) (e : Evaluated)
      → ((a : Response) → e ≡ answer a → IsValidResponse a)
      → HoldsValid r
      → HoldsValid (begin r id p c e).0
  unfolding begin broadcast
  begin-HoldsValid r id p c (failed e) fits v = v
  begin-HoldsValid r id p c (answer a) fits v = elim (Option-cases a.state) [
    | inl e ↦ rw (e, begin) v
    | inr (s, e) ↦
        rw (e, begin)
          (if_both (λ (x : Room × JoinResult). HoldsValid x.0) a.ok _ _
            (clone_state-IsValidState s (response-IsValidState a s (fits a refl) e)) v)
  ]

  take_seat-HoldsValid :
      (r : Room) (id : Text) (p : Player) → HoldsValid r → HoldsValid (take_seat runner r id p).0
  unfolding take_seat take start_game new_game
  take_seat-HoldsValid r id p v =
      if_both (λ (x : Room × JoinResult). HoldsValid x.0)
        (is_some (take r p _).dark && is_some (take r p _).light) _ _
        (begin-HoldsValid _ id p _ _ (contract _) v) v

  join_at-HoldsValid :
      (r : Room) (id : Text) (found : Option (Player × Seat)) (free : Option Player)
      → HoldsValid r
      → HoldsValid (join_at runner r id found free).0
  unfolding join_at rejoin resume take notify_others
  join_at-HoldsValid r id (some (p, s)) free v =
      if_both (λ (x : Room × JoinResult). HoldsValid x.0) s.connected _ _ v v
  join_at-HoldsValid r id none (some p) v = take_seat-HoldsValid r id p v
  join_at-HoldsValid r id none none v = v

  pub join-HoldsValid : (r : Room) (id : Text) → HoldsValid r → HoldsValid (join runner r id).0
  unfolding join
  join-HoldsValid r id v =
      if_both (λ (x : Room × JoinResult). HoldsValid x.0) (is_closed r.phase) _ _ v
        (join_at-HoldsValid r id (seat_of r id) (open_seat r) v)

  Outcome-HoldsValid :
      (r : Room) (id : Text) (c : Command) (x : Room × SubmitResult)
      → Outcome runner r id c x
      → HoldsValid r
      → HoldsValid x.0
  unfolding apply_command
  Outcome-HoldsValid r id c x (refused q) v = v
  Outcome-HoldsValid r id c x (accepted m a s h ok e t takes) v =
      subst (IfGiven IsValidState) (sym takes.holds)
        (clone_state-IsValidState s (response-IsValidState a s (contract _ a h) e))

  pub submit-HoldsValid :
      (r : Room) (id : Text) (c : Command) → HoldsValid r → HoldsValid (submit runner r id c).0
  submit-HoldsValid r id c v = Outcome-HoldsValid r id c _ (submit-Outcome runner r id c) v

release_seats-state : (r : Room) → (release_seats r).state ≡ r.state
unfolding release_seats
release_seats-state r = refl

close_room-state : (r : Room) (reason : String) → (close_room r reason).state ≡ r.state
unfolding close_room broadcast
close_room-state r reason =
    if_both (λ (x : Room). x.state ≡ r.state) (is_closed r.phase) _ _ refl refl

settle_leave-state : (r : Room) (id : Text) → (settle_leave r id).0.state ≡ r.state
unfolding settle_leave notify_others
settle_leave-state r id =
    if_both (λ (x : Room × LeaveResult). x.0.state ≡ r.state)
      (is_connected r.dark || is_connected r.light) _ _ refl (close_room-state r _)

disconnect-state : (r : Room) (p : Player) (s : Seat) → (disconnect r p s).state ≡ r.state
unfolding disconnect
disconnect-state r p s = if_both (λ (x : Room). x.state ≡ r.state) s.connected _ _ refl refl

pub leave-state : (r : Room) (id : Text) → (leave r id).0.state ≡ r.state
unfolding leave
leave-state r id = elim (Option-cases (seat_of r id)) [
  | inl e ↦ rw (e, leave)
  | inr ((p, s), e) ↦
      rw (e, leave) (settle_leave-state (disconnect r p s) id ∙ disconnect-state r p s)
]

-- The engine of a call keeps the contract.
abbrev pub UsesContract : {r q : Room} → Step r q → Type 0
UsesContract (joins runner id) = IsContract runner
UsesContract (submits runner id c) = IsContract runner
UsesContract (leaves id) = Unit
UsesContract (closes reason) = Unit

-- With an engine that keeps the contract, a call on a room that holds no state or a valid one
-- leaves it with no state or a valid one.
pub Step-HoldsValid : {r q : Room} (st : Step r q) → UsesContract st → HoldsValid r → HoldsValid q
Step-HoldsValid {r} (joins runner id) u v = join-HoldsValid runner u r id v
Step-HoldsValid {r} (submits runner id c) u v = submit-HoldsValid runner u r id c v
Step-HoldsValid {r} (leaves id) u v = subst (IfGiven IsValidState) (sym (leave-state r id)) v
Step-HoldsValid {r} (closes reason) u v =
    subst (IfGiven IsValidState) (sym (close_room-state r reason)) v
