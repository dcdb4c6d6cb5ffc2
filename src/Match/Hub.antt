-- ===== src/Match/Hub.antt =====
-- The Go channels that a room makes: buffered, shared with the readers, and closed once.
--
-- A channel has a number, and `Hub` holds what each number stands for. A send on a closed channel
-- and a second close panic in Go: here they set `fault`, which no operation clears.
pub mod Laws
use nadesiko_reversi.Prelude.{
  ℕ, suc, ◌+◌, Bool, true, false, Option, none, some, List, [], ◌∷◌, ◌++◌, length, ltb, ◌==◌,
  if◌then◌else◌, Text,
}
use nadesiko_reversi.Match.Types.{Event, clone_event}

-- const eventBuffer
abbrev pub event_buffer : ℕ
event_buffer = 16

-- The oldest event stands first.
pub record Channel : Type 0 where
  pub buffer : List Event
  pub closed : Bool

pub record Hub : Type 0 where
  pub channels : ℕ → Channel
  pub next : ℕ
  pub fault : Bool

abbrev pub no_channel : Channel
no_channel = record { buffer = []; closed = false }

unfoldable pub no_channels : Hub
no_channels = record { channels = λ i. no_channel; next = 0; fault = false }

abbrev pub update : (ℕ → Channel) → ℕ → Channel → (ℕ → Channel)
update f k v = λ i. if i == k then v else f i

-- `make(chan Event, eventBuffer)`, whose number is `next`
unfoldable pub make_channel : Hub → Hub
make_channel h = record h { channels = update h.channels h.next no_channel; next = suc h.next }

-- `select { case c <- event: default: }`
unfoldable pub send : Hub → ℕ → Event → Hub
send h c event =
    let channel = h.channels c in
    if channel.closed
    then record h { fault = true }
    else if ltb (length channel.buffer) event_buffer
    then record h {
      channels = update h.channels c (record channel { buffer = channel.buffer ++ event ∷ [] });
    }
    else h

-- `close(c)`
unfoldable pub close_channel : Hub → ℕ → Hub
close_channel h c =
    let channel = h.channels c in
    if channel.closed
    then record h { fault = true }
    else record h { channels = update h.channels c (record channel { closed = true }) }

-- type seat; a nil channel is none
pub record Seat : Type 0 where
  pub player_id : Text
  pub events : Option ℕ
  pub connected : Bool

-- func deliver
unfoldable pub deliver : Hub → Seat → Event → Hub
deliver h s event =
    if s.connected then elim s.events [ none ↦ h | some c ↦ send h c (clone_event event) ] else h
