-- ===== src/Match/Hub/Laws.antt =====
-- What the channels keep: at most 16 undelivered events each, no send on a closed channel and no
-- second close, as long as every connected seat has an open channel of its own.
use nadesiko_reversi.Prelude.{
  ℕ, ◌≤◌, ◌<◌, ◌≡◌, ◌≢◌, refl, Bool, true, false, Option, none, some, [], ◌∷◌, length,
  length-append, arith,
}
use nadesiko_reversi.Match.Types.{Event, clone_event}
use nadesiko_reversi.Match.Hub.{
  event_buffer, Hub, no_channels, make_channel, send, close_channel, Seat, deliver,
}

pub record IsSound (h : Hub) : Type 0 where
  pub bounded : (i : ℕ) → length (h.channels i).buffer ≤ event_buffer
  pub faultless : h.fault ≡ false

-- The channel has been made and not closed.
abbrev pub IsOpen : Hub → ℕ → Type 0
IsOpen h c = (c < h.next) × ((h.channels c).closed ≡ false)

-- A seat is connected exactly while it holds an open channel.
abbrev pub Wired : Hub → Bool → Option ℕ → Type 0
Wired h true (some c) = IsOpen h c
Wired h true none = ⊥
Wired h false (some c) = ⊥
Wired h false none = Unit

pub no_channels-IsSound : IsSound no_channels
unfolding no_channels
no_channels-IsSound = record { bounded = λ i. omega arith; faultless = refl }

pub make_channel-IsSound : (h : Hub) → IsSound h → IsSound (make_channel h)
unfolding make_channel
make_channel-IsSound h v = record {
  bounded = λ i. ground (arith, v.bounded i);
  faultless = v.faultless;
}

pub send-IsSound : (h : Hub) (c : ℕ) (e : Event) → IsOpen h c → IsSound h → IsSound (send h c e)
unfolding send
send-IsSound h c e o v = record {
  bounded = λ i. ground (arith, v.bounded i, length-append (h.channels c).buffer (e ∷ []));
  faultless = ground (arith, v.faultless);
}

pub close_channel-IsSound : (h : Hub) (c : ℕ) → IsOpen h c → IsSound h → IsSound (close_channel h c)
unfolding close_channel
close_channel-IsSound h c o v = record {
  bounded = λ i. ground (arith, v.bounded i, v.bounded c);
  faultless = ground (arith, v.faultless);
}

-- Making or sending closes nothing, and closing one channel closes no other.
pub make_channel-IsOpen : (h : Hub) (d : ℕ) → IsOpen h d → IsOpen (make_channel h) d
unfolding make_channel
make_channel-IsOpen h d o = ground arith

pub make_channel-IsOpen_new : (h : Hub) → IsOpen (make_channel h) h.next
unfolding make_channel
make_channel-IsOpen_new h = ground arith

pub send-IsOpen : (h : Hub) (c : ℕ) (e : Event) (d : ℕ) → IsOpen h d → IsOpen (send h c e) d
unfolding send
send-IsOpen h c e d o = ground arith

pub close_channel-IsOpen : (h : Hub) (c d : ℕ) → d ≢ c → IsOpen h d → IsOpen (close_channel h c) d
unfolding close_channel
close_channel-IsOpen h c d n o = ground arith

pub deliver-IsSound :
    (h : Hub) (s : Seat) (e : Event)
    → Wired h s.connected s.events
    → IsSound h
    → IsSound (deliver h s e)
unfolding deliver
deliver-IsSound h s e w v = go s.connected s.events w
  where
    go :
        (b : Bool) (c : Option ℕ)
        → Wired h b c
        → IsSound (deliver h (record s { connected = b; events = c }) e)
    go true (some c) w = send-IsSound h c (clone_event e) w v
    go true none w = absurd w
    go false c w = v

pub deliver-IsOpen :
    (h : Hub) (s : Seat) (e : Event) (d : ℕ) → IsOpen h d → IsOpen (deliver h s e) d
unfolding deliver
deliver-IsOpen h s e d o = go s.connected s.events
  where
    go : (b : Bool) (c : Option ℕ) → IsOpen (deliver h (record s { connected = b; events = c }) e) d
    go true (some c) = send-IsOpen h c (clone_event e) d o
    go true none = o
    go false c = o

pub deliver-Wired :
    (h : Hub) (s : Seat) (e : Event) (b : Bool) (c : Option ℕ)
    → Wired h b c
    → Wired (deliver h s e) b c
deliver-Wired h s e true (some c) w = deliver-IsOpen h s e c w
deliver-Wired h s e true none w = w
deliver-Wired h s e false (some c) w = w
deliver-Wired h s e false none w = w
