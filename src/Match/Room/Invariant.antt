-- ===== src/Match/Room/Invariant.antt =====
-- The invariant of a room, and what it means for deliveries to keep it.
use nadesiko_reversi.Prelude.{
  ℕ, ◌≡◌, ◌≢◌, refl, sym, ◌⊎◌, Bool, true, false, ◌&&◌, ◌||◌, Option, none, some, Text, String,
  if_both, inl, not, text_eq,
}
use nadesiko_reversi.Protocol.Types.{Player, dark, light, State}
use nadesiko_reversi.Match.Types.{EventType, RoomPhase, Event}
use nadesiko_reversi.Match.Hub.{Hub, Seat, deliver}
use nadesiko_reversi.Match.Hub.Laws.{
  IsSound, Wired, no_channels-IsSound, deliver-IsSound, deliver-Wired,
}
use nadesiko_reversi.Match.Room.{
  Room, new_room, is_connected, broadcast_to, broadcast, notify_to, notify_others,
}

abbrev pub SeatWired : Hub → Option Seat → Type 0
SeatWired h none = Unit
SeatWired h (some s) = Wired h s.connected s.events

abbrev pub OtherChannel : Option ℕ → Option ℕ → Type 0
OtherChannel (some c) (some d) = c ≢ d
OtherChannel _ _ = Unit

-- The two seats belong to two players and do not share a channel.
abbrev pub Apart : Option Seat → Option Seat → Type 0
Apart (some s) (some t) = (s.player_id ≢ t.player_id) × OtherChannel s.events t.events
Apart _ _ = Unit

pub Apart-sym : (s t : Option Seat) → Apart s t → Apart t s
Apart-sym none none a = tt
Apart-sym none (some t) a = tt
Apart-sym (some s) none a = tt
Apart-sym (some s) (some t) (n, c) = (λ e. n (sym e), flip s.events t.events c)
  where
    flip : (c d : Option ℕ) → OtherChannel c d → OtherChannel d c
    flip none none n = tt
    flip none (some d) n = tt
    flip (some c) none n = tt
    flip (some c) (some d) n = λ e. n (sym e)

-- What each phase says of the seats and the game.
abbrev pub PhaseFits : RoomPhase → Option Seat → Option Seat → Option State → Type 0
PhaseFits RoomPhase.waiting d l s = ((d ≡ none) ⊎ (is_connected d ≡ true)) × (l ≡ none) × (s ≡ none)
PhaseFits RoomPhase.playing d l s = (is_connected d ≡ true) × (is_connected l ≡ true) × (s ≢ none)
PhaseFits RoomPhase.suspended d l s =
    (d ≢ none)
    × (l ≢ none)
    × (is_connected d || is_connected l ≡ true)
    × (is_connected d && is_connected l ≡ false)
    × (s ≢ none)
PhaseFits RoomPhase.closed d l s = Unit

pub record IsWired (r : Room) : Type 0 where
  pub sound : IsSound r.hub
  pub dark_wired : SeatWired r.hub r.dark
  pub light_wired : SeatWired r.hub r.light
  pub apart : Apart r.dark r.light

pub record IsWellFormed (r : Room) : Type 0 where
  pub wiring : IsWired r
  pub open wiring use *
  pub phase_fits : PhaseFits r.phase r.dark r.light r.state

-- The second list of channels is as sound as the first and leaves open what was open.
pub record Keeps (h h' : Hub) : Type 0 where
  pub sound : IsSound h → IsSound h'
  pub wired : (b : Bool) (c : Option ℕ) → Wired h b c → Wired h' b c

pub Keeps-refl : (h : Hub) → Keeps h h
Keeps-refl h = record { sound = λ v. v; wired = λ b c w. w }

pub Keeps-trans : {h k m : Hub} → Keeps h k → Keeps k m → Keeps h m
Keeps-trans f g = record {
  sound = λ v. g.sound (f.sound v);
  wired = λ b c w. g.wired b c (f.wired b c w);
}

pub Keeps-seat : {h k : Hub} (s : Option Seat) → Keeps h k → SeatWired h s → SeatWired k s
Keeps-seat none f w = w
Keeps-seat (some s) f w = f.wired s.connected s.events w

pub deliver-Keeps :
    (h : Hub) (s : Seat) (e : Event) → Wired h s.connected s.events → Keeps h (deliver h s e)
deliver-Keeps h s e w = record { sound = deliver-IsSound h s e w; wired = deliver-Wired h s e }

pub broadcast_to-Keeps :
    (r : Room) (build : Player → Event) (p : Player) (s : Option Seat) (h : Hub)
    → SeatWired h s
    → Keeps h (broadcast_to r build p s h)
unfolding broadcast_to
broadcast_to-Keeps r build p none h w = Keeps-refl h
broadcast_to-Keeps r build p (some s) h w =
    if_both (Keeps h) s.connected _ _ (deliver-Keeps h s _ w) (Keeps-refl h)

notify_to-Keeps :
    (r : Room) (id : Text) (type : EventType) (reason : String) (p : Player) (s : Option Seat)
    (h : Hub)
    → SeatWired h s
    → Keeps h (notify_to r id type reason p s h)
unfolding notify_to
notify_to-Keeps r id type reason p none h w = Keeps-refl h
notify_to-Keeps r id type reason p (some s) h w =
    if_both (Keeps h) (text_eq s.player_id id || not s.connected) _ _ (Keeps-refl h)
      (deliver-Keeps h s _ w)

module _ (r : Room) (dark_wired : SeatWired r.hub r.dark)
    (light_wired : SeatWired r.hub r.light) where
  pub broadcast-Keeps : (build : Player → Event) → Keeps r.hub (broadcast r build).hub
  unfolding broadcast
  broadcast-Keeps build =
      let first = broadcast_to-Keeps r build dark r.dark r.hub dark_wired in
      Keeps-trans first
        (broadcast_to-Keeps r build light r.light _ (Keeps-seat r.light first light_wired))

  pub notify_others-Keeps :
      (id : Text) (type : EventType) (reason : String)
      → Keeps r.hub (notify_others r id type reason).hub
  unfolding notify_others
  notify_others-Keeps id type reason =
      let first = notify_to-Keeps r id type reason dark r.dark r.hub dark_wired in
      Keeps-trans first
        (notify_to-Keeps r id type reason light r.light _ (Keeps-seat r.light first light_wired))

pub rehub-IsWired :
    (r : Room) (h : Hub) → IsWired r → Keeps r.hub h → IsWired (record r { hub = h })
rehub-IsWired r h v k = record {
  sound = k.sound v.sound;
  dark_wired = Keeps-seat r.dark k v.dark_wired;
  light_wired = Keeps-seat r.light k v.light_wired;
  apart = v.apart;
}

-- Deliveries change the channels only, so they keep the whole invariant.
pub rehub-IsWellFormed :
    (r : Room) (h : Hub) → IsWellFormed r → Keeps r.hub h → IsWellFormed (record r { hub = h })
rehub-IsWellFormed r h v k = record {
  wiring = rehub-IsWired r h v.wiring k;
  phase_fits = v.phase_fits;
}

pub broadcast-IsWellFormed :
    (r : Room) (build : Player → Event) → IsWellFormed r → IsWellFormed (broadcast r build)
unfolding broadcast
broadcast-IsWellFormed r build v =
    rehub-IsWellFormed r _ v (broadcast-Keeps r v.dark_wired v.light_wired build)

pub notify_others-IsWellFormed :
    (r : Room) (id : Text) (type : EventType) (reason : String)
    → IsWellFormed r
    → IsWellFormed (notify_others r id type reason)
unfolding notify_others
notify_others-IsWellFormed r id type reason v =
    rehub-IsWellFormed r _ v (notify_others-Keeps r v.dark_wired v.light_wired id type reason)

-- A new room is well formed.
pub new_room-IsWellFormed : (id : Text) (seed : ℕ) → IsWellFormed (new_room id seed)
unfolding new_room
new_room-IsWellFormed id seed = record {
  wiring = record { sound = no_channels-IsSound; dark_wired = tt; light_wired = tt; apart = tt };
  phase_fits = (inl refl, refl, refl);
}
