-- ===== src/Match/Types.antt =====
-- event.go and errors.go of server/internal/match.
use mathlib.Core.Option
use nadesiko_reversi.Prelude.{String, Option, none, some, false, Text}
use nadesiko_reversi.Protocol.Types.{
  version, Player, State, Event as GameEvent, ErrorCode, Message, Response,
}
use nadesiko_reversi.Protocol.Clone.{clone_state, clone_event as clone_game_event}

pub data EventType : Type 0 where
  waiting matched state opponent_left opponent_returned closed : EventType

pub data RoomPhase : Type 0 where
  waiting playing suspended closed : RoomPhase

-- One notice to the player of a seat.
pub record Event : Type 0 where
  pub type : EventType
  pub room_id : Text
  pub seat : Player
  pub state : Option State
  pub game_event : Option GameEvent
  pub reason : String

pub record JoinError : Type 0 where
  pub player_id : Text
  pub message : Message

pub record LeaveError : Type 0 where
  pub player_id : Text
  pub message : Message

-- func (e Event) clone
unfoldable pub clone_event : Event → Event
clone_event e = record e {
  state = Option.map clone_state e.state;
  game_event = Option.map clone_game_event e.game_event;
}

-- func rejected: a refusal for a reason of the room's, in the form of the contract.
unfoldable pub rejected : ErrorCode → Message → Option State → Response
rejected code message s = record {
  version = version;
  ok = false;
  state = Option.map clone_state s;
  event = none;
  error = some (record { code = code; message = message });
}
