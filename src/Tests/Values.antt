-- ===== src/Tests/Values.antt =====
-- A game that has begun, its commands, and an engine that always answers with it.
use nadesiko_reversi.Prelude.{
  ◌≡◌, refl, subst, text_dec, true, none, some, [], ◌∷◌, Text, codes, replicate, arith,
}
use nadesiko_reversi.Prelude.Int.{pos}
use nadesiko_reversi.Protocol.Types.{
  version, elems, nil, dark, light, playing, finished, place, placed, State, Command, Event,
  Response,
}
use nadesiko_reversi.Protocol.Validate.{response_validate, state_validate}
use nadesiko_reversi.Protocol.Validate.Requests.{IsValidResponse, response_validate_iff}
use nadesiko_reversi.Runtime.{answer, Runner}
use nadesiko_reversi.Protocol.Codes.{player_valid, phase_valid}
use nadesiko_reversi.Protocol.Board.{in_bounds}
use nadesiko_reversi.Runtime.Contract.{IsContract}

abbrev pub opening : State
opening = record {
  version = version;
  game_id = codes "room-1";
  board = elems (some 200 ∷ replicate 63 none);
  turn_number = pos 0;
  current_player = dark;
  next_color = 90;
  rng_state = 7;
  consecutive_passes = pos 0;
  phase = playing;
  winner = none;
  legal_moves = elems (record { row = pos 2; col = pos 3 } ∷ []);
}

abbrev pub ending : State
ending = record opening { phase = finished; winner = some light; legal_moves = nil }

abbrev pub placing : Command
placing = record {
  command_id = codes "c1";
  type = place;
  player = dark;
  expected_turn = pos 0;
  row = some (pos 2);
  col = some (pos 3);
}

abbrev pub placement : Event
placement = record {
  command_id = codes "c1";
  type = placed;
  player = dark;
  turn_number = pos 1;
  row = some (pos 2);
  col = some (pos 3);
  placed_color = some 90;
  changes = elems (record { row = pos 0; col = pos 0; color = 145 } ∷ []);
}

abbrev pub opened : Response
opened = record { version = version; ok = true; state = some opening; event = none; error = none }

-- An engine that answers everything with the opening.
abbrev pub engine : Runner
engine request = answer opened

opened-valid : response_validate opened ≡ none
unfolding response_validate state_validate text_dec player_valid phase_valid in_bounds
opened-valid = refl

pub engine-IsContract : IsContract engine
engine-IsContract request a h =
    subst (λ r. IsValidResponse r) (ground (arith, h))
      ((response_validate_iff opened).0 opened-valid)

abbrev pub alice : Text
alice = codes "alice"

abbrev pub bob : Text
bob = codes "bob"
