-- ===== src/Tests/Contract.antt =====
-- The contract's checks and the runtime, on concrete values.
use nadesiko_reversi.Prelude.{◌≡◌, ◌↔◌, refl, none, some, [], codes, text_dec}
use nadesiko_reversi.Protocol.Types.{Request, Action, new_error, version, unsupported_version}
use nadesiko_reversi.Protocol.Validate.{state_validate, request_validate, response_validate}
use nadesiko_reversi.Protocol.Validate.States.{IsValidState, state_validate_iff}
use nadesiko_reversi.Protocol.Validate.Requests.{IsValidResponse, response_validate_iff}
use nadesiko_reversi.Runtime.{RunOutcome, printed, rejected, evaluate}
use nadesiko_reversi.Runtime.Contract.{evaluate-IsContract}
use nadesiko_reversi.Tests.Values.{opening, ending, placing, opened}

state_validate_iff_example : (state_validate ending ≡ none) ↔ IsValidState ending
state_validate_iff_example = state_validate_iff ending

abbrev applying : Request
applying = record {
  version = version;
  action = Action.apply_command;
  game_id = [];
  seed = none;
  state = some opening;
  command = some placing;
}

response_validate_iff_example : (response_validate opened ≡ none) ↔ IsValidResponse opened
response_validate_iff_example = response_validate_iff opened

-- A process that prints the opening whatever it is asked, and a request of another version.
abbrev prints_opening : Request → RunOutcome
prints_opening request = printed (some opened)

abbrev of_version_2 : Request
of_version_2 = record applying { version = codes "2" }

evaluate-IsContract_example :
    IsValidResponse (rejected (new_error unsupported_version "対応していないバージョンです"))
unfolding evaluate request_validate text_dec
evaluate-IsContract_example = evaluate-IsContract prints_opening of_version_2 _ refl
