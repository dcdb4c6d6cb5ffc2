-- ===== src/Tests/LocalGame.antt =====
-- The local service, on concrete values.
use nadesiko_reversi.Prelude.{◌≢◌, refl, false, none, some, codes, arith}
use nadesiko_reversi.Protocol.Types.{version, Action, Request}
use nadesiko_reversi.Protocol.Validate.States.{IsValidState}
use nadesiko_reversi.Protocol.Validate.Requests.{IfGiven}
use nadesiko_reversi.Local.{Service, new_service, evaluate, serve}
use nadesiko_reversi.Local.Laws.{Effect, evaluate-Effect, here, next, Served-valid}
use nadesiko_reversi.Local.Answers.{Shows, answers_with_state}
use nadesiko_reversi.Tests.Values.{opening, placing, engine, engine-IsContract}

abbrev starting : Request
starting = record {
  version = version;
  action = Action.new_game;
  game_id = codes "local";
  seed = some 7;
  state = none;
  command = none;
}

abbrev moving : Request
moving = record starting { action = Action.apply_command; command = some placing }

abbrev under_way : Service
under_way = record { state = some opening }

evaluate-Effect_example : Effect engine under_way moving (evaluate engine under_way moving)
evaluate-Effect_example = evaluate-Effect engine under_way moving

Served-valid_example :
    IfGiven IsValidState (evaluate engine (evaluate engine new_service starting).0 moving).0.state
Served-valid_example =
    Served-valid
      (next engine moving engine-IsContract (next engine starting engine-IsContract here)) (tt)

answers_with_state_example : Shows (evaluate engine under_way moving).1
answers_with_state_example = answers_with_state engine under_way opening moving refl refl

bad_page : (serve engine under_way (some moving) false).1.0 ≢ 200
unfolding serve
bad_page = λ e. ground (arith, e)
