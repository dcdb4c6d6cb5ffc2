-- ===== src/Tests/Managers.antt =====
-- The manager, on concrete values: alice has joined one room, another one is open.
use nadesiko_reversi.Prelude.{Text, refl, ℕ, ◌≡◌, ◌≢◌, some, [], ◌∷◌, codes, text_dec, arith}
use nadesiko_reversi.Match.Manager.Names.{Fresh, here, next, joins, Reach-Fresh}
use nadesiko_reversi.Match.Manager.Refusals.{join-closed_room}
use nadesiko_reversi.Match.Types.{RoomPhase}
use nadesiko_reversi.Prelude.Assoc.{lookup}
use nadesiko_reversi.Match.Room.{Room, plain, new_room}
use nadesiko_reversi.Match.Manager.{join, refused, new_manager, Manager}
use nadesiko_reversi.Tests.Values.{engine, alice, bob}

abbrev busy : Manager
busy = record {
  rooms =
      (codes "room-1", new_room (codes "room-1") 7)
      ∷ (codes "room-2", new_room (codes "room-2") 8)
      ∷ [];
  players = (alice, codes "room-1") ∷ [];
  waiting = codes "room-2";
  next_id = 2;
}

alice-room : lookup alice busy.players ≢ some (codes "room-2")
unfolding lookup text_dec
alice-room = λ e. ground (arith, e)

abbrev seven : Text → ℕ
seven name = 7

abbrev pub joined_twice : Manager
joined_twice = (join engine seven (join engine seven new_manager alice).0 bob).0

Reach-Fresh_example : Fresh joined_twice
Reach-Fresh_example =
    Reach-Fresh (next (next here (joins engine seven alice)) (joins engine seven bob))

abbrev finished_room : Room
finished_room = record (new_room (codes "room-1") 7) { phase = RoomPhase.closed }

abbrev after_game : Manager
after_game = record busy { rooms = (codes "room-1", finished_room) ∷ [] }

alice-named : alice ≢ []
alice-named e = cc

alice-joined : lookup alice after_game.players ≡ some (codes "room-1")
unfolding lookup text_dec
alice-joined = refl

alice-finished : lookup (codes "room-1") after_game.rooms ≡ some finished_room
unfolding lookup text_dec new_room
alice-finished = refl

join-closed_room_example :
    (join engine seven after_game alice).1
    ≡ refused (record { player_id = alice; message = plain "roomは終了しています" })
join-closed_room_example =
    join-closed_room engine seven after_game alice (codes "room-1") finished_room alice-named
      alice-joined alice-finished refl
