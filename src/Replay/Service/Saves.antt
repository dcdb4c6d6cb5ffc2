-- ===== src/Replay/Service/Saves.antt =====
-- What a save leaves in the store, and what is read back.
use nadesiko_reversi.Prelude.{
  ◌≡◌, ◌≢◌, ◌∙◌, sym, ap, refl, subst, true, Option, none, some, Text, text_eq, text_dec, arith,
  if_cases,
}
use nadesiko_reversi.Prelude.Assoc.{lookup, lookup-insert}
use nadesiko_reversi.Replay.Types.{GameRecord, Script, Outline, Result}
use nadesiko_reversi.Replay.Record.{game_id_valid, clone_record}
use nadesiko_reversi.Replay.Store.{Entry, clone_entry, MemoryStore, new_store, save, entry, get}
use nadesiko_reversi.Replay.Store.Reads.{get-save}
use nadesiko_reversi.Replay.Replayer.{
  Decoded, decoded, undecodable, Replayed, replayed, failed, result_record, replay_with, replay,
  ReplayError,
}
use nadesiko_reversi.Replay.Replayer.Checks.{replay-IsFinished}
use nadesiko_reversi.Replay.Decode.{Decoder, decode}
use nadesiko_reversi.Replay.Decode.Checks.{Sound, decode-Sound}
use nadesiko_reversi.Replay.Service.{
  Answer, done, refused, ServiceError, of_replay, answer_of, save_replayed, save_source, source,
  text_of, replay_source, replay_game,
}

-- What a replay was made from.
replay-decoded :
    (text : Text) (x : Decoded) (r : Result)
    → replay text x ≡ replayed r
    → (s : Script) × (o : Outline) × (x ≡ decoded s o) × (r.script ≡ s)
unfolding replay replay_with
replay-decoded text (decoded s o) r e = (s, o, refl, (replay-IsFinished text s o r e).0)
replay-decoded text (undecodable err) r e = absurd cc

-- A record that replays has a valid id.
pub replay-named :
    (d : Decoder) (text : Text) (r : Result)
    → replay text (decode d text) ≡ replayed r
    → game_id_valid r.script.game_id ≡ true
replay-named d text r e =
    let (s, o, k, same) = replay-decoded text (decode d text) r e in
    let sound : Sound text s o = decode-Sound d text s o k in
    ap (λ (x : Script). game_id_valid x.game_id) same ∙ sound.checked.named

-- What SaveSource leaves for a record that replays to `r`: the answer, the text under the id of
-- the game, a replay that gives the same, and the other games as they were.
pub record Kept (d : Decoder) (s : MemoryStore) (text : Text) (r : Result) : Type 0 where
  pub answer : (save_source d s text).1 ≡ done (result_record r)
  pub text_kept : source (save_source d s text).0 r.script.game_id ≡ done text
  pub replays : replay_game d (save_source d s text).0 r.script.game_id ≡ done r
  pub others : (id : Text) → r.script.game_id ≢ id → get (save_source d s text).0 id ≡ get s id

-- The entry of SaveSource.
abbrev saved_entry : Text → Result → Entry
saved_entry text r = record { game = result_record r; source = text }

save_source-save :
    (d : Decoder) (s : MemoryStore) (text : Text) (r : Result)
    → replay text (decode d text) ≡ replayed r
    → save_source d s text ≡ ((save s (saved_entry text r)).0, done (result_record r))
unfolding save_source save_replayed save result_record
save_source-save d s text r e = rw (e, replay-named d text r e, save_replayed) refl

get-same :
    (s : MemoryStore) (text : Text) (r : Result)
    → game_id_valid r.script.game_id ≡ true
    → get (save s (saved_entry text r)).0 r.script.game_id
      ≡ entry (clone_entry (saved_entry text r))
unfolding result_record text_dec
get-same s text r ok = get-save s (saved_entry text r) r.script.game_id ok ∙ ground arith

get-other :
    (s : MemoryStore) (text id : Text) (r : Result)
    → game_id_valid r.script.game_id ≡ true
    → r.script.game_id ≢ id
    → get (save s (saved_entry text r)).0 id ≡ get s id
unfolding result_record
get-other s text id r ok h = get-save s (saved_entry text r) id ok ∙ ground (arith, h)

-- A record that replays to its end is always saved. Its text is found under the id of its game and replays to the same result, and every other game is found as before.
pub save_source-Kept :
    (d : Decoder) (s : MemoryStore) (text : Text) (r : Result)
    → replay text (decode d text) ≡ replayed r
    → Kept d s text r
unfolding source replay_game replay_source clone_entry
save_source-Kept d s text r e =
    let ok = replay-named d text r e in
    let step = save_source-save d s text r e in
    let found =
      ap (λ (x : MemoryStore × Answer GameRecord). get x.0 r.script.game_id) step
      ∙ get-same s text r ok in
    record {
      answer = ap (λ (x : MemoryStore × Answer GameRecord). x.1) step;
      text_kept = ap text_of found;
      replays =
          ap (λ x. replay_source (λ t. replay t (decode d t)) (text_of x)) found ∙ ap answer_of e;
      others = λ id h.
          ap (λ (x : MemoryStore × Answer GameRecord). get x.0 id) step
          ∙ get-other s text id r ok h;
    }

-- SaveSource fails with the error of the replay only, and then leaves the store as it was.
pub save_source-refused :
    (d : Decoder) (s : MemoryStore) (text : Text) (e : ServiceError)
    → (save_source d s text).1 ≡ refused e
    → ((save_source d s text).0 ≡ s)
      × (err : ReplayError) × (replay text (decode d text) ≡ failed err)
      × (e ≡ of_replay err)
unfolding save_source save_replayed
save_source-refused d s text e given = by_replay (replay text (decode d text)) refl given
  where
    by_replay :
        (x : Replayed)
        → replay text (decode d text) ≡ x
        → (save_replayed s text x).1 ≡ refused e
        → ((save_replayed s text x).0 ≡ s)
          × (err : ReplayError) × (x ≡ failed err)
          × (e ≡ of_replay err)
    by_replay (failed err) k h = (refl, err, refl, cc)
    by_replay (replayed r) k h =
        let saved : done (result_record r) ≡ refused e =
          sym (save_source-Kept d s text r k).answer ∙ given in
        absurd cc

-- An entry whose text replays to the game in it, which is the game of the id.
abbrev pub Replays : Decoder → Text → Option Entry → Type 0
Replays d id none = Unit {0}
Replays d id (some e) =
    (r : Result) × (replay e.source (decode d e.source) ≡ replayed r)
    × (e.game ≡ clone_record (result_record r))
    × (e.game.game_id ≡ id)

saved-Replays :
    (d : Decoder) (s : MemoryStore) (text id : Text) (r : Result)
    → replay text (decode d text) ≡ replayed r
    → ((id : Text) → Replays d id (lookup id s.entries))
    → Replays d id (lookup id (save s (saved_entry text r)).0.entries)
unfolding save clone_entry result_record clone_record
saved-Replays d s text id r e v =
    let ok = replay-named d text r e in
    rw (ok, lookup-insert r.script.game_id id (clone_entry (saved_entry text r)) s.entries)
      (if_cases (Replays d id) (text_eq r.script.game_id id) _ _
        (λ same. (r, e, refl, ground (arith, same))) (λ apart. v id))

save_source-Replays :
    (d : Decoder) (s : MemoryStore) (text id : Text)
    → ((id : Text) → Replays d id (lookup id s.entries))
    → Replays d id (lookup id (save_source d s text).0.entries)
unfolding save_source save_replayed
save_source-Replays d s text id v = by_replay (replay text (decode d text)) refl
  where
    by_replay :
        (x : Replayed)
        → replay text (decode d text) ≡ x
        → Replays d id (lookup id (save_replayed s text x).0.entries)
    by_replay (failed err) k = v id
    by_replay (replayed r) k =
        subst (λ (x : MemoryStore × Answer GameRecord). Replays d id (lookup id x.0.entries))
          (sym (save_source-save d s text r k) ∙ ap (save_replayed s text) k)
          (saved-Replays d s text id r k v)

-- A history of SaveSource calls on a new store, some of which may be refused.
pub data Sourced (d : Decoder) : MemoryStore → Type 0 where
  empty : Sourced d new_store
  next : {t : MemoryStore} (text : Text) → Sourced d t → Sourced d (save_source d t text).0

-- Whatever texts are given to SaveSource, the store holds only records that replay to their end: each stored text replays, to the game that is stored with it under its own id.
pub Sourced-Replays :
    (d : Decoder) (s : MemoryStore) (id : Text) → Sourced d s → Replays d id (lookup id s.entries)
unfolding lookup
Sourced-Replays d s id empty = tt
Sourced-Replays d s id (next {t} text path) =
    save_source-Replays d t text id (λ j. Sourced-Replays d t j path)
