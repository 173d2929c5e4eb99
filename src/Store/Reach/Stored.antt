-- ===== src/Store/Reach/Stored.antt =====
-- The payloads of the messages, in every state that the queue's calls lead to.
use sqlxmq.Prelude.{
  ℕ, String, ◌≡◌, sym, ap, ◌∙◌, subst, not, List, [], ◌∷◌, map, filter, elem, Memᴰ, arith, ok,
  >>=-eq-ok, ok_injective, guard, Bool, Option,
}
use sqlxmq.Store.{
  Message, Payload, Database, uuid_nil, has_conflict, has_dangling, unique_violation,
  foreign_key_violation, after_index, after_fkey,
}
use sqlxmq.Store.Insert.{message_row}
use sqlxmq.Store.Remove.{relink, delete_where, delete}
use sqlxmq.Store.Poll.{PolledMessage, claim, claim_messages}
use sqlxmq.Store.Poll.Concurrent.{claim_inversion}
use sqlxmq.Store.Consistent.{IsConsistent}
use sqlxmq.Store.Consistent.Clear.{clear_lem, clear_all_lem}
use sqlxmq.Store.Consistent.Update.{
  Claims-Updated, commit-Updated, keep_alive-Updated, checkpoint-Updated,
}
use sqlxmq.Store.Payloads.{
  HasPayloads, Updated-HasPayloads, deleted-HasPayloads, cleared-HasPayloads,
  checkpoint_payload-Keyed, inserted-HasPayloads,
}
use sqlxmq.Store.Reach.{
  Step, Reach, empty_queue, here, next, spawned, committed, kept_alive, checkpointed, polled,
  deleted, cleared, cleared_all, Reach-IsConsistent,
}
use sqlxmq.Spawn.{JobBuilder, bind_message, spawn}
use sqlxmq.Spawn.Effect.{spawn_inversion}

abbrev pub IsStored : Database → Type 0
IsStored db = HasPayloads db.messages db.payloads

message_row_id :
    (now : ℕ) (b : JobBuilder) (ms : List Message) (r : Message)
    → message_row now (bind_message b ∷ []) ms (bind_message b) ≡ ok r
    → r.id ≡ (bind_message b).id
unfolding message_row
message_row_id now b ms r e = ground arith

pub claim-payloads :
    (now : ℕ) (names : Option (List String)) (ids : List ℕ) (db db' : Database)
    (rows : List PolledMessage)
    → claim now names ids db ≡ ok (db', rows)
    → db'.payloads ≡ db.payloads
unfolding claim
claim-payloads now names ids db db' rows e =
    let (r, _, e₂) = >>=-eq-ok (claim_messages now ids db.messages) _ e in
    ap (λ (x : Database × List PolledMessage). x.0.payloads) (sym (ok_injective e₂))

pub delete_where-ok :
    (gone : Message → Bool) (ms ms' : List Message)
    → delete_where gone ms ≡ ok ms'
    → ms' ≡ map (relink gone ms) (filter (λ m. not (gone m)) ms)
unfolding delete_where
delete_where-ok gone ms ms' e =
    let kept = map (relink gone ms) (filter (λ m. not (gone m)) ms) in
    let (_, _, e₁) =
      >>=-eq-ok (guard (not (has_conflict kept)) (unique_violation after_index)) _ e in
    let (_, _, e₂) =
      >>=-eq-ok (guard (not (has_dangling kept)) (foreign_key_violation after_fkey)) _ e₁ in
    sym (ok_injective e₂)

delete-IsStored :
    (ids : List ℕ) (db db' : Database) → delete ids db ≡ ok db' → IsStored db → IsStored db'
unfolding delete
delete-IsStored ids db db' e h =
    let (ms, e₁, e₂) = >>=-eq-ok (delete_where (λ m. elem m.id ids) db.messages) _ e in
    subst IsStored (ok_injective e₂) (
      subst (λ x. HasPayloads x (filter (λ (p : Payload). not (elem p.id ids)) db.payloads))
        (sym (delete_where-ok _ db.messages ms e₁)) (deleted-HasPayloads ids db h))

module _ (to_jsonb : String → Option String) where
  spawn-IsStored :
      (now : ℕ) (b : JobBuilder) (id : ℕ) (db db' : Database)
      → spawn to_jsonb now b db ≡ ok (db', id)
      → IsStored db
      → IsStored db'
  spawn-IsStored now b id db db' e h =
      let (r, ps, a, p, _) = spawn_inversion to_jsonb now b db db' id e in
      subst IsStored (sym p) (
        inserted-HasPayloads to_jsonb (bind_message b) r db.messages db.payloads ps a.payload
          (message_row_id now b db.messages r a.row) h)

  Step-IsStored :
      {db db' : Database}
      → IsConsistent db.messages
      → Step to_jsonb db db'
      → IsStored db
      → IsStored db'
  Step-IsStored {db} {db'} c (spawned now b id e) h = spawn-IsStored now b id db db' e h
  Step-IsStored {db} {db'} c (committed ids e) h =
      let (u, p) = commit-Updated ids db db' e in
      subst (HasPayloads db'.messages) (sym p) (Updated-HasPayloads _ _ db.payloads u h)
  Step-IsStored {db} {db'} c (kept_alive now ids duration e) h =
      let (u, p) = keep_alive-Updated now ids duration db db' e in
      subst (HasPayloads db'.messages) (sym p) (Updated-HasPayloads _ _ db.payloads u h)
  Step-IsStored {db} {db'} c (checkpointed now id duration json bytes extra e) h =
      let (u, p) = checkpoint-Updated to_jsonb now id duration json bytes extra db db' e in
      λ m k nn.
        checkpoint_payload-Keyed to_jsonb id m.id json bytes db.payloads db'.payloads p
          (Updated-HasPayloads _ _ db.payloads u h m k nn)
  Step-IsStored {db} {db'} c (polled now names ids rows e) h =
      subst (HasPayloads db'.messages) (sym (claim-payloads now names ids db db' rows e)) (
        Updated-HasPayloads _ _ db.payloads
          (Claims-Updated (claim_inversion now names ids db db' rows e).1) h)
  Step-IsStored {db} {db'} c (deleted ids safe e) h = delete-IsStored ids db db' e h
  Step-IsStored {db} c (cleared names e) h =
      let (p, _) = clear_lem names db c in
      subst IsStored (ok_injective (sym p ∙ e)) (cleared-HasPayloads _ db c.distinct h)
  Step-IsStored {db} c (cleared_all e) h =
      let (p, _, _) = clear_all_lem db c in
      subst IsStored (ok_injective (sym p ∙ e)) (cleared-HasPayloads _ db c.distinct h)

  -- However the calls on the queue follow one another from an empty queue, every message but the nil
  -- one has a payload.
  pub Reach-IsStored :
      {start : ℕ} {db : Database} → Reach to_jsonb (empty_queue start) db → IsStored db
  Reach-IsStored {start} here = λ m k nn. absurd (nn (alone m k))
    where
      alone : (m : Message) → Memᴰ m (empty_queue start).messages → m.id ≡ uuid_nil
      alone m (Memᴰ.head e) = ap (λ (x : Message). x.id) e
      alone m (Memᴰ.tail k) = elim k [ ]
  Reach-IsStored (next r s) = Step-IsStored (Reach-IsConsistent to_jsonb r) s (Reach-IsStored r)
