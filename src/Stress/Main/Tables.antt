-- ===== src/Stress/Main/Tables.antt =====
-- What an update of the rows and the completion of a job make of the tables that the stress program
-- works on.
use sqlxmq.Prelude.{
  ℕ, String, ◌≡◌, ◌≢◌, refl, sym, ap, ◌∙◌, subst, Bool, false, not, List, [], ◌∷◌, Option, ◌==◌,
  any, any-false, none_of_any, elem, filter, Memᴰ, Memᴰ-filter, ok, Fallible, >>=-eq-ok,
  ok_injective,
}
use sqlxmq.Store.{Message, Payload, Database, uuid_nil}
use sqlxmq.Store.Poll.{PolledMessage, claim, claim_messages}
use sqlxmq.Store.Poll.Concurrent.{claim_inversion}
use sqlxmq.Store.Remove
use sqlxmq.Store.Remove.{head_channels}
use sqlxmq.Store.Insert.{notify_channels}
use sqlxmq.Store.Consistent.{IsConsistent}
use sqlxmq.Store.Consistent.Update.{Updated, Updated-old, Claims-Updated}
use sqlxmq.Store.Consistent.Remove.{kept, kept-member, delete_where_head}
use sqlxmq.Runner.{CurrentJob}
use sqlxmq.Runner.Job.{complete}
use sqlxmq.Runner.Job.Complete.{IsHead, complete-ok}
use sqlxmq.Stress.{Start}
use sqlxmq.Stress.Jobs.{IsFresh}

-- The messages `after` all have ids of `before`.
abbrev pub KeepIds : List Message → List Message → Type 0
KeepIds before after = (m : Message) → Memᴰ m after → (b : Message) × Memᴰ b before × (m.id ≡ b.id)

any-filter {ℓ} :
    {A : Type ℓ} (p q : A → Bool) (xs : List A) → any p xs ≡ false → any p (filter q xs) ≡ false
any-filter p q xs h = any-false p (filter q xs) λ x k. none_of_any p xs x h (Memᴰ-filter q x xs k).0

no_message-KeepIds :
    (before after : List Message) (id : ℕ)
    → KeepIds before after
    → any (λ (m : Message). m.id == id) before ≡ false
    → any (λ (m : Message). m.id == id) after ≡ false
no_message-KeepIds before after id keep h =
    any-false (λ (m : Message). m.id == id) after
      λ m k.
        let (b, kb, same) = keep m k in
        ap (λ i. i == id) same ∙ none_of_any (λ (m : Message). m.id == id) before b h kb

-- An id that neither table has is in neither after messages or payloads have gone.
pub IsFresh-fewer :
    (db db' : Database) (q : Payload → Bool) (s : Start)
    → KeepIds db.messages db'.messages
    → db'.payloads ≡ filter q db.payloads
    → IsFresh db s
    → IsFresh db' s
IsFresh-fewer db db' q s keep e f = record {
  no_message = no_message-KeepIds db.messages db'.messages s.drawn keep f.no_message;
  no_payload =
      subst (λ ps. any (λ (p : Payload). p.id == s.drawn) ps ≡ false) (sym e)
        (any-filter (λ (p : Payload). p.id == s.drawn) q db.payloads f.no_payload);
}

-- It is in neither after an UPDATE of the messages.
pub IsFresh-same :
    (db db' : Database) (s : Start)
    → KeepIds db.messages db'.messages
    → db'.payloads ≡ db.payloads
    → IsFresh db s
    → IsFresh db' s
IsFresh-same db db' s keep e f = record {
  no_message = no_message-KeepIds db.messages db'.messages s.drawn keep f.no_message;
  no_payload = subst (λ ps. any (λ (p : Payload). p.id == s.drawn) ps ≡ false) (sym e) f.no_payload;
}

pub KeepIds-Updated : {ms ms' : List Message} → Updated ms ms' → KeepIds ms ms'
KeepIds-Updated u m k = let (b, kb, l) = Updated-old m u k in (b, kb, l.same_id)

pub KeepIds-kept : (id : ℕ) (ms : List Message) (c : IsConsistent ms) → KeepIds ms (kept id ms c)
KeepIds-kept id ms c m k = let (b, kb, _, v) = kept-member id ms c m k in (b, kb, v.same_id)

-- An UPDATE of messages that leaves the payloads alone.
abbrev pub Updates : Database → Database → Type 0
Updates db db' = Updated db.messages db'.messages × (db'.payloads ≡ db.payloads)

pub claim-Updates :
    (now : ℕ) (names : Option (List String)) (ids : List ℕ) (db db' : Database)
    (rows : List PolledMessage)
    → claim now names ids db ≡ ok (db', rows)
    → Updates db db'
unfolding claim
claim-Updates now names ids db db' rows e =
    (Claims-Updated (claim_inversion now names ids db db' rows e).1, same_payloads e)
  where
    same_payloads : claim now names ids db ≡ ok (db', rows) → db'.payloads ≡ db.payloads
    same_payloads e =
        let (r, e₁, e₂) = >>=-eq-ok (claim_messages now ids db.messages) _ e in
        sym (ap (λ (p : Database × List PolledMessage). p.0.payloads) (ok_injective e₂))

-- The tables after a message at the head of its channel is deleted.
abbrev without_job : CurrentJob → (db : Database) → IsConsistent db.messages → Database
unfolding head_channels notify_channels
without_job job db c = record {
  messages = kept job.id db.messages c;
  payloads = filter (λ (p : Payload). not (elem p.id (job.id ∷ []))) db.payloads;
  notified = notify_channels (head_channels (job.id ∷ []) db.messages) db.notified;
}

delete_head :
    (job : CurrentJob) (db : Database) (c : IsConsistent db.messages)
    → job.id ≢ uuid_nil
    → IsHead job.id db
    → Remove.delete (job.id ∷ []) db ≡ ok (without_job job db c)
unfolding Remove.delete
delete_head job db c ne head = rw (delete_where_head job.id db.messages c ne head) refl

-- Completing a job at the head of its channel, with the tables that it leaves.
pub complete_kept :
    (job : CurrentJob) (db : Database) (c : IsConsistent db.messages)
    → job.id ≢ uuid_nil
    → IsHead job.id db
    → (db' : Database) × ((complete job db).0 ≡ ok db')
      × (db'.messages ≡ kept job.id db.messages c)
      × (db'.payloads ≡ filter (λ (p : Payload). not (elem p.id (job.id ∷ []))) db.payloads)
unfolding without_job
complete_kept job db c ne head =
    let db' = without_job job db c in
    let e = complete-ok job db db' (delete_head job db c ne head) in
    (db', ap (λ (r : Fallible Database × CurrentJob). r.0) e, refl, refl)
