-- ===== src/Scenarios/Start.antt =====
-- The tables that a test starts with.
use sqlxmq.Prelude.{
  ◌≡◌, refl, sym, ap, ◌∙◌, subst, Bool, not, List, [], ◌∷◌, none, some, ◌==◌, All, Memᴰ, ok,
  >>=-eq-ok, ok_injective,
}
use sqlxmq.Store.{Message, Database, uuid_nil}
use sqlxmq.Store.Poll.Claim.{Distinct}
use sqlxmq.Store.Remove.{delete_where, clear_all, clear_where}
use sqlxmq.Store.Consistent.{IsConsistent}
use sqlxmq.Store.Consistent.Clear.{clear_all_lem}
use sqlxmq.Scenarios.{test_pool}

only_one :
    (ms : List Message)
    → All (λ m. m.id ≡ uuid_nil) ms
    → Distinct ms
    → (b : Message) → Memᴰ b ms
    → ms ≡ b ∷ []
only_one [] h d b k = elim k [ ]
only_one (m ∷ []) h d b (Memᴰ.head e) = ap (λ (x : Message). x ∷ []) (sym e)
only_one (m ∷ []) h d b (Memᴰ.tail k) = elim k [ ]
only_one (m ∷ n ∷ ms) h d b k = absurd (d.0.0 (h.1.0 ∙ sym h.0))

cleared :
    (db : Database) (ms : List Message) (gone : Message → Bool) (ps' : Database)
    → clear_where gone db ≡ ok ps'
    → ps'.messages ≡ ms
    → delete_where gone db.messages ≡ ok ms
unfolding clear_where
cleared db ms gone db' e same =
    let (left, e₁, e₂) = >>=-eq-ok (delete_where gone db.messages) _ e in
    e₁
    ∙ ap (λ (x : List Message). ok x) (ap (λ (d : Database). d.messages) (ok_injective e₂) ∙ same)

-- In a consistent table, the pool is there, with the nil message alone and no payload.
pub test_pool-ok :
    (db : Database)
    → IsConsistent db.messages
    → (z : Message) × (test_pool db ≡ some (record db { messages = z ∷ []; payloads = [] }))
      × (z.id ≡ uuid_nil)
      × (z.after_message_id ≡ none)
      × IsConsistent (z ∷ [])
unfolding test_pool clear_all
test_pool-ok db c =
    let (e, c', h) = clear_all_lem db c in
    let (z, k, is_nil, first) = c'.has_nil in
    let one = only_one _ h c'.distinct z k in
    let gone = λ (m : Message). not (m.id == uuid_nil) in
    (
      z,
      rw (cleared db (z ∷ []) gone _ e one, test_pool) refl,
      is_nil,
      first,
      subst IsConsistent one c',
    )
