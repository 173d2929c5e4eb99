-- ===== src/Scenarios/Checkpoint.antt =====
-- The test `it_can_checkpoint_jobs`.
use sqlxmq.Prelude.{
  ℕ, suc, String, inl, inr, ◌+◌, ◌*◌, ◌≤◌, ◌<◌, ◌≡◌, ◌≢◌, refl, ap, ◌∙◌, Bool, List, [], ◌∷◌,
  Option, none, some, leb, arith, Bool-cases,
}
use sqlxmq.Store.{Message, Payload, Database, uuid_nil}
use sqlxmq.Store.Poll.Select.{Channel, Keeps}
use sqlxmq.Scenarios.{TestRun, pause, checkpoints}
use sqlxmq.Scenarios.Single.{alone}
use sqlxmq.Scenarios.Rounds.{at_rest, run_round-idle, run_round-alone}
use sqlxmq.Scenarios.Attempts.{runs, waiting, claim_message-waiting, not_ready, nil_not_ready}
use sqlxmq.Scenarios.Tasks.{emptied}
use sqlxmq.Scenarios.Saving.{IsState, run_task-saves, run_task-completes}
use sqlxmq.Scenarios.Spawned.{payload_of}

module _ (shuffle : List Channel → List Channel) (keeps : Keeps shuffle)
    (only : (c : Channel) → shuffle (c ∷ []) ≡ c ∷ []) (to_jsonb : String → Option String)
    (from_str : String → Option Bool) (to_string : Bool → Option String) (before after : String)
    (state : IsState to_jsonb from_str to_string before after) (z m : Message)
    (is_nil : z.id ≡ uuid_nil) (first : z.after_message_id ≡ none) (named : m.id ≢ uuid_nil)
    (free : m.after_message_id ≡ none) (committed : m.commit_interval ≡ none) (sent : List String)
    (permit : Bool) where
  unfoldable pub counted : List ℕ → Database → ℕ → ℕ
  counted times db counter =
      (pause shuffle (checkpoints to_jsonb from_str to_string) times
        (at_rest db permit counter [])).counter

  counted-emptied :
      (times : List ℕ) (counter : ℕ) → counted times (emptied z sent) counter ≡ counter
  unfolding counted pause
  counted-emptied [] counter = refl
  counted-emptied (now ∷ times) counter =
      ap
        (λ (s : TestRun). (pause shuffle (checkpoints to_jsonb from_str to_string) times s).counter)
        (run_round-idle shuffle keeps (checkpoints to_jsonb from_str to_string) now permit counter
          [] (emptied z sent) (nil_not_ready now z is_nil, tt))
      ∙ counted-emptied times counter

  counted-early :
      (n due b now counter : ℕ) (times : List ℕ) (p : Payload)
      → now < due
      → counted (now ∷ times) (alone z (waiting m n due b) p sent) counter
        ≡ counted times (alone z (waiting m n due b) p sent) counter
  unfolding counted pause
  counted-early n due b now counter times p h =
      ap
        (λ (s : TestRun). (pause shuffle (checkpoints to_jsonb from_str to_string) times s).counter)
        (run_round-idle shuffle keeps (checkpoints to_jsonb from_str to_string) now permit counter
          [] (alone z (waiting m n due b) p sent)
          (not_ready m n due b now (inr h), (nil_not_ready now z is_nil, tt)))

  counted-completes :
      (n due b now counter : ℕ) (times : List ℕ)
      → n < 2147483647
      → due ≤ now
      → counted
          (now ∷ times)
          (alone z (waiting m (suc n) due b) (payload_of m.id (some after)) sent)
          counter
        ≡ counted times (emptied z sent) (counter + 1)
  unfolding counted pause
  counted-completes n due b now counter times small h =
      ap
        (λ (s : TestRun). (pause shuffle (checkpoints to_jsonb from_str to_string) times s).counter)
        (run_round-alone shuffle keeps (checkpoints to_jsonb from_str to_string) now permit counter
            [] z (waiting m (suc n) due b) (waiting m n (now + b) (b * 2))
            (payload_of m.id (some after)) sent only is_nil named (rw free refl)
            (due, ground arith, h) (claim_message-waiting m n due b now small) refl committed
          ∙ run_task-completes to_jsonb from_str to_string before after state z m is_nil named sent
              n (now + b) (b * 2) now counter permit free first)

  counted-saves :
      (n due b now counter : ℕ) (times : List ℕ)
      → suc n < 2147483647
      → due ≤ now
      → counted
          (now ∷ times)
          (alone z (waiting m (suc (suc n)) due b) (payload_of m.id (some before)) sent)
          counter
        ≡ counted times
            (alone z (waiting m (suc n) (now + b) (b * 2)) (payload_of m.id (some after)) sent)
            (counter + 1)
  unfolding counted pause
  counted-saves n due b now counter times small h =
      ap
        (λ (s : TestRun). (pause shuffle (checkpoints to_jsonb from_str to_string) times s).counter)
        (run_round-alone shuffle keeps (checkpoints to_jsonb from_str to_string) now permit counter
            [] z (waiting m (suc (suc n)) due b) (waiting m (suc n) (now + b) (b * 2))
            (payload_of m.id (some before)) sent only is_nil named (rw free refl)
            (due, ground arith, h) (claim_message-waiting m (suc n) due b now small) refl committed
          ∙ run_task-saves to_jsonb from_str to_string before after state z m is_nil named sent n
              (now + b) (b * 2) now counter permit (omega arith) (omega arith))

  counted-saved :
      (times : List ℕ) (n due b counter : ℕ)
      → n < 2147483647
      → counted times
          (alone z (waiting m (suc n) due b) (payload_of m.id (some after)) sent)
          counter
        ≡ counter + runs 1 due b times
  unfolding runs counted pause
  counted-saved [] n due b counter h = omega arith
  counted-saved (now ∷ times) n due b counter h = elim (Bool-cases (leb due now)) [
    | inl on_time ↦
        counted-completes n due b now counter times h (ground arith)
        ∙ counted-emptied times (counter + 1)
        ∙ rw on_time refl
    | inr early ↦
        counted-early (suc n) due b now counter times (payload_of m.id (some after)) (ground arith)
        ∙ counted-saved times n due b counter h
        ∙ rw early refl
  ]

  pub counted-before :
      (times : List ℕ) (n due b counter : ℕ)
      → suc n < 2147483647
      → counted times
          (alone z (waiting m (suc (suc n)) due b) (payload_of m.id (some before)) sent)
          counter
        ≡ counter + runs 2 due b times
  unfolding runs counted pause
  counted-before [] n due b counter h = omega arith
  counted-before (now ∷ times) n due b counter h = elim (Bool-cases (leb due now)) [
    | inl on_time ↦
        counted-saves n due b now counter times h (ground arith)
        ∙ counted-saved times n (now + b) (b * 2) (counter + 1) (omega arith)
        ∙ rw on_time (omega arith)
    | inr early ↦
        counted-early (suc (suc n)) due b now counter times (payload_of m.id (some before))
          (ground arith)
        ∙ counted-before times n due b counter h
        ∙ rw early refl
  ]
