-- ===== src/Spawn/Notify.antt =====
-- Who hears of a job that was spawned.
use sqlxmq.Prelude.{
  ℕ, String, ◌≡◌, refl, sym, ap, ◌∙◌, subst, true, List, [], ◌∷◌, map, Option, none, some, str_eq,
  str_eq_iff, concat, Memᴰ, Memᴰ-any, map-Memᴰ, ok,
}
use sqlxmq.Store.{Message, Database}
use sqlxmq.Store.Insert.{new_channels, notify_channels}
use sqlxmq.Store.Poll.{subscribes}
use sqlxmq.Runner.{JobRunnerOptions}
use sqlxmq.Runner.Loop.{listen_channels}
use sqlxmq.Spawn.{JobBuilder, bind_message, spawn}
use sqlxmq.Spawn.Effect.{spawn_inversion}

-- A channel that the runner listens on is among those notified.
abbrev pub Hears : JobRunnerOptions → List String → Type 0
Hears o sent = (c : String) × Memᴰ c (listen_channels o) × Memᴰ c sent

listens_to_all : (o : JobRunnerOptions) → o.channel_names ≡ none → listen_channels o ≡ "mq" ∷ []
unfolding listen_channels
listens_to_all o e = rw (e, listen_channels)

listens_to :
    (o : JobRunnerOptions) (names : List String)
    → o.channel_names ≡ some names
    → listen_channels o ≡ map (λ c. concat "mq_" c) names
unfolding listen_channels
listens_to o names e = rw (e, listen_channels)

pub Hears-of :
    (o : JobRunnerOptions) (names : Option (List String)) (m : Message) (sent : List String)
    → o.channel_names ≡ names
    → subscribes names m ≡ true
    → Memᴰ "mq" sent
    → Memᴰ (concat "mq_" m.channel_name) sent
    → Hears o sent
Hears-of o none m sent e h all one =
    ("mq", subst (Memᴰ "mq") (sym (listens_to_all o e)) (Memᴰ.head refl), all)
Hears-of o (some names) m sent e h all one =
    let (n, k, q) = Memᴰ-any (str_eq m.channel_name) names h in
    let same = (str_eq_iff m.channel_name n).0 q in
    (
      concat "mq_" n,
      subst (Memᴰ (concat "mq_" n)) (sym (listens_to o names e))
          (map-Memᴰ (λ c. concat "mq_" c) names k),
      subst (λ x. Memᴰ (concat "mq_" x) sent) same one,
    )

spawned_notifications :
    (b : JobBuilder) (sent : List String)
    → notify_channels (new_channels (bind_message b ∷ [])) sent
      ≡ "mq" ∷ concat "mq_" b.channel_name ∷ sent
unfolding notify_channels new_channels bind_message
spawned_notifications b sent = refl

-- A job runner that polls for the messages of a spawned job's channel listens on a channel that the
-- spawning notifies, whether it subscribes to all channels or to some.
pub spawn_notifies :
    (to_jsonb : String → Option String) (now id : ℕ) (b : JobBuilder) (db db' : Database)
    (o : JobRunnerOptions) (m : Message)
    → spawn to_jsonb now b db ≡ ok (db', id)
    → m.channel_name ≡ b.channel_name
    → subscribes o.channel_names m ≡ true
    → Hears o db'.notified
spawn_notifies to_jsonb now id b db db' o m e c h =
    let (r, ps, a, p, _) = spawn_inversion to_jsonb now b db db' id e in
    let sent = ap (λ (d : Database). d.notified) p ∙ spawned_notifications b db.notified in
    Hears-of o o.channel_names m db'.notified refl h (subst (Memᴰ "mq") (sym sent) (Memᴰ.head refl))
      (subst (Memᴰ (concat "mq_" m.channel_name)) (sym sent)
        (Memᴰ.tail (Memᴰ.head (ap (concat "mq_") c))))
