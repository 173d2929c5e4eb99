-- ===== src/Macros/Builder.antt =====
-- The builder of a job that the macro made: the arguments of the attribute as its defaults.
use sqlxmq.Prelude.{
  ℕ, ◌≡◌, sym, ◌∙◌, ap, List, Option, none, some, some_injective, not-none-some, Option-cases, inl,
  inr, arith,
}
use sqlxmq.Spawn.{JobBuilder}
use sqlxmq.Macros.{NestedMeta}
use sqlxmq.Macros.Args.{JobOptions, SynError, Parsers, empty_options, interpret_job_args}
use sqlxmq.Macros.Expand.{MaybeItemFn, Expanded, chain_of, expand, job}
use sqlxmq.Macros.Static.{Scope, set_all, named_job}

abbrev pub get_or {ℓ} : {A : Type ℓ} → Option A → A → A
get_or none x = x
get_or (some a) x = a

module _ {F C E R : Type 0} where
  abbrev pub prototype : Scope F C E R → JobOptions F → JobBuilder → JobBuilder
  prototype sc o b = elim o.proto [ none ↦ b | some proto ↦ sc.proto proto b ]

  abbrev pub backoff_of : Scope F C E R → Option F → Option ℕ
  backoff_of sc none = none
  backoff_of sc (some x) = some (sc.from_secs_f64 x)

  -- What the prototype makes of a builder, with every explicit option in place of its own.
  abbrev pub with_defaults : Scope F C E R → JobOptions F → JobBuilder → JobBuilder
  with_defaults sc o b =
      let p = prototype sc o b in
      record p {
        channel_name = get_or o.channel_name p.channel_name;
        retries = get_or o.retries p.retries;
        retry_backoff = get_or (backoff_of sc o.backoff_secs) p.retry_backoff;
        ordered = get_or o.ordered p.ordered;
      }

  pub set_all-chain_of :
      (sc : Scope F C E R) (o : JobOptions F) (b : JobBuilder)
      → set_all sc (chain_of o) b ≡ with_defaults sc o b
  unfolding set_all chain_of
  set_all-chain_of sc o b = ground arith

module _ {F T : Type 0} where
  pub job_expanded :
      (ps : Parsers F) (args : List NestedMeta) (f : MaybeItemFn T) (x : Expanded F T)
      → job ps args f ≡ some x
      → (o : JobOptions F) × (errors : List SynError) × (interpret_job_args ps empty_options args
          ≡ some (o, errors))
        × (x ≡ expand o errors f)
  unfolding job
  job_expanded ps args f x h = elim (Option-cases (interpret_job_args ps empty_options args)) [
    | inl e ↦ absurd (not-none-some (sym (ap expand_all e) ∙ h))
    | inr ((o, errors), e) ↦ (o, errors, e, some_injective (sym h ∙ ap expand_all e))
  ]
    where
      expand_all : Option (JobOptions F × List SynError) → Option (Expanded F T)
      expand_all r = elim r [
        | none ↦ none
        | some (options, errors) ↦ some (expand options errors f)
      ]

module _ {F C E R T : Type 0} where
  -- The builder of a job that the macro made is what the prototype makes of the new builder, if one was
  -- given, with the channel, the retries, the backoff and the order of the explicit arguments in
  -- place of the prototype's: whatever the order of the arguments, explicit ones win.
  pub job-build_fn :
      (ps : Parsers F) (sc : Scope F C E R) (args : List NestedMeta) (f : MaybeItemFn T)
      (x : Expanded F T)
      → job ps args f ≡ some x
      → (o : JobOptions F) × (errors : List SynError) × (interpret_job_args ps empty_options args
          ≡ some (o, errors))
        × (x.errors ≡ errors)
        × ((b : JobBuilder) → (named_job sc x).build_fn b ≡ with_defaults sc o b)
  unfolding named_job expand
  job-build_fn ps sc args f x h =
      let (o, errors, e, q) = job_expanded ps args f x h in
      (
        o,
        errors,
        e,
        ap (λ (y : Expanded F T). y.errors) q,
        λ b. ap (λ (y : Expanded F T). (named_job sc y).build_fn b) q ∙ set_all-chain_of sc o b,
      )
