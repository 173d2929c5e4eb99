-- ===== src/Macros/Run.antt =====
-- A job that the macro made, in a registry: what becomes of a polled job of its name.
use sqlxmq.Prelude.{
  ℕ, String, ◌≡◌, refl, sym, ◌∙◌, ap, subst, List, [], ◌∷◌, Option, none, some, Option-cases, inl,
  inr, map, Memᴰ,
}
use sqlxmq.Spawn.{JobBuilder}
use sqlxmq.Spawn
use sqlxmq.Runner.{CurrentJob}
use sqlxmq.Registry.{
  BoxedError, job_error, Environment, NamedJob, JobRegistry, new, dispatch, builder, context,
  spawn_internal,
}
use sqlxmq.Registry.Dispatch.{dispatch-registered}
use sqlxmq.Macros.{NestedMeta, MetaPath}
use sqlxmq.Macros.Args.{JobOptions, SynError, Parsers}
use sqlxmq.Macros.Expand.{MaybeItemFn, Expanded, registry_context, expand, job}
use sqlxmq.Macros.Static.{Scope, contexts, fq_text, run, named_job}
use sqlxmq.Macros.Builder.{prototype, job_expanded, set_all-chain_of}

module _ {C E R : Type 0} where
  -- The context of each type, in order: none where one is missing.
  abbrev pub context_all : Environment C E R → List String → Option (List C)
  context_all e [] = some []
  context_all e (type_name ∷ types) = elim (context type_name e) [
    | none ↦ none
    | some c ↦ elim (context_all e types) [ none ↦ none | some cs ↦ some (c ∷ cs) ]
  ]

  contexts_all :
      (e : Environment C E R) (types : List String)
      → contexts types (map (λ _. registry_context) types) e ≡ context_all e types
  unfolding contexts
  contexts_all e [] = refl
  contexts_all e (type_name ∷ types) = elim (Option-cases (context type_name e)) [
    | inl p ↦ rw (p, contexts, context_all) refl
    | inr (c, p) ↦ rw (p, contexts, context_all) (rw (contexts_all e types) refl)
  ]

  -- What is left of a job whose future has ended.
  abbrev pub outcome : (String → R) → Environment C E R → String → Option E → R
  outcome log e name none = log name
  outcome log e name (some x) = e.error_handler name (job_error x)

  spawn_internal-outcome :
      (log : String → R) (name : String) (ended : Option E) (e : Environment C E R)
      → spawn_internal log name ended e ≡ outcome log e name ended
  unfolding spawn_internal
  spawn_internal-outcome log name none e = refl
  spawn_internal-outcome log name (some x) e = refl

module _ {F C E R : Type 0} where
  -- What a job leaves whose function has arguments of these types after the first.
  abbrev pub run_with : Scope F C E R → List String → Environment C E R → CurrentJob → R
  run_with sc types e current = elim (context_all e types) [
    | none ↦ sc.panic
    | some cs ↦ outcome sc.log e current.name (sc.inner current cs)
  ]

  prototype_name :
      (sc : Scope F C E R) (o : JobOptions F) (b : JobBuilder)
      → ((p : MetaPath) (b : JobBuilder) → (sc.proto p b).name ≡ b.name)
      → (prototype sc o b).name ≡ b.name
  prototype_name sc o b keeps = elim (Option-cases o.proto) [
    | inl e ↦ rw e refl
    | inr (p, e) ↦ rw e (keeps p b)
  ]

module _ {F C E R T : Type 0} where
  module _ (sc : Scope F C E R) (o : JobOptions F) (errors : List SynError) (f : MaybeItemFn T)
      (first : String) (types : List String) (inputs : f.sig.inputs ≡ first ∷ types) where
    runs :
        (e : Environment C E R) (current : CurrentJob)
        → current.name ≡ (named_job sc (expand o errors f)).name
        → run sc (expand o errors f) e current ≡ run_with sc types e current
    unfolding run expand named_job spawn_internal
    runs e current name = rw inputs (
        rw (contexts_all e types) (elim (Option-cases (context_all e types)) [
          | inl none_of ↦ rw (none_of, run_with) refl
          | inr (cs, all) ↦
              rw (all, run_with)
                (spawn_internal-outcome sc.log _ (sc.inner current cs) e
                  ∙ ap (λ name. outcome sc.log e name (sc.inner current cs)) (sym name))
        ]))

  builder-expand_name :
      (sc : Scope F C E R) (o : JobOptions F) (errors : List SynError) (f : MaybeItemFn T)
      (drawn : ℕ)
      → ((p : MetaPath) (b : JobBuilder) → (sc.proto p b).name ≡ b.name)
      → (builder drawn (named_job sc (expand o errors f))).name
        ≡ (named_job sc (expand o errors f)).name
  unfolding builder named_job expand Spawn.new
  builder-expand_name sc o errors f drawn keeps =
      let name = fq_text sc.module_path (expand o errors f).fq_name in
      let b = Spawn.new drawn name in
      ap (λ (b : JobBuilder). b.name) (set_all-chain_of sc o b) ∙ prototype_name sc o b keeps

  -- A registry that was made of jobs with one of the macro's among them, whatever handler and contexts
  -- it was given since, runs a job of the name that the macro's builder spawns, where prototypes
  -- keep the name: the function gets the job and the contexts of its further arguments, and its error
  -- goes to the handler under that name. Where a context is missing it panics.
  pub dispatch-named_job :
      (ps : Parsers F) (sc : Scope F C E R) (args : List NestedMeta) (f : MaybeItemFn T)
      (x : Expanded F T) (first : String) (types : List String) (log : String → BoxedError E → R)
      (jobs : List (NamedJob C E R)) (made r : JobRegistry C E R) (drawn : ℕ) (current : CurrentJob)
      → job ps args f ≡ some x
      → f.sig.inputs ≡ first ∷ types
      → ((p : MetaPath) (b : JobBuilder) → (sc.proto p b).name ≡ b.name)
      → new log jobs ≡ some made
      → Memᴰ (named_job sc x) jobs
      → r.job_map ≡ made.job_map
      → current.name ≡ (builder drawn (named_job sc x)).name
      → dispatch r current ≡ run_with sc types r.environment current
  unfolding named_job
  dispatch-named_job ps sc args f x first types log jobs made r drawn current h inputs keeps n k
        same name =
      let (o, errors, _, q) = job_expanded ps args f x h in
      let k' = subst (λ y. Memᴰ (named_job sc y) jobs) q k in
      let name' =
        subst (λ (y : Expanded F T). current.name ≡ (builder drawn (named_job sc y)).name) q name
        ∙ builder-expand_name sc o errors f drawn keeps in
      dispatch-registered log jobs made r (named_job sc (expand o errors f)) current n same k' name'
      ∙ runs sc o errors f first types inputs r.environment current name'
