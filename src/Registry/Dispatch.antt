-- ===== src/Registry/Dispatch.antt =====
-- The dispatch of a job runner that was made from a registry.
use sqlxmq.Prelude.{
  String, ◌≡◌, refl, sym, ◌∙◌, inl, inr, Bool, false, ◌||◌, List, [], ◌∷◌, Memᴰ, none, some, str_eq,
  str_eq_iff, arith, All, ap, All-map, All-Memᴰ, All-of_Memᴰ, none_of_any, some_injective,
  not-none-some, subst,
}
use sqlxmq.Runner.{CurrentJob}
use sqlxmq.Registry.{
  BoxedError, unknown_job, Environment, NamedJob, JobRegistry, get, new, resolve_job, dispatch,
}
use sqlxmq.Registry.Lookup.{str_eq_sym, has_duplicate, named, new_lem}

module _ {ℓ} {C E R : Type ℓ} where
  named-first :
      (jobs : List (NamedJob C E R))
      → has_duplicate jobs ≡ false
      → All (λ job. named job.name jobs ≡ some job) jobs
  named-first [] h = tt
  named-first (job ∷ jobs) h = (
    rw ((str_eq_iff job.name job.name).1 refl) refl,
    All-of_Memᴰ (λ i. named i.name (job ∷ jobs) ≡ some i) jobs
        λ i k.
          let other = none_of_any (λ i. str_eq i.name job.name) jobs i (left _ _ h) k in
          rw (str_eq_sym job.name i.name ∙ other)
            (All-Memᴰ (λ i. named i.name jobs ≡ some i) jobs (named-first jobs (right _ _ h)) k),
  )
    where
      left : (a b : Bool) → (a || b) ≡ false → a ≡ false
      left a b e = ground arith

      right : (a b : Bool) → (a || b) ≡ false → b ≡ false
      right a b e = ground arith

  -- What `new_lem` says of the registry that `new` made.
  abbrev Made : (String → BoxedError E → R) → List (NamedJob C E R) → JobRegistry C E R → Type ℓ
  Made log jobs r =
      (has_duplicate jobs ≡ false)
      × (r.environment ≡ record { error_handler = log; context = [] })
      × ((name : String) → resolve_job name r ≡ named name jobs)

  new-Made :
      (log : String → BoxedError E → R) (jobs : List (NamedJob C E R)) (r : JobRegistry C E R)
      → new log jobs ≡ some r
      → Made log jobs r
  new-Made log jobs r e = elim (new_lem log jobs) [
    | inl (p, _) ↦ absurd (not-none-some (sym p ∙ e))
    | inr (r', p, single, env, found) ↦
        subst (Made log jobs) (some_injective (sym p ∙ e)) (single, env, found)
  ]

  dispatch-unknown :
      (r : JobRegistry C E R) (current : CurrentJob)
      → resolve_job current.name r ≡ none
      → dispatch r current ≡ r.environment.error_handler current.name unknown_job
  unfolding dispatch
  dispatch-unknown r current e = rw (e, dispatch) refl

  dispatch-known :
      (r : JobRegistry C E R) (current : CurrentJob) (job : NamedJob C E R)
      → resolve_job current.name r ≡ some job
      → dispatch r current ≡ job.run_fn r.environment current
  unfolding dispatch
  dispatch-known r current job e = rw (e, dispatch) refl

  resolve_job-new :
      (log : String → BoxedError E → R) (jobs : List (NamedJob C E R)) (r : JobRegistry C E R)
      → new log jobs ≡ some r
      → All (λ (job : NamedJob C E R). resolve_job job.name r ≡ some job) jobs
  resolve_job-new log jobs r e =
      let (single, _, found) = new-Made log jobs r e in
      All-map jobs (λ job first. found job.name ∙ first) (named-first jobs single)

  resolve_job-same :
      (r s : JobRegistry C E R)
      → r.job_map ≡ s.job_map
      → (name : String) → resolve_job name r ≡ resolve_job name s
  unfolding resolve_job
  resolve_job-same r s e name = ap (get name) e

  -- Whatever handler and contexts a registry was given since it was made, a job of the name of one of
  -- its jobs runs that job's function.
  pub dispatch-registered :
      (log : String → BoxedError E → R) (jobs : List (NamedJob C E R)) (made r : JobRegistry C E R)
      (job : NamedJob C E R) (current : CurrentJob)
      → new log jobs ≡ some made
      → r.job_map ≡ made.job_map
      → Memᴰ job jobs
      → current.name ≡ job.name
      → dispatch r current ≡ job.run_fn r.environment current
  dispatch-registered log jobs made r job current n same k name = dispatch-known r current job (
      resolve_job-same r made same current.name
      ∙ ap (λ name. resolve_job name made) name
      ∙ All-Memᴰ (λ (j : NamedJob C E R). resolve_job j.name made ≡ some j) jobs
          (resolve_job-new log jobs made n) k)

  -- A job runner made from a registry hands each polled job to the function of the job of the list that
  -- has its name, with the registry's environment, and a job whose name is not in the list to the
  -- error handler, as unknown.
  pub dispatch_lem :
      (log : String → BoxedError E → R) (jobs : List (NamedJob C E R)) (r : JobRegistry C E R)
      → new log jobs ≡ some r
      → ((current : CurrentJob)
          → named current.name jobs ≡ none
          → dispatch r current ≡ log current.name unknown_job)
        × All
            (λ (job : NamedJob C E R).
              (current : CurrentJob)
              → current.name ≡ job.name
              → dispatch r current
                ≡ job.run_fn (record { error_handler = log; context = [] }) current)
            jobs
  dispatch_lem log jobs r e =
      let (single, env, found) = new-Made log jobs r e in
      (
        (λ current h.
            dispatch-unknown r current (found current.name ∙ h)
            ∙ ap (λ (x : Environment C E R). x.error_handler current.name unknown_job) env),
        All-map jobs
            (λ job first current same.
              dispatch-known r current job
                (found current.name ∙ ap (λ n. named n jobs) same ∙ first)
              ∙ ap (λ x. job.run_fn x current) env)
            (named-first jobs single),
      )
