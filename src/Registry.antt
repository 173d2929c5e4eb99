-- ===== src/Registry.antt =====
-- src/registry.rs: the map from names to jobs, with its error handler and its typed context, and the
-- dispatch of a polled job. What runs a job's function or the error handler leaves is of a type `R`;
-- `E` is that of the errors of jobs, and `C` that of contexts, whose own types are told by names.
pub mod Lookup
pub mod Dispatch
mod Examples
use sqlxmq.Prelude.{
  ℕ, String, Bool, true, false, List, [], ◌∷◌, Option, none, some, str_eq, if◌then◌else◌,
}
use sqlxmq.Spawn.{JobBuilder}
use sqlxmq.Spawn
use sqlxmq.Runner.{CurrentJob}

-- `UnknownJobError`, or the error of a job, as the error handler gets them boxed.
pub data BoxedError {ℓ} (E : Type ℓ) : Type ℓ where
  unknown_job : BoxedError E
  job_error : E → BoxedError E

-- The fields of `JobRegistry` that a job's function uses.
pub record Environment {ℓ} (C E R : Type ℓ) : Type ℓ where
  pub error_handler : String → BoxedError E → R
  pub context : List (String × C)

pub record NamedJob {ℓ} (C E R : Type ℓ) : Type ℓ where
  pub name : String
  pub build_fn : JobBuilder → JobBuilder
  pub run_fn : Environment C E R → CurrentJob → R

pub record JobRegistry {ℓ} (C E R : Type ℓ) : Type ℓ where
  pub environment : Environment C E R
  pub job_map : List (String × NamedJob C E R)

-- `get` and `insert` of a map; `insert` gives the value that it replaces.
unfoldable pub get {ℓ} : {V : Type ℓ} → String → List (String × V) → Option V
get key [] = none
get key ((k, v) ∷ rest) = let found = get key rest in if str_eq k key then some v else found

unfoldable pub put {ℓ} :
    {V : Type ℓ} → String → V → List (String × V) → Option V × List (String × V)
put key v [] = (none, (key, v) ∷ [])
put key v ((k, w) ∷ rest) =
    let (old, rest') = put key v rest in
    if str_eq k key then (some w, (k, v) ∷ rest) else (old, (k, w) ∷ rest')

module _ {ℓ} {C E R : Type ℓ} where
  -- The loop of `new`: none where it panics.
  unfoldable pub register_all :
      List (NamedJob C E R)
      → List (String × NamedJob C E R)
      → Option (List (String × NamedJob C E R))
  unfolding put
  register_all [] map = some map
  register_all (job ∷ jobs) map =
      let (old, map') = put job.name job map in
      let rest = register_all jobs map' in elim old [ none ↦ rest | some _ ↦ none ]

  -- `new`; `log` is the default error handler.
  unfoldable pub new :
      (String → BoxedError E → R) → List (NamedJob C E R) → Option (JobRegistry C E R)
  unfolding register_all
  new log jobs = elim (register_all jobs []) [
    | none ↦ none
    | some map ↦
        some (record { environment = record { error_handler = log; context = [] }; job_map = map })
  ]

  unfoldable pub set_error_handler :
      (String → BoxedError E → R) → JobRegistry C E R → JobRegistry C E R
  set_error_handler handler r = record r {
    environment = record { error_handler = handler; context = r.environment.context };
  }

  unfoldable pub set_context : String → C → JobRegistry C E R → JobRegistry C E R
  unfolding put
  set_context type_name c r = record r {
    environment = record {
      error_handler = r.environment.error_handler;
      context = (put type_name c r.environment.context).1;
    };
  }

  -- None where it panics.
  unfoldable pub context : String → Environment C E R → Option C
  unfolding get
  context type_name e = get type_name e.context

  unfoldable pub resolve_job : String → JobRegistry C E R → Option (NamedJob C E R)
  unfolding get
  resolve_job name r = get name r.job_map

  -- The task of `spawn_internal`, when the job's future has ended: `log` is what it logs of a job
  -- that completed.
  unfoldable pub spawn_internal : (String → R) → String → Option E → Environment C E R → R
  spawn_internal log name none e = log name
  spawn_internal log name (some x) e = e.error_handler name (job_error x)

  -- The function that `runner` gives to its options.
  unfoldable pub dispatch : JobRegistry C E R → CurrentJob → R
  unfolding resolve_job
  dispatch r job = elim (resolve_job job.name r) [
    | none ↦ r.environment.error_handler job.name unknown_job
    | some named ↦ named.run_fn r.environment job
  ]

  -- `builder`, with the id that `Uuid::new_v4` drew.
  unfoldable pub builder : ℕ → NamedJob C E R → JobBuilder
  unfolding Spawn.new
  builder drawn job = job.build_fn (Spawn.new drawn job.name)

  unfoldable pub builder_with_id : ℕ → NamedJob C E R → JobBuilder
  unfolding Spawn.new_with_id
  builder_with_id id job = job.build_fn (Spawn.new_with_id id job.name)
