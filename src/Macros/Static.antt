-- ===== src/Macros/Static.antt =====
-- src/sqlxmq_macros/src/lib.rs: the static item `NamedJob::new_internal(…)` that the template of `job`
-- makes, with what the names in it mean where it stands.
use Prim.Native.String.{◌++◌ as str_append}
use sqlxmq.Prelude.{ℕ, String, List, [], ◌∷◌, Option, none, some}
use sqlxmq.Spawn.{JobBuilder}
use sqlxmq.Spawn
use sqlxmq.Runner.{CurrentJob}
use sqlxmq.Registry.{Environment, NamedJob, context, spawn_internal}
use sqlxmq.Macros.{MetaPath}
use sqlxmq.Macros.Expand.{
  FqName, given, in_module, Setter, set_proto, set_channel_name, set_retries, set_retry_backoff,
  set_ordered, ContextCall, registry_context, Expanded, skip_one,
}

-- `F` is f64, and `C`, `E` and `R` are as in the registry. `inner` is the function of the user with
-- the job and its further arguments, and what its future ends with; `panic` is what a call leaves that
-- panics. `from_secs_f64` is read at durations that it accepts.
pub record Scope (F C E R : Type 0) : Type 0 where
  pub proto : MetaPath → JobBuilder → JobBuilder
  pub from_secs_f64 : F → ℕ
  pub module_path : String
  pub inner : CurrentJob → List C → Option E
  pub log : String → R
  pub panic : R

-- `concat!(module_path!(), "::", name)`, or the name that was given.
unfoldable pub fq_text : String → FqName → String
fq_text module_path (given name) = name
fq_text module_path (in_module fn_name) = str_append module_path (str_append "::" fn_name)

-- The arguments `registry.context()`, each at the type of its input: none where one panics. A call
-- with too few or too many does not compile.
unfoldable pub contexts {ℓ} :
    {C E R : Type ℓ} → List String → List ContextCall → Environment C E R → Option (List C)
unfolding context
contexts [] [] e = some []
contexts (type_name ∷ types) (registry_context ∷ calls) e = elim (context type_name e) [
  | none ↦ none
  | some c ↦ elim (contexts types calls e) [ none ↦ none | some cs ↦ some (c ∷ cs) ]
]
contexts [] (call ∷ calls) e = none
contexts (type_name ∷ types) [] e = none

module _ {F C E R : Type 0} where
  unfoldable pub set : Scope F C E R → Setter F → JobBuilder → JobBuilder
  unfolding Spawn.set_proto Spawn.set_channel_name Spawn.set_retries Spawn.set_retry_backoff
      Spawn.set_ordered
  set sc (set_proto proto) b = Spawn.set_proto (sc.proto proto) b
  set sc (set_channel_name channel_name) b = Spawn.set_channel_name channel_name b
  set sc (set_retries retries) b = Spawn.set_retries retries b
  set sc (set_retry_backoff backoff_secs) b =
      Spawn.set_retry_backoff (sc.from_secs_f64 backoff_secs) b
  set sc (set_ordered ordered) b = Spawn.set_ordered ordered b

  -- `builder #(#chain)*`
  unfoldable pub set_all : Scope F C E R → List (Setter F) → JobBuilder → JobBuilder
  unfolding set
  set_all sc [] b = b
  set_all sc (setter ∷ chain) b = set_all sc chain (set sc setter b)

module _ {F C E R T : Type 0} where
  -- `|registry, current_job| { registry.spawn_internal(…) }`
  unfoldable pub run : Scope F C E R → Expanded F T → Environment C E R → CurrentJob → R
  unfolding contexts spawn_internal fq_text
  run sc x e current_job = elim (contexts (skip_one x.inner_fn.sig.inputs) x.extract_ctx e) [
    | none ↦ sc.panic
    | some cs ↦ spawn_internal sc.log (fq_text sc.module_path x.fq_name) (sc.inner current_job cs) e
  ]

  unfoldable pub named_job : Scope F C E R → Expanded F T → NamedJob C E R
  unfolding set_all run
  named_job sc x = record {
    name = fq_text sc.module_path x.fq_name;
    build_fn = set_all sc x.chain;
    run_fn = run sc x;
  }
