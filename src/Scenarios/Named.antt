-- ===== src/Scenarios/Named.antt =====
-- The jobs under `#[job]` among the tests of src/lib.rs, and the registry that has them.
use sqlxmq.Prelude.{ℕ, String, true, List, [], ◌∷◌, Option, none, some}
use sqlxmq.Spawn.{JobBuilder, set_channel_name}
use sqlxmq.Registry.{BoxedError, NamedJob, JobRegistry, new, set_context}
use sqlxmq.Macros.{ident}
use sqlxmq.Macros.Args.{empty_options}
use sqlxmq.Macros.Expand.{MaybeItemFn, inherited, expand}
use sqlxmq.Macros.Static.{Scope, named_job}

unfoldable pub job_proto : JobBuilder → JobBuilder
unfolding set_channel_name
job_proto builder = set_channel_name "bar" builder

-- A function under the attribute, by its name and the types of its arguments; its body is no token
-- here.
abbrev job_fn : String → List String → MaybeItemFn String
job_fn name inputs = record {
  attrs = [];
  vis = inherited;
  sig = record { ident = name; inputs = inputs; rest = "async" };
  block = [];
}

-- A context is a number or a text.
pub data Context : Type 0 where
  number : ℕ → Context
  text : String → Context

module _ {F E R : Type 0} (sc : Scope F Context E R) where
  -- `two` is 2.0.
  unfoldable pub example_job1 : F → NamedJob Context E R
  unfolding named_job expand
  example_job1 two = named_job sc (
      expand
        (record empty_options {
          channel_name = some "foo";
          ordered = some true;
          retries = some 3;
          backoff_secs = some two;
        })
        [] (job_fn "example_job1" ("CurrentJob" ∷ [])))

  unfoldable pub example_job2 : NamedJob Context E R
  unfolding named_job expand
  example_job2 = named_job sc (
      expand (record empty_options { proto = some (ident "job_proto") }) []
        (job_fn "example_job2" ("CurrentJob" ∷ [])))

  unfoldable pub example_job_with_ctx : NamedJob Context E R
  unfolding named_job expand
  example_job_with_ctx = named_job sc (
      expand empty_options []
        (job_fn "example_job_with_ctx" ("CurrentJob" ∷ "i32" ∷ "&'static str" ∷ [])))

  -- The registry of `named_job_runner`, before its runner.
  unfoldable pub named_job_runner :
      (String → BoxedError E → R) → F → Option (JobRegistry Context E R)
  unfolding new set_context example_job1 example_job2 example_job_with_ctx
  named_job_runner log two =
      elim (new log (example_job1 two ∷ example_job2 ∷ example_job_with_ctx ∷ [])) [
        | none ↦ none
        | some registry ↦ some (
            set_context "&'static str" (text "Hello, world!")
              (set_context "i32" (number 42) registry))
      ]
