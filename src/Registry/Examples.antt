-- ===== src/Registry/Examples.antt =====
-- The theorems about the registry at a list of two jobs, and a list that makes it panic.
use sqlxmq.Prelude.{String, ◌≡◌, refl, ◌⊎◌, List, [], ◌∷◌, none, some, true, false}
use sqlxmq.Registry.{BoxedError, NamedJob, JobRegistry, put, register_all, new, resolve_job}
use sqlxmq.Registry.Lookup.{has_duplicate, named, new_lem}

-- A job that answers with its own name; what is run answers with a text.
abbrev job_named : String → NamedJob String String String
job_named name = record { name = name; build_fn = λ b. b; run_fn = λ e job. name }

abbrev log : String → BoxedError String → String
log name x = "failed"

abbrev two_jobs : List (NamedJob String String String)
two_jobs = job_named "a" ∷ job_named "b" ∷ []

abbrev registry : JobRegistry String String String
registry = record {
  environment = record { error_handler = log; context = [] };
  job_map = ("a", job_named "a") ∷ ("b", job_named "b") ∷ [];
}

-- A name that is registered twice makes the constructor panic.
panics_on_duplicate : new log (job_named "a" ∷ two_jobs) ≡ none
unfolding new register_all put
panics_on_duplicate = refl

new_lem_example :
    ((new log two_jobs ≡ none) × (has_duplicate two_jobs ≡ true))
    ⊎ ((r : JobRegistry String String String) × (new log two_jobs ≡ some r)
        × (has_duplicate two_jobs ≡ false)
        × (r.environment ≡ record { error_handler = log; context = [] })
        × ((name : String) → resolve_job name r ≡ named name two_jobs))
new_lem_example = new_lem log two_jobs
