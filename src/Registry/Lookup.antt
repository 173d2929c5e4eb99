-- ===== src/Registry/Lookup.antt =====
-- What the registry's constructor and lookup do with a list of jobs.
use mathlib.Core.Bool.{false≢true}
use sqlxmq.Prelude.{
  String, ◌≡◌, refl, sym, ◌∙◌, ◌⊎◌, inl, inr, Bool, true, false, ◌||◌, List, [], ◌∷◌, Option, none,
  some, str_eq, str_eq_iff, any, any-false, find?, arith, Option-cases, Bool-cases, if◌then◌else◌,
}
use sqlxmq.Registry.{BoxedError, NamedJob, JobRegistry, get, put, register_all, new, resolve_job}

put_old {ℓ} :
    {V : Type ℓ} (key : String) (v : V) (map : List (String × V)) → (put key v map).0 ≡ get key map
unfolding put get
put_old key v [] = refl
put_old key v ((k, w) ∷ rest) = elim (Bool-cases (str_eq k key)) [
  | inl e ↦ rw e refl
  | inr e ↦ rw e (put_old key v rest)
]

get-put {ℓ} :
    {V : Type ℓ} (name key : String) (v : V) (map : List (String × V))
    → get name (put key v map).1 ≡ (if str_eq key name then some v else get name map)
unfolding put get
get-put name key v [] = refl
get-put name key v ((k, w) ∷ rest) = elim (Bool-cases (str_eq k key)) [
  | inl e ↦
      rw (e, (str_eq_iff k key).0 e)
        (elim (Bool-cases (str_eq key name)) [ inl f ↦ rw f refl | inr f ↦ rw f refl ])
  | inr e ↦
      rw (e, get-put name key v rest)
        (elim (Bool-cases (str_eq k name)) [
          | inl f ↦ elim (Bool-cases (str_eq key name)) [
            | inl g ↦ absurd (
                false≢true (
                  sym e
                  ∙ (str_eq_iff k key).1
                      ((str_eq_iff k name).0 f ∙ sym ((str_eq_iff key name).0 g))))
            | inr g ↦ rw (f, g) refl
          ]
          | inr f ↦ rw f refl
        ])
]

pub str_eq_sym : (a b : String) → str_eq a b ≡ str_eq b a
str_eq_sym a b = elim (Bool-cases (str_eq a b)) [
  | inl e ↦ e ∙ sym ((str_eq_iff b a).1 (sym ((str_eq_iff a b).0 e)))
  | inr e ↦ elim (Bool-cases (str_eq b a)) [
    | inl f ↦ absurd (false≢true (sym e ∙ (str_eq_iff a b).1 (sym ((str_eq_iff b a).0 f))))
    | inr f ↦ e ∙ sym f
  ]
]

abbrev is_some {ℓ} : {A : Type ℓ} → Option A → Bool
is_some none = false
is_some (some a) = true

module _ {ℓ} {C E R : Type ℓ} where
  -- Two jobs of the list have one name.
  abbrev pub has_duplicate : List (NamedJob C E R) → Bool
  has_duplicate [] = false
  has_duplicate (job ∷ jobs) = any (λ i. str_eq i.name job.name) jobs || has_duplicate jobs

  -- The first job of the list with the name.
  abbrev pub named : String → List (NamedJob C E R) → Option (NamedJob C E R)
  named name = find? λ i. str_eq i.name name

  abbrev clashes : List (NamedJob C E R) → List (String × NamedJob C E R) → Bool
  clashes jobs map = any (λ i. is_some (get i.name map)) jobs || has_duplicate jobs

  abbrev or_get : Option (NamedJob C E R) → Option (NamedJob C E R) → Option (NamedJob C E R)
  or_get none o = o
  or_get (some job) o = some job

  named-none :
      (name : String) (jobs : List (NamedJob C E R))
      → any (λ i. str_eq i.name name) jobs ≡ false
      → named name jobs ≡ none
  named-none name [] e = refl
  named-none name (i ∷ jobs) e = elim (Bool-cases (str_eq i.name name)) [
    | inl f ↦ absurd (false≢true (sym e ∙ rw f refl))
    | inr f ↦ rw f (named-none name jobs (rw f at e))
  ]

  any-put :
      (job : NamedJob C E R) (jobs : List (NamedJob C E R)) (map : List (String × NamedJob C E R))
      → any (λ i. is_some (get i.name (put job.name job map).1)) jobs
        ≡ (any (λ i. is_some (get i.name map)) jobs || any (λ i. str_eq i.name job.name) jobs)
  any-put job [] map = refl
  any-put job (i ∷ jobs) map =
      rw (get-put i.name job.name job map, any-put job jobs map, str_eq_sym job.name i.name)
        (elim (Bool-cases (str_eq i.name job.name)) [
          | inl e ↦ rw e (ground arith)
          | inr e ↦ rw e (ground arith)
        ])

  clashes-put :
      (job : NamedJob C E R) (jobs : List (NamedJob C E R)) (map : List (String × NamedJob C E R))
      → get job.name map ≡ none
      → clashes jobs (put job.name job map).1 ≡ clashes (job ∷ jobs) map
  clashes-put job jobs map e = rw (any-put job jobs map, e) (ground arith)

  looked_up :
      (job : NamedJob C E R) (jobs : List (NamedJob C E R)) (map : List (String × NamedJob C E R))
      (name : String)
      → any (λ i. str_eq i.name job.name) jobs ≡ false
      → or_get (named name jobs) (get name (put job.name job map).1)
        ≡ or_get (named name (job ∷ jobs)) (get name map)
  looked_up job jobs map name h =
      rw (get-put name job.name job map) (elim (Bool-cases (str_eq job.name name)) [
        | inl e ↦ rw (e, named-none name jobs (rw ((str_eq_iff job.name name).0 e) at h)) refl
        | inr e ↦ rw e refl
      ])

  register_all-panics :
      (job : NamedJob C E R) (jobs : List (NamedJob C E R)) (map : List (String × NamedJob C E R))
      (w : NamedJob C E R)
      → get job.name map ≡ some w
      → register_all (job ∷ jobs) map ≡ none
  unfolding register_all
  register_all-panics job jobs map w e = rw (put_old job.name job map ∙ e, register_all) refl

  register_all-goes_on :
      (job : NamedJob C E R) (jobs : List (NamedJob C E R)) (map : List (String × NamedJob C E R))
      → get job.name map ≡ none
      → register_all (job ∷ jobs) map ≡ register_all jobs (put job.name job map).1
  unfolding register_all
  register_all-goes_on job jobs map e = rw (put_old job.name job map ∙ e, register_all) refl

  -- Registering panics exactly where a name is there already, or twice in the list.
  register_all_lem :
      (jobs : List (NamedJob C E R)) (map : List (String × NamedJob C E R))
      → ((register_all jobs map ≡ none) × (clashes jobs map ≡ true))
        ⊎ ((map' : List (String × NamedJob C E R)) × (register_all jobs map ≡ some map')
            × (clashes jobs map ≡ false)
            × ((name : String) → get name map' ≡ or_get (named name jobs) (get name map)))
  unfolding register_all
  register_all_lem [] map = inr (map, refl, refl, λ name. refl)
  register_all_lem (job ∷ jobs) map = elim (Option-cases (get job.name map)) [
    | inr (w, e) ↦ inl (register_all-panics job jobs map w e, rw e refl)
    | inl e ↦
        let on = register_all-goes_on job jobs map e in
        let same = sym (clashes-put job jobs map e) in
        elim (register_all_lem jobs (put job.name job map).1) [
          | inl (p, q) ↦ inl (on ∙ p, same ∙ q)
          | inr (map', p, q, f) ↦ inr (
            map',
            on ∙ p,
            same ∙ q,
            λ name. f name ∙ looked_up job jobs map name (fresh job jobs map (same ∙ q)),
          )
        ]
  ]
    where
      fresh :
          (job : NamedJob C E R) (jobs : List (NamedJob C E R))
          (map : List (String × NamedJob C E R))
          → clashes (job ∷ jobs) map ≡ false
          → any (λ i. str_eq i.name job.name) jobs ≡ false
      fresh job jobs map e = ground arith

  clashes_nil : (jobs : List (NamedJob C E R)) → clashes jobs [] ≡ has_duplicate jobs
  unfolding get
  clashes_nil jobs = rw (any-false (λ (i : NamedJob C E R). false) jobs λ i k. refl) refl

  or_get-none : (o : Option (NamedJob C E R)) → or_get o none ≡ o
  or_get-none none = refl
  or_get-none (some job) = refl

  -- A registry is made where no two jobs have one name; it has the default error handler and no
  -- context, and looks a name up as a search of the list of jobs does. Where two have one, it panics.
  pub new_lem :
      (log : String → BoxedError E → R) (jobs : List (NamedJob C E R))
      → ((new log jobs ≡ none) × (has_duplicate jobs ≡ true))
        ⊎ ((r : JobRegistry C E R) × (new log jobs ≡ some r)
            × (has_duplicate jobs ≡ false)
            × (r.environment ≡ record { error_handler = log; context = [] })
            × ((name : String) → resolve_job name r ≡ named name jobs))
  unfolding new resolve_job get
  new_lem log jobs = elim (register_all_lem jobs []) [
    | inl (p, q) ↦ inl (rw (p, new) refl, sym (clashes_nil jobs) ∙ q)
    | inr (map', p, q, f) ↦ inr (
      record { environment = record { error_handler = log; context = [] }; job_map = map' },
      rw (p, new) refl,
      sym (clashes_nil jobs) ∙ q,
      refl,
      λ name. f name ∙ or_get-none (named name jobs),
    )
  ]
