-- ===== src/Macros/Args.antt =====
-- `JobOptions`, `OptionValue` and `interpret_job_arg`, and the loop of `job` over the arguments. syn's
-- reading of numbers is a parameter, and so is the type `F` that stands for f64.
use sqlxmq.Prelude.{
  ℕ, String, Bool, true, false, ◌&&◌, List, [], ◌∷◌, Option, none, some, str_eq, if◌then◌else◌,
}
use sqlxmq.Macros.{
  MetaPath, ident, qualified, Lit, str, int, float, bool, other, NestedMeta, lit, meta, Meta, path,
  list, name_value, nested_nil, nested_cons,
}

pub record JobOptions (F : Type 0) : Type 0 where
  pub proto : Option MetaPath
  pub name : Option String
  pub channel_name : Option String
  pub retries : Option ℕ
  pub backoff_secs : Option F
  pub ordered : Option Bool

pub data OptionValue : Type 0 where
  no_value : OptionValue
  lit_value : Lit → OptionValue
  path_value : MetaPath → OptionValue

-- "Unexpected attribute argument" at the argument, or what syn says of a number that it cannot read.
pub data SynError : Type 0 where
  unexpected : NestedMeta → SynError
  bad_number : String → SynError

-- The options as `Ok` leaves them, an error, which leaves them as they were, or a panic.
pub data Interpreted (F : Type 0) : Type 0 where
  done : JobOptions F → Interpreted F
  failed : SynError → Interpreted F
  panicked : Interpreted F

abbrev pub is_none {ℓ} : {A : Type ℓ} → Option A → Bool
is_none none = true
is_none (some a) = false

-- `m.path()`
abbrev pub path_of : Meta → MetaPath
path_of (path p) = p
path_of (list p nested) = p
path_of (name_value p l) = p

-- `base10_parse`, into u32 and into f64.
pub record Parsers (F : Type 0) : Type 0 where
  pub parse_u32 : String → Option ℕ
  pub parse_f64 : String → Option F

abbrev pub empty_options : {F : Type 0} → JobOptions F
empty_options = record {
  proto = none;
  name = none;
  channel_name = none;
  retries = none;
  backoff_secs = none;
  ordered = none;
}

module _ {F : Type 0} where
  -- `options.x = Some(n.base10_parse()?)`
  abbrev set_number {ℓ} : {N : Type ℓ} → String → Option N → (N → JobOptions F) → Interpreted F
  set_number digits none set = failed (bad_number digits)
  set_number digits (some n) set = done (set n)

  -- The match on the name and the value, its arms in order.
  unfoldable pub set_option :
      Parsers F → JobOptions F → NestedMeta → String → OptionValue → Interpreted F
  set_option ps o arg key (path_value p) =
      if str_eq key "proto" && is_none o.proto
      then done (record o { proto = some p })
      else failed (unexpected arg)
  set_option ps o arg key (lit_value (str s)) =
      if str_eq key "name" && is_none o.name
      then done (record o { name = some s })
      else if str_eq key "channel_name" && is_none o.channel_name
      then done (record o { channel_name = some s })
      else failed (unexpected arg)
  set_option ps o arg key (lit_value (int n)) =
      if str_eq key "retries" && is_none o.retries
      then set_number n (ps.parse_u32 n) (λ k. record o { retries = some k })
      else if str_eq key "backoff_secs" && is_none o.backoff_secs
      then set_number n (ps.parse_f64 n) (λ x. record o { backoff_secs = some x })
      else failed (unexpected arg)
  set_option ps o arg key (lit_value (float n)) =
      if str_eq key "backoff_secs" && is_none o.backoff_secs
      then set_number n (ps.parse_f64 n) (λ x. record o { backoff_secs = some x })
      else failed (unexpected arg)
  set_option ps o arg key (lit_value (bool b)) =
      if str_eq key "ordered" && is_none o.ordered
      then done (record o { ordered = some b })
      else failed (unexpected arg)
  set_option ps o arg key (lit_value other) = failed (unexpected arg)
  set_option ps o arg key no_value =
      if str_eq key "ordered" && is_none o.ordered
      then done (record o { ordered = some true })
      else failed (unexpected arg)

  -- The match on the form of the argument, whose path is the identifier `key`: `l.nested[0]` of an
  -- empty list is out of bounds.
  unfoldable pub set_meta : Parsers F → JobOptions F → NestedMeta → String → Meta → Interpreted F
  unfolding set_option
  set_meta ps o arg key (list p nested_nil) = panicked
  set_meta ps o arg key (list p (nested_cons (meta (path q)) rest)) =
      set_option ps o arg key (path_value q)
  set_meta ps o arg key (list p (nested_cons (meta (list q n)) rest)) = failed (unexpected arg)
  set_meta ps o arg key (list p (nested_cons (meta (name_value q l)) rest)) =
      failed (unexpected arg)
  set_meta ps o arg key (list p (nested_cons (lit l) rest)) = failed (unexpected arg)
  set_meta ps o arg key (path p) = set_option ps o arg key no_value
  set_meta ps o arg key (name_value p l) = set_option ps o arg key (lit_value l)

  unfoldable pub interpret_job_arg : Parsers F → JobOptions F → NestedMeta → Interpreted F
  unfolding set_meta
  interpret_job_arg ps o (lit (str s)) =
      if is_none o.name
      then done (record o { name = some s })
      else failed (unexpected (lit (str s)))
  interpret_job_arg ps o (lit (int n)) = failed (unexpected (lit (int n)))
  interpret_job_arg ps o (lit (float n)) = failed (unexpected (lit (float n)))
  interpret_job_arg ps o (lit (bool b)) = failed (unexpected (lit (bool b)))
  interpret_job_arg ps o (lit other) = failed (unexpected (lit other))
  interpret_job_arg ps o (meta m) = elim (path_of m) [
    | ident key ↦ set_meta ps o (meta m) key m
    | qualified segments ↦ done o
  ]

  -- The loop over the arguments: the options and the errors, none where it panics.
  unfoldable pub interpret_job_args :
      Parsers F → JobOptions F → List NestedMeta → Option (JobOptions F × List SynError)
  unfolding interpret_job_arg
  interpret_job_args ps o [] = some (o, [])
  interpret_job_args ps o (arg ∷ args) = elim (interpret_job_arg ps o arg) [
    | done o' ↦ interpret_job_args ps o' args
    | failed e ↦ elim (interpret_job_args ps o args) [
      | none ↦ none
      | some (o', es) ↦ some (o', e ∷ es)
    ]
    | panicked ↦ none
  ]
