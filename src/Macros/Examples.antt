-- ===== src/Macros/Examples.antt =====
-- The macro at `#[job("my_job", proto(my_proto), retries = 3, ordered)]` on a function with two
-- further arguments, and at an identifier with nothing between its parentheses.
use mathlib.Core.List.{Permᴰ}
use sqlxmq.Prelude.{ℕ, String, ◌≡◌, refl, true, List, [], ◌∷◌, Option, none, some, any, Memᴰ}
use sqlxmq.Spawn.{JobBuilder}
use sqlxmq.Spawn
use sqlxmq.Runner.{CurrentJob}
use sqlxmq.Registry.{BoxedError, NamedJob, JobRegistry, new, register_all, put, dispatch, builder}
use sqlxmq.Macros.{
  ident, str, int, NestedMeta, lit, meta, path, list, name_value, nested_nil, nested_cons,
}
use sqlxmq.Macros.Args.{JobOptions, SynError, is_none, Parsers, empty_options, interpret_job_args}
use sqlxmq.Macros.Accept.{disjoint, is_empty_list}
use sqlxmq.Macros.Order.{interpret_job_args-Perm, options_once, interpret_job_args-panics}
use sqlxmq.Macros.Kept.{Extends, options_kept}
use sqlxmq.Macros.Expand.{
  outer, Attribute, Visibility, public, Signature, MaybeItemFn, Syntax, Expanded, chain_of, expand,
  job, parse, to_tokens,
}
use sqlxmq.Macros.Static.{Scope, named_job}
use sqlxmq.Macros.Builder.{with_defaults, job-build_fn}
use sqlxmq.Macros.Run.{run_with, dispatch-named_job}
use sqlxmq.Macros.Tokens.{ReadsBack, hidden, job-to_tokens}

-- Digits are read as 3, and seconds as 3 of them.
abbrev digits : Parsers ℕ
digits = record { parse_u32 = λ s. some 3; parse_f64 = λ s. some 3 }

abbrev name_arg : NestedMeta
name_arg = lit (str "my_job")

abbrev proto_arg : NestedMeta
proto_arg = meta (list (ident "proto") (nested_cons (meta (path (ident "my_proto"))) nested_nil))

abbrev retries_arg : NestedMeta
retries_arg = meta (name_value (ident "retries") (int "3"))

abbrev ordered_arg : NestedMeta
ordered_arg = meta (path (ident "ordered"))

abbrev args : List NestedMeta
args = name_arg ∷ proto_arg ∷ retries_arg ∷ ordered_arg ∷ []

abbrev swapped : List NestedMeta
swapped = proto_arg ∷ name_arg ∷ retries_arg ∷ ordered_arg ∷ []

abbrev options : JobOptions ℕ
options = record {
  proto = some (ident "my_proto");
  name = some "my_job";
  channel_name = none;
  retries = some 3;
  backoff_secs = none;
  ordered = some true;
}

abbrev only_name : JobOptions ℕ
only_name = record empty_options { name = some "my_job" }

abbrev only_retries : JobOptions ℕ
only_retries = record empty_options { retries = some 3 }

args_swap : Permᴰ args swapped
args_swap = Permᴰ.swap refl refl

interpret_job_args-Perm_example :
    interpret_job_args digits empty_options swapped ≡ some (options, [])
unfolding interpret_job_args
interpret_job_args-Perm_example =
    interpret_job_args-Perm digits empty_options options args swapped args_swap refl

options_once_example : disjoint only_name only_retries ≡ true
unfolding interpret_job_args
options_once_example =
    options_once digits empty_options options only_name only_retries swapped
      (proto_arg ∷ ordered_arg ∷ []) name_arg retries_arg refl
      (Permᴰ.trans (Permᴰ.swap refl refl) (Permᴰ.cons refl (Permᴰ.swap refl refl))) refl refl

retries_kept : Extends options only_retries
unfolding interpret_job_args
retries_kept =
    options_kept digits empty_options options only_retries args retries_arg refl
      (Memᴰ.tail (Memᴰ.tail (Memᴰ.head refl))) refl

interpret_job_args-panics_example :
    is_none (
      interpret_job_args digits empty_options
        (name_arg ∷ meta (list (ident "proto") nested_nil) ∷ []))
    ≡ any is_empty_list (name_arg ∷ meta (list (ident "proto") nested_nil) ∷ [])
interpret_job_args-panics_example =
    interpret_job_args-panics digits empty_options
      (name_arg ∷ meta (list (ident "proto") nested_nil) ∷ [])

-- Tokens of a function: whole attributes, visibilities, signatures and words.
data Token : Type 0 where
  attribute : Attribute → Token
  visibility : Visibility → Token
  signature : Signature → Token
  word : String → Token

abbrev attributes_of : List Token → List Attribute × List Token
attributes_of [] = ([], [])
attributes_of (attribute a ∷ tokens) = let (attrs, rest) = attributes_of tokens in (a ∷ attrs, rest)
attributes_of (visibility v ∷ tokens) = ([], visibility v ∷ tokens)
attributes_of (signature s ∷ tokens) = ([], signature s ∷ tokens)
attributes_of (word w ∷ tokens) = ([], word w ∷ tokens)

abbrev visibility_of : List Token → Option (Visibility × List Token)
visibility_of (visibility v ∷ tokens) = some (v, tokens)
visibility_of other = none

abbrev signature_of : List Token → Option (Signature × List Token)
signature_of (signature s ∷ tokens) = some (s, tokens)
signature_of other = none

abbrev syntax : Syntax Token
syntax = record {
  parse_outer = λ tokens. some (attributes_of tokens);
  parse_visibility = visibility_of;
  parse_signature = signature_of;
  print_attribute = λ a. attribute a ∷ [];
  print_visibility = λ v. visibility v ∷ [];
  print_signature = λ s. signature s ∷ [];
}

abbrev function : MaybeItemFn Token
function = record {
  attrs = record { style = outer; path = ident "doc"; text = "A job." } ∷ [];
  vis = public;
  sig = record {
    ident = "run_it";
    inputs = "CurrentJob" ∷ "Mailer" ∷ "Clock" ∷ [];
    rest = "async";
  };
  block = word "{}" ∷ [];
}

abbrev expanded : Expanded ℕ Token
unfolding expand
expanded = expand options [] function

job_expands : job digits args function ≡ some expanded
unfolding job interpret_job_args expand
job_expands = refl

reads_back : ReadsBack syntax (hidden syntax function)
reads_back = record { attributes = λ rest e. rw e refl; visibility = refl; signature = refl }

job-to_tokens_example :
    (expanded.vis ≡ public)
    × (expanded.name ≡ "run_it")
    × (parse syntax (to_tokens syntax expanded.inner_fn) ≡ some (hidden syntax function))
job-to_tokens_example =
    job-to_tokens syntax digits args function expanded job_expands reads_back (refl, tt)

abbrev scope : Scope ℕ String String String
scope = record {
  proto = λ p b. Spawn.set_channel_name "bar" (Spawn.set_retries 9 b);
  from_secs_f64 = λ s. s;
  module_path = "app";
  inner = λ current cs. none;
  log = λ name. name;
  panic = "panic";
}

job-build_fn_example :
    (o : JobOptions ℕ) × (errors : List SynError) × (interpret_job_args digits empty_options args
      ≡ some (o, errors))
    × (expanded.errors ≡ errors)
    × ((b : JobBuilder) → (named_job scope expanded).build_fn b ≡ with_defaults scope o b)
job-build_fn_example = job-build_fn digits scope args function expanded job_expands

-- The retries are the argument's, and the channel is the prototype's.
my_job_builder :
    builder 7 (named_job scope expanded)
    ≡ record (Spawn.new 7 "my_job") { channel_name = "bar"; retries = 3; ordered = true }
unfolding builder named_job expand chain_of Spawn.new
my_job_builder = refl

abbrev log : String → BoxedError String → String
log name x = "failed"

abbrev jobs : List (NamedJob String String String)
jobs = named_job scope expanded ∷ []

abbrev made : JobRegistry String String String
made = record {
  environment = record { error_handler = log; context = [] };
  job_map = ("my_job", named_job scope expanded) ∷ [];
}

abbrev registry : JobRegistry String String String
registry = record made {
  environment = record {
    error_handler = log;
    context = ("Mailer", "smtp") ∷ ("Clock", "noon") ∷ [];
  };
}

abbrev current : CurrentJob
current = record {
  id = 7;
  name = "my_job";
  payload_json = none;
  payload_bytes = none;
  keep_alive = none;
}

dispatch-named_job_example :
    dispatch registry current
    ≡ run_with scope ("Mailer" ∷ "Clock" ∷ []) registry.environment current
unfolding new register_all put builder named_job expand chain_of Spawn.new Spawn.set_channel_name
    Spawn.set_retries
dispatch-named_job_example =
    dispatch-named_job digits scope args function expanded "CurrentJob" ("Mailer" ∷ "Clock" ∷ [])
      log jobs made registry 7 current job_expands refl (λ p b. refl) refl (Memᴰ.head refl) refl
      refl
