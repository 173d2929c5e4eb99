-- ===== src/Macros/Expand.antt =====
-- src/sqlxmq_macros/src/lib.rs: the function that is parsed, and the item that `job` writes in its
-- place, as a record of the parts that its template names.
use sqlxmq.Prelude.{
  ℕ, String, Bool, true, false, List, [], ◌∷◌, ◌++◌, Option, none, some, str_eq, filter, map,
}
use sqlxmq.Macros.{MetaPath, ident, qualified, NestedMeta}
use sqlxmq.Macros.Args.{JobOptions, SynError, Parsers, empty_options, interpret_job_args}

pub data AttrStyle : Type 0 where
  outer : AttrStyle
  inner : AttrStyle

pub record Attribute : Type 0 where
  pub style : AttrStyle
  pub path : MetaPath
  pub text : String

pub data Visibility : Type 0 where
  inherited : Visibility
  public : Visibility
  restricted : MetaPath → Visibility

-- Of the inputs there are the types; what else a signature holds is `rest`.
pub record Signature : Type 0 where
  pub ident : String
  pub inputs : List String
  pub rest : String

pub record MaybeItemFn (T : Type 0) : Type 0 where
  pub attrs : List Attribute
  pub vis : Visibility
  pub sig : Signature
  pub block : List T

-- What syn reads from the front of a stream of tokens `T` and prints to one.
pub record Syntax (T : Type 0) : Type 0 where
  pub parse_outer : List T → Option (List Attribute × List T)
  pub parse_visibility : List T → Option (Visibility × List T)
  pub parse_signature : List T → Option (Signature × List T)
  pub print_attribute : Attribute → List T
  pub print_visibility : Visibility → List T
  pub print_signature : Signature → List T

abbrev pub is_outer : Attribute → Bool
is_outer a = elim a.style [ outer ↦ true | inner ↦ false ]

-- `path.is_ident`.
abbrev pub is_ident : String → MetaPath → Bool
is_ident word (ident name) = str_eq name word
is_ident word (qualified segments) = false

-- `iter().skip(1)`.
abbrev pub skip_one {ℓ} : {A : Type ℓ} → List A → List A
skip_one [] = []
skip_one (x ∷ xs) = xs

-- The text of the job's name: the one that was given, or the path of the module with the
-- function's name.
pub data FqName : Type 0 where
  given : String → FqName
  in_module : String → FqName

-- A call in the chain that the builder is sent through; `F` is f64.
pub data Setter (F : Type 0) : Type 0 where
  set_proto : MetaPath → Setter F
  set_channel_name : String → Setter F
  set_retries : ℕ → Setter F
  set_retry_backoff : F → Setter F
  set_ordered : Bool → Setter F

-- `registry.context()`.
pub data ContextCall : Type 0 where
  registry_context : ContextCall

pub record Expanded (F T : Type 0) : Type 0 where
  pub errors : List SynError
  pub outer_docs : List Attribute
  pub vis : Visibility
  pub name : String
  pub inner_fn : MaybeItemFn T
  pub fq_name : FqName
  pub chain : List (Setter F)
  pub extract_ctx : List ContextCall

module _ {T : Type 0} where
  -- `Parse for MaybeItemFn`: all that is left is the block.
  unfoldable pub parse : Syntax T → List T → Option (MaybeItemFn T)
  parse sx input = elim (sx.parse_outer input) [
    | none ↦ none
    | some (attrs, after_attrs) ↦ elim (sx.parse_visibility after_attrs) [
      | none ↦ none
      | some (vis, after_vis) ↦ elim (sx.parse_signature after_vis) [
        | none ↦ none
        | some (sig, block) ↦ some (record { attrs = attrs; vis = vis; sig = sig; block = block })
      ]
    ]
  ]

  -- `append_all`: one after the other.
  abbrev pub append_all {ℓ} : {A : Type ℓ} → (A → List T) → List A → List T
  append_all print [] = []
  append_all print (x ∷ xs) = print x ++ append_all print xs

  unfoldable pub to_tokens : Syntax T → MaybeItemFn T → List T
  to_tokens sx f =
      append_all sx.print_attribute (filter is_outer f.attrs)
      ++ (sx.print_visibility f.vis ++ (sx.print_signature f.sig ++ f.block))

-- `if let Some(x) = &options.x { chain.push(…) }`
abbrev push_if {ℓ κ} : {A : Type ℓ} {B : Type κ} → Option A → (A → B) → List B → List B
push_if none f chain = chain
push_if (some a) f chain = chain ++ f a ∷ []

unfoldable pub chain_of : {F : Type 0} → JobOptions F → List (Setter F)
chain_of o = push_if o.ordered set_ordered (
    push_if o.backoff_secs set_retry_backoff (
      push_if o.retries set_retries
        (push_if o.channel_name set_channel_name (push_if o.proto set_proto []))))

abbrev fq_name_of : Option String → String → FqName
fq_name_of (some name) fn_name = given name
fq_name_of none fn_name = in_module fn_name

module _ {F T : Type 0} where
  -- What follows the loop over the arguments.
  unfoldable pub expand : JobOptions F → List SynError → MaybeItemFn T → Expanded F T
  unfolding chain_of
  expand options errors inner_fn = record {
    errors = errors;
    outer_docs = filter (λ (a : Attribute). is_ident "doc" a.path) inner_fn.attrs;
    vis = inner_fn.vis;
    name = inner_fn.sig.ident;
    inner_fn = record inner_fn {
      vis = inherited;
      sig = record { ident = "inner"; inputs = inner_fn.sig.inputs; rest = inner_fn.sig.rest };
    };
    fq_name = fq_name_of options.name inner_fn.sig.ident;
    chain = chain_of options;
    extract_ctx = map (λ _. registry_context) (skip_one inner_fn.sig.inputs);
  }

  -- The macro on arguments and a function that syn has parsed: none where it panics.
  unfoldable pub job : Parsers F → List NestedMeta → MaybeItemFn T → Option (Expanded F T)
  unfolding interpret_job_args expand
  job ps args inner_fn = elim (interpret_job_args ps empty_options args) [
    | none ↦ none
    | some (options, errors) ↦ some (expand options errors inner_fn)
  ]
