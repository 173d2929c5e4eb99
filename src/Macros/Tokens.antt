-- ===== src/Macros/Tokens.antt =====
-- The function that the macro reads from its tokens and writes into the block of the static item.
use sqlxmq.Prelude.{◌≡◌, refl, ◌∙◌, ap, true, List, [], ◌∷◌, ◌++◌, some, filter, All}
use sqlxmq.Macros.{NestedMeta}
use sqlxmq.Macros.Args.{Parsers}
use sqlxmq.Macros.Builder.{job_expanded}
use sqlxmq.Macros.Expand.{
  Expanded, expand, job, Attribute, inherited, MaybeItemFn, Syntax, is_outer, append_all, parse,
  to_tokens,
}

module _ {T : Type 0} (sx : Syntax T) where
  -- syn reads back, in front of what follows them, the attributes, the visibility and the signature of
  -- a function that it prints.
  pub record ReadsBack (f : MaybeItemFn T) : Type 0 where
    pub attributes :
        (rest : List T)
        → rest ≡ sx.print_visibility f.vis ++ (sx.print_signature f.sig ++ f.block)
        → sx.parse_outer (append_all sx.print_attribute f.attrs ++ rest) ≡ some (f.attrs, rest)
    pub visibility :
        sx.parse_visibility (sx.print_visibility f.vis ++ (sx.print_signature f.sig ++ f.block))
        ≡ some (f.vis, sx.print_signature f.sig ++ f.block)
    pub signature : sx.parse_signature (sx.print_signature f.sig ++ f.block) ≡ some (f.sig, f.block)

  filter_all :
      (attrs : List Attribute) → All (λ a. is_outer a ≡ true) attrs → filter is_outer attrs ≡ attrs
  filter_all [] h = refl
  filter_all (a ∷ attrs) (p, q) = rw p (ap (λ rest. a ∷ rest) (filter_all attrs q))

  parse-to_tokens :
      (f : MaybeItemFn T)
      → ReadsBack f
      → All (λ a. is_outer a ≡ true) f.attrs
      → parse sx (to_tokens sx f) ≡ some f
  unfolding parse to_tokens
  parse-to_tokens f h outer =
      rw (filter_all f.attrs outer)
        (rw (h.attributes _ refl, parse) (rw (h.visibility, parse) (rw (h.signature) refl)))

  -- The function as the block of the static item has it.
  abbrev pub hidden : MaybeItemFn T → MaybeItemFn T
  hidden f = record f {
    vis = inherited;
    sig = record { ident = "inner"; inputs = f.sig.inputs; rest = f.sig.rest };
  }

  -- The macro gives the static item the visibility and the name of the function, and what it prints
  -- into the block is read as the same function, down to the tokens of its body, but private and
  -- under the name `inner`, where its attributes are outer ones and syn reads back what it prints of it.
  pub job-to_tokens :
      {F : Type 0} (ps : Parsers F) (args : List NestedMeta) (f : MaybeItemFn T) (x : Expanded F T)
      → job ps args f ≡ some x
      → ReadsBack (hidden f)
      → All (λ a. is_outer a ≡ true) f.attrs
      → (x.vis ≡ f.vis)
        × (x.name ≡ f.sig.ident)
        × (parse sx (to_tokens sx x.inner_fn) ≡ some (hidden f))
  unfolding expand
  job-to_tokens ps args f x h back outer =
      let (o, errors, _, q) = job_expanded ps args f x h in
      (
        ap (λ y. y.vis) q,
        ap (λ y. y.name) q,
        ap (λ y. parse sx (to_tokens sx y.inner_fn)) q ∙ parse-to_tokens (hidden f) back outer,
      )
