-- ===== src/Macros/Order.antt =====
-- The arguments of the attribute together: which lists are accepted, in what order, and when the macro
-- panics.
use mathlib.Core.List.{Permᴰ}
use mathlib.Core.Bool.{false≢true}
use sqlxmq.Prelude.{
  ◌≡◌, refl, sym, ◌∙◌, ap, subst, true, false, List, [], ◌∷◌, Option, none, some, any, arith,
  some_injective, not-none-some, inl, inr, ◌⊎◌, Bool-cases,
}
use sqlxmq.Macros.{NestedMeta}
use sqlxmq.Macros.Args.{
  JobOptions, SynError, unexpected, Interpreted, done, failed, panicked, is_none, Parsers,
  empty_options, interpret_job_arg, interpret_job_args,
}
use sqlxmq.Macros.Accept.{
  or_first, apart, merge, disjoint, is_failed, is_panic, is_empty_list, interpret_job_arg-done,
  interpret_job_arg-failed, interpret_job_arg-is_panic,
}

module _ {ℓ} {A : Type ℓ} where
  apart_swap :
      (a b c : Option A)
      → apart a b ≡ true
      → apart (or_first a b) c ≡ true
      → (apart a c ≡ true)
        × (apart (or_first a c) b ≡ true)
        × (or_first (or_first a b) c ≡ or_first (or_first a c) b)
        × (apart b c ≡ true)
  apart_swap none none none h k = (refl, refl, refl, refl)
  apart_swap none none (some c) h k = (refl, refl, refl, refl)
  apart_swap none (some b) none h k = (refl, refl, refl, refl)
  apart_swap none (some b) (some c) h k = ground arith
  apart_swap (some a) none none h k = (refl, refl, refl, refl)
  apart_swap (some a) none (some c) h k = ground arith
  apart_swap (some a) (some b) c h k = ground arith

module _ {F : Type 0} where
  -- Options that are disjoint from others and then from a third may be added in either order.
  merge_swap :
      (o s t : JobOptions F)
      → disjoint o s ≡ true
      → disjoint (merge o s) t ≡ true
      → (disjoint o t ≡ true)
        × (disjoint (merge o t) s ≡ true)
        × (merge (merge o s) t ≡ merge (merge o t) s)
        × (disjoint s t ≡ true)
  merge_swap o s t h k =
      let p = apart_swap o.proto s.proto t.proto (ground arith) (ground arith) in
      let n = apart_swap o.name s.name t.name (ground arith) (ground arith) in
      let c =
        apart_swap o.channel_name s.channel_name t.channel_name (ground arith) (ground arith) in
      let r = apart_swap o.retries s.retries t.retries (ground arith) (ground arith) in
      let b =
        apart_swap o.backoff_secs s.backoff_secs t.backoff_secs (ground arith) (ground arith) in
      let d = apart_swap o.ordered s.ordered t.ordered (ground arith) (ground arith) in
      (
        rw (p.0, n.0, c.0, r.0, b.0, d.0) refl,
        rw (p.1, n.1, c.1, r.1, b.1, d.1) refl,
        rw (p.2, n.2, c.2, r.2, b.2, d.2) refl,
        rw (p.3, n.3, c.3, r.3, b.3, d.3) refl,
      )

  -- Each argument sets something by itself, and nothing that one before it, or `o`, has set.
  pub data Accepted (ps : Parsers F) : JobOptions F → List NestedMeta → JobOptions F → Type 0 where
    stop : {o : JobOptions F} → Accepted ps o [] o
    add :
        {arg : NestedMeta} {args : List NestedMeta} {o s o' : JobOptions F}
        → interpret_job_arg ps empty_options arg ≡ done s
        → disjoint o s ≡ true
        → Accepted ps (merge o s) args o'
        → Accepted ps o (arg ∷ args) o'

  Interpreted-cases :
      (r : Interpreted F)
      → ((o : JobOptions F) × (r ≡ done o)) ⊎ (((e : SynError) × (r ≡ failed e)) ⊎ (r ≡ panicked))
  Interpreted-cases (done o) = inl (o, refl)
  Interpreted-cases (failed e) = inr (inl (e, refl))
  Interpreted-cases panicked = inr (inr refl)

  is_panic-panicked : (r : Interpreted F) → is_panic r ≡ true → r ≡ panicked
  is_panic-panicked (done o) h = cc
  is_panic-panicked (failed e) h = cc
  is_panic-panicked panicked h = refl

  module _ (ps : Parsers F) (o : JobOptions F) (arg : NestedMeta) (args : List NestedMeta) where
    args-done :
        (o₁ : JobOptions F)
        → interpret_job_arg ps o arg ≡ done o₁
        → interpret_job_args ps o (arg ∷ args) ≡ interpret_job_args ps o₁ args
    unfolding interpret_job_args
    args-done o₁ e = rw (e, interpret_job_args) refl

    args-failed :
        (x : SynError) (o' : JobOptions F)
        → interpret_job_arg ps o arg ≡ failed x
        → ¬ (interpret_job_args ps o (arg ∷ args) ≡ some (o', []))
    unfolding interpret_job_args
    args-failed x o' e h = ground arith

    args-panicked :
        interpret_job_arg ps o arg ≡ panicked → interpret_job_args ps o (arg ∷ args) ≡ none
    unfolding interpret_job_args
    args-panicked e = rw (e, interpret_job_args) refl

    free_to_set :
        (s : JobOptions F)
        → interpret_job_arg ps empty_options arg ≡ done s
        → disjoint o s ≡ true
        → interpret_job_arg ps o arg ≡ done (merge o s)
    free_to_set s e d = interpret_job_arg-done ps o s arg e ∙ rw d refl

    taken :
        (s : JobOptions F)
        → interpret_job_arg ps empty_options arg ≡ done s
        → disjoint o s ≡ false
        → interpret_job_arg ps o arg ≡ failed (unexpected arg)
    taken s e d = interpret_job_arg-done ps o s arg e ∙ rw d refl

  Accepted-ok :
      (ps : Parsers F) {o o' : JobOptions F} {args : List NestedMeta}
      → Accepted ps o args o'
      → interpret_job_args ps o args ≡ some (o', [])
  unfolding interpret_job_args
  Accepted-ok ps stop = refl
  Accepted-ok ps {o} (add {arg} {args} {s = s} e d a) =
      args-done ps o arg args (merge o s) (free_to_set ps o arg args s e d) ∙ Accepted-ok ps a

  pub ok-Accepted :
      (ps : Parsers F) (o o' : JobOptions F) (args : List NestedMeta)
      → interpret_job_args ps o args ≡ some (o', [])
      → Accepted ps o args o'
  unfolding interpret_job_args
  ok-Accepted ps o o' [] h =
      subst (Accepted ps o []) (ap (λ (r : JobOptions F × List SynError). r.0) (some_injective h))
        stop
  ok-Accepted ps o o' (arg ∷ args) h =
      elim (Interpreted-cases (interpret_job_arg ps empty_options arg)) [
        | inl (s, e) ↦ elim (Bool-cases (disjoint o s)) [
          | inl d ↦
              let q = args-done ps o arg args (merge o s) (free_to_set ps o arg args s e d) in
              add e d (ok-Accepted ps (merge o s) o' args (sym q ∙ h))
          | inr d ↦
              absurd (args-failed ps o arg args (unexpected arg) o' (taken ps o arg args s e d) h)
        ]
        | inr (inl (x, e)) ↦ elim (Interpreted-cases (interpret_job_arg ps o arg)) [
          | inl (o₁, q) ↦
              absurd (false≢true (sym (ap is_failed q) ∙ interpret_job_arg-failed ps o x arg e))
          | inr (inl (y, q)) ↦ absurd (args-failed ps o arg args y o' q h)
          | inr (inr q) ↦ absurd (not-none-some (sym (args-panicked ps o arg args q) ∙ h))
        ]
        | inr (inr e) ↦
            absurd
              (not-none-some (sym (args-panicked ps o arg args (panics_anywhere ps o arg e)) ∙ h))
      ]
    where
      panics_anywhere :
          (ps : Parsers F) (o : JobOptions F) (arg : NestedMeta)
          → interpret_job_arg ps empty_options arg ≡ panicked
          → interpret_job_arg ps o arg ≡ panicked
      panics_anywhere ps o arg e = is_panic-panicked (interpret_job_arg ps o arg) (
          interpret_job_arg-is_panic ps o arg
          ∙ sym (interpret_job_arg-is_panic ps empty_options arg)
          ∙ ap is_panic e)

  Accepted-Perm :
      (ps : Parsers F) {xs ys : List NestedMeta}
      → Permᴰ xs ys
      → (o o' : JobOptions F) → Accepted ps o xs o'
      → Accepted ps o ys o'
  Accepted-Perm ps Permᴰ.nil o o' a = a
  Accepted-Perm ps (Permᴰ.cons p q) o o' (add {s = s} e d a) =
      add (ap (λ x. interpret_job_arg ps empty_options x) (sym p) ∙ e) d
        (Accepted-Perm ps q (merge o s) o' a)
  Accepted-Perm ps (Permᴰ.swap {l = l} p q) o o' (add {s = s} e d (add {s = t} f g a)) =
      let (h, k, m, _) = merge_swap o s t d g in
      add (ap (λ x. interpret_job_arg ps empty_options x) (sym q) ∙ f) h (
        add (ap (λ x. interpret_job_arg ps empty_options x) (sym p) ∙ e) k
          (subst (λ z. Accepted ps z l o') m a))
  Accepted-Perm ps (Permᴰ.trans p q) o o' a = Accepted-Perm ps q o o' (Accepted-Perm ps p o o' a)

  -- The order of the arguments does not matter: a list that is accepted without an error is accepted
  -- in any other order, and gives the same options.
  pub interpret_job_args-Perm :
      (ps : Parsers F) (o o' : JobOptions F) (xs ys : List NestedMeta)
      → Permᴰ xs ys
      → interpret_job_args ps o xs ≡ some (o', [])
      → interpret_job_args ps o ys ≡ some (o', [])
  interpret_job_args-Perm ps o o' xs ys p h =
      Accepted-ok ps (Accepted-Perm ps p o o' (ok-Accepted ps o o' xs h))

  pub done_injective : {s t : JobOptions F} → ◌≡◌ {A = Interpreted F} (done s) (done t) → s ≡ t
  done_injective e = cc

  first_two :
      (ps : Parsers F) {o o' s t : JobOptions F} {a b : NestedMeta} {rest : List NestedMeta}
      → Accepted ps o (a ∷ b ∷ rest) o'
      → interpret_job_arg ps empty_options a ≡ done s
      → interpret_job_arg ps empty_options b ≡ done t
      → disjoint s t ≡ true
  first_two ps {o} {s = s} {t} (add {s = s'} e d (add {s = t'} f g h)) p q =
      let (_, _, _, k) = merge_swap o s' t' d g in
      rw (done_injective (sym p ∙ e), done_injective (sym q ∙ f)) k

  -- No option is given twice: of two arguments of a list that is accepted without an error, wherever
  -- they stand, neither sets an option that the other sets by itself.
  pub options_once :
      (ps : Parsers F) (o o' s t : JobOptions F) (xs rest : List NestedMeta) (a b : NestedMeta)
      → interpret_job_args ps o xs ≡ some (o', [])
      → Permᴰ xs (a ∷ b ∷ rest)
      → interpret_job_arg ps empty_options a ≡ done s
      → interpret_job_arg ps empty_options b ≡ done t
      → disjoint s t ≡ true
  options_once ps o o' s t xs rest a b h p =
      first_two ps (Accepted-Perm ps p o o' (ok-Accepted ps o o' xs h))

  -- The macro panics at no list of arguments but one with an identifier that has empty parentheses.
  pub interpret_job_args-panics :
      (ps : Parsers F) (o : JobOptions F) (xs : List NestedMeta)
      → is_none (interpret_job_args ps o xs) ≡ any is_empty_list xs
  unfolding interpret_job_args
  interpret_job_args-panics ps o [] = refl
  interpret_job_args-panics ps o (arg ∷ xs) =
      elim (Interpreted-cases (interpret_job_arg ps o arg)) [
        | inl (o₁, e) ↦
            rw (sym (interpret_job_arg-is_panic ps o arg) ∙ ap is_panic e)
              (ap is_none (args-done ps o arg xs o₁ e) ∙ interpret_job_args-panics ps o₁ xs)
        | inr (inl (x, e)) ↦
            rw (sym (interpret_job_arg-is_panic ps o arg) ∙ ap is_panic e)
              (failing ps o arg xs x e ∙ interpret_job_args-panics ps o xs)
        | inr (inr e) ↦
            rw (sym (interpret_job_arg-is_panic ps o arg) ∙ ap is_panic e)
              (ap is_none (args-panicked ps o arg xs e))
      ]
    where
      failing :
          (ps : Parsers F) (o : JobOptions F) (arg : NestedMeta) (xs : List NestedMeta)
          (x : SynError)
          → interpret_job_arg ps o arg ≡ failed x
          → is_none (interpret_job_args ps o (arg ∷ xs)) ≡ is_none (interpret_job_args ps o xs)
      failing ps o arg xs x e = ground arith
