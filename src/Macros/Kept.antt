-- ===== src/Macros/Kept.antt =====
-- What each argument of a list that is accepted does to the options.
use sqlxmq.Prelude.{◌≡◌, refl, sym, ◌∙◌, ap, subst, true, List, [], Option, none, some, Memᴰ, arith}
use sqlxmq.Macros.{NestedMeta}
use sqlxmq.Macros.Args.{
  JobOptions, done, Parsers, empty_options, interpret_job_arg, interpret_job_args,
}
use sqlxmq.Macros.Accept.{or_first, apart, merge, disjoint}
use sqlxmq.Macros.Order.{Accepted, stop, add, ok-Accepted, done_injective}

module _ {ℓ} {A : Type ℓ} where
  -- An option that is set is set to the same in the other.
  abbrev pub Kept : Option A → Option A → Type ℓ
  Kept none b = Unit
  Kept (some a) b = b ≡ some a

  Kept-refl : (a : Option A) → Kept a a
  Kept-refl none = tt
  Kept-refl (some a) = refl

  Kept-or_first : (a b c : Option A) → Kept (or_first a b) c → Kept a c
  Kept-or_first none b c h = tt
  Kept-or_first (some a) none c h = h
  Kept-or_first (some a) (some b) c h = h

  Kept-apart : (a b c : Option A) → apart a b ≡ true → Kept (or_first a b) c → Kept b c
  Kept-apart a none c d h = tt
  Kept-apart none (some b) c d h = h
  Kept-apart (some a) (some b) c d h = absurd (cc)

module _ {F : Type 0} where
  abbrev pub Extends : JobOptions F → JobOptions F → Type 0
  Extends o s =
      Kept s.proto o.proto
      × Kept s.name o.name
      × Kept s.channel_name o.channel_name
      × Kept s.retries o.retries
      × Kept s.backoff_secs o.backoff_secs
      × Kept s.ordered o.ordered

  Extends-refl : (o : JobOptions F) → Extends o o
  Extends-refl o = (
    Kept-refl o.proto,
    Kept-refl o.name,
    Kept-refl o.channel_name,
    Kept-refl o.retries,
    Kept-refl o.backoff_secs,
    Kept-refl o.ordered,
  )

  module _ (o s o' : JobOptions F) (h : Extends o' (merge o s)) where
    merge_left : Extends o' o
    merge_left = (
      Kept-or_first o.proto s.proto _ h.0,
      Kept-or_first o.name s.name _ h.1,
      Kept-or_first o.channel_name s.channel_name _ h.2,
      Kept-or_first o.retries s.retries _ h.3,
      Kept-or_first o.backoff_secs s.backoff_secs _ h.4,
      Kept-or_first o.ordered s.ordered _ h.5,
    )

    merge_right : disjoint o s ≡ true → Extends o' s
    merge_right d = (
      Kept-apart o.proto s.proto _ (ground arith) h.0,
      Kept-apart o.name s.name _ (ground arith) h.1,
      Kept-apart o.channel_name s.channel_name _ (ground arith) h.2,
      Kept-apart o.retries s.retries _ (ground arith) h.3,
      Kept-apart o.backoff_secs s.backoff_secs _ (ground arith) h.4,
      Kept-apart o.ordered s.ordered _ (ground arith) h.5,
    )

  Accepted-Extends :
      (ps : Parsers F) {o o' : JobOptions F} {xs : List NestedMeta}
      → Accepted ps o xs o'
      → Extends o' o
  Accepted-Extends ps {o} stop = Extends-refl o
  Accepted-Extends ps {o} {o'} (add {s = s} e d a) = merge_left o s o' (Accepted-Extends ps a)

  Accepted-sets :
      (ps : Parsers F) {o o' : JobOptions F} {xs : List NestedMeta}
      → Accepted ps o xs o'
      → (s : JobOptions F) (arg : NestedMeta) → Memᴰ arg xs
      → interpret_job_arg ps empty_options arg ≡ done s
      → Extends o' s
  Accepted-sets ps stop s arg m q = elim m [ ]
  Accepted-sets ps {o} {o'} (add {s = t} e d a) s arg (Memᴰ.head p) q =
      let same =
        done_injective (sym e ∙ sym (ap (λ x. interpret_job_arg ps empty_options x) p) ∙ q) in
      subst (Extends o') same (merge_right o t o' (Accepted-Extends ps a) d)
  Accepted-sets ps (add e d a) s arg (Memᴰ.tail m) q = Accepted-sets ps a s arg m q

  -- Each argument of a list that is accepted without an error counts: what it sets by itself stands in
  -- the options, whatever stands before and after it.
  pub options_kept :
      (ps : Parsers F) (o o' s : JobOptions F) (xs : List NestedMeta) (arg : NestedMeta)
      → interpret_job_args ps o xs ≡ some (o', [])
      → Memᴰ arg xs
      → interpret_job_arg ps empty_options arg ≡ done s
      → Extends o' s
  options_kept ps o o' s xs arg h = Accepted-sets ps (ok-Accepted ps o o' xs h) s arg
