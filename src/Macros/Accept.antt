-- ===== src/Macros/Accept.antt =====
-- Which arguments the macro accepts, and what each of them means by itself.
use sqlxmq.Prelude.{
  String, ◌≡◌, refl, sym, subst, Bool, true, false, ◌&&◌, Option, none, some, str_eq, str_eq_iff,
  if◌then◌else◌, arith,
}
use sqlxmq.Macros.{
  MetaPath, ident, qualified, str, int, float, bool, other, NestedMeta, lit, meta, Meta, path, list,
  name_value, nested_nil, nested_cons,
}
use sqlxmq.Macros.Args.{
  JobOptions, OptionValue, no_value, lit_value, path_value, SynError, unexpected, Interpreted, done,
  failed, panicked, is_none, path_of, Parsers, empty_options, set_option, set_meta,
  interpret_job_arg,
}

-- The first of two options, if there is one; they are apart where there are not two.
abbrev pub or_first {ℓ} : {A : Type ℓ} → Option A → Option A → Option A
or_first a none = a
or_first none (some b) = some b
or_first (some a) (some b) = some a

abbrev pub apart {ℓ} : {A : Type ℓ} → Option A → Option A → Bool
apart a none = true
apart a (some b) = is_none a

-- A key is one of two at most.
one_key : (key a b : String) → str_eq a b ≡ false → str_eq key a ≡ true → str_eq key b ≡ false
one_key key a b h e = subst (λ k. str_eq k b ≡ false) (sym ((str_eq_iff key a).0 e)) h

-- An identifier with nothing between its parentheses.
abbrev pub is_empty_list : NestedMeta → Bool
is_empty_list (lit l) = false
is_empty_list (meta (path p)) = false
is_empty_list (meta (name_value p l)) = false
is_empty_list (meta (list (qualified segments) nested)) = false
is_empty_list (meta (list (ident key) nested_nil)) = true
is_empty_list (meta (list (ident key) (nested_cons a rest))) = false

module _ {F : Type 0} where
  abbrev pub merge : JobOptions F → JobOptions F → JobOptions F
  merge o s = record {
    proto = or_first o.proto s.proto;
    name = or_first o.name s.name;
    channel_name = or_first o.channel_name s.channel_name;
    retries = or_first o.retries s.retries;
    backoff_secs = or_first o.backoff_secs s.backoff_secs;
    ordered = or_first o.ordered s.ordered;
  }

  -- No option is set in both.
  abbrev pub disjoint : JobOptions F → JobOptions F → Bool
  disjoint o s =
      apart o.proto s.proto
      && apart o.name s.name
      && apart o.channel_name s.channel_name
      && apart o.retries s.retries
      && apart o.backoff_secs s.backoff_secs
      && apart o.ordered s.ordered

  abbrev pub is_failed : Interpreted F → Bool
  is_failed (done o) = false
  is_failed (failed e) = true
  is_failed panicked = false

  module _ (ps : Parsers F) (o s : JobOptions F) where
    set_option-done :
        (arg : NestedMeta) (key : String) (v : OptionValue)
        → set_option ps empty_options arg key v ≡ done s
        → set_option ps o arg key v
          ≡ (if disjoint o s then done (merge o s) else failed (unexpected arg))
    unfolding set_option
    set_option-done arg key (path_value p) e = ground arith
    set_option-done arg key (lit_value (str t)) e =
        ground (arith, one_key key "name" "channel_name" refl)
    set_option-done arg key (lit_value (int t)) e =
        ground (arith, one_key key "retries" "backoff_secs" refl)
    set_option-done arg key (lit_value (float t)) e = ground arith
    set_option-done arg key (lit_value (bool t)) e = ground arith
    set_option-done arg key (lit_value other) e = ground arith
    set_option-done arg key no_value e = ground arith

    set_meta-done :
        (arg : NestedMeta) (key : String) (m : Meta)
        → set_meta ps empty_options arg key m ≡ done s
        → set_meta ps o arg key m
          ≡ (if disjoint o s then done (merge o s) else failed (unexpected arg))
    unfolding set_meta
    set_meta-done arg key (path p) e = set_option-done arg key no_value e
    set_meta-done arg key (name_value p l) e = set_option-done arg key (lit_value l) e
    set_meta-done arg key (list p nested_nil) e = ground arith
    set_meta-done arg key (list p (nested_cons (meta (path q)) rest)) e =
        set_option-done arg key (path_value q) e
    set_meta-done arg key (list p (nested_cons (meta (list q n)) rest)) e = ground arith
    set_meta-done arg key (list p (nested_cons (meta (name_value q l)) rest)) e = ground arith
    set_meta-done arg key (list p (nested_cons (lit l) rest)) e = ground arith

    -- An argument sets in any options what it sets in none, where those are free.
    pub interpret_job_arg-done :
        (arg : NestedMeta)
        → interpret_job_arg ps empty_options arg ≡ done s
        → interpret_job_arg ps o arg
          ≡ (if disjoint o s then done (merge o s) else failed (unexpected arg))
    unfolding interpret_job_arg
    interpret_job_arg-done (lit (str t)) e = ground arith
    interpret_job_arg-done (lit (int t)) e = ground arith
    interpret_job_arg-done (lit (float t)) e = ground arith
    interpret_job_arg-done (lit (bool t)) e = ground arith
    interpret_job_arg-done (lit other) e = ground arith
    interpret_job_arg-done (meta m) e = go (path_of m) e
      where
        go :
            (p : MetaPath)
            → (elim p [
              | ident key ↦ set_meta ps empty_options (meta m) key m
              | qualified segments ↦ done empty_options
            ])
              ≡ done s
            → (elim p [ ident key ↦ set_meta ps o (meta m) key m | qualified segments ↦ done o ])
              ≡ (if disjoint o s then done (merge o s) else failed (unexpected (meta m)))
        go (ident key) e = set_meta-done (meta m) key m e
        go (qualified segments) e = ground arith

  module _ (ps : Parsers F) (o : JobOptions F) (x : SynError) where
    set_option-failed :
        (arg : NestedMeta) (key : String) (v : OptionValue)
        → set_option ps empty_options arg key v ≡ failed x
        → is_failed (set_option ps o arg key v) ≡ true
    unfolding set_option
    set_option-failed arg key (path_value p) e = ground arith
    set_option-failed arg key (lit_value (str t)) e = ground arith
    set_option-failed arg key (lit_value (int t)) e =
        ground (arith, one_key key "retries" "backoff_secs" refl)
    set_option-failed arg key (lit_value (float t)) e = ground arith
    set_option-failed arg key (lit_value (bool t)) e = ground arith
    set_option-failed arg key (lit_value other) e = refl
    set_option-failed arg key no_value e = ground arith

    set_meta-failed :
        (arg : NestedMeta) (key : String) (m : Meta)
        → set_meta ps empty_options arg key m ≡ failed x
        → is_failed (set_meta ps o arg key m) ≡ true
    unfolding set_meta
    set_meta-failed arg key (path p) e = set_option-failed arg key no_value e
    set_meta-failed arg key (name_value p l) e = set_option-failed arg key (lit_value l) e
    set_meta-failed arg key (list p nested_nil) e = ground arith
    set_meta-failed arg key (list p (nested_cons (meta (path q)) rest)) e =
        set_option-failed arg key (path_value q) e
    set_meta-failed arg key (list p (nested_cons (meta (list q n)) rest)) e = refl
    set_meta-failed arg key (list p (nested_cons (meta (name_value q l)) rest)) e = refl
    set_meta-failed arg key (list p (nested_cons (lit l) rest)) e = refl

    -- An argument that is an error by itself is one wherever it stands.
    pub interpret_job_arg-failed :
        (arg : NestedMeta)
        → interpret_job_arg ps empty_options arg ≡ failed x
        → is_failed (interpret_job_arg ps o arg) ≡ true
    unfolding interpret_job_arg
    interpret_job_arg-failed (lit (str t)) e = ground arith
    interpret_job_arg-failed (lit (int t)) e = refl
    interpret_job_arg-failed (lit (float t)) e = refl
    interpret_job_arg-failed (lit (bool t)) e = refl
    interpret_job_arg-failed (lit other) e = refl
    interpret_job_arg-failed (meta m) e = go (path_of m) e
      where
        go :
            (p : MetaPath)
            → (elim p [
              | ident key ↦ set_meta ps empty_options (meta m) key m
              | qualified segments ↦ done empty_options
            ])
              ≡ failed x
            → is_failed
                (elim p [ ident key ↦ set_meta ps o (meta m) key m | qualified segments ↦ done o ])
              ≡ true
        go (ident key) e = set_meta-failed (meta m) key m e
        go (qualified segments) e = ground arith

  abbrev pub is_panic : Interpreted F → Bool
  is_panic (done o) = false
  is_panic (failed e) = false
  is_panic panicked = true

  module _ (ps : Parsers F) (o : JobOptions F) where
    set_option-is_panic :
        (arg : NestedMeta) (key : String) (v : OptionValue)
        → is_panic (set_option ps o arg key v) ≡ false
    unfolding set_option
    set_option-is_panic arg key (path_value p) = ground arith
    set_option-is_panic arg key (lit_value (str t)) = ground arith
    set_option-is_panic arg key (lit_value (int t)) = ground arith
    set_option-is_panic arg key (lit_value (float t)) = ground arith
    set_option-is_panic arg key (lit_value (bool t)) = ground arith
    set_option-is_panic arg key (lit_value other) = refl
    set_option-is_panic arg key no_value = ground arith

    pub interpret_job_arg-is_panic :
        (arg : NestedMeta) → is_panic (interpret_job_arg ps o arg) ≡ is_empty_list arg
    unfolding interpret_job_arg set_meta
    interpret_job_arg-is_panic (lit (str t)) = ground arith
    interpret_job_arg-is_panic (lit (int t)) = refl
    interpret_job_arg-is_panic (lit (float t)) = refl
    interpret_job_arg-is_panic (lit (bool t)) = refl
    interpret_job_arg-is_panic (lit other) = refl
    interpret_job_arg-is_panic (meta (path (qualified q))) = refl
    interpret_job_arg-is_panic (meta (path (ident key))) =
        set_option-is_panic (meta (path (ident key))) key no_value
    interpret_job_arg-is_panic (meta (name_value (qualified q) l)) = refl
    interpret_job_arg-is_panic (meta (name_value (ident key) l)) =
        set_option-is_panic (meta (name_value (ident key) l)) key (lit_value l)
    interpret_job_arg-is_panic (meta (list (qualified q) n)) = refl
    interpret_job_arg-is_panic (meta (list (ident key) nested_nil)) = refl
    interpret_job_arg-is_panic (meta (list (ident key) (nested_cons (lit l) rest))) = refl
    interpret_job_arg-is_panic (meta (list (ident key) (nested_cons (meta (list q n)) rest))) = refl
    interpret_job_arg-is_panic
          (meta (list (ident key) (nested_cons (meta (name_value q l)) rest))) =
        refl
    interpret_job_arg-is_panic (meta (list (ident key) (nested_cons (meta (path q)) rest))) =
        set_option-is_panic (meta (list (ident key) (nested_cons (meta (path q)) rest))) key
          (path_value q)
