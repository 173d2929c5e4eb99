-- ===== src/Stress/Statistics.antt =====
-- The numbers that the stress program prints.
use sqlxmq.Prelude.{
  ℕ, zero, suc, ◌-◌, ◌*◌, ◌/◌, ◌≤◌, ◌<◌, ◌≡◌, refl, sym, ap, ◌∙◌, inl, inr, true, List, [], ◌∷◌,
  some, ==_iff, ltb, leb, length, filter, All, All-map, Bool-cases, some_injective, not-none-some,
  arith,
}
use sqlxmq.Stress.{Summary, insert_result, sort, get_elem?, statistics, report}

-- Every entry is no less than the one before it.
abbrev IsSorted : List ℕ → Type 0
IsSorted [] = Unit
IsSorted (x ∷ xs) = All (λ y. x ≤ y) xs × IsSorted xs

All-insert_result :
    (z x : ℕ) (xs : List ℕ) → z ≤ x → All (λ y. z ≤ y) xs → All (λ y. z ≤ y) (insert_result x xs)
unfolding insert_result
All-insert_result z x [] h k = (h, tt)
All-insert_result z x (y ∷ ys) h k = elim (Bool-cases (ltb y x)) [
  | inl e ↦ rw e (k.0, All-insert_result z x ys h k.1)
  | inr e ↦ rw e (h, k)
]

insert_result-IsSorted : (x : ℕ) (xs : List ℕ) → IsSorted xs → IsSorted (insert_result x xs)
unfolding insert_result
insert_result-IsSorted x [] s = (tt, tt)
insert_result-IsSorted x (y ∷ ys) s = elim (Bool-cases (ltb y x)) [
  | inl e ↦ rw e (All-insert_result y x ys (ground arith) s.0, insert_result-IsSorted x ys s.1)
  | inr e ↦ let xy : x ≤ y = ground arith in rw e ((xy, All-map ys (λ z h. omega arith) s.0), s)
]

sort-IsSorted : (xs : List ℕ) → IsSorted (sort xs)
unfolding sort
sort-IsSorted [] = tt
sort-IsSorted (x ∷ xs) = insert_result-IsSorted x (sort xs) (sort-IsSorted xs)

-- The number of entries that are no more than `v`.
abbrev pub count_le : ℕ → List ℕ → ℕ
count_le v xs = length (filter (λ x. leb x v) xs)

count_le-insert_result :
    (v x : ℕ) (xs : List ℕ) → count_le v (insert_result x xs) ≡ count_le v (x ∷ xs)
unfolding insert_result
count_le-insert_result v x [] = refl
count_le-insert_result v x (y ∷ ys) = ground (arith, count_le-insert_result v x ys)

count_le-sort : (v : ℕ) (xs : List ℕ) → count_le v (sort xs) ≡ count_le v xs
unfolding sort
count_le-sort v [] = refl
count_le-sort v (x ∷ xs) = ground (arith, count_le-insert_result v x (sort xs), count_le-sort v xs)

length-insert_result : (x : ℕ) (xs : List ℕ) → length (insert_result x xs) ≡ suc (length xs)
unfolding insert_result
length-insert_result x [] = refl
length-insert_result x (y ∷ ys) = ground (arith, length-insert_result x ys)

length-sort : (xs : List ℕ) → length (sort xs) ≡ length xs
unfolding sort
length-sort [] = refl
length-sort (x ∷ xs) = length-insert_result x (sort xs) ∙ ap suc (length-sort xs)

get_elem?-some : (xs : List ℕ) (i : ℕ) → i < length xs → (v : ℕ) × (get_elem? xs i ≡ some v)
get_elem?-some [] i h = absurd (omega arith)
get_elem?-some (x ∷ xs) zero h = (x, refl)
get_elem?-some (x ∷ xs) (suc i) h = get_elem?-some xs i (omega arith)

at_least : (xs : List ℕ) (x j w : ℕ) → All (λ y. x ≤ y) xs → get_elem? xs j ≡ some w → x ≤ w
at_least [] x j w h q = absurd (not-none-some q)
at_least (y ∷ ys) x zero w h q = omega (arith, some_injective q, h.0)
at_least (y ∷ ys) x (suc j) w h q = at_least ys x j w h.1 q

-- A place further on has no smaller entry.
get_elem?-le :
    (xs : List ℕ) (i j v w : ℕ)
    → IsSorted xs
    → i ≤ j
    → get_elem? xs i ≡ some v
    → get_elem? xs j ≡ some w
    → v ≤ w
get_elem?-le [] i j v w s h p q = ground arith
get_elem?-le (x ∷ xs) zero zero v w s h p q = omega (arith, some_injective (sym p ∙ q))
get_elem?-le (x ∷ xs) zero (suc j) v w s h p q =
    omega (arith, some_injective p, at_least xs x j w s.0 q)
get_elem?-le (x ∷ xs) (suc i) zero v w s h p q = absurd (omega arith)
get_elem?-le (x ∷ xs) (suc i) (suc j) v w s h p q = get_elem?-le xs i j v w s.1 (omega arith) p q

-- An entry is no less than those up to it.
rank : (xs : List ℕ) (i v : ℕ) → IsSorted xs → get_elem? xs i ≡ some v → i < count_le v xs
rank [] i v s p = absurd (not-none-some p)
rank (x ∷ xs) zero v s p = let e = some_injective p in ground arith
rank (x ∷ xs) (suc i) v s p = let h = at_least xs x i v s.0 p in ground (arith, rank xs i v s.1 p)

All-of_insert : (P : ℕ → Type 0) (x : ℕ) (xs : List ℕ) → All P (insert_result x xs) → P x × All P xs
unfolding insert_result
All-of_insert P x [] h = h
All-of_insert P x (y ∷ ys) h = elim (Bool-cases (ltb y x)) [
  | inl e ↦ let (hy, hi) = taken e h in let (hx, hs) = All-of_insert P x ys hi in (hx, (hy, hs))
  | inr e ↦ rw e at h
]
  where
    taken : ltb y x ≡ true → All P (insert_result x (y ∷ ys)) → P y × All P (insert_result x ys)
    taken e h = rw e at h

All-of_sort : (P : ℕ → Type 0) (xs : List ℕ) → All P (sort xs) → All P xs
unfolding sort
All-of_sort P [] h = tt
All-of_sort P (x ∷ xs) h = let (hx, hs) = All-of_insert P x (sort xs) h in (hx, All-of_sort P xs hs)

first-All : (xs : List ℕ) (v : ℕ) → IsSorted xs → get_elem? xs 0 ≡ some v → All (λ x. v ≤ x) xs
first-All [] v s p = tt
first-All (x ∷ xs) v s p =
    let e = some_injective p in ((omega arith), All-map xs (λ y h. omega arith) s.0)

report-some :
    (num_jobs : ℕ) (results : List ℕ) (min max median pct : ℕ)
    → length results ≡ num_jobs
    → get_elem? (sort results) 0 ≡ some min
    → get_elem? (sort results) (num_jobs - 1) ≡ some max
    → get_elem? (sort results) (num_jobs / 2) ≡ some median
    → get_elem? (sort results) (num_jobs * 19 / 20) ≡ some pct
    → report num_jobs results ≡ some (record { min = min; max = max; median = median; pct = pct })
unfolding report statistics
report-some num_jobs results min max median pct all e₁ e₂ e₃ e₄ =
    rw ((==_iff (length results) num_jobs).1 all) (rw (e₁, statistics) (rw e₂ (rw e₃ (rw e₄ refl))))

-- Where there is a job and each has sent its result, the program reports without a panic, and what it
-- prints is what it says: the minimum, the median, the 95th percentile and the maximum are in
-- order, no result is below the minimum, all are up to the maximum, more than half of them
-- (rounded down) up to the median and more than 95% (rounded down) up to the percentile.
pub report_lem :
    (num_jobs : ℕ) (results : List ℕ)
    → 0 < num_jobs
    → length results ≡ num_jobs
    → (s : Summary) × (report num_jobs results ≡ some s)
      × (s.min ≤ s.median)
      × (s.median ≤ s.pct)
      × (s.pct ≤ s.max)
      × All (λ x. s.min ≤ x) results
      × (num_jobs ≤ count_le s.max results)
      × (num_jobs / 2 < count_le s.median results)
      × (num_jobs * 19 / 20 < count_le s.pct results)
report_lem num_jobs results more all =
    let sorted = sort results in
    let is_sorted = sort-IsSorted results in
    let n = length-sort results ∙ all in
    let (min, at_min) = get_elem?-some sorted 0 (omega arith) in
    let (max, at_max) = get_elem?-some sorted (num_jobs - 1) (omega arith) in
    let (median, at_median) = get_elem?-some sorted (num_jobs / 2) (omega arith) in
    let (pct, at_pct) = get_elem?-some sorted (num_jobs * 19 / 20) (omega arith) in
    (
      record { min = min; max = max; median = median; pct = pct },
      report-some num_jobs results min max median pct all at_min at_max at_median at_pct,
      get_elem?-le sorted 0 (num_jobs / 2) min median is_sorted (omega arith) at_min at_median,
      get_elem?-le sorted (num_jobs / 2) (num_jobs * 19 / 20) median pct is_sorted (omega arith)
          at_median at_pct,
      get_elem?-le sorted (num_jobs * 19 / 20) (num_jobs - 1) pct max is_sorted (omega arith) at_pct
          at_max,
      All-of_sort (λ x. min ≤ x) results (first-All sorted min is_sorted at_min),
      omega (arith, rank sorted (num_jobs - 1) max is_sorted at_max, count_le-sort max results),
      omega (
        arith,
        rank sorted (num_jobs / 2) median is_sorted at_median,
        count_le-sort median results,
      ),
      omega
          (arith, rank sorted (num_jobs * 19 / 20) pct is_sorted at_pct, count_le-sort pct results),
    )
