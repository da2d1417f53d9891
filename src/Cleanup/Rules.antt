-- ===== src/Cleanup/Rules.antt =====
-- What dingolytics/tasks/cleanup_results.py removes, and what it leaves.
use mathlib.Core.List.{Memᴰ}
use dingolytics_backend.Base.{
  ℕ, zero, suc, ◌+◌, ◌≤◌, Bool, true, false, not, ◌&&◌, ◌||◌, List, [], ◌∷◌, map, keep, any, length,
  contains, ltb, ◌==◌, nat_eq, ◌≡◌, refl, sym, subst, ◌∙◌, ◌⊎◌, arith, Bool-cases, inl, inr,
  mem_of_keep, any_find, mem_keep_of, eq_of_beq, any_of_mem, ap, beq_refl,
}
use dingolytics_backend.Execution.{QueryResult, Database, is_source, unused}
use dingolytics_backend.Cleanup.{limit, unused_ids, cleanup_unused_results}

-- The ids of a table are its key.
abbrev pub IsKeyed : List QueryResult → Type 0
IsKeyed [] = Unit
IsKeyed (r ∷ results) = (any (λ s. s.id == r.id) results ≡ false) × IsKeyed results

-- A query shows the result.
abbrev pub is_shown : Database → QueryResult → Bool
is_shown d r = any (λ q. is_source r.id q.latest_query_data_id) d.queries

limit-Mem : {A : Type 0} (n : ℕ) (xs : List A) {x : A} → Memᴰ x (limit n xs) → Memᴰ x xs
unfolding limit
limit-Mem zero xs m = elim m [ ]
limit-Mem (suc n) [] m = elim m [ ]
limit-Mem (suc n) (y ∷ xs) (Memᴰ.head e) = Memᴰ.head e
limit-Mem (suc n) (y ∷ xs) (Memᴰ.tail m) = Memᴰ.tail (limit-Mem n xs m)

length-limit : {A : Type 0} (n : ℕ) (xs : List A) → length (limit n xs) ≤ n
unfolding limit
length-limit zero xs = omega arith
length-limit (suc n) [] = omega arith
length-limit (suc n) (x ∷ xs) = omega (arith, length-limit n xs)

contains-map :
    (ids : List QueryResult) (id : ℕ)
    → contains (map (λ r. r.id) ids) id ≡ any (λ r. r.id == id) ids
contains-map [] id = refl
contains-map (r ∷ ids) id = ground (arith, contains-map ids id)

-- Rows with one id are one row.
same_row :
    (results : List QueryResult) {r s : QueryResult}
    → IsKeyed results
    → Memᴰ r results
    → Memᴰ s results
    → (r.id == s.id) ≡ true
    → r ≡ s
same_row (x ∷ results) k (Memᴰ.head e) (Memᴰ.head f) h = e ∙ sym f
same_row (x ∷ results) {r} {s} k (Memᴰ.head e) (Memᴰ.tail n) h = absurd (
    cc
      (any_of_mem (λ t. t.id == x.id) n (subst (λ y. (s.id == y.id) ≡ true) e (ground arith)), k.0))
same_row (x ∷ results) {r} {s} k (Memᴰ.tail m) (Memᴰ.head f) h =
    absurd (cc (any_of_mem (λ t. t.id == x.id) m (subst (λ y. (r.id == y.id) ≡ true) f h), k.0))
same_row (x ∷ results) k (Memᴰ.tail m) (Memᴰ.tail n) h = same_row results k.1 m n h
same_row [] k m n h = elim m [ ]

contradiction :
    (d : Database) (threshold : ℕ) (r : QueryResult)
    → (is_shown d r ≡ true) ⊎ (ltb r.retrieved_at threshold ≡ false)
    → ¬ ((not (is_shown d r) && ltb r.retrieved_at threshold) ≡ true)
contradiction d threshold r (inl h) e = cc (rw h at e)
contradiction d threshold r (inr h) e = ground arith

-- A result that a query shows, or that is not older than the threshold, stays.
stays :
    (d : Database) (threshold count : ℕ) (r : QueryResult)
    → IsKeyed d.results
    → Memᴰ r d.results
    → (is_shown d r ≡ true) ⊎ (ltb r.retrieved_at threshold ≡ false)
    → Memᴰ r (cleanup_unused_results d threshold count).results
unfolding cleanup_unused_results unused_ids unused
stays d threshold count r k m h = elim (Bool-cases (contains (unused_ids d threshold count) r.id)) [
  | inl e ↦
      let (s, n, same) =
        any_find (λ s. s.id == r.id) (limit count (unused d threshold))
          (sym (contains-map _ r.id) ∙ e) in
      let (p, unused_s) = mem_of_keep _ d.results (limit-Mem count (unused d threshold) n) in
      absurd (
        contradiction d threshold r h (
          subst (λ t. (not (is_shown d t) && ltb t.retrieved_at threshold) ≡ true)
            (same_row d.results k p m same) unused_s))
  | inr e ↦ mem_keep_of _ m (rw e refl)
]

no_row :
    (q : QueryResult → Bool) (id : ℕ) (results : List QueryResult)
    → any (λ s. s.id == id) results ≡ false
    → length (keep (λ r. not (q r)) results) ≤ length (keep (λ r. not (id == r.id || q r)) results)
no_row q id [] h = omega arith
no_row q id (r ∷ results) h = ground (arith, no_row q id results)

one_row :
    (q : QueryResult → Bool) (id : ℕ) (results : List QueryResult)
    → IsKeyed results
    → length (keep (λ r. not (q r)) results)
      ≤ length (keep (λ r. not (id == r.id || q r)) results) + 1
one_row q id [] k = omega arith
one_row q id (r ∷ results) k = elim (Bool-cases (id == r.id)) [
  | inl e ↦ ground (
    arith,
    no_row q id results
        (subst (λ i. any (λ s. s.id == i) results ≡ false) (sym (eq_of_beq id r.id e)) k.0),
  )
  | inr e ↦ ground (arith, one_row q id results k.1)
]

length-keep_all :
    (results : List QueryResult) → length results ≤ length (keep (λ r. not false) results)
length-keep_all [] = omega arith
length-keep_all (r ∷ results) = omega (arith, length-keep_all results)

-- The rows that are left out of a table with a key are at most as many as the ids they are looked up by.
length-without :
    (ids : List ℕ) (results : List QueryResult)
    → IsKeyed results
    → length results ≤ length (keep (λ r. not (contains ids r.id)) results) + length ids
length-without [] results k = omega (arith, length-keep_all results)
length-without (id ∷ ids) results k =
    omega (arith, length-without ids results k, one_row (λ r. contains ids r.id) id results k)

length-map_ids : (rows : List QueryResult) → length (map (λ r. r.id) rows) ≡ length rows
length-map_ids [] = refl
length-map_ids (r ∷ rows) = omega (arith, length-map_ids rows)

removed_bound :
    (d : Database) (threshold count : ℕ)
    → IsKeyed d.results
    → length d.results ≤ length (cleanup_unused_results d threshold count).results + count
unfolding cleanup_unused_results unused_ids
removed_bound d threshold count k = omega (
  arith,
  length-without (map (λ r. r.id) (limit count (unused d threshold))) d.results k,
  length-map_ids (limit count (unused d threshold)),
  length-limit count (unused d threshold),
)

limit_all : {A : Type 0} (n : ℕ) (xs : List A) → length xs ≤ n → limit n xs ≡ xs
unfolding limit
limit_all zero [] h = refl
limit_all zero (x ∷ xs) h = absurd (omega (arith, h))
limit_all (suc n) [] h = refl
limit_all (suc n) (x ∷ xs) h = ap (λ l. x ∷ l) (limit_all n xs (omega (arith, h)))

-- If the results that may go are no more than `count`, they all go.
all_removed :
    (d : Database) (threshold count : ℕ) (r : QueryResult)
    → length (keep (λ r. not (is_shown d r) && ltb r.retrieved_at threshold) d.results) ≤ count
    → Memᴰ r (cleanup_unused_results d threshold count).results
    → (not (is_shown d r) && ltb r.retrieved_at threshold) ≡ false
unfolding cleanup_unused_results unused_ids unused
all_removed d threshold count r few m =
    let (n, kept) = mem_of_keep _ d.results m in
    elim (Bool-cases (not (is_shown d r) && ltb r.retrieved_at threshold)) [
      | inr e ↦ e
      | inl e ↦
          let there : any (λ s. s.id == r.id) (unused d threshold) ≡ true =
            any_of_mem (λ s. s.id == r.id) (mem_keep_of _ n e) (beq_refl r.id) in
          let gone : contains (unused_ids d threshold count) r.id ≡ true =
            contains-map (limit count (unused d threshold)) r.id
            ∙ ap (any (λ s. s.id == r.id)) (limit_all count (unused d threshold) few)
            ∙ there in
          absurd (ground (arith, gone, kept))
    ]

-- The task removes at most `count` results, and all that no query shows and that are older than the threshold if
-- these are no more than `count`. A result that a query shows, or that is not older than the threshold, stays, and
-- nothing but the table of results is written.
pub cleanup_unused_results_lem :
    (d : Database) (threshold count : ℕ)
    → IsKeyed d.results
    → (length d.results ≤ length (cleanup_unused_results d threshold count).results + count)
      × ((r : QueryResult)
          → Memᴰ r d.results
          → (is_shown d r ≡ true) ⊎ (ltb r.retrieved_at threshold ≡ false)
          → Memᴰ r (cleanup_unused_results d threshold count).results)
      × ((r : QueryResult)
          → length (keep (λ r. not (is_shown d r) && ltb r.retrieved_at threshold) d.results)
            ≤ count
          → Memᴰ r (cleanup_unused_results d threshold count).results
          → (not (is_shown d r) && ltb r.retrieved_at threshold) ≡ false)
      × (cleanup_unused_results d threshold count
          ≡ record d { results = (cleanup_unused_results d threshold count).results })
unfolding cleanup_unused_results
cleanup_unused_results_lem d threshold count k = (
  removed_bound d threshold count k,
  λ r m h. stays d threshold count r k m h,
  λ r few m. all_removed d threshold count r few m,
  refl,
)
