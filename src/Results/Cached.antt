-- ===== src/Results/Cached.antt =====
-- The cached results that redash/handlers/query_results.py answers with.
use mathlib.Core.List.{Memᴰ}
use dingolytics_backend.Base.{
  ℕ, zero, suc, ◌+◌, ◌*◌, ◌≤◌, Bool, true, Option, none, some, List, [], ◌∷◌, ltb, ◌≡◌, ◌≢◌, refl,
  sym, ap, ◌∙◌, arith, Bool-cases, inl, inr, if◌then◌else◌, nat_eq, mem_of_keep, eq_of_beq,
  string_eq,
}
use dingolytics_backend.Base.Dict.{Dict}
use dingolytics_backend.Base.Result.{Result, ok, ok_inj, >>=-eq-ok}
use dingolytics_backend.Base.Text.{Text, text_eq}
use dingolytics_backend.Users.{Principal}
use dingolytics_backend.Utils.{gen_query_hash}
use dingolytics_backend.Parameters.Values.{Library, Value, Referred}
use dingolytics_backend.Parameters.{ParameterizedQuery, apply}
use dingolytics_backend.Parameters.Missing.{Nodes}
use dingolytics_backend.Execution.{ℤ, pos, negsuc, is_fresh, QueryResult, get_latest, latest}
use dingolytics_backend.Store.{DataSource, Store}
use dingolytics_backend.Results.{
  query_result, Site, or_refused, cached, answer, answer_complete, run_query,
}
use dingolytics_backend.Results.Running.{or_refused-ok}

some_inj {ℓ} : {A : Type ℓ} {a b : A} → some a ≡ some b → a ≡ b
some_inj h = cc

latest-Mem : (rows : List QueryResult) (r : QueryResult) → latest rows ≡ some r → Memᴰ r rows
unfolding latest
latest-Mem [] r h = cc
latest-Mem (x ∷ rows) r h = newer (latest rows) (latest-Mem rows) refl h
  where
    newer :
        (o : Option QueryResult)
        → ((y : QueryResult) → latest rows ≡ some y → Memᴰ y rows)
        → latest rows ≡ o
        → (elim o [
          | none ↦ some x
          | some y ↦ some (if ltb x.retrieved_at y.retrieved_at then y else x)
        ])
          ≡ some r
        → Memᴰ r (x ∷ rows)
    newer none rest e h = Memᴰ.head (sym (some_inj h))
    newer (some y) rest e h = elim (Bool-cases (ltb x.retrieved_at y.retrieved_at)) [
      | inl f ↦ Memᴰ.tail (rest r (e ∙ (rw f at h)))
      | inr f ↦ Memᴰ.head (sym (some_inj (rw f at h)))
    ]

pos_inj : {a b : ℕ} → pos a ≡ pos b → a ≡ b
pos_inj h = cc

-- What a maximal age in seconds asks of the instant of a result, in microseconds; -1 asks for nothing, and any other negative age for
-- an instant that lies that far ahead.
pub data IsYoung (now retrieved_at : ℕ) : ℤ → Type 0 where
  any_age : IsYoung now retrieved_at (negsuc 0)
  within : (n : ℕ) → now ≤ retrieved_at + n * 1_000_000 → IsYoung now retrieved_at (pos n)
  ahead : (n : ℕ) → now + (n + 1) * 1_000_000 ≤ retrieved_at → IsYoung now retrieved_at (negsuc n)

is_fresh-IsYoung :
    (max_age : ℤ) (now retrieved_at : ℕ)
    → is_fresh max_age now retrieved_at ≡ true
    → IsYoung now retrieved_at max_age
unfolding is_fresh
is_fresh-IsYoung (pos n) now retrieved_at h = within n (ground arith)
is_fresh-IsYoung (negsuc n) now retrieved_at h = ahead n (ground arith)

module _ (L : Library) (find_referred : Option ℕ → Result (Referred L))
    (mustache_render : Text → Dict Text (Value L) → Text) (distinct : List Text → List Text)
    (parse : Text → Nodes) (hash : Text → Text) (apply_auto_limit : ℕ → Text → Bool → Text) where
  get_latest-found :
      (results : List QueryResult) (source : ℕ) (text : Text) (max_age : ℤ) (now : ℕ)
      (r : QueryResult)
      → get_latest hash results source text max_age now ≡ some r
      → Memᴰ r results
        × (r.query_hash ≡ gen_query_hash hash text)
        × (r.data_source_id ≡ source)
        × IsYoung now r.retrieved_at max_age
  unfolding get_latest
  get_latest-found results source text (negsuc zero) now r h =
      let (m, e) = mem_of_keep _ results (latest-Mem _ r h) in
      (
        m,
        eq_of_beq r.query_hash _ (ground arith),
        eq_of_beq r.data_source_id source (ground arith),
        any_age,
      )
  get_latest-found results source text (negsuc (suc n)) now r h =
      let (m, e) = mem_of_keep _ results (latest-Mem _ r h) in
      (
        m,
        eq_of_beq r.query_hash _ (ground arith),
        eq_of_beq r.data_source_id source (ground arith),
        is_fresh-IsYoung (negsuc (suc n)) now r.retrieved_at (ground arith),
      )
  get_latest-found results source text (pos n) now r h =
      let (m, e) = mem_of_keep _ results (latest-Mem _ r h) in
      (
        m,
        eq_of_beq r.query_hash _ (ground arith),
        eq_of_beq r.data_source_id source (ground arith),
        is_fresh-IsYoung (pos n) now r.retrieved_at (ground arith),
      )

  cached-get_latest :
      (d : Store) (s : DataSource) (text : Text) (max_age : ℤ) (now : ℕ) (r : QueryResult)
      → cached L find_referred mustache_render distinct parse hash apply_auto_limit d s text max_age
          now
        ≡ some r
      → (max_age ≢ pos 0) × (get_latest hash d.results s.id text max_age now ≡ some r)
  unfolding cached
  cached-get_latest d s text (negsuc n) now r h = (λ e. cc e, h)
  cached-get_latest d s text (pos zero) now r h = cc
  cached-get_latest d s text (pos (suc age)) now r h = (λ e. absurd (omega (arith, pos_inj e)), h)

  answer-result :
      (site : Site) (p : Principal) (s : DataSource) (text : Text) (o : Option QueryResult)
      (r : QueryResult) (site' : Site)
      → answer L find_referred mustache_render distinct parse hash apply_auto_limit site p s text o
        ≡ (query_result r, site')
      → (o ≡ some r) × (site'.jobs ≡ site.jobs)
  unfolding answer
  answer-result site p s text (some x) r site' h =
      (cc (ap (λ y. y.0) h), ap (λ y. y.1.jobs) (sym h))
  answer-result site p s text none r site' h = absurd (cc (ap (λ y. y.0) h))

  answer_complete-result :
      (site : Site) (p : Principal) (s : DataSource) (text : Text) (max_age : ℤ) (now : ℕ)
      (missing : List Text) (r : QueryResult) (site' : Site)
      → answer_complete L find_referred mustache_render distinct parse hash apply_auto_limit site p
          s text max_age now missing
        ≡ (query_result r, site')
      → (cached L find_referred mustache_render distinct parse hash apply_auto_limit site.store s
            text max_age now
          ≡ some r)
        × (site'.jobs ≡ site.jobs)
  unfolding answer_complete
  answer_complete-result site p s text max_age now (name ∷ names) r site' h =
      absurd (cc (ap (λ x. x.0) h))
  answer_complete-result site p s text max_age now [] r site' h =
      answer-result site p s text _ r site' h

  -- A cached result that answers a request is a result of the data source, under the hash of the text with the automatic limit,
  -- and retrieved no more than the maximal age in seconds before the request. A maximal age of -1 allows every age, and one of 0 none.
  pub run_query-cached :
      (site : Site) (p : Principal) (query : ParameterizedQuery L)
      (parameters : Dict Text (Value L)) (s : DataSource) (limit : Bool) (max_age : ℤ) (now : ℕ)
      (r : QueryResult) (site' : Site)
      → run_query L find_referred mustache_render distinct parse hash apply_auto_limit site p query
          parameters s limit max_age now
        ≡ ok (query_result r, site')
      → (site'.jobs ≡ site.jobs)
        × (max_age ≢ pos 0)
        × Memᴰ r site.store.results
        × (r.data_source_id ≡ s.id)
        × IsYoung now r.retrieved_at max_age
        × (applied : ParameterizedQuery L) × (apply L find_referred mustache_render query parameters
            ≡ ok applied)
        × (r.query_hash ≡ gen_query_hash hash (apply_auto_limit s.id applied.query limit))
  unfolding run_query
  run_query-cached site p query parameters s limit max_age now r site' h =
      elim (Bool-cases s.paused) [
        | inl e ↦ absurd (cc (ap (λ x. x.0) (ok_inj (rw e at h))))
        | inr e ↦
            let (applied, passed, h1) =
              >>=-eq-ok (or_refused (apply L find_referred mustache_render query parameters)) _
                (rw e at h) in
            let text = apply_auto_limit s.id applied.query limit in
            let (hit, jobs) =
              answer_complete-result site p s text max_age now _ r site' (ok_inj h1) in
            let (asked, found) = cached-get_latest site.store s text max_age now r hit in
            let (m, same_text, same_source, young) =
              get_latest-found site.store.results s.id text max_age now r found in
            (jobs, asked, m, same_source, young, applied, or_refused-ok _ applied passed, same_text)
      ]
