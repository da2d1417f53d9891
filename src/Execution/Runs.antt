-- ===== src/Execution/Runs.antt =====
-- What a run of a query leaves in the database.
use dingolytics_backend.Base.{
  ℕ, Bool, true, false, not, ◌||◌, ◌&&◌, ◌==◌, ◌∙◌, Option-cases, string_eq, Option, none, some,
  List, [], ◌∷◌, ◌++◌, keep, all, nat_eq, ◌≡◌, refl, ap, arith, Bool-cases, inl, inr, beq_refl,
}
use dingolytics_backend.Base.Dict.{Dict, put_all}
use dingolytics_backend.Base.Result.{Result, ok, err, other_error}
use dingolytics_backend.Base.Text.{Text, text_eq}
use dingolytics_backend.Users.{Principal}
use dingolytics_backend.Utils.{gen_query_hash}
use dingolytics_backend.Runner.{annotate_query}
use dingolytics_backend.Execution.{
  Query, QueryResult, Database, Source, Caller, Ran, raised, resolve_user, scheduled_query,
  count_failure, track_query_error, track_scheduled, has_result, update_latest_result, outcome_of,
  is_failure, finish, run_query_task, is_source,
}

-- Whether a query shows the result with this id.
abbrev pub shows : ℕ → Query → Bool
shows id q = elim q.latest_query_data_id [ none ↦ false | some shown ↦ shown == id ]

-- Whether a query has this hash and runs on this data source.
abbrev pub is_same_query : Text → ℕ → Query → Bool
is_same_query hash source_id q = elim q.data_source_id [
  | none ↦ false
  | some id ↦ q.query_hash == hash && id == source_id
]

is_same_query-has_result :
    (r : QueryResult) (q : Query) → is_same_query r.query_hash r.data_source_id q ≡ has_result r q
unfolding has_result is_source
is_same_query-has_result r q = elim (Option-cases q.data_source_id) [
  | inl e ↦ rw e (ground arith)
  | inr (id, e) ↦ rw e refl
]

shown_by_all :
    (r : QueryResult) (queries : List Query)
    → all
        (λ q. not (is_same_query r.query_hash r.data_source_id q) || shows r.id q)
        (update_latest_result r queries)
      ≡ true
unfolding update_latest_result
shown_by_all r [] = refl
shown_by_all r (q ∷ queries) = elim (Bool-cases (has_result r q)) [
  | inl e ↦ rw e (ground (arith, shown_by_all r queries, beq_refl r.id))
  | inr e ↦ rw (e, is_same_query-has_result r q ∙ e) (shown_by_all r queries)
]

others_kept :
    (r : QueryResult) (queries : List Query)
    → keep
        (λ q. not (is_same_query r.query_hash r.data_source_id q))
        (update_latest_result r queries)
      ≡ keep (λ q. not (is_same_query r.query_hash r.data_source_id q)) queries
unfolding update_latest_result
others_kept r [] = refl
others_kept r (q ∷ queries) = elim (Bool-cases (has_result r q)) [
  | inl e ↦ rw (e, is_same_query-has_result r q ∙ e) (others_kept r queries)
  | inr e ↦ rw (e, is_same_query-has_result r q ∙ e) (ap (λ l. q ∷ l) (others_kept r queries))
]

module _ (hash : Text → Text) (run_query : Text → Option Principal → Ran) (d : Database)
    (query : Text) (source : Source) (caller : Caller) (scheduled_id : Option ℕ) (query_id : ℕ)
    (metadata added : Dict Text Text) (new_id now : ℕ) where
  abbrev pub annotated : Text
  annotated = annotate_query source.should_annotate_query query (put_all metadata added)

  abbrev pub task : Result ℕ × Database
  task =
      run_query_task hash run_query d query source caller scheduled_id query_id metadata added
        new_id now

  -- The result that a run without an error stores.
  abbrev pub result_of : Text → QueryResult
  result_of data_ = record {
    id = new_id;
    org_id = source.org_id;
    data_source_id = source.id;
    query_hash = gen_query_hash hash query;
    query_text = annotated;
    data_ = data_;
    retrieved_at = now;
  }

  task-finish :
      (principal : Option Principal) (scheduled : Option Query)
      (outcome : Option Text × Option Text)
      → resolve_user d caller query_id ≡ ok principal
      → scheduled_query d scheduled_id ≡ ok scheduled
      → outcome_of (run_query annotated principal) ≡ outcome
      → task
        ≡ finish hash run_query d source scheduled
            (gen_query_hash hash query)
            annotated
            new_id
            now
            outcome
  unfolding run_query_task
  task-finish principal scheduled outcome hp hs ho = rw (hp, hs, ho, run_query_task)

  -- A run that yields data without an error stores one result, under the hash of the query as it was before it was annotated, and
  -- returns its id. Every query that has this hash and this data source then shows it, and all the other queries stay as they were.
  pub run_query_task_returns :
      (principal : Option Principal) (scheduled : Option Query) (data_ : Text) (error : Option Text)
      → resolve_user d caller query_id ≡ ok principal
      → scheduled_query d scheduled_id ≡ ok scheduled
      → outcome_of (run_query annotated principal) ≡ (some data_, error)
      → is_failure error ≡ false
      → (task.0 ≡ ok new_id)
        × (task.1.results ≡ d.results ++ result_of data_ ∷ [])
        × (all
              (λ q. not (is_same_query (gen_query_hash hash query) source.id q) || shows new_id q)
              task.1.queries
            ≡ true)
        × (keep (λ q. not (is_same_query (gen_query_hash hash query) source.id q)) task.1.queries
            ≡ keep (λ q. not (is_same_query (gen_query_hash hash query) source.id q)) d.queries)
  unfolding finish
  run_query_task_returns principal scheduled data_ error hp hs ho he =
      rw (task-finish principal scheduled (some data_, error) hp hs ho, he)
        (
          refl,
          refl,
          shown_by_all (result_of data_) d.queries,
          others_kept (result_of data_) d.queries,
        )

  -- A run that ends in an error raises, stores no result, and counts a failure of the scheduled query, if
  -- there is one.
  run_query_task_fails :
      (principal : Option Principal) (scheduled : Option Query) (data_ error : Option Text)
      → resolve_user d caller query_id ≡ ok principal
      → scheduled_query d scheduled_id ≡ ok scheduled
      → outcome_of (run_query annotated principal) ≡ (data_, error)
      → is_failure error ≡ true
      → (task.0 ≡ err (other_error "QueryExecutionError"))
        × (task.1.results ≡ d.results)
        × (task.1.queries
            ≡ (elim scheduled [ none ↦ d.queries | some q ↦ count_failure q.id d.queries ]))
  unfolding finish track_scheduled track_query_error
  run_query_task_fails principal none data_ error hp hs ho he =
      rw (task-finish principal none (data_, error) hp hs ho, he) (refl, refl, refl)
  run_query_task_fails principal (some q) data_ error hp hs ho he =
      rw (task-finish principal (some q) (data_, error) hp hs ho, he)
        (refl, ground arith, ground arith)

  -- A runner that raises an exception without a message passes for a run without an error: the insertion of a result without data
  -- is refused, and the failure is not counted.
  task_refused :
      (principal : Option Principal) (scheduled : Option Query)
      → resolve_user d caller query_id ≡ ok principal
      → scheduled_query d scheduled_id ≡ ok scheduled
      → run_query annotated principal ≡ raised []
      → task ≡ (err (other_error "IntegrityError"), d)
  unfolding outcome_of is_failure finish
  task_refused principal scheduled hp hs hr =
      task-finish principal scheduled (none, some []) hp hs (ap outcome_of hr)
