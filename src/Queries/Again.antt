-- ===== src/Queries/Again.antt =====
-- `outdated_queries` a second time, and schedules that cannot be read.
use dingolytics_backend.Base.{
  ℕ, Bool, true, false, Option, none, some, List, [], ◌∷◌, ◌≡◌, refl, sym, ap, ◌∙◌, Option-cases,
  inl, inr,
}
use dingolytics_backend.Base.Dict.{Dict, values}
use dingolytics_backend.Base.Result.{Result, ok, err, type_error, ◌>>=◌}
use dingolytics_backend.Base.Text.{Text}
use dingolytics_backend.Execution.{QueryResult}
use dingolytics_backend.Store.{QuerySchedule, empty_schedule, Query}
use dingolytics_backend.Queries.{
  is_due, visit, visit_row, visit_all, disable_schedule, outdated_queries,
}

module _ (executions : ℕ → Option ℕ) (results : List QueryResult) (now : ℕ) where
  -- What a row does, by what its schedule says.
  visit_row-visit :
      (found : Dict Text Query) (q : Query) (s : QuerySchedule) (due : Result Bool)
      → q.schedule ≡ some s
      → is_due executions results now q s ≡ due
      → visit_row executions results now q q.schedule found
        ≡ (ok (visit due q s found).0, (visit due q s found).1)
  unfolding visit_row
  visit_row-visit found q s due e d =
      ap (λ o. visit_row executions results now q o found) e
      ∙ ap (λ r. (ok (visit r q s found).0, (visit r q s found).1)) d

  disabled_again :
      (q : Query) (s : QuerySchedule) (found : Dict Text Query)
      → (let q' = disable_schedule q s in
          visit_row executions results now q' q'.schedule found ≡ (ok found, q'))
  unfolding visit_row is_due visit disable_schedule
  disabled_again q s found = refl

  visit_again :
      (q : Query) (s : QuerySchedule) (due : Result Bool) (found found' : Dict Text Query)
      → q.schedule ≡ some s
      → is_due executions results now q s ≡ due
      → (let q' = (visit due q s found).1 in
          visit_row executions results now q' q'.schedule found'
          ≡ (ok (visit due q s found').0, q'))
  unfolding visit
  visit_again q s (ok true) found found' e d = visit_row-visit found' q s (ok true) e d
  visit_again q s (ok false) found found' e d = visit_row-visit found' q s (ok false) e d
  visit_again q s (err x) found found' e d = disabled_again q s found'

  -- A null schedule ends the call: nothing is returned, and the queries behind it are not looked at.
  visit_all-null :
      (q : Query) (queries : List Query) (found : Dict Text Query)
      → q.schedule ≡ none
      → visit_all executions results now (q ∷ queries) found ≡ (err type_error, q ∷ queries)
  unfolding visit_all visit_row
  visit_all-null q queries found e = rw e refl

  -- What the loop makes of a row that has been visited.
  abbrev after_row :
      List Query → Result (Dict Text Query) × Query → Result (Dict Text Query) × List Query
  after_row queries (err x, q') = (err x, q' ∷ queries)
  after_row queries (ok found', q') = (
    (visit_all executions results now queries found').0,
    q' ∷ (visit_all executions results now queries found').1,
  )

  visit_all-after_row :
      (q : Query) (queries : List Query) (found : Dict Text Query)
      → visit_all executions results now (q ∷ queries) found
        ≡ after_row queries (visit_row executions results now q q.schedule found)
  unfolding visit_all
  visit_all-after_row q queries found = elim (Option-cases q.schedule) [
    | inl e ↦ unfold visit_row in rw e refl
    | inr (s, e) ↦ unfold visit_row in rw e refl
  ]

  visit_all-cons :
      (q q' : Query) (queries : List Query) (found found' : Dict Text Query)
      → visit_row executions results now q q.schedule found ≡ (ok found', q')
      → visit_all executions results now (q ∷ queries) found ≡ (
        (visit_all executions results now queries found').0,
        q' ∷ (visit_all executions results now queries found').1,
      )
  unfolding visit_all
  visit_all-cons q q' queries found found' h =
      visit_all-after_row q queries found ∙ ap (after_row queries) h

  visit_all_again :
      (queries : List Query) (found found' : Dict Text Query)
      → visit_all executions results now (visit_all executions results now queries found).1 found'
        ≡ (
          (visit_all executions results now queries found').0,
          (visit_all executions results now queries found).1,
        )
  visit_all_again [] found found' = unfold visit_all in refl
  visit_all_again (q ∷ queries) found found' = elim (Option-cases q.schedule) [
    | inl e ↦ rw (visit_all-null q queries found e, visit_all-null q queries found' e) refl
    | inr (s, e) ↦
        let due = is_due executions results now q s in
        let v = visit due q s found in
        let w = visit due q s found' in
        let first = visit_all-cons q v.1 queries found v.0 (visit_row-visit found q s due e refl) in
        let again =
          visit_all-cons q w.1 queries found' w.0 (visit_row-visit found' q s due e refl) in
        ap (λ r. visit_all executions results now r.1 found') first
        ∙ visit_all-cons v.1 v.1 (visit_all executions results now queries v.0).1 found' w.0
            (visit_again q s due found found' e refl)
        ∙ ap (λ r. (r.0, v.1 ∷ r.1)) (visit_all_again queries v.0 w.0)
        ∙ sym (ap (λ r. (r.0, v.1 ∷ (visit_all executions results now queries v.0).1)) again)
        ∙ sym (ap (λ r. ((visit_all executions results now (q ∷ queries) found').0, r.1)) first)
  ]

  -- At the same instant, with the same record of executions, a second call returns or raises what the first did and leaves
  -- the table as the first left it: a schedule whose reading raised has been disabled, and is not read again.
  pub outdated_queries_again :
      (queries : List Query)
      → (let first = outdated_queries executions results now queries in
          outdated_queries executions results now first.1 ≡ first)
  unfolding outdated_queries
  outdated_queries_again queries =
      ap (λ r. (r.0 >>= λ d. ok (values d), r.1)) (visit_all_again queries [] [])

  -- A query whose schedule is empty, as archiving, copying and creating leave it, is not returned, and the call disables its schedule.
  visit_row-empty_schedule :
      (q : Query) (found : Dict Text Query)
      → q.schedule ≡ some empty_schedule
      → visit_row executions results now q q.schedule found
        ≡ (ok found, disable_schedule q empty_schedule)
  unfolding is_due visit
  visit_row-empty_schedule q found e = visit_row-visit found q empty_schedule _ e refl
