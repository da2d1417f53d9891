-- ===== src/Queries/Outdated.antt =====
-- What `outdated_queries` returns, and what it does to the table.
use dingolytics_backend.Base.{
  ℕ, Option, none, some, List, [], ◌∷◌, ◌≡◌, Option-cases, ◌++◌, inl, inr, map, subst,
}
use dingolytics_backend.Base.Dict.{Dict, values}
use dingolytics_backend.Base.Result.{ok, ok_inj, >>=-eq-ok}
use dingolytics_backend.Base.Text.{Text, text_eq, codes, str_ℕ}
use dingolytics_backend.Execution.{QueryResult}
use dingolytics_backend.Store.{Query}
use dingolytics_backend.Queries.{queue_key, visit_row, visit_all, outdated_queries}
use dingolytics_backend.Queries.Found.{
  IsDistinct, run_row, run_all, run_all-IsSound, IsDistinct-keys, run_all-IsDict,
}

-- The hash and the data source, with a colon between them.
abbrev pub source_text : Option ℕ → Text
source_text none = codes "None"
source_text (some id) = str_ℕ id

abbrev pub key_text : Query → Text
key_text q = q.query_hash ++ (codes ":" ++ source_text q.data_source_id)

module _ (executions : ℕ → Option ℕ) (results : List QueryResult) (now : ℕ) where
  -- Where the call returns, every schedule could be read.
  visit_all-run_all :
      (queries : List Query) (found all_found : Dict Text Query)
      → (visit_all executions results now queries found).0 ≡ ok all_found
      → run_all executions results now queries found ≡ all_found
  unfolding visit_all visit_row run_all run_row
  visit_all-run_all [] found all_found h = ok_inj h
  visit_all-run_all (q ∷ queries) found all_found h = elim (Option-cases q.schedule) [
    | inl e ↦ absurd (cc (rw e at h))
    | inr (s, e) ↦ rw e (visit_all-run_all queries _ all_found (rw e at h))
  ]

  -- No two of the returned queries have the same hash and data source: the text that joins the two is different.
  outdated_queries-IsDistinct :
      (queries found : List Query)
      → (outdated_queries executions results now queries).0 ≡ ok found
      → IsDistinct (map queue_key found)
  unfolding outdated_queries
  outdated_queries-IsDistinct queries found h =
      let (d, visited, h1) = >>=-eq-ok (visit_all executions results now queries []).0 _ h in
      subst (λ l. IsDistinct (map queue_key l)) (ok_inj h1)
        (subst (λ r. IsDistinct (map queue_key (values r))) (visit_all-run_all queries [] d visited)
          (IsDistinct-keys executions results now queries _
            (run_all-IsSound executions results now queries queries [] (λ p n. n) tt)
            (run_all-IsDict executions results now queries [] tt)))
