-- ===== src/Cleanup/Examples.antt =====
-- Three results of which one is shown.
use mathlib.Core.List.{Memᴰ}
use dingolytics_backend.Base.{
  ◌+◌, ◌≤◌, true, false, some, [], ◌∷◌, length, ltb, ◌≡◌, ◌⊎◌, refl, keep, not, ◌&&◌,
}
use dingolytics_backend.Base.Text.{codes}
use dingolytics_backend.Store.Samples.{nine, ada}
use dingolytics_backend.Execution.{is_source, Query, QueryResult, Database, unused}
use dingolytics_backend.Cleanup.{cleanup_unused_results}
use dingolytics_backend.Cleanup.Rules.{is_shown, cleanup_unused_results_lem}

abbrev query : Query
query = record {
  id = 3;
  data_source_id = some 4;
  latest_query_data_id = some 9;
  query_hash = codes "S1";
  api_key = "q3";
  owner = ada;
  schedule_failures = 0;
}

abbrev old : QueryResult
old = record nine { id = 2; retrieved_at = 5 }

abbrev older : QueryResult
older = record nine { id = 1; retrieved_at = 4 }

abbrev database : Database
database = record {
  queries = query ∷ [];
  results = older ∷ old ∷ nine ∷ [];
  users = ada ∷ [];
  data_source_groups = [];
  errors = [];
  sends_email_on_failure = false;
  max_failure_reports = 0;
}

removes_one : (cleanup_unused_results database 2_000_000_000_000 1).results ≡ old ∷ nine ∷ []
unfolding cleanup_unused_results unused is_source
removes_one = refl

cleanup_unused_results_lem_example :
    (length database.results
      ≤ length (cleanup_unused_results database 2_000_000_000_000 1).results + 1)
    × ((r : QueryResult)
        → Memᴰ r database.results
        → (is_shown database r ≡ true) ⊎ (ltb r.retrieved_at 2_000_000_000_000 ≡ false)
        → Memᴰ r (cleanup_unused_results database 2_000_000_000_000 1).results)
    × ((r : QueryResult)
        → length (
            keep
              (λ r. not (is_shown database r) && ltb r.retrieved_at 2_000_000_000_000)
              database.results)
          ≤ 1
        → Memᴰ r (cleanup_unused_results database 2_000_000_000_000 1).results
        → (not (is_shown database r) && ltb r.retrieved_at 2_000_000_000_000) ≡ false)
    × (cleanup_unused_results database 2_000_000_000_000 1 ≡ record database {
      results = (cleanup_unused_results database 2_000_000_000_000 1).results;
    })
cleanup_unused_results_lem_example =
    cleanup_unused_results_lem database 2_000_000_000_000 1 (refl, (refl, (refl, tt)))
