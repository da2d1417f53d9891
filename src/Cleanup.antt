-- ===== src/Cleanup.antt =====
-- dingolytics/tasks/cleanup_results.py: the task that removes results no query shows, with `unused` of Execution.
-- The database picks the rows in the order of the table.
pub mod Rules
mod Examples
use dingolytics_backend.Base.{ℕ, zero, suc, Bool, not, List, [], ◌∷◌, map, keep, contains, nat_eq}
use dingolytics_backend.Execution.{QueryResult, Database, unused}

-- `.limit(n)`
unfoldable pub limit {ℓ} : {A : Type ℓ} → ℕ → List A → List A
limit zero xs = []
limit (suc n) [] = []
limit (suc n) (x ∷ xs) = x ∷ limit n xs

-- The ids of the subquery.
unfoldable pub unused_ids : Database → (age_threshold count : ℕ) → List ℕ
unfolding limit
unused_ids d age_threshold count = map (λ r. r.id) (limit count (unused d age_threshold))

-- `cleanup_unused_results_task`, given the instant that QUERY_RESULTS_CLEANUP_MAX_AGE days ago was, and
-- QUERY_RESULTS_CLEANUP_COUNT.
unfoldable pub cleanup_unused_results : Database → (age_threshold count : ℕ) → Database
unfolding unused_ids
cleanup_unused_results d age_threshold count = record d {
  results = keep (λ r. not (contains (unused_ids d age_threshold count) r.id)) d.results;
}
