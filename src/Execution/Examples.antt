-- ===== src/Execution/Examples.antt =====
-- The task at a database of two queries, of which one has the text that is run.
use dingolytics_backend.Base.{
  ℕ, true, false, not, ◌||◌, Option, none, some, [], ◌∷◌, ◌++◌, keep, all, ◌≡◌, refl,
}
use dingolytics_backend.Base.Result.{Result, ok}
use dingolytics_backend.Base.Text.{Text, codes}
use dingolytics_backend.Utils.{gen_query_hash}
use dingolytics_backend.Users.{User, Principal, user}
use dingolytics_backend.Groups.{one}
use dingolytics_backend.Execution.{
  Query, QueryResult, Database, Source, by_id, Ran, returned, raised, resolve_user, scheduled_query,
  outcome_of, is_failure, run_query_task,
}
use dingolytics_backend.Execution.Runs.{shows, is_same_query, result_of, run_query_task_returns}

abbrev ada : User
ada = record {
  id = 7;
  org_id = 1;
  name = "Ada";
  email = "ada@example.org";
  group_ids = [];
  api_key = "k7";
  disabled_at = none;
}

abbrev daily : Query
daily = record {
  id = 3;
  data_source_id = some 4;
  latest_query_data_id = none;
  query_hash = codes "select1";
  api_key = "q3";
  owner = ada;
  schedule_failures = 0;
}

abbrev database : Database
database = record {
  queries = daily ∷ record daily { id = 5; query_hash = codes "select2" } ∷ [];
  results = [];
  users = ada ∷ [];
  data_source_groups = [];
  errors = [];
  sends_email_on_failure = true;
  max_failure_reports = 60;
}

abbrev source : Source
source = record { id = 4; org_id = 1; should_annotate_query = false }

abbrev same : Text → Text
same t = t

abbrev runs_well : Text → Option Principal → Ran
runs_well query principal = returned (some (codes "rows")) none

abbrev runs_badly : Text → Option Principal → Ran
runs_badly query principal = raised (codes "timeout")

abbrev runs_silently : Text → Option Principal → Ran
runs_silently query principal = raised []

ada_resolved : resolve_user database (by_id 7) 0 ≡ ok (some (user ada))
unfolding resolve_user one
ada_resolved = refl

daily_found : scheduled_query database (some 3) ≡ ok (some daily)
unfolding scheduled_query one
daily_found = refl

well_outcome : outcome_of (returned (some (codes "rows")) none) ≡ (some (codes "rows"), none)
unfolding outcome_of
well_outcome = refl

no_failure : is_failure none ≡ false
unfolding is_failure
no_failure = refl

bad_outcome : outcome_of (raised (codes "timeout")) ≡ (none, some (codes "timeout"))
unfolding outcome_of
bad_outcome = refl

bad_failure : is_failure (some (codes "timeout")) ≡ true
unfolding is_failure
bad_failure = refl

abbrev well : Result ℕ × Database
well =
    run_query_task same runs_well database (codes "SELECT 1") source (by_id 7) (some 3) 0 [] [] 9
      100

abbrev well_result : QueryResult
well_result =
    result_of same runs_well database (codes "SELECT 1") source (by_id 7) (some 3) 0 [] [] 9 100
      (codes "rows")

run_query_task_returns_example :
    (well.0 ≡ ok 9)
    × (well.1.results ≡ database.results ++ well_result ∷ [])
    × (all
          (λ q. not (is_same_query (gen_query_hash same (codes "SELECT 1")) 4 q) || shows 9 q)
          well.1.queries
        ≡ true)
    × (keep (λ q. not (is_same_query (gen_query_hash same (codes "SELECT 1")) 4 q)) well.1.queries
        ≡ keep
            (λ q. not (is_same_query (gen_query_hash same (codes "SELECT 1")) 4 q))
            database.queries)
run_query_task_returns_example =
    run_query_task_returns same runs_well database (codes "SELECT 1") source (by_id 7) (some 3) 0 []
      [] 9 100 (some (user ada)) (some daily) (codes "rows") none ada_resolved daily_found
      well_outcome no_failure

abbrev badly : Result ℕ × Database
badly =
    run_query_task same runs_badly database (codes "SELECT 1") source (by_id 7) (some 3) 0 [] [] 9
      100

abbrev silently : Result ℕ × Database
silently =
    run_query_task same runs_silently database (codes "SELECT 1") source (by_id 7) (some 3) 0 [] []
      9 100
