-- ===== src/Refresh.antt =====
-- dingolytics/tasks/refresh_queries.py: the task that puts the outdated queries into the queue, with the default values of
-- their parameters, and `track_query_error` of dingolytics/queries/errors.py on the shared tables.
pub mod Rules
mod Examples
use dingolytics_backend.Base.{
  ℕ, ◌+◌, String, Bool, true, false, not, ◌&&◌, ◌||◌, Option, none, some, List, [], ◌∷◌, ◌++◌, map,
  keep, any, find, contains, ltb, ◌==◌, if◌then◌else◌, nat_eq, string_eq,
}
use dingolytics_backend.Base.Dict.{Dict, put_all}
use dingolytics_backend.Base.Result.{
  Exception, Result, ok, err, invalid_parameters, query_detached, ◌>>=◌,
}
use dingolytics_backend.Base.Text.{Text, text_eq, codes, join, str_ℕ}
use dingolytics_backend.Users.{is_disabled}
use dingolytics_backend.Parameters.Values.{Library, Value, Referred, Definition}
use dingolytics_backend.Parameters.{ParameterizedQuery, apply}
use dingolytics_backend.Execution.{ErrorEntry}
use dingolytics_backend.Store.{Query, DataSource, Store}
use dingolytics_backend.Queries.{outdated_queries}

-- A call of `run_query_task` that waits in the queue.
pub record Task : Type 0 where
  pub query_text : Text
  pub data_source_id : ℕ
  pub user_id : ℕ
  pub scheduled_query_id : ℕ

pub record Site : Type 0 where
  pub store : Store
  pub queue : List Task
  -- the queues of errors of all users, the newest entry first
  pub errors : List ErrorEntry
  pub disabled_orgs : List ℕ
  pub sends_email_on_failure : Bool
  pub max_failure_reports : ℕ
  -- FEATURE_DISABLE_REFRESH_QUERIES
  pub refresh_disabled : Bool

unfoldable pub count_failure : ℕ → List Query → List Query
count_failure id [] = []
count_failure id (q ∷ queries) =
    (if q.id == id then record q { schedule_failures = q.schedule_failures + 1 } else q)
    ∷ count_failure id queries

-- The early returns of `_push_to_notification_queue`, given the number of failures.
unfoldable pub reports_failure : Site → Query → ℕ → Bool
reports_failure site q failures =
    site.sends_email_on_failure
    && ltb failures site.max_failure_reports
    && not (any (λ u. u.id == q.user_id && is_disabled u) site.store.users)

-- `track_query_error`
unfoldable pub track_query_error : Site → Query → Text → Site
unfolding count_failure reports_failure
track_query_error site q message =
    let failures = q.schedule_failures + 1 in
    let counted = record site {
      store = record site.store { queries = count_failure q.id site.store.queries };
    } in
    if reports_failure site q failures
    then record counted {
      errors =
          record {
            user_id = q.user_id;
            query_id = q.id;
            message = message;
            schedule_failures = failures;
          }
          ∷ site.errors;
    }
    else counted

-- `query.data_source`
unfoldable pub source_of : Store → Query → Option DataSource
source_of d q = elim q.data_source_id [
  | none ↦ none
  | some id ↦ find (λ s. s.id == id) d.data_sources
]

-- `_should_refresh_query`, with the data source that the query then runs on.
unfoldable pub should_refresh : Site → Query → Option DataSource
unfolding source_of
should_refresh site q =
    if contains site.disabled_orgs q.org_id
    then none
    else elim (source_of site.store q) [ none ↦ none | some s ↦ if s.paused then none else some s ]

-- `f"Skipping refresh of {query.id}: {exc}"` and its counterpart for a detached dropdown query
unfoldable pub skip_message : Query → Exception → Option Text
skip_message q (invalid_parameters names) = some (
    codes "Skipping refresh of "
    ++ (str_ℕ q.id
        ++ (codes ": The following parameter values are incompatible with their definitions: "
            ++ join (codes ", ") names)))
skip_message q (query_detached id) = some (
    codes "Skipping refresh of "
    ++ (str_ℕ q.id
        ++ (codes " because a related dropdown query ("
            ++ (str_ℕ id ++ codes ") is unattached to any datasource."))))
skip_message q _ = none

-- `apply_auto_limit` stands for the runner of a data source, `default_value` for `p.get("value")`.
module _ (L : Library) (find_referred : Option ℕ → Result (Referred L))
    (mustache_render : Text → Dict Text (Value L) → Text)
    (apply_auto_limit : ℕ → Text → Bool → Text) (default_value : Definition → Value L) where
  -- `{p["name"]: p.get("value") for p in query.parameters}`
  unfoldable pub default_parameters : List Definition → Dict Text (Value L)
  default_parameters parameters = put_all [] (map (λ p. (p.name, default_value p)) parameters)

  -- `any(parameters)`: a name that is not empty.
  unfoldable pub any_name : Dict Text (Value L) → Bool
  any_name parameters = any (λ p. elim p.0 [ [] ↦ false | c ∷ s ↦ true ]) parameters

  -- The text that `_apply_default_parameters` returns, or what `apply` raises.
  unfoldable pub default_text : Query → Result Text
  unfolding default_parameters any_name
  default_text q =
      let parameters = default_parameters q.parameters in
      if any_name parameters
      then (apply L find_referred mustache_render
            (record {
              schema = q.parameters;
              template = q.query_text;
              query = q.query_text;
              parameters = [];
            })
            parameters
          >>= λ applied. ok applied.query)
      else ok q.query_text

  -- The body of the `try`, and its `except`: an exception is logged and the loop goes on.
  unfoldable pub enqueue : Site → Query → DataSource → Result Text → Site
  unfolding track_query_error skip_message
  enqueue site q s (ok text) = record site {
    queue =
        site.queue
        ++ record {
          query_text = apply_auto_limit s.id text q.apply_auto_limit;
          data_source_id = s.id;
          user_id = q.user_id;
          scheduled_query_id = q.id;
        }
          ∷ [];
  }
  enqueue site q s (err x) = elim (skip_message q x) [
    | none ↦ site
    | some message ↦ track_query_error site q message
  ]

  -- One round of the loop.
  unfoldable pub refresh_query : Site → Query → Site
  unfolding should_refresh default_text enqueue
  refresh_query site q = elim (should_refresh site q) [
    | none ↦ site
    | some s ↦ enqueue site q s (default_text q)
  ]

  unfoldable pub refresh_all : Site → List Query → Site
  unfolding refresh_query
  refresh_all site [] = site
  refresh_all site (q ∷ queries) = refresh_all (refresh_query site q) queries

  -- `refresh_queries_task`; what `outdated_queries` raises ends the task, and the schedules that it has disabled stay so.
  unfoldable pub refresh_queries_task :
      (executions : ℕ → Option ℕ) → (now : ℕ) → Site → Result (Unit {0}) × Site
  unfolding refresh_all
  refresh_queries_task executions now site =
      if site.refresh_disabled
      then (ok tt, site)
      else let (outdated, queries') =
          outdated_queries executions site.store.results now site.store.queries in
        let site' = record site { store = record site.store { queries = queries' } } in
        elim outdated [ err x ↦ (err x, site') | ok found ↦ (ok tt, refresh_all site' found) ]
