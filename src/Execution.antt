-- ===== src/Execution.antt =====
-- dingolytics/tasks/run_query.py with what it calls: dingolytics/queries/errors.py, `store_result` of
-- dingolytics/models/results.py and `update_latest_result` of dingolytics/models/queries.py. The listener that
-- computes the hash of a query anew when its row is written finds the hash that it has. Instants are microseconds.
pub mod Runs
mod Examples
use dingolytics_backend.Base.{
  ℕ, zero, suc, ◌+◌, ◌*◌, String, Bool, true, false, not, ◌&&◌, ◌||◌, Option, none, some, List, [],
  ◌∷◌, ◌++◌, keep, ◌==◌, if◌then◌else◌, nat_eq, string_eq, ltb, leb, any,
}
use dingolytics_backend.Base.Dict.{Dict, put_all, keys, get, put}
use dingolytics_backend.Base.Result.{Exception, Result, ok, err, other_error, ◌>>=◌}
use dingolytics_backend.Base.Text.{Text, text_eq}
use dingolytics_backend.Users.{User, ApiUser, Principal, user, api_user, is_disabled}
use dingolytics_backend.Groups.{DataSourceGroup, one, groups}
use dingolytics_backend.Utils.{gen_query_hash}
use dingolytics_backend.Runner.{annotate_query}

pub record Query : Type 0 where
  pub id : ℕ
  pub data_source_id : Option ℕ
  pub latest_query_data_id : Option ℕ
  pub query_hash : Text
  pub api_key : String
  pub owner : User
  pub schedule_failures : ℕ

pub record QueryResult : Type 0 where
  pub id : ℕ
  pub org_id : ℕ
  pub data_source_id : ℕ
  pub query_hash : Text
  pub query_text : Text
  pub data_ : Text
  pub retrieved_at : ℕ

-- An entry of a user's queue of errors; the failures are those after the one that is reported.
pub record ErrorEntry : Type 0 where
  pub user_id : ℕ
  pub query_id : ℕ
  pub message : Text
  pub schedule_failures : ℕ

pub record Database : Type 0 where
  pub queries : List Query
  pub results : List QueryResult
  pub users : List User
  pub data_source_groups : List DataSourceGroup
  pub errors : List ErrorEntry
  pub sends_email_on_failure : Bool
  pub max_failure_reports : ℕ

pub record Source : Type 0 where
  pub id : ℕ
  pub org_id : ℕ
  pub should_annotate_query : Bool

-- Whom the task runs for: the arguments `user_id` and `is_api_key`.
pub data Caller : Type 0 where
  nobody : Caller
  by_id : ℕ → Caller
  by_key : String → Caller

-- What `run_query` of a runner does: it returns data and an error, or raises.
pub data Ran : Type 0 where
  returned : Option Text → Option Text → Ran
  raised : Text → Ran

unfoldable pub query_groups : Database → Query → List ℕ
query_groups d q = elim q.data_source_id [
  | none ↦ []
  | some source ↦ keys (groups d.data_source_groups source)
]

-- `_resolve_user`
unfoldable pub resolve_user : Database → Caller → (query_id : ℕ) → Result (Option Principal)
unfolding query_groups
resolve_user d nobody query_id = ok none
resolve_user d (by_id id) query_id = do u ← one (keep (λ u. u.id == id) d.users); ok (some (user u))
resolve_user d (by_key key) query_id = do
  q ← one (keep (λ q. if query_id == 0 then q.api_key == key else q.id == query_id) d.queries)
  ok (some (api_user (record { id = key; group_ids = query_groups d q })))

-- The scheduled query, by its id; there is none for an ad hoc run.
unfoldable pub scheduled_query : Database → Option ℕ → Result (Option Query)
scheduled_query d none = ok none
scheduled_query d (some id) = do q ← one (keep (λ q. q.id == id) d.queries); ok (some q)

unfoldable pub count_failure : ℕ → List Query → List Query
count_failure id [] = []
count_failure id (q ∷ queries) =
    (if q.id == id then record q { schedule_failures = q.schedule_failures + 1 } else q)
    ∷ count_failure id queries

-- Whether `_push_to_notification_queue` pushes, given the number of failures.
unfoldable pub reports_failure : Database → Query → ℕ → Bool
reports_failure d q failures =
    d.sends_email_on_failure && ltb failures d.max_failure_reports && not (is_disabled q.owner)

-- `track_query_error`; a push goes to the head of the list.
unfoldable pub track_query_error : Database → Query → Text → Database
unfolding count_failure reports_failure
track_query_error d q message =
    let failures = q.schedule_failures + 1 in
    let counted = record d { queries = count_failure q.id d.queries } in
    if reports_failure d q failures
    then record counted {
      errors =
          record {
            user_id = q.owner.id;
            query_id = q.id;
            message = message;
            schedule_failures = failures;
          }
          ∷ d.errors;
    }
    else counted

unfoldable pub is_source : ℕ → Option ℕ → Bool
is_source id none = false
is_source id (some source) = source == id

-- The condition of `update_latest_result`.
unfoldable pub has_result : QueryResult → Query → Bool
unfolding is_source
has_result r q = q.query_hash == r.query_hash && is_source r.data_source_id q.data_source_id

unfoldable pub update_latest_result : QueryResult → List Query → List Query
unfolding has_result
update_latest_result r [] = []
update_latest_result r (q ∷ queries) =
    (if has_result r q then record q { latest_query_data_id = some r.id } else q)
    ∷ update_latest_result r queries

-- `data, error` after the `try`.
unfoldable pub outcome_of : Ran → Option Text × Option Text
outcome_of (returned data_ error) = (data_, error)
outcome_of (raised message) = (none, some message)

-- `if error:`
unfoldable pub is_failure : Option Text → Bool
is_failure none = false
is_failure (some []) = false
is_failure (some (c ∷ message)) = true

message_of : Option Text → Text
message_of none = []
message_of (some message) = message

track_scheduled : Database → Option Query → Text → Database
unfolding track_query_error
track_scheduled d none message = d
track_scheduled d (some q) message = track_query_error d q message

-- The row that was retrieved last.
unfoldable pub latest : List QueryResult → Option QueryResult
latest [] = none
latest (r ∷ results) = elim (latest results) [
  | none ↦ some r
  | some newer ↦ some (if ltb r.retrieved_at newer.retrieved_at then newer else r)
]

-- An integer: `pos n` is n and `negsuc n` is -(n + 1).
pub data ℤ : Type 0 where
  pos : ℕ → ℤ
  negsuc : ℕ → ℤ

-- `retrieved_at + timedelta(seconds=max_age) >= now()`
unfoldable pub is_fresh : (max_age : ℤ) → (now retrieved_at : ℕ) → Bool
is_fresh (pos n) now retrieved_at = leb now (retrieved_at + n * 1_000_000)
is_fresh (negsuc n) now retrieved_at = leb (now + (n + 1) * 1_000_000) retrieved_at

-- `QueryResult.get_latest`; a maximal age of -1 asks for no age.
unfoldable pub get_latest :
    (hash : Text → Text)
    → List QueryResult
    → (source : ℕ) → (query : Text) → (max_age : ℤ) → (now : ℕ) → Option QueryResult
unfolding latest is_fresh
get_latest hash results source query (negsuc zero) now =
    latest
      (keep (λ r. r.query_hash == gen_query_hash hash query && r.data_source_id == source) results)
get_latest hash results source query (negsuc (suc n)) now = latest (
    keep
      (λ r.
        r.query_hash == gen_query_hash hash query
        && r.data_source_id == source
        && is_fresh (negsuc (suc n)) now r.retrieved_at)
      results)
get_latest hash results source query (pos n) now = latest (
    keep
      (λ r.
        r.query_hash == gen_query_hash hash query
        && r.data_source_id == source
        && is_fresh (pos n) now r.retrieved_at)
      results)

-- `QueryResult.unused`: results that no query shows and that are older than the threshold.
unfoldable pub unused : Database → (age_threshold : ℕ) → List QueryResult
unused d age_threshold =
    keep
      (λ r.
        not (any (λ q. is_source r.id q.latest_query_data_id) d.queries)
        && ltb r.retrieved_at age_threshold)
      d.results

-- What the task returns or raises, and the database that it leaves.
module _ (hash : Text → Text) (run_query : Text → Option Principal → Ran) where
  -- After the runner: the column `data` takes no null, so that a result without data is refused when it is inserted.
  finish :
      Database
      → Source
      → Option Query
      → Text
      → Text
      → (new_id now : ℕ) → Option Text × Option Text
      → Result ℕ × Database
  unfolding track_scheduled message_of
  finish d source scheduled query_hash query new_id now (data_, error) =
      if is_failure error
      then (err (other_error "QueryExecutionError"), track_scheduled d scheduled (message_of error))
      else elim data_ [
        | none ↦ (err (other_error "IntegrityError"), d)
        | some content ↦
            let result : QueryResult = record {
              id = new_id;
              org_id = source.org_id;
              data_source_id = source.id;
              query_hash = query_hash;
              query_text = query;
              data_ = content;
              retrieved_at = now;
            } in
            (
              ok new_id,
              record d {
                results = d.results ++ result ∷ [];
                queries = update_latest_result result d.queries;
              },
            )
      ]

  -- `run_query_task`; the database gives the new row its id, and `added` are the entries that the task
  -- adds to the metadata of the annotation.
  unfoldable pub run_query_task :
      Database
      → (query : Text) → Source
      → Caller
      → (scheduled_query_id : Option ℕ) → (query_id : ℕ) → (metadata added : Dict Text Text)
      → (new_id now : ℕ) → Result ℕ × Database
  unfolding finish
  run_query_task d query source caller scheduled_id query_id metadata added new_id now =
      elim (resolve_user d caller query_id) [
        | err x ↦ (err x, d)
        | ok principal ↦ elim (scheduled_query d scheduled_id) [
          | err x ↦ (err x, d)
          | ok scheduled ↦
              let annotated =
                annotate_query source.should_annotate_query query (put_all metadata added) in
              finish d source scheduled (gen_query_hash hash query) annotated new_id now
                (outcome_of (run_query annotated principal))
        ]
      ]
