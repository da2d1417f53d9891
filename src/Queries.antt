-- ===== src/Queries.antt =====
-- dingolytics/models/queries.py: which queries are due, and what archiving, copying and listing them does.
-- Instants are as in Schedule.
pub mod Due
mod Found
pub mod Outdated
pub mod Again
pub mod Listing
pub mod Update
pub mod Versions
pub mod Visible
pub mod Hashes
mod Examples
use dingolytics_backend.Base.{
  ℕ, ◌+◌, String, Bool, true, false, not, ◌&&◌, ◌||◌, Option, none, some, List, [], ◌∷◌, ◌++◌, map,
  keep, any, contains, leb, or_else, ◌==◌, if◌then◌else◌, nat_eq, string_eq,
}
use dingolytics_backend.Base.Dict.{Dict, put, values}
use dingolytics_backend.Base.Result.{
  Result, ok, err, attribute_error, key_error, type_error, value_error, from_option, ◌>>=◌,
}
use dingolytics_backend.Base.Text.{Text, codes, text_eq, str_ℕ}
use dingolytics_backend.Groups.{DataSourceGroup}
use dingolytics_backend.Schedule.{should_schedule_next}
use dingolytics_backend.Execution.{QueryResult}
use dingolytics_backend.Store.{
  Entry, missing, null, empty, malformed, value, QuerySchedule, empty_schedule, Query,
  Visualization, Store, is_at,
}

-- `schedule[key]`, read as what it stands for; `None` is `none`.
unfoldable pub read {κ} : {A : Type κ} → String → Entry A → Result (Option A)
read key missing = err (key_error key)
read key null = ok none
read key empty = err value_error
read key malformed = err value_error
read key (value a) = ok (some a)

-- `if schedule["until"]:` takes the empty text for no date.
unfoldable pub read_until : Entry ℕ → Result (Option ℕ)
unfolding read
read_until empty = ok none
read_until entry = read "until" entry

-- `QueryResult.retrieved_at` of `latest_query_data`
unfoldable pub retrieved_at : List QueryResult → Query → Option ℕ
unfolding is_at
retrieved_at [] q = none
retrieved_at (r ∷ results) q =
    if is_at r.id q.latest_query_data_id then some r.retrieved_at else retrieved_at results q

-- `if schedule["until"]: if schedule_until <= now`
unfoldable pub is_past : Option ℕ → (now : ℕ) → Bool
is_past none now = false
is_past (some until) now = leb until now

-- `executions.get(query.id) or (...latest_query_data.retrieved_at)`
unfoldable pub last_run : (executions : ℕ → Option ℕ) → List QueryResult → Query → Option ℕ
unfolding retrieved_at
last_run executions results q = elim (executions q.id) [
  | none ↦ retrieved_at results q
  | some t ↦ some t
]

module _ (executions : ℕ → Option ℕ) (results : List QueryResult) (now : ℕ) where
  -- The rest of the body of the `try`, for a schedule that has not passed.
  unfoldable pub is_due_now : Query → QuerySchedule → Result Bool
  unfolding read last_run
  is_due_now q s = do
    given_interval ← read "interval" s.interval
    time ← read "time" s.time
    day_of_week ← read "day_of_week" s.day_of_week
    interval ← from_option given_interval type_error
    should_schedule_next (or_else (last_run executions results q) now) now interval time day_of_week
        q.schedule_failures

  -- The body of the `try` in `outdated_queries`: whether it adds the query.
  unfoldable pub is_due : Query → QuerySchedule → Result Bool
  unfolding read_until is_past
  is_due q s =
      if s.disabled
      then ok false
      else (read_until s.until >>= λ until. if is_past until now then ok false else is_due_now q s)

unfoldable pub source_name : Option ℕ → Text
source_name none = codes "None"
source_name (some id) = str_ℕ id

-- `"{}:{}".format(query.query_hash, query.data_source_id)`
unfoldable pub queue_key : Query → Text
unfolding source_name
queue_key q = q.query_hash ++ (codes ":" ++ source_name q.data_source_id)

-- `query.schedule["disabled"] = True`
unfoldable pub disable_schedule : Query → QuerySchedule → Query
disable_schedule q s = record q { schedule = some (record s { disabled = true }) }

-- One round of the loop: the dictionary and the row afterwards.
unfoldable pub visit :
    Result Bool → Query → QuerySchedule → Dict Text Query → Dict Text Query × Query
unfolding queue_key disable_schedule
visit (ok true) q s found = (put found (queue_key q) q, q)
visit (ok false) q s found = (found, q)
visit (err x) q s found = (found, disable_schedule q s)

module _ (executions : ℕ → Option ℕ) (results : List QueryResult) (now : ℕ) where
  -- One row. A null schedule cannot be read, and the handler of that exception raises again, since it writes into the
  -- null.
  unfoldable pub visit_row :
      Query → Option QuerySchedule → Dict Text Query → Result (Dict Text Query) × Query
  unfolding is_due visit
  visit_row q none found = (err type_error, q)
  visit_row q (some s) found =
      let (found', q') = visit (is_due executions results now q s) q s found in (ok found', q')

  -- The loop of `outdated_queries`: its dictionary or what it raises, and the table that it leaves; what has been committed
  -- before an exception stays.
  unfoldable pub visit_all : List Query → Dict Text Query → Result (Dict Text Query) × List Query
  unfolding visit_row
  visit_all [] found = (ok found, [])
  visit_all (q ∷ queries) found =
      let (visited, q') = visit_row q q.schedule found in
      elim visited [
        | err x ↦ (err x, q' ∷ queries)
        | ok found' ↦
            let (all_found, queries') = visit_all queries found' in (all_found, q' ∷ queries')
      ]

  -- The list that is returned, or what is raised, and the table.
  unfoldable pub outdated_queries : List Query → Result (List Query) × List Query
  unfolding visit_all
  outdated_queries queries =
      let (found, queries') = visit_all queries [] in (found >>= λ d. ok (values d), queries')

  -- `past_scheduled_queries`; a null schedule and a malformed date raise.
  unfoldable pub has_passed : Option QuerySchedule → Result Bool
  unfolding is_past
  has_passed none = err attribute_error
  has_passed (some s) = elim s.until [
    | value t ↦ ok (leb t now)
    | missing ↦ ok false
    | null ↦ ok false
    | _ ↦ err value_error
  ]

  -- `empty_schedules_task`: the schedules that have passed are emptied.
  unfoldable pub empty_schedules : List Query → Result (List Query)
  unfolding has_passed
  empty_schedules [] = ok []
  empty_schedules (q ∷ queries) = do
    passed ← has_passed q.schedule
    rest ← empty_schedules queries
    ok ((if passed then record q { schedule = some empty_schedule } else q) ∷ rest)

-- `archive`: the row, the widgets of its visualizations and its alerts.
module _ (hash_of : (source : Option ℕ) → (text : Text) → (auto_limit : Bool) → Text) where
  -- `update_query_hash`, which the listener of inserts and updates calls for the row that is written.
  unfoldable pub hashed : Query → Query
  hashed q = record q { query_hash = hash_of q.data_source_id q.query_text q.apply_auto_limit }

  unfoldable pub archive_row : ℕ → List Query → List Query
  unfolding hashed
  archive_row id [] = []
  archive_row id (q ∷ queries) =
      (if q.id == id
        then hashed (record q { is_archived = true; schedule = some empty_schedule })
        else q)
      ∷ archive_row id queries

  unfoldable pub set_key : ℕ → String → List Query → List Query
  unfolding hashed
  set_key id key [] = []
  set_key id key (q ∷ queries) =
      (if q.id == id then hashed (record q { api_key = key }) else q) ∷ set_key id key queries

unfoldable pub shows_query : ℕ → List Visualization → Option ℕ → Bool
unfolding is_at
shows_query query_id visualizations visualization_id =
    any (λ v. v.query_id == query_id && is_at v.id visualization_id) visualizations

copies : (new_query_id first_id : ℕ) → List Visualization → List Visualization
copies new_query_id first_id [] = []
copies new_query_id first_id (v ∷ vs) =
    record v { id = first_id; query_id = new_query_id } ∷ copies new_query_id (first_id + 1) vs

module _ (hash_of : (source : Option ℕ) → (text : Text) → (auto_limit : Bool) → Text) where
  unfoldable pub archive : Store → ℕ → Store
  unfolding archive_row shows_query
  archive d id = record d {
    queries = archive_row hash_of id d.queries;
    widgets = keep (λ w. not (shows_query id d.visualizations w.visualization_id)) d.widgets;
    alerts = keep (λ a. not (a.query_id == id)) d.alerts;
  }

  -- `regenerate_api_key`, given the token.
  unfoldable pub regenerate_api_key : Store → ℕ → String → Store
  unfolding set_key
  regenerate_api_key d id key = record d { queries = set_key hash_of id key d.queries }

  -- `fork`: the new row and the copies of the visualizations, given the ids and the key that the database and
  -- the token generator make up.
  unfoldable pub fork :
      Store → Query → (user_id new_id first_visualization_id : ℕ) → (key : String) → Query × Store
  unfolding copies hashed
  fork d q user_id new_id first_visualization_id key =
      let forked : Query = hashed hash_of (record q {
        id = new_id;
        version = 1;
        name = codes "Copy of (#" ++ (str_ℕ q.id ++ (codes ") " ++ q.name));
        api_key = key;
        user_id = user_id;
        is_archived = false;
        is_draft = true;
        is_published = false;
        schedule = some empty_schedule;
        schedule_failures = 0;
      }) in
      (
        forked,
        record d {
          queries = d.queries ++ forked ∷ [];
          visualizations =
              d.visualizations
              ++ copies new_id first_visualization_id
                  (keep (λ v. v.query_id == q.id) d.visualizations);
        },
      )
