-- ===== src/Refresh/Examples.antt =====
-- A small site whose daily query is due, and whose other query is not read.
use dingolytics_backend.Schedule.{should_schedule_next}
use dingolytics_backend.Base.{ℕ, Bool, true, false, Option, none, some, [], ◌∷◌, ◌≡◌, refl}
use dingolytics_backend.Base.Dict.{Dict}
use dingolytics_backend.Base.Result.{Result, err, no_result_found, value_error, ok}
use dingolytics_backend.Base.Text.{Text, codes}
use dingolytics_backend.Parameters.Values.{Library, Value, str, Referred, Definition}
use dingolytics_backend.Store.Samples.{site as sample, daily}
use dingolytics_backend.Queries.{is_due_now, outdated_queries}
use dingolytics_backend.Refresh.{Task, Site, refresh_queries_task, track_query_error}
use dingolytics_backend.Refresh.Rules.{Ended, refresh_queries_task_lem}

abbrev python : Library
python = record {
  Element = Text;
  text_of = λ v. some v;
  str_element = λ v. v;
  str_object = λ d. codes "object";
  Other = ℕ;
  str_other = λ n. codes "number";
  is_number_type = λ n. true;
  reads_float = λ t. true;
  parse_date = λ t. err value_error;
}

abbrev no_query : Option ℕ → Result (Referred python)
no_query id = err no_result_found

abbrev as_it_is : Text → Dict Text (Value python) → Text
as_it_is template values = template

abbrev unlimited : ℕ → Text → Bool → Text
unlimited source text limit = text

abbrev empty_default : Definition → Value python
empty_default d = str []

abbrev never_run : ℕ → Option ℕ
never_run id = none

abbrev site : Site
site = record {
  store = sample;
  queue = [];
  errors = [];
  disabled_orgs = [];
  sends_email_on_failure = true;
  max_failure_reports = 3;
  refresh_disabled = false;
}

abbrev due_time : ℕ
due_time = 1_000_060_000_001

abbrev daily_task : Task
daily_task = record {
  query_text = codes "S1";
  data_source_id = 4;
  user_id = 7;
  scheduled_query_id = 3;
}

runs_daily :
    (refresh_queries_task python no_query as_it_is unlimited empty_default never_run due_time
      site).1.queue
    ≡ daily_task ∷ []
unfolding refresh_queries_task outdated_queries is_due_now should_schedule_next
runs_daily = refl

-- The third failure is counted and no more reported.
last_report :
    (track_query_error site (record daily { schedule_failures = 2 }) (codes "E")).errors ≡ []
unfolding track_query_error
last_report = refl

daily_is_outdated :
    (outdated_queries never_run sample.results due_time sample.queries).0 ≡ ok (daily ∷ [])
unfolding outdated_queries is_due_now should_schedule_next
daily_is_outdated = refl

refresh_queries_task_lem_example :
    (let (result, site') =
        refresh_queries_task python no_query as_it_is unlimited empty_default never_run due_time
          site in
      Ended python no_query as_it_is unlimited empty_default site result site'.queue
        (ok (daily ∷ [])))
refresh_queries_task_lem_example =
    refresh_queries_task_lem python no_query as_it_is unlimited empty_default never_run due_time
      site (ok (daily ∷ [])) refl daily_is_outdated
