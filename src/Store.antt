-- ===== src/Store.antt =====
-- The tables of dingolytics/models/queries.py, redash/models/__init__.py and redash/models/datasources.py that queries, results,
-- dashboards and their endpoints share, and the objects that redash/permissions.py is asked about. A table is the
-- list of its rows in the order of their ids; the database gives a new row its id.
pub mod Lookup
pub mod Samples
use dingolytics_backend.Base.{
  ℕ, String, Bool, false, ◌&&◌, Option, none, some, List, [], ◌∷◌, ◌++◌, map, keep, any, ◌==◌,
  nat_eq, string_eq,
}
use dingolytics_backend.Base.Dict.{Dict}
use dingolytics_backend.Base.Result.{Result}
use dingolytics_backend.Base.Text.{Text}
use dingolytics_backend.Users.{Group, User}
use dingolytics_backend.Access.{ViewOnly, Guarded, resource}
use dingolytics_backend.Access.{one as one_flag}
use dingolytics_backend.Grants.{AccessPermission}
use dingolytics_backend.Grants.Handlers.{the_one}
use dingolytics_backend.Execution.{QueryResult}
use dingolytics_backend.Groups.{DataSourceGroup, groups}
use dingolytics_backend.Parameters.Values.{Definition}

-- A value of the dictionary `schedule`: its key is missing, or the value is null, or the empty text, or it
-- does not read as what it stands for, or it does.
pub data Entry {κ} (A : Type κ) : Type κ where
  missing null empty malformed : Entry A
  value : A → Entry A

-- The dictionary `schedule`; the column is not nullable, so that None is stored as the null of JSON. `until` is an instant, `interval` whole seconds, `time` an hour and a minute.
pub record QuerySchedule : Type 0 where
  pub disabled : Bool
  pub until : Entry ℕ
  pub interval : Entry ℕ
  pub time : Entry (ℕ × ℕ)
  pub day_of_week : Entry String

-- `{}`
abbrev pub empty_schedule : QuerySchedule
empty_schedule = record {
  disabled = false;
  until = missing;
  interval = missing;
  time = missing;
  day_of_week = missing;
}

pub record Query : Type 0 where
  pub id : ℕ
  pub version : ℕ
  pub org_id : ℕ
  pub data_source_id : Option ℕ
  pub latest_query_data_id : Option ℕ
  pub name : Text
  pub description : Option Text
  pub query_text : Text
  pub query_hash : Text
  pub api_key : String
  pub user_id : ℕ
  pub is_archived : Bool
  pub is_draft : Bool
  pub is_published : Bool
  pub schedule : Option QuerySchedule
  pub schedule_failures : ℕ
  -- `options["parameters"]` and `options["apply_auto_limit"]`
  pub parameters : List Definition
  pub apply_auto_limit : Bool
  pub tags : List String

pub record DataSource : Type 0 where
  pub id : ℕ
  pub org_id : ℕ
  pub name : Text
  pub paused : Bool
  pub pause_reason : Text

pub record Visualization : Type 0 where
  pub id : ℕ
  pub query_id : ℕ
  pub type : String
  pub name : Text
  pub description : Option Text
  pub options : Text

pub record Widget : Type 0 where
  pub id : ℕ
  pub visualization_id : Option ℕ
  pub text : Option Text
  pub width : ℕ
  pub options : Text
  pub dashboard_id : ℕ

pub record Dashboard : Type 0 where
  pub id : ℕ
  pub version : ℕ
  pub org_id : ℕ
  pub slug : Text
  pub name : Text
  pub user_id : ℕ
  pub is_archived : Bool
  pub is_draft : Bool
  pub tags : List String

-- An alert, by the query that it watches.
pub record AlertRow : Type 0 where
  pub id : ℕ
  pub query_id : ℕ

pub record ApiKey : Type 0 where
  pub id : ℕ
  pub org_id : ℕ
  pub api_key : String
  pub active : Bool
  pub object_type : String
  pub object_id : ℕ
  pub created_by_id : ℕ

pub record Event : Type 0 where
  pub action : String
  pub object_type : String
  pub object_id : ℕ

pub record Store : Type 0 where
  pub groups : List Group
  pub users : List User
  pub data_sources : List DataSource
  pub data_source_groups : List DataSourceGroup
  pub permissions : List AccessPermission
  pub queries : List Query
  pub results : List QueryResult
  pub visualizations : List Visualization
  pub widgets : List Widget
  pub dashboards : List Dashboard
  pub alerts : List AlertRow
  pub api_keys : List ApiKey
  pub events : List Event

unfoldable pub log : Store → String → String → ℕ → Store
log d action type id = record d {
  events = d.events ++ record { action = action; object_type = type; object_id = id } ∷ [];
}

-- `BelongsToOrgMixin.get_by_id_and_org`
unfoldable pub find_query : Store → ℕ → ℕ → Result Query
unfolding the_one
find_query d id org = the_one (keep (λ q. q.id == id && q.org_id == org) d.queries)

unfoldable pub find_data_source : Store → ℕ → ℕ → Result DataSource
unfolding the_one
find_data_source d id org = the_one (keep (λ s. s.id == id && s.org_id == org) d.data_sources)

unfoldable pub find_result : Store → ℕ → ℕ → Result QueryResult
unfolding the_one
find_result d id org = the_one (keep (λ r. r.id == id && r.org_id == org) d.results)

unfoldable pub find_dashboard : Store → ℕ → ℕ → Result Dashboard
unfolding the_one
find_dashboard d id org = the_one (keep (λ b. b.id == id && b.org_id == org) d.dashboards)

unfoldable pub single_flags : Dict ℕ Bool → Dict ℕ ViewOnly
single_flags [] = []
single_flags ((g, b) ∷ d) = (g, one_flag b) ∷ single_flags d

-- `DataSource.groups`, for an access check.
unfoldable pub groups_of_source : Store → ℕ → Dict ℕ ViewOnly
unfolding single_flags
groups_of_source d id = single_flags (groups d.data_source_groups id)

-- `Query.groups`
unfoldable pub groups_of_query : Store → Query → Dict ℕ ViewOnly
unfolding groups_of_source
groups_of_query d q = elim q.data_source_id [ none ↦ [] | some id ↦ groups_of_source d id ]

unfoldable pub is_at : ℕ → Option ℕ → Bool
is_at id none = false
is_at id (some other) = other == id

-- `Query.dashboard_api_keys`: the active keys of the dashboards that have a widget with a visualization
-- of the query.
unfoldable pub dashboard_api_keys : Store → ℕ → List String
unfolding is_at
dashboard_api_keys d query_id =
    map (λ k. k.api_key)
      (keep
        (λ k.
          k.object_type == "dashboards"
          && k.active
          && any
              (λ w.
                w.dashboard_id == k.object_id
                && any (λ v. v.query_id == query_id && is_at v.id w.visualization_id)
                    d.visualizations)
              d.widgets)
        d.api_keys)

-- What an access check sees of a query, and of a data source.
unfoldable pub guarded_query : Store → Query → Guarded
unfolding groups_of_query dashboard_api_keys
guarded_query d q = resource (record {
  api_key = some q.api_key;
  dashboard_api_keys = some (dashboard_api_keys d q.id);
  groups = groups_of_query d q;
})

unfoldable pub guarded_source : Store → ℕ → Guarded
unfolding groups_of_source
guarded_source d id =
    resource (record { api_key = none; dashboard_api_keys = none; groups = groups_of_source d id })
