-- ===== src/Results/Running.antt =====
-- When a query is put into the queue, and which cached results are answered in its place.
use mathlib.Core.List.{Memᴰ}
use dingolytics_backend.Parameters.Checked.{Decides}
use dingolytics_backend.Base.{
  ℕ, Bool, true, false, Option, some, List, [], ◌∷◌, ◌++◌, ◌≡◌, nat_eq, string_eq, any, not, ◌==◌,
  ◌&&◌,
}
use dingolytics_backend.Base.Dict.{Dict}
use dingolytics_backend.Base.Result.{
  Result, ok, err, invalid_parameters, query_detached, abort, key_error, attribute_error,
  type_error, value_error, runtime_error, not_implemented, no_result_found, multiple_results_found,
  other_error,
}
use dingolytics_backend.Base.Text.{Text, text_eq}
use dingolytics_backend.Users.{Principal}
use dingolytics_backend.Access.{has_access}
use dingolytics_backend.Parameters.Values.{Library, Value, Referred}
use dingolytics_backend.Parameters.{ParameterizedQuery, apply}
use dingolytics_backend.Parameters.Missing.{Nodes, missing_params}
use dingolytics_backend.Store.{Query, Store, DataSource, guarded_query}
use dingolytics_backend.Results.{Site, or_refused, parameterized, has_permission}

pub or_refused-ok {ℓ} : {A : Type ℓ} (r : Result A) (a : A) → or_refused r ≡ ok a → r ≡ ok a
unfolding or_refused
or_refused-ok (err (abort n)) a h = h
or_refused-ok (err (key_error k)) a h = h
or_refused-ok (err attribute_error) a h = h
or_refused-ok (err type_error) a h = h
or_refused-ok (err value_error) a h = h
or_refused-ok (err runtime_error) a h = h
or_refused-ok (err not_implemented) a h = h
or_refused-ok (err no_result_found) a h = h
or_refused-ok (err multiple_results_found) a h = h
or_refused-ok (err (other_error m)) a h = h
or_refused-ok (err (invalid_parameters names)) a h = cc
or_refused-ok (err (query_detached id)) a h = cc
or_refused-ok (ok r) a h = h

module _ (L : Library) (find_referred : Option ℕ → Result (Referred L))
    (mustache_render : Text → Dict Text (Value L) → Text) (distinct : List Text → List Text)
    (parse : Text → Nodes) (hash : Text → Text) (apply_auto_limit : ℕ → Text → Bool → Text) where
  -- What stands behind a job: the data source runs, every value passed the check of its definition, no parameter is without a value, and
  -- the job has the text with the automatic limit.
  pub record Started (site : Site) (p : Principal) (query : ParameterizedQuery L)
      (parameters : Dict Text (Value L)) (s : DataSource) (limit : Bool) (site' : Site)
      : Type 0 where
    pub running : s.paused ≡ false
    pub checked : Decides L find_referred query.schema (λ name value. true) parameters
    pub applied : ParameterizedQuery L
    pub passed : apply L find_referred mustache_render query parameters ≡ ok applied
    pub complete : missing_params L distinct parse applied ≡ []
    pub jobs :
        site'.jobs
        ≡ site.jobs
          ++ record {
            query_text = apply_auto_limit s.id applied.query limit;
            data_source_id = s.id;
            caller = p;
          }
            ∷ []

  -- `query.parameterized`
  abbrev pub query_of : Query → ParameterizedQuery L
  query_of q = parameterized L find_referred mustache_render distinct parse hash apply_auto_limit q

  -- What a run of a saved query has checked before the job: the query and its data source are rows of the organization, the one
  -- that the query holds, and the caller has the access that the query's parameters ask for.
  pub record SavedStarted (site : Site) (p : Principal) (org query_id : ℕ)
      (parameters : Dict Text (Value L)) (limit : Bool) (site' : Site) : Type 0 where
    pub permitted :
        any (λ name. has_permission site.store.groups p name) ("view_query" ∷ "execute_query" ∷ [])
        ≡ true
    pub query : Query
    pub found : Memᴰ query site.store.queries
    pub is_it : (query.id == query_id && query.org_id == org) ≡ true
    pub access :
        has_access site.store.groups
          (guarded_query site.store query)
          p
          (not (any (λ d. d.type == "text") query.parameters))
        ≡ true
    pub source : DataSource
    pub there : Memᴰ source site.store.data_sources
    pub on_source : query.data_source_id ≡ some source.id
    pub same_org : source.org_id ≡ query.org_id
    pub started : Started site p (query_of query) parameters source limit site'
