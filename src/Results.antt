-- ===== src/Results.antt =====
-- redash/handlers/query_results.py: the endpoints that run queries and hand out results. What they return is
-- the body of the response; a job is what `enqueue_query` puts into the queue.
pub mod Running
pub mod Cached
pub mod Serving
mod Examples
use dingolytics_backend.Base.{
  ℕ, zero, ◌+◌, any, String, Bool, true, false, not, ◌&&◌, ◌||◌, Option, none, some, List, [], ◌∷◌,
  ◌++◌, contains, ◌==◌, if◌then◌else◌, nat_eq, string_eq,
}
use dingolytics_backend.Base.Dict.{Dict}
use dingolytics_backend.Base.Result.{
  Result, ok, err, abort, attribute_error, invalid_parameters, query_detached, from_option, guard,
  ◌>>=◌, ◌>>◌,
}
use dingolytics_backend.Base.Text.{Text, codes, text_eq, join}
use dingolytics_backend.Users.{has_permission, Principal, user, api_user, is_api_user}
use dingolytics_backend.Access.{has_access, require_access, require_permissions}
use dingolytics_backend.Grants.Handlers.{or_404}
use dingolytics_backend.Parameters.Values.{Library, Value, Referred, Definition, dropdown_values}
use dingolytics_backend.Parameters.{ParameterizedQuery, apply, is_safe}
use dingolytics_backend.Parameters.Missing.{Nodes, missing_params}
use dingolytics_backend.Execution.{ℤ, pos, QueryResult, get_latest}
use dingolytics_backend.Store.{
  is_at, Query, DataSource, Store, log, find_query, find_data_source, find_result, guarded_query,
  guarded_source,
}

pub data Response : Type 0 where
  -- `error_response(message, http_status)`
  error_response : Text → (http_status : ℕ) → Response
  query_result : QueryResult → Response
  job_started : Response

pub record Job : Type 0 where
  pub query_text : Text
  pub data_source_id : ℕ
  pub caller : Principal

pub record Site : Type 0 where
  pub store : Store
  pub jobs : List Job

abbrev pub unsafe_when_shared : Text
unsafe_when_shared =
    codes
      "This query contains potentially unsafe parameters and cannot be executed on a shared dashboard or an embedded visualization."

abbrev pub unsafe_on_view_only : Text
unsafe_on_view_only =
    codes
      "This query contains potentially unsafe parameters and cannot be executed with read-only access to this data source."

abbrev pub no_permission : Text
no_permission = codes "You do not have permission to run queries with this data source."

abbrev pub select_data_source : Text
select_data_source = codes "Please select data source to run this query."

unfoldable pub pause_message : DataSource → Text
pause_message s = elim s.pause_reason [
  | [] ↦ s.name ++ codes " is paused. Please try later."
  | c ∷ reason ↦ s.name ++ (codes " is paused (" ++ ((c ∷ reason) ++ codes "). Please try later."))
]

-- `except (InvalidParameterError, QueryDetachedFromDataSourceError): abort(400)`
unfoldable pub or_refused {ℓ} : {A : Type ℓ} → Result A → Result A
or_refused (err (invalid_parameters names)) = err (abort 400)
or_refused (err (query_detached id)) = err (abort 400)
or_refused r = r

module _ (L : Library) (find_referred : Option ℕ → Result (Referred L))
    (mustache_render : Text → Dict Text (Value L) → Text) (distinct : List Text → List Text)
    (parse : Text → Nodes) (hash : Text → Text) (apply_auto_limit : ℕ → Text → Bool → Text) where
  -- `max_age` 0 asks for a run.
  unfoldable pub cached : Store → DataSource → Text → (max_age : ℤ) → (now : ℕ) → Option QueryResult
  cached d s text (pos zero) now = none
  cached d s text max_age now = get_latest hash d.results s.id text max_age now

  -- After the checks: a cached result, or a job. Both leave an event.
  unfoldable pub answer :
      Site → Principal → DataSource → Text → Option QueryResult → Response × Site
  answer site p s text (some r) =
      (query_result r, record site { store = log site.store "execute_query" "data_source" s.id })
  answer site p s text none = (
    job_started,
    record site {
      store = log site.store "execute_query" "data_source" s.id;
      jobs = site.jobs ++ record { query_text = text; data_source_id = s.id; caller = p } ∷ [];
    },
  )

  -- What follows `apply`, by the names without a value.
  unfoldable pub answer_complete :
      Site → Principal → DataSource → Text → (max_age : ℤ) → (now : ℕ) → List Text → Response × Site
  unfolding cached answer
  answer_complete site p s text max_age now (name ∷ names) = (
    error_response (codes "Missing parameter value for: " ++ join (codes ", ") (name ∷ names)) 400,
    site,
  )
  answer_complete site p s text max_age now [] =
      answer site p s text (cached site.store s text max_age now)

  -- `run_query`
  unfoldable pub run_query :
      Site
      → Principal
      → ParameterizedQuery L
      → Dict Text (Value L)
      → DataSource
      → (should_apply_auto_limit : Bool) → (max_age : ℤ) → (now : ℕ) → Result (Response × Site)
  unfolding answer_complete pause_message or_refused
  run_query site p query parameters s should_apply_auto_limit max_age now =
      if s.paused
      then ok (error_response (pause_message s) 400, site)
      else (or_refused (apply L find_referred mustache_render query parameters) >>= λ applied. ok (
          answer_complete site p s (apply_auto_limit s.id applied.query should_apply_auto_limit)
            max_age now (missing_params L distinct parse applied)))

  -- `Query.parameterized`
  unfoldable pub parameterized : Query → ParameterizedQuery L
  parameterized q = record {
    schema = q.parameters;
    template = q.query_text;
    query = q.query_text;
    parameters = [];
  }

  -- `QueryResultListResource.post`, for a text without definitions of parameters.
  unfoldable pub execute_text :
      Site
      → Principal
      → (org : ℕ) → Text
      → Dict Text (Value L)
      → (data_source_id : Option ℕ) → (should_apply_auto_limit : Bool) → (max_age : ℤ) → (now : ℕ)
      → Result (Response × Site)
  unfolding run_query
  execute_text site p org text parameters none limit max_age now =
      require_permissions site.store.groups p ("execute_query" ∷ []) false
        (ok (error_response select_data_source 401, site))
  execute_text site p org text parameters (some id) limit max_age now =
      require_permissions site.store.groups p ("execute_query" ∷ []) false (
        find_data_source site.store id org >>= λ s.
        if has_access site.store.groups (guarded_source site.store s.id) p false
        then run_query site p
            (record { schema = []; template = text; query = text; parameters = [] }) parameters s
            limit max_age now
        else ok (error_response no_permission 403, site))

  -- The refusals of `QueryResultResource.post`.
  unfoldable pub refusal : Query → Principal → Text
  unfolding parameterized
  refusal q p =
      if is_safe L (parameterized q)
      then no_permission
      else if is_api_user p
      then unsafe_when_shared
      else unsafe_on_view_only

  -- `query.data_source`
  unfoldable pub source_of_query : Store → Query → Result DataSource
  source_of_query d q =
      from_option q.data_source_id attribute_error >>= λ id. find_data_source d id q.org_id

  -- `QueryResultResource.post`
  unfoldable pub execute_saved :
      Site
      → Principal
      → (org query_id : ℕ) → Dict Text (Value L)
      → (should_apply_auto_limit : Bool) → (max_age : ℤ) → (now : ℕ) → Result (Response × Site)
  unfolding run_query refusal source_of_query
  execute_saved site p org query_id parameters limit max_age now =
      require_permissions site.store.groups p ("view_query" ∷ "execute_query" ∷ []) true (
        or_404 (find_query site.store query_id org) >>= λ q.
        if has_access site.store.groups (guarded_query site.store q) p (is_safe L (parameterized q))
        then (source_of_query site.store q >>= λ s.
            run_query site p (parameterized q) parameters s limit max_age now)
        else ok (error_response (refusal q p) 403, site))

  -- `require_access(query.data_source, current_user, view_only)`; without a data source only an administrator
  -- passes.
  unfoldable pub may_view_source : Store → Principal → Option ℕ → Result (Unit {0})
  may_view_source d p none = guard (has_permission d.groups p "admin") attribute_error
  may_view_source d p (some id) = require_access d.groups (guarded_source d id) p true

  or_detached : Result (List Text) → Result (List Text)
  or_detached (err (query_detached id)) = err (abort 400)
  or_detached r = r

  -- `QueryResultDropdownResource.get`, the values alone
  unfoldable pub dropdown : Store → Principal → (org query_id : ℕ) → Result (List Text)
  unfolding may_view_source or_detached
  dropdown d p org query_id = do
    q ← or_404 (find_query d query_id org)
    may_view_source d p q.data_source_id
    or_detached (dropdown_values L find_referred (some query_id))

  -- `int(dropdown_query_id) in related_queries_ids`
  unfoldable pub is_related : List Definition → ℕ → Bool
  unfolding is_at
  is_related parameters id = any (λ d. d.type == "query" && is_at id d.query_id) parameters

  unfoldable pub may_view_dropdown : Store → Principal → (org id : ℕ) → Result (Unit {0})
  unfolding may_view_source
  may_view_dropdown d p org id =
      or_404 (find_query d id org) >>= λ q. may_view_source d p q.data_source_id

  -- `QueryDropdownsResource.get`: a query that the parameters name is not checked by itself.
  unfoldable pub related_dropdown :
      Store → Principal → (org query_id dropdown_query_id : ℕ) → Result (List Text)
  unfolding is_related may_view_dropdown
  related_dropdown d p org query_id dropdown_query_id = do
    q ← or_404 (find_query d query_id org)
    require_access d.groups (guarded_query d q) p true
    if is_related q.parameters dropdown_query_id
        then ok tt
        else may_view_dropdown d p org dropdown_query_id
    dropdown_values L find_referred (some dropdown_query_id)

-- The result that `QueryResultResource.get` starts from.
unfoldable pub result_by_id : Store → (org : ℕ) → Option ℕ → Result (Option QueryResult)
result_by_id d org none = ok none
result_by_id d org (some id) = or_404 (find_result d id org) >>= λ r. ok (some r)

-- An API user gets a result of the query only under the hash that the query has now.
unfoldable pub same_hash : Principal → Query → QueryResult → Bool
same_hash (user u) q r = true
same_hash (api_user a) q r = q.query_hash == r.query_hash

-- Without a result's id, the latest result of the query.
unfoldable pub shown_result :
    Store → (org : ℕ) → Query → Option QueryResult → Result (Option QueryResult)
unfolding result_by_id
shown_result d org q (some r) = ok (some r)
shown_result d org q none = result_by_id d org q.latest_query_data_id

unfoldable pub check_hash : Principal → Query → Option QueryResult → Result (Option QueryResult)
unfolding same_hash
check_hash p q none = ok none
check_hash p q (some r) = guard (same_hash p q r) (abort 404) >> ok (some r)

-- The branch for a query's id.
unfoldable pub result_of_query :
    Store → Principal → (org query_id : ℕ) → Option QueryResult → Result (Option QueryResult)
unfolding shown_result check_hash
result_of_query d p org query_id found = do
  q ← or_404 (find_query d query_id org)
  shown ← shown_result d org q found
  check_hash p q shown

unfoldable pub chosen_result :
    Store
    → Principal
    → (org : ℕ) → (query_id query_result_id : Option ℕ) → Result (Option QueryResult)
unfolding result_of_query
chosen_result d p org none query_result_id = result_by_id d org query_result_id
chosen_result d p org (some query_id) query_result_id =
    result_by_id d org query_result_id >>= λ found. result_of_query d p org query_id found

-- `QueryResultResource.get`, up to the format of the result. Only an API user leaves an event.
unfoldable pub get_result :
    Store → Principal → (org : ℕ) → (query_id query_result_id : Option ℕ) → Result QueryResult
unfolding chosen_result
get_result d p org query_id query_result_id =
    require_permissions d.groups p ("view_query" ∷ "execute_query" ∷ []) true (do
      chosen ← chosen_result d p org query_id query_result_id
      r ← from_option chosen (abort 404)
      require_access d.groups (guarded_source d r.data_source_id) p true
      ok r)
