-- ===== src/Queries/Update.antt =====
-- redash/handlers/queries.py: the endpoints that create, change, archive and copy a query. An exception before the
-- commit leaves the database as it was. `hash_of` is `gen_query_hash` of the runner of the data source (none for a query
-- without one), which is computed anew whenever a row is written.
use dingolytics_backend.Base.{
  ℕ, String, Bool, true, false, not, Option, none, some, List, [], ◌∷◌, ◌++◌, keep, ◌==◌, or_else,
  if◌then◌else◌, nat_eq, string_eq,
}
use dingolytics_backend.Base.Result.{
  Result, ok, err, abort, attribute_error, type_error, guard, ◌>>=◌, ◌>>◌,
}
use dingolytics_backend.Base.Text.{Text, codes}
use dingolytics_backend.Users.{Principal, user, api_user, has_permission}
use dingolytics_backend.Access.{require_access, require_permissions, require_admin_or_owner}
use dingolytics_backend.Grants.Handlers.{or_404}
use dingolytics_backend.Grants.Modify.{can_modify, require_object_modify_permission}
use dingolytics_backend.Parameters.Values.{Definition}
use dingolytics_backend.Store.{
  QuerySchedule, empty_schedule, Query, Visualization, Store, log, find_query, find_data_source,
  guarded_query, guarded_source,
}
use dingolytics_backend.Queries.{hashed, archive, regenerate_api_key, fork}
use dingolytics_backend.Queries.Listing.{require_access_to_dropdown_queries}

-- The items of the body of a request that the columns of a query take. Those that the handler drops,
-- by whatever name, are `dropped`.
pub data Field : Type 0 where
  name_field : Text → Field
  description_field : Option Text → Field
  query_text_field : Text → Field
  schedule_field : Option QuerySchedule → Field
  options_field : List Definition → Bool → Field
  tags_field : List String → Field
  is_draft_field : Bool → Field
  is_published_field : Bool → Field
  is_archived_field : Bool → Field
  data_source_id_field : ℕ → Field
  latest_query_data_id_field : Option ℕ → Field
  user_id_field : ℕ → Field
  org_id_field : ℕ → Field
  version_field : ℕ → Field
  schedule_failures_field : ℕ → Field
  dropped : String → Field

-- `[tag for tag in query_def["tags"] if tag]`
unfoldable pub real_tags : List String → List String
real_tags tags = keep (λ t. not (t == "")) tags

-- One round of `update_model`.
unfoldable pub set_field : Query → Field → Query
unfolding real_tags
set_field q (name_field t) = record q { name = t }
set_field q (description_field t) = record q { description = t }
set_field q (query_text_field t) = record q { query_text = t }
set_field q (schedule_field s) = record q { schedule = s }
set_field q (options_field ps limit) = record q { parameters = ps; apply_auto_limit = limit }
set_field q (tags_field ts) = record q { tags = real_tags ts }
set_field q (is_draft_field b) = record q { is_draft = b }
set_field q (is_published_field b) = record q { is_published = b }
set_field q (is_archived_field b) = record q { is_archived = b }
set_field q (data_source_id_field id) = record q { data_source_id = some id }
set_field q (latest_query_data_id_field id) = record q { latest_query_data_id = id }
set_field q (user_id_field id) = record q { user_id = id }
set_field q (org_id_field id) = record q { org_id = id }
set_field q (version_field v) = record q { version = v }
set_field q (schedule_failures_field n) = record q { schedule_failures = n }
set_field q (dropped key) = q

unfoldable pub update_model : Query → List Field → Query
unfolding set_field
update_model q [] = q
update_model q (f ∷ fields) = update_model (set_field q f) fields

-- What the body has under a key; the last item of a key counts, as in JSON.
unfoldable pub parameters_of : List Field → Option (List Definition)
parameters_of [] = none
parameters_of (options_field ps limit ∷ fields) = some (or_else (parameters_of fields) ps)
parameters_of (_ ∷ fields) = parameters_of fields

unfoldable pub version_of : List Field → Option ℕ
version_of [] = none
version_of (version_field v ∷ fields) = some (or_else (version_of fields) v)
version_of (_ ∷ fields) = version_of fields

unfoldable pub source_of : List Field → Option ℕ
source_of [] = none
source_of (data_source_id_field id ∷ fields) = some (or_else (source_of fields) id)
source_of (_ ∷ fields) = source_of fields

-- `"version" in query_def and query_def["version"] != query.version`
unfoldable pub is_behind : Option ℕ → Query → Bool
is_behind none q = false
is_behind (some v) q = not (v == q.version)

-- The id of the current user.
unfoldable pub owner_of : Principal → Result ℕ
owner_of (user u) = ok u.id
owner_of (api_user a) = err attribute_error

unfoldable pub write_query : Query → List Query → List Query
write_query q [] = []
write_query q (r ∷ queries) = (if r.id == q.id then q else r) ∷ write_query q queries

-- What the body of a new query has under the keys of the columns that the handler does not set itself, or the default of the column.
-- The tags are as they are given.
pub record Columns : Type 0 where
  pub version : ℕ
  pub latest_query_data_id : Option ℕ
  pub description : Option Text
  pub is_archived : Bool
  pub is_published : Bool
  pub schedule_failures : ℕ
  pub tags : List String

module _ (hash_of : (source : Option ℕ) → (text : Text) → (auto_limit : Bool) → Text)
    (p : Principal) (org : ℕ) where
  unfoldable pub may_use_source : Store → Option ℕ → Result (Unit {0})
  may_use_source d none = ok tt
  may_use_source d (some id) = do
    source ← find_data_source d id org
    require_access d.groups (guarded_source d source.id) p false

  -- `QueryResource.post`
  unfoldable pub update_query : Store → (query_id : ℕ) → List Field → Result (Query × Store)
  unfolding may_use_source update_model is_behind hashed write_query parameters_of version_of
      source_of
  update_query d query_id fields = require_permissions d.groups p ("edit_query" ∷ []) false (do
    q ← or_404 (find_query d query_id org)
    require_object_modify_permission d.groups d.permissions p
        (record { table_name = "queries"; id = q.id }) q.user_id p
    require_access_to_dropdown_queries d p (or_else (parameters_of fields) [])
    may_use_source d (source_of fields)
    guard (not (is_behind (version_of fields) q)) (abort 409)
    let q' = hashed hash_of (update_model q fields)
    ok (q', record d { queries = write_query q' d.queries }))

  -- `Query(**kwargs)` raises at a key that is no column.
  pub known_keys : List String → Result (Unit {0})
  known_keys [] = ok tt
  known_keys (key ∷ keys) = err type_error

  -- `QueryListResource.post`; the current user is the owner, so an API user, whose id is no number, has none.
  unfoldable pub create_query :
      Store
      → (data_source_id : ℕ) → (name query_text : Text) → Option QuerySchedule
      → List Definition
      → (apply_auto_limit : Bool) → Columns
      → (unknown : List String) → (new_id visualization_id : ℕ) → (key : String)
      → Result (Query × Store)
  unfolding hashed owner_of known_keys
  create_query d data_source_id name query_text schedule parameters apply_auto_limit columns unknown
        new_id visualization_id key =
      require_permissions d.groups p ("create_query" ∷ []) false (do
        source ← find_data_source d data_source_id org
        require_access d.groups (guarded_source d source.id) p false
        require_access_to_dropdown_queries d p parameters
        known_keys unknown
        owner ← owner_of p
        let q = hashed hash_of (record {
          id = new_id;
          version = columns.version;
          org_id = org;
          data_source_id = some source.id;
          latest_query_data_id = columns.latest_query_data_id;
          name = name;
          description = columns.description;
          query_text = query_text;
          query_hash = [];
          api_key = key;
          user_id = owner;
          is_archived = columns.is_archived;
          is_draft = true;
          is_published = columns.is_published;
          schedule = some (or_else schedule empty_schedule);
          schedule_failures = columns.schedule_failures;
          parameters = parameters;
          apply_auto_limit = apply_auto_limit;
          tags = columns.tags;
        })
        let table : Visualization = record {
          id = visualization_id;
          query_id = new_id;
          type = "TABLE";
          name = codes "Table";
          description = some [];
          options = codes "{}";
        }
        ok (
          q,
          log
              (record d {
                queries = d.queries ++ q ∷ [];
                visualizations = d.visualizations ++ table ∷ [];
              })
              "create" "query" new_id,
        ))

  -- `QueryResource.get`: the query, and whether it can be edited.
  unfoldable pub view_query : Store → (query_id : ℕ) → Result ((Query × Bool) × Store)
  view_query d query_id = require_permissions d.groups p ("view_query" ∷ []) false (do
    q ← or_404 (find_query d query_id org)
    require_access d.groups (guarded_query d q) p true
    let can_edit =
        can_modify d.groups d.permissions p (record { table_name = "queries"; id = q.id }) q.user_id
          p
    ok ((q, can_edit), log d "view" "query" query_id))

  -- `QueryResource.delete`
  unfoldable pub archive_query : Store → (query_id : ℕ) → Result Store
  archive_query d query_id = do
    q ← or_404 (find_query d query_id org)
    require_admin_or_owner d.groups p q.user_id
    ok (archive hash_of d q.id)

  -- `QueryRegenerateApiKeyResource.post`
  unfoldable pub regenerate_key : Store → (query_id : ℕ) → (key : String) → Result Store
  regenerate_key d query_id key = require_permissions d.groups p ("edit_query" ∷ []) false (do
    q ← or_404 (find_query d query_id org)
    require_admin_or_owner d.groups p q.user_id
    ok (log (regenerate_api_key hash_of d q.id key) "regnerate_api_key" "query" query_id))

  -- `require_access(query.data_source, ...)`; without a data source only an administrator passes.
  unfoldable pub may_copy_from : Store → Option ℕ → Result (Unit {0})
  may_copy_from d none = guard (has_permission d.groups p "admin") attribute_error
  may_copy_from d (some id) = require_access d.groups (guarded_source d id) p false

  -- `QueryForkResource.post`
  unfoldable pub fork_query :
      Store → (query_id new_id first_visualization_id : ℕ) → (key : String) → Result (Query × Store)
  unfolding may_copy_from owner_of
  fork_query d query_id new_id first_visualization_id key =
      require_permissions d.groups p ("edit_query" ∷ []) false (do
        q ← or_404 (find_query d query_id org)
        may_copy_from d q.data_source_id
        owner ← owner_of p
        let (forked, d') = fork hash_of d q owner new_id first_visualization_id key
        ok (forked, log d' "fork" "query" query_id))
