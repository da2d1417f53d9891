-- ===== src/Sources.antt =====
-- The listing, the deletion and the pausing of data sources (redash/models/datasources.py and
-- redash/handlers/data_sources.py). The rows are returned in the order of their ids; the serialized response, which is
-- sorted by name, is not modelled. The key of Redis that pauses a source is kept in its row.
pub mod Visible
pub mod Deletion
mod Examples
use dingolytics_backend.Base.{
  ℕ, Bool, true, false, not, ◌&&◌, Option, none, some, List, [], ◌∷◌, map, keep, any, contains,
  ◌==◌, if◌then◌else◌, nat_eq,
}
use dingolytics_backend.Base.Text.{Text}
use dingolytics_backend.Base.Result.{Result, ok, guard, other_error, ◌>>=◌, ◌>>◌}
use dingolytics_backend.Users.{Principal, has_permission}
use dingolytics_backend.Access.{group_ids, require_permissions}
use dingolytics_backend.Grants.Handlers.{or_404}
use dingolytics_backend.Execution.{QueryResult}
use dingolytics_backend.Store.{Query, DataSource, Store, find_data_source, is_at, log}

-- The join with the groups of a source.
unfoldable pub is_linked : Store → List ℕ → ℕ → Bool
is_linked d group_ids id =
    any (λ r. r.data_source_id == id && contains group_ids r.group_id) d.data_source_groups

-- `DataSource.all`: no groups, or an empty list of them, is no filter.
unfoldable pub all_sources : Store → (org : ℕ) → (group_ids : List ℕ) → List DataSource
unfolding is_linked
all_sources d org [] = keep (λ s. s.org_id == org) d.data_sources
all_sources d org (g ∷ gs) = keep (λ s. s.org_id == org && is_linked d (g ∷ gs) s.id) d.data_sources

unfoldable pub list_sources : Principal → (org : ℕ) → Store → Result (List DataSource)
unfolding all_sources
list_sources p org d = require_permissions d.groups p ("list_data_sources" ∷ []) false (do
  let filter_ids = if has_permission d.groups p "admin" then [] else group_ids p
  ok (all_sources d org filter_ids))

-- A query of the source that is deleted.
unfoldable pub detach : ℕ → Query → Query
unfolding is_at
detach id q =
    if is_at id q.data_source_id
    then record q { data_source_id = none; latest_query_data_id = none }
    else q

-- The query shows one of these results.
unfoldable pub shows : List QueryResult → Query → Bool
unfolding is_at
shows results q = any (λ r. is_at r.id q.latest_query_data_id) results

-- `DataSource.delete`: the database refuses to delete a result that a query of another source still shows,
-- and deletes the rows of the groups with the source. `streams` has the data source of each row of `Stream`, a table of
-- its own (dingolytics/models/streams.py); the column takes no null, so that the stream cannot be detached.
unfoldable pub delete : (streams : List ℕ) → Store → ℕ → Result Store
unfolding detach shows
delete streams d id = do
  guard (not (contains streams id)) (other_error "IntegrityError")
  let queries = map (detach id) d.queries
  let dropped = keep (λ r. r.data_source_id == id) d.results
  guard (not (any (shows dropped) queries)) (other_error "IntegrityError")
  ok (record d {
    queries = queries;
    results = keep (λ r. not (r.data_source_id == id)) d.results;
    data_sources = keep (λ s. not (s.id == id)) d.data_sources;
    data_source_groups = keep (λ r. not (r.data_source_id == id)) d.data_source_groups;
  })

unfoldable pub delete_source : Principal → (org : ℕ) → (streams : List ℕ) → Store → ℕ → Result Store
unfolding delete
delete_source p org streams d id = require_permissions d.groups p ("admin" ∷ []) false (do
  s ← find_data_source d id org
  d' ← delete streams d s.id
  ok (log d' "delete" "datasource" id))

pause_row : ℕ → Option Text → DataSource → DataSource
pause_row id reason s =
    if s.id == id
    then record s { paused = true; pause_reason = elim reason [ none ↦ [] | some r ↦ r ] }
    else s

resume_row : ℕ → DataSource → DataSource
resume_row id s = if s.id == id then record s { paused = false; pause_reason = [] } else s

unfoldable pub pause_source :
    Principal → (org : ℕ) → Store → ℕ → (reason : Option Text) → Result Store
unfolding pause_row
pause_source p org d id reason = require_permissions d.groups p ("admin" ∷ []) false (do
  s ← or_404 (find_data_source d id org)
  ok (
      log (record d { data_sources = map (pause_row s.id reason) d.data_sources }) "pause"
        "datasource" s.id))

unfoldable pub resume_source : Principal → (org : ℕ) → Store → ℕ → Result Store
unfolding resume_row
resume_source p org d id = require_permissions d.groups p ("admin" ∷ []) false (do
  s ← or_404 (find_data_source d id org)
  ok (
      log (record d { data_sources = map (resume_row s.id) d.data_sources }) "resume" "datasource"
        s.id))
