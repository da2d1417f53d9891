-- ===== src/Queries/Listing.antt =====
-- The listings of dingolytics/models/queries.py, and the check of redash/handlers/queries.py on the queries that the
-- dropdowns of a query refer to.
use dingolytics_backend.Base.{
  ℕ, Bool, true, false, not, ◌&&◌, ◌||◌, Option, none, some, List, [], ◌∷◌, ◌++◌, keep, any,
  contains, length, ltb, ◌==◌, if◌then◌else◌, nat_eq, string_eq,
}
use dingolytics_backend.Base.Dict.{Dict, put}
use dingolytics_backend.Base.Result.{Result, ok, abort, key_error, from_option, guard, ◌>>=◌, ◌>>◌}
use dingolytics_backend.Users.{User, Principal}
use dingolytics_backend.Access.{ViewOnly, group_map, require_access}
use dingolytics_backend.Access.{one as one_flag}
use dingolytics_backend.Groups.{DataSourceGroup}
use dingolytics_backend.Parameters.Values.{Definition}
use dingolytics_backend.Store.{Query, Store, is_at}

-- The join with the groups of the data source.
unfoldable pub in_groups : Store → List ℕ → Query → Bool
unfolding is_at
in_groups d group_ids q =
    any (λ r. is_at r.data_source_id q.data_source_id && contains group_ids r.group_id)
      d.data_source_groups

-- `Query.user_id == user_id`
unfoldable pub is_owner : Query → (user_id : Option ℕ) → Bool
is_owner q none = false
is_owner q (some id) = q.user_id == id

unfoldable pub all_queries :
    Store
    → (group_ids : List ℕ) → (user_id : Option ℕ) → (include_drafts include_archived : Bool)
    → List Query
unfolding in_groups is_owner
all_queries d group_ids user_id include_drafts include_archived =
    keep
      (λ q.
        (if include_archived then q.is_archived else not q.is_archived)
        && in_groups d group_ids q
        && (include_drafts || not q.is_draft || is_owner q user_id))
      d.queries

unfoldable pub by_user : Store → User → List Query
unfolding all_queries
by_user d u = keep (λ q. q.user_id == u.id) (all_queries d u.group_ids (some u.id) false false)

pairs_of : Query → List DataSourceGroup → List (ℕ × Bool)
unfolding is_at
pairs_of q [] = []
pairs_of q (r ∷ rows) =
    let rest = pairs_of q rows in
    if is_at r.data_source_id q.data_source_id then (r.group_id, r.view_only) ∷ rest else rest

pairs_of_all : List DataSourceGroup → List Query → List (ℕ × Bool)
unfolding pairs_of
pairs_of_all rows [] = []
pairs_of_all rows (q ∷ queries) = pairs_of q rows ++ pairs_of_all rows queries

-- `all_groups_for_query_ids`: a pair for each group of each query.
unfoldable pub all_groups_for_query_ids : Store → List ℕ → List (ℕ × Bool)
unfolding pairs_of_all
all_groups_for_query_ids d query_ids =
    pairs_of_all d.data_source_groups (keep (λ q. contains query_ids q.id) d.queries)

-- `set(...)` of the ids of the dropdown queries.
unfoldable pub dropdown_query_ids : List Definition → Result (List ℕ)
dropdown_query_ids [] = ok []
dropdown_query_ids (p ∷ parameters) = do
  id ←
      if p.type == "query"
      then (from_option p.query_id (key_error "queryId") >>= λ id. ok (id ∷ []))
      else ok []
  ids ← dropdown_query_ids parameters
  ok (id ++ keep (λ i. not (contains id i)) ids)

-- `dict(groups)`
unfoldable pub dict_of : Dict ℕ ViewOnly → List (ℕ × Bool) → Dict ℕ ViewOnly
dict_of acc [] = acc
dict_of acc ((g, b) ∷ pairs) = dict_of (put acc g (one_flag b)) pairs

-- The check for a set of ids that is not empty.
unfoldable pub require_access_to_ids : Store → Principal → List ℕ → Result (Unit {0})
unfolding all_groups_for_query_ids dict_of
require_access_to_ids d p [] = ok tt
require_access_to_ids d p (id ∷ ids) = do
  let groups = all_groups_for_query_ids d (id ∷ ids)
  guard (not (ltb (length groups) (length (id ∷ ids)))) (abort 400)
  require_access d.groups (group_map (dict_of [] groups)) p true

unfoldable pub require_access_to_dropdown_queries :
    Store → Principal → List Definition → Result (Unit {0})
unfolding dropdown_query_ids require_access_to_ids
require_access_to_dropdown_queries d p parameters =
    dropdown_query_ids parameters >>= λ ids. require_access_to_ids d p ids
