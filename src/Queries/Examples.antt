-- ===== src/Queries/Examples.antt =====
-- The queries of the sample site: which are due, and what requests do to them.
use mathlib.Core.List.{Memᴰ}
use dingolytics_backend.Grants.Modify.{can_modify, require_object_modify_permission}
use dingolytics_backend.Base.{
  ℕ, ◌≤◌, true, false, not, ◌||◌, Option, none, some, List, [], ◌∷◌, ◌≡◌, refl, arith, ◌==◌, nat_eq,
  length,
}
use dingolytics_backend.Base.Result.{ok, err, type_error}
use dingolytics_backend.Base.Text.{text_eq, codes}
use dingolytics_backend.Users.{permissions, has_permissions, user}
use dingolytics_backend.Access.{is_admin_or_owner, require_permissions, has_access_to_groups}
use dingolytics_backend.Grants.Handlers.{or_404}
use dingolytics_backend.Store.{Query, Store, find_query, guarded_query}
use dingolytics_backend.Store.Samples.{site, ada, daily, other, hash_of}
use dingolytics_backend.Queries.{outdated_queries}
use dingolytics_backend.Queries.Again.{outdated_queries_again}
use dingolytics_backend.Queries.Listing.{
  require_access_to_dropdown_queries, all_queries, require_access_to_ids, all_groups_for_query_ids,
}
use dingolytics_backend.Queries.Visible.{require_access_to_ids_any, all_queries-has_access}
use dingolytics_backend.Queries.Update.{Field, version_field, query_text_field, update_query}
use dingolytics_backend.Queries.Hashes.{AllHashed, here, step, updated, Reaches-AllHashed}

abbrev never_run : ℕ → Option ℕ
never_run id = none

abbrev due_time : ℕ
due_time = 1_000_060_000_001

-- A null schedule in front of the others ends the call.
null_schedule :
    (outdated_queries never_run site.results due_time
      (record daily { schedule = none } ∷ site.queries)).0
    ≡ err type_error
unfolding outdated_queries
null_schedule = refl

outdated_queries_again_example :
    outdated_queries never_run site.results due_time
      (outdated_queries never_run site.results due_time site.queries).1
    ≡ outdated_queries never_run site.results due_time site.queries
outdated_queries_again_example = outdated_queries_again never_run site.results due_time site.queries

abbrev fields : List Field
fields = query_text_field (codes "S2") ∷ version_field 1 ∷ []

abbrev edited : Query
edited = record daily { query_text = codes "S2"; query_hash = codes "S2" }

abbrev after_edit : Store
after_edit = record site { queries = edited ∷ other ∷ [] }

edits : update_query hash_of (user ada) 1 site 3 fields ≡ ok (edited, after_edit)
unfolding update_query require_permissions has_permissions permissions or_404 find_query
    require_object_modify_permission can_modify is_admin_or_owner require_access_to_dropdown_queries
edits = refl

Reaches-AllHashed_example : AllHashed hash_of after_edit.queries
Reaches-AllHashed_example =
    Reaches-AllHashed hash_of (step here (updated (user ada) 1 3 fields edited edits))
      (refl, (refl, tt))

pair_there : Memᴰ (1, false) (all_groups_for_query_ids site (3 ∷ []))
unfolding all_groups_for_query_ids
pair_there = Memᴰ.head refl

pairs_enough : 1 ≤ length (all_groups_for_query_ids site (3 ∷ []))
unfolding all_groups_for_query_ids
pairs_enough = omega arith

require_access_to_ids_any_example : require_access_to_ids site (user ada) (3 ∷ []) ≡ ok tt
require_access_to_ids_any_example =
    require_access_to_ids_any site ada 3 [] 1 false (Memᴰ.head refl) pair_there pairs_enough

listed : Memᴰ daily (all_queries site (1 ∷ []) (some 7) false false)
unfolding all_queries
listed = Memᴰ.head refl

all_queries-has_access_example :
    Memᴰ daily site.queries
    × (daily.is_archived ≡ false)
    × (has_access_to_groups site.groups (guarded_query site daily) (user ada) true ≡ true)
    × ((false || not daily.is_draft || daily.user_id == 7) ≡ true)
all_queries-has_access_example = all_queries-has_access site ada false false daily listed
