-- ===== src/Sources/Examples.antt =====
-- Data sources of a small site.
use dingolytics_backend.Base.{[], ◌∷◌, ◌≡◌, refl, none}
use dingolytics_backend.Base.Result.{ok}
use dingolytics_backend.Base.Text.{codes}
use dingolytics_backend.Users.{Group, user, has_permission, permissions, has_permissions}
use dingolytics_backend.Access.{group_ids, require_permissions}
use dingolytics_backend.Store.{DataSource, Store, find_data_source, log}
use dingolytics_backend.Store.Samples.{daily, other, site, ada, warehouse, analysts}
use dingolytics_backend.Sources.{list_sources, delete_source}
use dingolytics_backend.Sources.Deletion.{Deleted, delete_source_lem}

-- A second source, which no group is linked to.
abbrev archive : DataSource
archive = record warehouse { id = 6; name = codes "A" }

abbrev readers : Group
readers = record analysts { permissions = "list_data_sources" ∷ [] }

abbrev two_sources : Store
two_sources = record site { groups = readers ∷ []; data_sources = warehouse ∷ archive ∷ [] }

listed : list_sources (user ada) 1 two_sources ≡ ok (warehouse ∷ [])
unfolding list_sources require_permissions has_permissions permissions has_permission group_ids
listed = refl

abbrev admins : Group
admins = record analysts { permissions = "admin" ∷ [] }

abbrev before : Store
before = record two_sources { groups = admins ∷ [] }

abbrev after : Store
after = record before {
  queries =
      record daily { data_source_id = none; latest_query_data_id = none }
      ∷ record other { data_source_id = none; latest_query_data_id = none }
      ∷ [];
  results = [];
  data_sources = archive ∷ [];
  data_source_groups = [];
  events = record { action = "delete"; object_type = "datasource"; object_id = 4 } ∷ [];
}

deletes : delete_source (user ada) 1 [] before 4 ≡ ok after
unfolding delete_source require_permissions has_permissions permissions find_data_source log
deletes = refl

delete_source_lem_example : Deleted 4 [] before after
delete_source_lem_example = delete_source_lem (user ada) 1 [] before 4 after deletes
