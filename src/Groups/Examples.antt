-- ===== src/Groups/Examples.antt =====
-- Groups at a directory of one custom group with two members and one data source.
use dingolytics_backend.Base.{
  ℕ, true, false, none, List, [], ◌∷◌, ◌≡◌, refl, keep, nat_eq, string_eq,
}
use dingolytics_backend.Base.Result.{ok}
use dingolytics_backend.Users.{Group, User, user, permissions}
use dingolytics_backend.Groups.{DataSourceGroup, Directory, one, find_group, require_admin, links}

abbrev admins : Group
admins = record { id = 1; org_id = 1; type = "builtin"; name = "admin"; permissions = "admin" ∷ [] }

abbrev analysts : Group
analysts = record { id = 2; org_id = 1; type = "regular"; name = "analysts"; permissions = [] }

abbrev ada : User
ada = record {
  id = 7;
  org_id = 1;
  name = "Ada";
  email = "ada@example.org";
  group_ids = 1 ∷ 2 ∷ [];
  api_key = "k7";
  disabled_at = none;
}

abbrev links_before : List DataSourceGroup
links_before =
    record { data_source_id = 4; group_id = 2; view_only = false }
    ∷ record { data_source_id = 4; group_id = 1; view_only = true }
    ∷ []

abbrev directory : Directory
directory = record {
  groups = admins ∷ analysts ∷ [];
  users = ada ∷ [];
  data_sources = record { id = 4; org_id = 1 } ∷ [];
  data_source_groups = links_before;
  events = [];
}

abbrev source : ℕ
source = 4

abbrev group : ℕ
group = 2

ada_is_admin : require_admin directory (user ada) ≡ ok tt
unfolding require_admin permissions
ada_is_admin = refl

analysts_found : find_group directory 2 1 ≡ ok analysts
unfolding find_group
analysts_found = refl

link_found :
    one (keep (links 4 2) links_before)
    ≡ ok (record { data_source_id = 4; group_id = 2; view_only = false })
unfolding one links
link_found = refl
