-- ===== src/Access/Examples.antt =====
-- The access rules at a dashboard that one group may edit and another may only view.
use dingolytics_backend.Base.{
  String, true, false, none, some, List, [], ◌∷◌, ◌≡◌, refl, ◌↔◌, ◌⊎◌, nat_eq, string_eq,
}
use dingolytics_backend.Users.{Group, Principal, user, permissions}
use dingolytics_backend.Access.{
  groups_of, group_ids, resource, Resource, one, many, has_access_to_groups, has_access,
}
use dingolytics_backend.Access.Laws.{
  IsAdmin, SharedGroup, NotViewOnly, has_access_to_groups-NotViewOnly,
}

abbrev editors : Group
editors = record {
  id = 1;
  org_id = 1;
  type = "regular";
  name = "editors";
  permissions = "edit_query" ∷ [];
}

abbrev viewers : Group
viewers = record {
  id = 2;
  org_id = 1;
  type = "regular";
  name = "viewers";
  permissions = "view_query" ∷ [];
}

abbrev table : List Group
table = editors ∷ viewers ∷ []

abbrev ada : Principal
ada = user (record {
  id = 7;
  org_id = 1;
  name = "Ada";
  email = "ada@example.org";
  group_ids = 1 ∷ 2 ∷ [];
  api_key = "k7";
  disabled_at = none;
})

abbrev board_key : String
board_key = "key"

abbrev board : Resource
board = record {
  api_key = some board_key;
  dashboard_api_keys = some ("shared" ∷ []);
  groups = (2, one true) ∷ (1, many (true ∷ false ∷ [])) ∷ [];
}

has_access_to_groups-NotViewOnly_example :
    (has_access_to_groups table (resource board) ada false ≡ true)
    ↔ (IsAdmin table ada ⊎ ((s : SharedGroup (resource board) ada) × NotViewOnly s.level))
has_access_to_groups-NotViewOnly_example =
    has_access_to_groups-NotViewOnly table (resource board) ada

ada_edits : has_access table (resource board) ada false ≡ true
unfolding has_access has_access_to_groups permissions groups_of group_ids
ada_edits = refl
