-- ===== src/Users.antt =====
-- redash/models/users.py: users, groups, and the two kinds of authenticated principal that a request
-- runs as. An anonymous request is turned away before any of the code here asks about it.
-- A table is the list of its rows. Times are seconds since the epoch.
use dingolytics_backend.Base.{
  ℕ, String, Bool, true, false, Option, none, some, List, [], ◌∷◌, ◌++◌, contains, keep, all,
  is_some, nat_eq, string_eq,
}

pub record Group : Type 0 where
  pub id : ℕ
  pub org_id : ℕ
  pub type : String
  pub name : String
  pub permissions : List String

abbrev pub builtin_group : String
builtin_group = "builtin"

pub record User : Type 0 where
  pub id : ℕ
  pub org_id : ℕ
  pub name : String
  pub email : String
  pub group_ids : List ℕ
  pub api_key : String
  pub disabled_at : Option ℕ

unfoldable pub is_disabled : User → Bool
is_disabled user = is_some user.disabled_at

unfoldable pub disable : ℕ → User → User
disable now user = record user { disabled_at = some now }

unfoldable pub enable : User → User
enable user = record user { disabled_at = none }

chain_permissions : List Group → List String
chain_permissions [] = []
chain_permissions (g ∷ gs) = g.permissions ++ chain_permissions gs

-- `User.permissions`: the permissions of the groups of the table that the user is in.
unfoldable pub user_permissions : List Group → User → List String
unfolding chain_permissions
user_permissions groups user = chain_permissions (keep (λ g. contains user.group_ids g.id) groups)

-- `ApiUser`: its id is the API key that was presented.
pub record ApiUser : Type 0 where
  pub id : String
  pub group_ids : List ℕ

pub data Principal : Type 0 where
  user : User → Principal
  api_user : ApiUser → Principal

unfoldable pub is_api_user : Principal → Bool
is_api_user (user _) = false
is_api_user (api_user _) = true

unfoldable pub permissions : List Group → Principal → List String
unfolding user_permissions
permissions groups (user u) = user_permissions groups u
permissions groups (api_user _) = "view_query" ∷ []

-- `PermissionsCheckMixin`
unfoldable pub has_permissions : List Group → Principal → List String → Bool
has_permissions groups p wanted = all (λ name. contains (permissions groups p) name) wanted

unfoldable pub has_permission : List Group → Principal → String → Bool
unfolding has_permissions
has_permission groups p name = has_permissions groups p (name ∷ [])
