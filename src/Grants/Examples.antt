-- ===== src/Grants/Examples.antt =====
-- Grants on one query, whose owner lets a colleague modify it and takes that back.
use dingolytics_backend.Base.{
  String, false, not, ◌&&◌, none, some, [], ◌∷◌, ◌≡◌, ◌≢◌, refl, arith, contains, nat_eq, string_eq,
}
use dingolytics_backend.Base.Result.{ok}
use dingolytics_backend.Users.{User, user, permissions}
use dingolytics_backend.Access.{require_admin_or_owner}
use dingolytics_backend.Grants.{ObjectRef, AccessPermission, exists, revoke, permission_row}
use dingolytics_backend.Grants.Rules.{IsUnique, exists-revoke, is_revoked}
use dingolytics_backend.Grants.Handlers.{Owned, Site, get_object, or_400, the_one, access_types}
use dingolytics_backend.Grants.Handlers.Rules.{grantee_rows, may_administer}

abbrev report : ObjectRef
report = record { table_name = "queries"; id = 3 }

abbrev owned : Owned
owned = record { id = 3; org_id = 1; user_id = 7 }

abbrev ada : User
ada = record {
  id = 7;
  org_id = 1;
  name = "Ada";
  email = "ada@example.org";
  group_ids = [];
  api_key = "k7";
  disabled_at = none;
}

abbrev bob : User
bob = record {
  id = 8;
  org_id = 1;
  name = "Bob";
  email = "bob@example.org";
  group_ids = [];
  api_key = "k8";
  disabled_at = none;
}

abbrev granted : AccessPermission
granted = permission_row report "modify" 8 7

abbrev site : Site
site = record {
  queries = owned ∷ [];
  dashboards = [];
  users = ada ∷ bob ∷ [];
  groups = [];
  permissions = [];
  events = [];
}

abbrev site_granted : Site
site_granted = record site { permissions = granted ∷ [] }

IsUnique-nil : IsUnique []
IsUnique-nil row = omega arith

abbrev modify : String
modify = "modify"

modify_named : modify ≢ ""
modify_named h = cc

exists-revoke_example :
    exists (revoke (granted ∷ []) report 8 (some "modify")).0 report "modify" 8 ≡ (
      exists (granted ∷ []) report "modify" 8
      && not (is_revoked report 8 (some "modify") report "modify" 8))
exists-revoke_example =
    exists-revoke (granted ∷ []) report 8 (some "modify") report "modify" 8 modify_named

owned_found : get_object site "queries" 3 1 ≡ ok owned
unfolding get_object
owned_found = refl

owned_found_granted : get_object site_granted "queries" 3 1 ≡ ok owned
unfolding get_object
owned_found_granted = refl

ada_owns : require_admin_or_owner [] (user ada) 7 ≡ ok tt
unfolding require_admin_or_owner
ada_owns = refl

bob_found : or_400 (the_one (grantee_rows site ada 1 "queries" 3 "modify" 8)) ≡ ok bob
unfolding or_400 the_one
bob_found = refl

bob_denied :
    (may_administer site bob 1 "queries" 3 "modify" 8 owned && contains access_types "modify")
    ≡ false
unfolding permissions
bob_denied = refl
