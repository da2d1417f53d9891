-- ===== src/Grants/Modify.antt =====
-- `can_modify` and `require_object_modify_permission` of redash/permissions.py, which ask for a grant where
-- the caller is neither the owner nor an administrator.
use dingolytics_backend.Base.{
  ℕ, String, Bool, true, false, ◌||◌, some, List, ◌≡◌, ◌≢◌, arith, nat_eq, string_eq, beq_refl,
}
use dingolytics_backend.Base.Result.{Result, abort, guard}
use dingolytics_backend.Users.{Group, User, Principal, user, api_user}
use dingolytics_backend.Access.{access_type_modify, is_admin_or_owner}
use dingolytics_backend.Grants.{ObjectRef, AccessPermission, exists, revoke}
use dingolytics_backend.Grants.Rules.{Granted, Granted-exists, exists-revoke}

-- `User.has_access` and `ApiUser.has_access`
unfoldable pub holds_grant : List AccessPermission → ObjectRef → String → Principal → Bool
holds_grant rows obj access_type (user u) = exists rows obj access_type u.id
holds_grant rows obj access_type (api_user a) = false

module _ (table : List Group) (rows : List AccessPermission) (current_user : Principal) where
  unfoldable pub can_modify : ObjectRef → (owner : ℕ) → Principal → Bool
  unfolding holds_grant
  can_modify obj owner p =
      is_admin_or_owner table current_user owner || holds_grant rows obj access_type_modify p

  unfoldable pub require_object_modify_permission :
      ObjectRef → (owner : ℕ) → Principal → Result (Unit {0})
  require_object_modify_permission obj owner p = guard (can_modify obj owner p) (abort 403)

modify_named : access_type_modify ≢ ""
modify_named h = cc

-- A user who has been granted to modify an object can modify it; once that is revoked, it is again only
-- up to whether the caller is the object's owner or an administrator.
can_modify-grant :
    (table : List Group) (rows : List AccessPermission) (current_user : Principal) (obj : ObjectRef)
    (owner grantor : ℕ) (u : User)
    → (g : Granted rows obj access_type_modify u.id grantor)
    → (can_modify table g.rows_after current_user obj owner (user u) ≡ true)
      × (can_modify table
            (revoke g.rows_after obj u.id (some access_type_modify)).0
            current_user
            obj
            owner
            (user u)
          ≡ is_admin_or_owner table current_user owner)
unfolding can_modify
can_modify-grant table rows current_user obj owner grantor u g = (
  ground (arith, Granted-exists rows obj u.id access_type_modify grantor g),
  ground (
    arith,
    exists-revoke g.rows_after obj u.id (some access_type_modify) obj access_type_modify u.id
        modify_named,
    beq_refl obj.id,
    beq_refl obj.table_name,
    beq_refl u.id,
  ),
)
