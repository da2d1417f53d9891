-- ===== src/Grants/Handlers/Rules.antt =====
-- What a successful call of the permission endpoints has checked and done.
use dingolytics_backend.Base.{
  ℕ, String, Bool, true, false, not, ◌&&◌, none, some, List, contains, ◌==◌, ◌≡◌, ◌≢◌, arith,
  nat_eq, length, keep, ◌+◌, [], ◌∷◌, ◌++◌, ◌||◌, if◌then◌else◌, string_eq,
}
use dingolytics_backend.Base.Result.{ok, err, abort}
use dingolytics_backend.Users.{User, user, permissions}
use dingolytics_backend.Access.{require_admin_or_owner}
use dingolytics_backend.Access.Rules.{owns_id, require_admin_or_owner_iff}
use dingolytics_backend.Base.Filters.{length-append}
use dingolytics_backend.Grants.{
  ObjectRef, AccessPermission, exists, revoke, permission_row, selects,
}
use dingolytics_backend.Grants.Rules.{IsUnique, grant-Granted, exists-revoke, is_revoked}
use dingolytics_backend.Grants.Handlers.{
  Owned, Site, access_types, get_object, or_400, the_one, post, delete,
}

module _ (site : Site) (u : User) (org : ℕ) (object_type : String) (object_id : ℕ)
    (access_type : String) (grantee_id : ℕ) where
  abbrev pub grantee_rows : List User
  grantee_rows = keep (λ g. g.id == grantee_id && g.org_id == org) site.users

  abbrev pub may_administer : Owned → Bool
  may_administer obj =
      owns_id (user u) obj.user_id || contains (permissions site.groups (user u)) "admin"

  -- The permissions before and after a grant of this type on this object to this user.
  pub record Posted (obj : Owned) (grantee : User) : Type 0 where
    pub permission : AccessPermission
    pub after : Site
    pub returned :
        post site (user u) org object_type object_id access_type grantee_id ≡ ok (permission, after)
    pub logged : length after.events ≡ length site.events + 1
    pub unique : IsUnique after.permissions
    pub reported :
        (o : ObjectRef) (s : String) (v : ℕ)
        → exists after.permissions o s v ≡ (
            exists site.permissions o s v
            || selects o (some s) (some v) none (
                permission_row
                  (record { table_name = object_type; id = obj.id })
                  access_type
                  grantee.id
                  u.id))

  -- The owner of the object or an administrator may add a grant of a known type to a user of the
  -- organization. The call then succeeds, logs one event, and changes the reported permissions by
  -- exactly that grant.
  post-Posted :
      (obj : Owned) (grantee : User)
      → IsUnique site.permissions
      → get_object site object_type object_id org ≡ ok obj
      → require_admin_or_owner site.groups (user u) obj.user_id ≡ ok tt
      → contains access_types access_type ≡ true
      → or_400 (the_one grantee_rows) ≡ ok grantee
      → Posted obj grantee
  unfolding post
  post-Posted obj grantee unique found allowed known target =
      let w =
        grant-Granted site.permissions (record { table_name = object_type; id = obj.id })
          access_type grantee.id u.id unique in
      record {
        permission =
            permission_row (record { table_name = object_type; id = obj.id }) access_type grantee.id
              u.id;
        after = record site {
          permissions = w.rows_after;
          events =
              site.events
              ++ record {
                action = "grant_permission";
                object_type = object_type;
                object_id = object_id;
                access_type = access_type;
                grantee_id = grantee.id;
              }
                ∷ [];
        };
        returned = ground (arith, w.returned);
        logged = omega (arith, length-append {0} site.events);
        unique = w.unique;
        reported = w.reported;
      }

  -- A caller who is neither is refused with 403, whatever else the request says; of the others an
  -- unknown access type gets 400.
  post_denied :
      (obj : Owned)
      → get_object site object_type object_id org ≡ ok obj
      → may_administer obj && contains access_types access_type ≡ false
      → post site (user u) org object_type object_id access_type grantee_id
        ≡ err (abort (if may_administer obj then 400 else 403))
  unfolding post
  post_denied obj found denied =
      ground (arith, require_admin_or_owner_iff site.groups (user u) obj.user_id)

  -- Revoking by the owner or an administrator succeeds, and `exists` afterwards answers for every
  -- named access type as before, but for the permissions of the revoked type that the grantee has on
  -- the object: those are gone.
  delete_lem :
      (obj : Owned) (grantee : User) (rest : List User) (o : ObjectRef) (s : String) (v : ℕ)
      → s ≢ ""
      → get_object site object_type object_id org ≡ ok obj
      → require_admin_or_owner site.groups (user u) obj.user_id ≡ ok tt
      → keep (λ g. g.id == grantee_id) site.users ≡ grantee ∷ rest
      → (after : Site) × (delete site (user u) org object_type object_id access_type grantee_id
          ≡ ok after)
        × (exists after.permissions o s v ≡ (
            exists site.permissions o s v
            && not (
                is_revoked
                  (record { table_name = object_type; id = obj.id })
                  grantee.id
                  (some access_type)
                  o
                  s
                  v)))
  unfolding delete
  delete_lem obj grantee rest o s v named found allowed target = (
    record site {
      permissions =
          (revoke site.permissions (record { table_name = object_type; id = obj.id }) grantee.id
            (some access_type)).0;
      events =
          site.events
          ++ record {
            action = "revoke_permission";
            object_type = object_type;
            object_id = object_id;
            access_type = access_type;
            grantee_id = grantee_id;
          }
            ∷ [];
    },
    ground arith,
    exists-revoke site.permissions (record { table_name = object_type; id = obj.id }) grantee.id
        (some access_type) o s v named,
  )
