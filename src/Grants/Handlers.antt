-- ===== src/Grants/Handlers.antt =====
-- redash/handlers/permissions.py: the endpoints that list, add and remove grants on one object.
-- An exception before the commit leaves the database as it was, so a handler returns the state
-- only where it succeeds.
pub mod Rules
use dingolytics_backend.Base.{
  ℕ, String, Bool, ◌&&◌, some, List, [], ◌∷◌, ◌++◌, contains, keep, ◌==◌, if◌then◌else◌, nat_eq,
  string_eq,
}
use dingolytics_backend.Base.Result.{
  Result, ok, err, abort, attribute_error, no_result_found, multiple_results_found, guard, ◌>>=◌,
  ◌>>◌,
}
use dingolytics_backend.Users.{Group, User, Principal, user}
use dingolytics_backend.Access.{require_admin_or_owner}
use dingolytics_backend.Grants.{AccessPermission, exists, grant, revoke}

-- A query or a dashboard, as far as these endpoints look.
pub record Owned : Type 0 where
  pub id : ℕ
  pub org_id : ℕ
  pub user_id : ℕ

pub record AuditEvent : Type 0 where
  pub action : String
  pub object_type : String
  pub object_id : ℕ
  pub access_type : String
  pub grantee_id : ℕ

pub record Site : Type 0 where
  pub queries : List Owned
  pub dashboards : List Owned
  pub users : List User
  pub groups : List Group
  pub permissions : List AccessPermission
  pub events : List AuditEvent

-- SQLAlchemy's `one()`
unfoldable pub the_one {ℓ} : {A : Type ℓ} → List A → Result A
the_one [] = err no_result_found
the_one (x ∷ []) = ok x
the_one (x ∷ y ∷ xs) = err multiple_results_found

abbrev pub access_types : List String
access_types = "view" ∷ "modify" ∷ "delete" ∷ []

unfoldable pub get_model_from_type : Site → String → Result (List Owned)
get_model_from_type site type =
    if type == "queries"
    then ok site.queries
    else if type == "dashboards"
    then ok site.dashboards
    else err (abort 404)

-- `get_object_or_404`: only the missing row becomes a 404.
unfoldable pub or_404 {ℓ} : {A : Type ℓ} → Result A → Result A
or_404 (err no_result_found) = err (abort 404)
or_404 r = r

unfoldable pub get_object : Site → String → ℕ → ℕ → Result Owned
unfolding get_model_from_type or_404 the_one
get_object site type id org = do
  rows ← get_model_from_type site type
  or_404 (the_one (keep (λ o. o.id == id && o.org_id == org) rows))

-- `try: User.get_by_id_and_org(...) except NoResultFound: abort(400)`
unfoldable pub or_400 {ℓ} : {A : Type ℓ} → Result A → Result A
or_400 (err no_result_found) = err (abort 400)
or_400 r = r

user_id : Principal → Result ℕ
user_id (user u) = ok u.id
user_id _ = err attribute_error

unfoldable pub post :
    (site : Site) (current_user : Principal) (org : ℕ) (object_type : String) (object_id : ℕ)
    (access_type : String) (grantee_id : ℕ)
    → Result (AccessPermission × Site)
unfolding user_id
post site current_user org object_type object_id access_type grantee_id = do
  obj ← get_object site object_type object_id org
  require_admin_or_owner site.groups current_user obj.user_id
  guard (contains access_types access_type) (abort 400)
  grantee ← or_400 (the_one (keep (λ u. u.id == grantee_id && u.org_id == org) site.users))
  grantor ← user_id current_user
  granted ←
      grant site.permissions (record { table_name = object_type; id = obj.id }) access_type
        grantee.id grantor
  let (permission, rows) = granted
  ok (
    permission,
    record site {
      permissions = rows;
      events =
          site.events
          ++ record {
            action = "grant_permission";
            object_type = object_type;
            object_id = object_id;
            access_type = access_type;
            grantee_id = grantee.id;
          }
            ∷ [];
    },
  )

-- `User.query.get(id)`, in any organization
first : List User → Result User
first [] = err (abort 400)
first (u ∷ us) = ok u

unfoldable pub delete :
    (site : Site) (current_user : Principal) (org : ℕ) (object_type : String) (object_id : ℕ)
    (access_type : String) (grantee_id : ℕ)
    → Result Site
unfolding first
delete site current_user org object_type object_id access_type grantee_id = do
  obj ← get_object site object_type object_id org
  require_admin_or_owner site.groups current_user obj.user_id
  grantee ← first (keep (λ u. u.id == grantee_id) site.users)
  ok (record site {
    permissions =
        (revoke site.permissions (record { table_name = object_type; id = obj.id }) grantee.id
          (some access_type)).0;
    events =
        site.events
        ++ record {
          action = "revoke_permission";
          object_type = object_type;
          object_id = object_id;
          access_type = access_type;
          grantee_id = grantee_id;
        }
          ∷ [];
  })

-- `CheckPermissionResource.get`
unfoldable pub check :
    (site : Site) (current_user : Principal) (org : ℕ) (object_type : String) (object_id : ℕ)
    (access_type : String)
    → Result Bool
unfolding user_id
check site current_user org object_type object_id access_type = do
  obj ← get_object site object_type object_id org
  grantee ← user_id current_user
  ok (
      exists site.permissions (record { table_name = object_type; id = obj.id }) access_type
        grantee)
