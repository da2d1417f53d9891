-- ===== src/Access.antt =====
-- redash/permissions.py: who may view and who may modify an object.
pub mod Laws
pub mod Rules
pub mod Guards
mod Examples
use dingolytics_backend.Base.{
  ℕ, String, Bool, true, false, not, ◌&&◌, ◌||◌, Option, none, some, List, [], ◌∷◌, ◌++◌, keep,
  contains, all, any, map, leb, ◌==◌, if◌then◌else◌, is_some, nat_eq, string_eq,
}
use dingolytics_backend.Base.Dict.{Dict, keys, get}
use dingolytics_backend.Base.Result.{Result, ok, err, abort, attribute_error, guard, ◌>>=◌}
use dingolytics_backend.Users.{
  Group, User, Principal, user, api_user, is_api_user, permissions, has_permission, has_permissions,
}

abbrev pub access_type_modify : String
access_type_modify = "modify"

-- What a group maps to: whether it may only view, or a list of such flags, one for each object
-- behind the one that is asked for.
pub data ViewOnly : Type 0 where
  one : Bool → ViewOnly
  many : List Bool → ViewOnly

unfoldable pub flatten : List ViewOnly → List Bool
flatten [] = []
flatten (one b ∷ vs) = b ∷ flatten vs
flatten (many bs ∷ vs) = bs ++ flatten vs

-- The attributes that the checks look for; `none` where `hasattr` fails.
pub record Resource : Type 0 where
  pub api_key : Option String
  pub dashboard_api_keys : Option (List String)
  pub groups : Dict ℕ ViewOnly

-- The argument `obj`: an object with those attributes, or a bare dictionary of groups.
pub data Guarded : Type 0 where
  resource : Resource → Guarded
  group_map : Dict ℕ ViewOnly → Guarded

unfoldable pub groups_of : Guarded → Dict ℕ ViewOnly
groups_of (resource r) = r.groups
groups_of (group_map d) = d

unfoldable pub group_ids : Principal → List ℕ
group_ids (user u) = u.group_ids
group_ids (api_user a) = a.group_ids

flags_at : Dict ℕ ViewOnly → List ℕ → List ViewOnly
flags_at d [] = []
flags_at d (g ∷ gs) = let rest = flags_at d gs in elim (get d g) [ none ↦ rest | some v ↦ v ∷ rest ]

-- The local variables of `has_access_to_groups`.
matching_groups : Dict ℕ ViewOnly → List ℕ → List ℕ
matching_groups groups ids = keep (λ g. contains ids g) (keys groups)

group_level : Dict ℕ ViewOnly → List ℕ → ℕ
unfolding flags_at flatten
group_level groups matching = if all (λ b. b) (flatten (flags_at groups matching)) then 1 else 2

level_suffices : Bool → ℕ → Bool
level_suffices need_view_only level = leb (if need_view_only then 1 else 2) level

unfoldable pub has_access_to_groups : List Group → Guarded → Principal → Bool → Bool
unfolding matching_groups group_level level_suffices
has_access_to_groups table obj p need_view_only =
    let groups = groups_of obj in
    let matching = matching_groups groups (group_ids p) in
    if contains (permissions table p) "admin" then true else elim matching [
      | [] ↦ false
      | g ∷ gs ↦ level_suffices need_view_only (group_level groups (g ∷ gs))
    ]

unfoldable pub has_access_to_object : Resource → String → String → Bool → Bool
has_access_to_object r own_key api_key need_view_only =
    if own_key == api_key then need_view_only else elim r.dashboard_api_keys [
      | none ↦ false
      | some dashboard_keys ↦ contains dashboard_keys api_key && need_view_only
    ]

access_by_key : List Group → Resource → Principal → Bool → Option String → Bool
access_by_key table r (api_user a) need (some own_key) = has_access_to_object r own_key a.id need
access_by_key table r p need _ = has_access_to_groups table (resource r) p need

unfoldable pub has_access : List Group → Guarded → Principal → Bool → Bool
unfolding access_by_key
has_access table (resource r) p need = access_by_key table r p need r.api_key
has_access table (group_map d) p need = has_access_to_groups table (group_map d) p need

unfoldable pub require_access : List Group → Guarded → Principal → Bool → Result (Unit {0})
require_access table obj p need = guard (has_access table obj p need) (abort 403)

-- `require_permissions`: `fn` runs only if the current principal has the permissions.
unfoldable pub require_permissions {ℓ} :
    {A : Type ℓ} → List Group → Principal → List String → Bool → Result A → Result A
require_permissions table p wanted allow_one fn =
    let has_permissions_ =
      if allow_one
      then any (λ name. has_permission table p name) wanted
      else has_permissions table p wanted in
    if has_permissions_ then fn else err (abort 403)

-- `int(object_owner_id) == current_user.id`; the id of an API user is a text, which is no number.
unfoldable pub owns : Principal → ℕ → Bool
owns (user u) owner = owner == u.id
owns (api_user a) owner = false

unfoldable pub has_permission_or_owner : List Group → Principal → String → ℕ → Bool
unfolding owns
has_permission_or_owner table p name owner = owns p owner || has_permission table p name

unfoldable pub is_admin_or_owner : List Group → Principal → ℕ → Bool
unfolding has_permission_or_owner
is_admin_or_owner table p owner = has_permission_or_owner table p "admin" owner

unfoldable pub require_permission_or_owner : List Group → Principal → String → ℕ → Result (Unit {0})
unfolding has_permission_or_owner
require_permission_or_owner table p name owner =
    guard (has_permission_or_owner table p name owner) (abort 403)

unfoldable pub require_admin_or_owner : List Group → Principal → ℕ → Result (Unit {0})
unfolding is_admin_or_owner
require_admin_or_owner table p owner = guard (is_admin_or_owner table p owner) (abort 403)
