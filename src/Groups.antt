-- ===== src/Groups.antt =====
-- redash/handlers/groups.py, with the methods of redash/models/datasources.py that it calls: groups, their
-- members, and the data sources that they may use. An exception before the commit leaves the database
-- as it was, so a handler returns the state only where it succeeds.
pub mod Listing
pub mod Members
pub mod Sources
mod Examples
use dingolytics_backend.Base.{
  ℕ, ◌+◌, String, Bool, true, false, not, ◌&&◌, ◌||◌, Option, none, some, List, [], ◌∷◌, ◌++◌, keep,
  contains, ◌==◌, if◌then◌else◌, nat_eq, string_eq,
}
use dingolytics_backend.Base.Dict.{Dict, put}
use dingolytics_backend.Base.Result.{
  Result, ok, err, abort, value_error, no_result_found, multiple_results_found, guard, ◌>>=◌, ◌>>◌,
}
use dingolytics_backend.Users.{Group, User, Principal, permissions, builtin_group}

pub record DataSource : Type 0 where
  pub id : ℕ
  pub org_id : ℕ

pub record DataSourceGroup : Type 0 where
  pub data_source_id : ℕ
  pub group_id : ℕ
  pub view_only : Bool

pub record Directory : Type 0 where
  pub groups : List Group
  pub users : List User
  pub data_sources : List DataSource
  pub data_source_groups : List DataSourceGroup
  pub events : List String

-- SQLAlchemy's `one()`
unfoldable pub one {ℓ} : {A : Type ℓ} → List A → Result A
one [] = err no_result_found
one (x ∷ []) = ok x
one (x ∷ y ∷ xs) = err multiple_results_found

unfoldable pub find_group : Directory → ℕ → ℕ → Result Group
unfolding one
find_group d id org = one (keep (λ g. g.id == id && g.org_id == org) d.groups)

unfoldable pub find_user : Directory → ℕ → ℕ → Result User
unfolding one
find_user d id org = one (keep (λ u. u.id == id && u.org_id == org) d.users)

unfoldable pub find_data_source : Directory → ℕ → ℕ → Result DataSource
unfolding one
find_data_source d id org = one (keep (λ s. s.id == id && s.org_id == org) d.data_sources)

-- `@require_admin`
unfoldable pub require_admin : Directory → Principal → Result (Unit {0})
require_admin d p = guard (contains (permissions d.groups p) "admin") (abort 403)

-- `record_event`, by the name of the action
unfoldable pub record_event : Directory → String → Directory
record_event d action = record d { events = d.events ++ action ∷ [] }

-- `list.remove(x)`: the first occurrence, and ValueError where there is none.
unfoldable pub remove_first : ℕ → List ℕ → Result (List ℕ)
remove_first x [] = err value_error
remove_first x (y ∷ ys) = elim (y == x) [
  | true ↦ ok ys
  | false ↦ remove_first x ys >>= λ rest. ok (y ∷ rest)
]

-- Every row of the user is written.
update_user : List User → User → List User
update_user [] u = []
update_user (v ∷ users) u = (if v.id == u.id then u else v) ∷ update_user users u

unfoldable pub is_member : ℕ → User → Bool
is_member group_id u = contains u.group_ids group_id

drop_member : ℕ → User → Result User
drop_member group_id u =
    if is_member group_id u
    then (remove_first group_id u.group_ids >>= λ ids. ok (record u { group_ids = ids }))
    else ok u

-- The loop of `GroupResource.delete` over `Group.members(group_id)`.
unfoldable pub remove_from_members : ℕ → List User → Result (List User)
unfolding is_member remove_first drop_member
remove_from_members group_id [] = ok []
remove_from_members group_id (u ∷ users) = do
  u' ← drop_member group_id u
  rest ← remove_from_members group_id users
  ok (u' ∷ rest)

module _ (p : Principal) (org : ℕ) where
  -- `GroupListResource.post`; the database gives the new row its id.
  unfoldable pub create_group :
      Directory → (new_id : ℕ) → String → List String → Result (Group × Directory)
  create_group d new_id name default_permissions = do
    require_admin d p
    let group : Group = record {
      id = new_id;
      org_id = org;
      type = "regular";
      name = name;
      permissions = default_permissions;
    }
    ok (group, record_event (record d { groups = d.groups ++ group ∷ [] }) "create")

  rename : ℕ → String → List Group → List Group
  rename id name [] = []
  rename id name (g ∷ gs) = (if g.id == id then record g { name = name } else g) ∷ rename id name gs

  -- `GroupResource.post`
  unfoldable pub rename_group : Directory → ℕ → String → Result Directory
  unfolding rename
  rename_group d group_id name = do
    require_admin d p
    group ← find_group d group_id org
    guard (not (group.type == builtin_group)) (abort 400)
    ok (record_event (record d { groups = rename group.id name d.groups }) "edit")

  -- `GroupResource.delete`; the rows of its data sources go with the group (`cascade="all"`).
  unfoldable pub delete_group : Directory → ℕ → Result Directory
  delete_group d group_id = do
    require_admin d p
    group ← find_group d group_id org
    guard (not (group.type == builtin_group)) (abort 400)
    users ← remove_from_members group_id d.users
    ok (record d {
      groups = keep (λ g. not (g.id == group.id)) d.groups;
      users = users;
      data_source_groups = keep (λ r. not (r.group_id == group.id)) d.data_source_groups;
    })

  -- `GroupMemberListResource.post`
  unfoldable pub add_member : Directory → ℕ → ℕ → Result Directory
  unfolding update_user
  add_member d group_id user_id = do
    require_admin d p
    user ← find_user d user_id org
    group ← find_group d group_id org
    ok (
        record_event
          (record d {
            users =
                update_user d.users (record user { group_ids = user.group_ids ++ group.id ∷ [] });
          })
          "add_member")

  -- `GroupMemberResource.delete`
  unfoldable pub remove_member : Directory → ℕ → ℕ → Result Directory
  unfolding update_user
  remove_member d group_id user_id = do
    require_admin d p
    user ← find_user d user_id org
    ids ← remove_first group_id user.group_ids
    ok (
        record_event (record d { users = update_user d.users (record user { group_ids = ids }) })
          "remove_member")

-- `DataSource.add_group`
unfoldable pub add_group : List DataSourceGroup → ℕ → ℕ → Bool → List DataSourceGroup
add_group rows data_source group view_only =
    rows ++ record { data_source_id = data_source; group_id = group; view_only = view_only } ∷ []

unfoldable pub links : ℕ → ℕ → DataSourceGroup → Bool
links data_source group row = row.group_id == group && row.data_source_id == data_source

-- `DataSource.remove_group`
unfoldable pub remove_group : List DataSourceGroup → ℕ → ℕ → List DataSourceGroup
unfolding links
remove_group rows data_source group = keep (λ r. not (links data_source group r)) rows

write_view_only : ℕ → ℕ → Bool → List DataSourceGroup → List DataSourceGroup
unfolding links
write_view_only data_source group view_only [] = []
write_view_only data_source group view_only (r ∷ rows) =
    (if links data_source group r then record r { view_only = view_only } else r)
    ∷ write_view_only data_source group view_only rows

-- `DataSource.update_group_permission`: the row must be there exactly once.
unfoldable pub update_group_permission :
    List DataSourceGroup → ℕ → ℕ → Bool → Result (List DataSourceGroup)
unfolding write_view_only one
update_group_permission rows data_source group view_only = do
  found ← one (keep (links data_source group) rows)
  ok (write_view_only data_source group view_only rows)

-- `DataSource.groups`: a later row of a group overwrites an earlier one.
unfoldable pub collect : Dict ℕ Bool → List DataSourceGroup → Dict ℕ Bool
collect acc [] = acc
collect acc (r ∷ rows) = collect (put acc r.group_id r.view_only) rows

unfoldable pub groups : List DataSourceGroup → ℕ → Dict ℕ Bool
unfolding collect
groups rows data_source = collect [] (keep (λ r. r.data_source_id == data_source) rows)

module _ (p : Principal) (org : ℕ) where
  -- `GroupDataSourceListResource.post`
  unfoldable pub add_data_source : Directory → ℕ → ℕ → Result Directory
  unfolding add_group
  add_data_source d group_id data_source_id = do
    require_admin d p
    source ← find_data_source d data_source_id org
    group ← find_group d group_id org
    ok (
        record_event
          (record d {
            data_source_groups = add_group d.data_source_groups source.id group.id false;
          })
          "add_data_source")

  -- `GroupDataSourceResource.post`
  unfoldable pub change_permission : Directory → ℕ → ℕ → Bool → Result Directory
  change_permission d group_id data_source_id view_only = do
    require_admin d p
    source ← find_data_source d data_source_id org
    group ← find_group d group_id org
    rows ← update_group_permission d.data_source_groups source.id group.id view_only
    ok (record_event (record d { data_source_groups = rows }) "change_data_source_permission")

  -- `GroupDataSourceResource.delete`
  unfoldable pub remove_data_source : Directory → ℕ → ℕ → Result Directory
  remove_data_source d group_id data_source_id = do
    require_admin d p
    source ← find_data_source d data_source_id org
    group ← find_group d group_id org
    ok (
        record_event
          (record d { data_source_groups = remove_group d.data_source_groups source.id group.id })
          "remove_data_source")
