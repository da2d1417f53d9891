-- ===== src/Groups/Listing.antt =====
-- The endpoints of redash/handlers/groups.py that list groups, members and data sources. They record an
-- event and change nothing else.
use dingolytics_backend.Base.{
  ℕ, Bool, false, ◌||◌, List, keep, any, contains, ◌==◌, if◌then◌else◌, nat_eq, string_eq, ◌∷◌, [],
}
use dingolytics_backend.Base.Result.{Result, ok, abort, guard, ◌>>=◌, ◌>>◌}
use dingolytics_backend.Users.{Group, User, Principal, has_permission}
use dingolytics_backend.Access.{group_ids, require_permissions}
use dingolytics_backend.Grants.Handlers.{or_404}
use dingolytics_backend.Groups.{
  Directory, DataSource, find_group, require_admin, record_event, is_member, links,
}

-- An administrator, or a member of the group.
unfoldable pub may_see_group : Directory → Principal → ℕ → Bool
may_see_group d p group_id = has_permission d.groups p "admin" || contains (group_ids p) group_id

module _ (p : Principal) (org : ℕ) where
  -- `GroupListResource.get`
  unfoldable pub list_groups : Directory → List Group × Directory
  list_groups d = (
    if has_permission d.groups p "admin"
        then keep (λ g. g.org_id == org) d.groups
        else keep (λ g. contains (group_ids p) g.id) d.groups,
    record_event d "list",
  )

  -- `GroupResource.get`
  unfoldable pub view_group : Directory → ℕ → Result (Group × Directory)
  unfolding may_see_group
  view_group d group_id = do
    guard (may_see_group d p group_id) (abort 403)
    group ← find_group d group_id org
    ok (group, record_event d "view")

  -- `GroupMemberListResource.get`
  unfoldable pub list_members : Directory → ℕ → Result (List User)
  unfolding may_see_group
  list_members d group_id =
      require_permissions d.groups p ("list_users" ∷ []) false
        (guard (may_see_group d p group_id) (abort 403) >> ok (keep (is_member group_id) d.users))

  -- `GroupDataSourceListResource.get`
  unfoldable pub list_data_sources : Directory → ℕ → Result (List DataSource × Directory)
  list_data_sources d group_id = do
    require_admin d p
    group ← or_404 (find_group d group_id org)
    ok (
      keep (λ s. any (links s.id group.id) d.data_source_groups) d.data_sources,
      record_event d "list",
    )
