-- ===== src/Dashboards.antt =====
-- Dashboards: `generate_slug`, Dashboard and ApiKey of redash/models/__init__.py, and redash/handlers/dashboards.py.
-- Where the code opens a dashboard by its id without catching a missing row, the exception escapes.
pub mod Slug
pub mod Sharing
pub mod Handlers
mod Examples
use dingolytics_backend.Base.{
  ℕ, zero, suc, ◌+◌, String, Bool, true, false, not, ◌&&◌, ◌||◌, Option, none, some, List, [], ◌∷◌,
  ◌++◌, keep, any, find, contains, length, ◌==◌, if◌then◌else◌, nat_eq, string_eq,
}
use dingolytics_backend.Base.Result.{
  Result, ok, err, abort, attribute_error, no_result_found, from_option, guard, ◌>>=◌, ◌>>◌,
}
use dingolytics_backend.Base.Text.{Text, codes, text_eq, str_ℕ}
use dingolytics_backend.Utils.{slugify}
use dingolytics_backend.Users.{Principal, user, api_user}
use dingolytics_backend.Access.{require_permissions, require_admin_or_owner}
use dingolytics_backend.Grants.Handlers.{the_one, or_404}
use dingolytics_backend.Grants.Modify.{require_object_modify_permission}
use dingolytics_backend.Store.{Query, Widget, Dashboard, ApiKey, Store, log, find_dashboard, is_at}
use dingolytics_backend.Queries.Listing.{in_groups}

unfoldable pub is_taken : List Dashboard → Text → Bool
is_taken dashboards slug = any (λ b. b.slug == slug) dashboards

-- The slug of a try after the first.
unfoldable pub numbered : Text → ℕ → Text
numbered base tries = base ++ (codes "_" ++ str_ℕ tries)

-- The loop of `generate_slug`, on as many rounds as there is fuel.
unfoldable pub next_slug : List Dashboard → Text → (fuel tries : ℕ) → Text → Option Text
unfolding is_taken numbered
next_slug dashboards base zero tries slug = none
next_slug dashboards base (suc fuel) tries slug =
    let later = next_slug dashboards base fuel (suc tries) (numbered base tries) in
    if is_taken dashboards slug then later else some slug

-- One round more than there are dashboards.
unfoldable pub generate_slug : List Dashboard → Text → Option Text
unfolding next_slug
generate_slug dashboards name =
    next_slug dashboards (slugify name) (suc (length dashboards)) 1 (slugify name)

-- The query of a widget's visualization is on a data source of one of the groups.
widget_in_groups : Store → List ℕ → Widget → Bool
widget_in_groups d group_ids w =
    any
      (λ v.
        is_at v.id w.visualization_id
        && any (λ q. q.id == v.query_id && in_groups d group_ids q) d.queries)
      d.visualizations

-- `Dashboard.all`
unfoldable pub all_dashboards :
    Store → (org : ℕ) → (group_ids : List ℕ) → (user_id : ℕ) → List Dashboard
unfolding widget_in_groups
all_dashboards d org group_ids user_id =
    keep
      (λ b.
        not b.is_archived
        && (any (λ w. w.dashboard_id == b.id && widget_in_groups d group_ids w) d.widgets
            || b.user_id == user_id)
        && b.org_id == org
        && (b.user_id == user_id || not b.is_draft))
      d.dashboards

-- `ApiKey.get_by_api_key`
unfoldable pub get_by_api_key : Store → String → Result ApiKey
unfolding the_one
get_by_api_key d key = the_one (keep (λ k. k.api_key == key && k.active) d.api_keys)

-- The active keys of a dashboard.
unfoldable pub opens : ℕ → ApiKey → Bool
opens id k = k.object_type == "dashboards" && k.object_id == id && k.active

-- `ApiKey.get_by_object`
unfoldable pub get_by_object : Store → ℕ → Option ApiKey
unfolding opens
get_by_object d id = find (opens id) d.api_keys

-- The row of `create_for_object`.
unfoldable pub key_row : (org dashboard_id user_id new_id : ℕ) → String → ApiKey
key_row org dashboard_id user_id new_id key = record {
  id = new_id;
  org_id = org;
  api_key = key;
  active = true;
  object_type = "dashboards";
  object_id = dashboard_id;
  created_by_id = user_id;
}

-- `api_key.active = False` on the first row that opens the dashboard.
unfoldable pub deactivate : ℕ → List ApiKey → List ApiKey
unfolding opens
deactivate id [] = []
deactivate id (k ∷ ks) =
    let rest = deactivate id ks in if opens id k then record k { active = false } ∷ ks else k ∷ rest

unfoldable pub user_id_of : Principal → Result ℕ
user_id_of (user u) = ok u.id
user_id_of (api_user a) = err attribute_error

module _ (p : Principal) (org : ℕ) where
  -- `DashboardShareResource.post`
  unfoldable pub share : Store → (dashboard_id new_id : ℕ) → (key : String) → Result Store
  unfolding key_row user_id_of
  share d dashboard_id new_id key = do
    b ← find_dashboard d dashboard_id org
    require_admin_or_owner d.groups p b.user_id
    user_id ← user_id_of p
    ok (
        log (record d { api_keys = d.api_keys ++ key_row org b.id user_id new_id key ∷ [] })
          "activate_api_key" "dashboard" b.id)

  -- `DashboardShareResource.delete`
  unfoldable pub unshare : Store → (dashboard_id : ℕ) → Result Store
  unfolding deactivate
  unshare d dashboard_id = do
    b ← find_dashboard d dashboard_id org
    require_admin_or_owner d.groups p b.user_id
    ok (
        log (record d { api_keys = deactivate b.id d.api_keys }) "deactivate_api_key" "dashboard"
          b.id)

-- `api_key.object`, of a row of a dashboard
unfoldable pub dashboard_of : Store → ApiKey → Option Dashboard
dashboard_of d k =
    if k.object_type == "dashboards" then find (λ b. b.id == k.object_id) d.dashboards else none

-- `PublicDashboardResource.get`, for a user who is logged in.
unfoldable pub public_dashboard :
    Store → (disable_public_urls : Bool) → (token : String) → Result (Option Dashboard)
unfolding dashboard_of
public_dashboard d disabled token = do
  guard (not disabled) (abort 400)
  k ← or_404 (get_by_api_key d token)
  ok (dashboard_of d k)
