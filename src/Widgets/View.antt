-- ===== src/Widgets/View.antt =====
-- How much of a dashboard a user gets to see: `serialize_dashboard` of redash/serializers/__init__.py, and the endpoint of
-- redash/handlers/dashboards.py that shows a dashboard.
use dingolytics_backend.Base.{
  ℕ, String, Bool, true, false, ◌&&◌, Option, none, some, List, [], ◌∷◌, keep, ◌==◌, nat_eq,
  if◌then◌else◌,
}
use dingolytics_backend.Base.Result.{Result, ok, ◌>>=◌}
use dingolytics_backend.Base.Text.{Text, text_eq}
use dingolytics_backend.Users.{Principal}
use dingolytics_backend.Access.{has_access, require_permissions}
use dingolytics_backend.Grants.Handlers.{the_one, or_404}
use dingolytics_backend.Grants.Modify.{can_modify}
use dingolytics_backend.Store.{
  Query, Visualization, Widget, Dashboard, Store, log, find_dashboard, guarded_query,
}
use dingolytics_backend.Dashboards.{get_by_object}
use dingolytics_backend.Widgets.{visualization_of, query_rel}

-- What is shown of a widget: all of it, with its visualization and the query of that, or no more than its place.
pub data Shown : Type 0 where
  text_box : Widget → Shown
  full : Widget → Visualization → Query → Shown
  restricted : (id width dashboard_id : ℕ) → (options : Text) → Shown

-- The path holds an id, or a slug if the request says `legacy`.
pub data Address : Type 0 where
  by_id : ℕ → Address
  by_slug : Text → Address

-- `Dashboard.get_by_id_and_org` and `Dashboard.get_by_slug_and_org`
unfoldable pub dashboard_at : Store → (org : ℕ) → Address → Result Dashboard
unfolding the_one
dashboard_at d org (by_id id) = find_dashboard d id org
dashboard_at d org (by_slug slug) =
    the_one (keep (λ b. b.slug == slug && b.org_id == org) d.dashboards)

-- The response.
pub record DashboardView : Type 0 where
  pub dashboard : Dashboard
  pub widgets : List Shown
  pub api_key : Option String
  pub can_edit : Bool

module _ (p : Principal) where
  -- One round of the loop over the widgets in `serialize_dashboard`.
  unfoldable pub show_widget : Store → Widget → Result Shown
  unfolding visualization_of query_rel
  show_widget d w = elim w.visualization_id [
    | none ↦ ok (text_box w)
    | some id ↦ do
      v ← visualization_of d id
      q ← query_rel d v
      ok (
          if has_access d.groups (guarded_query d q) p true
          then full w v q
          else restricted w.id w.width w.dashboard_id w.options)
  ]

  unfoldable pub show_widgets : Store → List Widget → Result (List Shown)
  unfolding show_widget
  show_widgets d [] = ok []
  show_widgets d (w ∷ widgets) = do
    s ← show_widget d w
    shown ← show_widgets d widgets
    ok (s ∷ shown)

  unfoldable pub response : Store → Dashboard → List Shown → DashboardView
  response d b shown = record {
    dashboard = b;
    widgets = shown;
    api_key = elim (get_by_object d b.id) [ none ↦ none | some k ↦ some k.api_key ];
    can_edit =
        can_modify d.groups d.permissions p (record { table_name = "dashboards"; id = b.id })
          b.user_id p;
  }

  -- `DashboardResource.get`
  unfoldable pub view_dashboard : Store → (org : ℕ) → Address → Result (DashboardView × Store)
  unfolding dashboard_at show_widgets response
  view_dashboard d org address = require_permissions d.groups p ("list_dashboards" ∷ []) false (do
    b ← or_404 (dashboard_at d org address)
    shown ← show_widgets d (keep (λ w. w.dashboard_id == b.id) d.widgets)
    ok (response d b shown, log d "view" "dashboard" b.id))
