-- ===== src/Widgets/Examples.antt =====
-- The dashboard of the sample site, with a text box beside its widget.
use dingolytics_backend.Groups.{groups}
use dingolytics_backend.Grants.Handlers.{or_404}
use dingolytics_backend.Base.{some, none, [], ◌∷◌, true, ◌≡◌, refl, keep, ◌==◌, nat_eq}
use dingolytics_backend.Base.Result.{ok}
use dingolytics_backend.Base.Text.{codes}
use dingolytics_backend.Users.{Group, user, has_permissions, has_permission, permissions}
use dingolytics_backend.Access.{
  group_ids, groups_of, has_access_to_groups, require_permissions, has_access, is_admin_or_owner,
  has_permission_or_owner,
}
use dingolytics_backend.Grants.Modify.{can_modify}
use dingolytics_backend.Store.{guarded_query, Store, Widget, log, find_dashboard}
use dingolytics_backend.Store.Samples.{site, ada, bob, board, analysts}
use dingolytics_backend.Widgets.{WidgetProperties, add_widget, delete_visualization}
use dingolytics_backend.Widgets.Links.{
  IsShowable, here, step, widget_added, visualization_deleted, Reaches-IsShowable,
}
use dingolytics_backend.Widgets.View.{
  by_id, restricted, DashboardView, dashboard_at, show_widgets, view_dashboard,
}
use dingolytics_backend.Widgets.Restricted.{AllShown, view_dashboard-AllShown}

abbrev viewers : Group
viewers = record analysts { id = 2; permissions = "list_dashboards" ∷ "edit_dashboard" ∷ [] }

abbrev seen_by_bob : Store
seen_by_bob = record site { groups = analysts ∷ viewers ∷ [] }

abbrev text_widget : WidgetProperties
text_widget = record {
  dashboard_id = some 2;
  visualization_id = some none;
  options = some (codes "{}");
  text = some (codes "Note");
  width = some 1;
}

abbrev note : Widget
note = record {
  id = 2;
  visualization_id = none;
  text = some (codes "Note");
  width = 1;
  options = codes "{}";
  dashboard_id = 2;
}

abbrev first : Widget
first = record {
  id = 1;
  visualization_id = some 6;
  text = none;
  width = 1;
  options = codes "{}";
  dashboard_id = 2;
}

abbrev noted : Store
noted = record site { widgets = first ∷ note ∷ [] }

adds : add_widget (user ada) 1 site text_widget 2 ≡ ok (note, noted)
unfolding add_widget has_permissions has_permission permissions is_admin_or_owner
    has_permission_or_owner can_modify require_permissions find_dashboard
adds = refl

abbrev cleared : Store
cleared = record site {
  visualizations = [];
  widgets = note ∷ [];
  events = record { action = "delete"; object_type = "Visualization"; object_id = 6 } ∷ [];
}

-- The widget goes with its visualization, the text box stays.
clears : delete_visualization (user ada) 1 noted 6 ≡ ok cleared
unfolding delete_visualization has_permissions require_permissions permissions or_404 can_modify
    is_admin_or_owner log
clears = refl

site-IsShowable : IsShowable site
site-IsShowable = record { shown_there = refl; dashboards_there = refl; queries_there = refl }

Reaches-IsShowable_example : IsShowable cleared
Reaches-IsShowable_example =
    Reaches-IsShowable
      (step (step here (widget_added (user ada) 1 text_widget 2 note adds))
        (visualization_deleted (user ada) 1 6 clears))
      site-IsShowable

seen_by_bob-IsShowable : IsShowable seen_by_bob
seen_by_bob-IsShowable = record {
  shown_there = refl;
  dashboards_there = refl;
  queries_there = refl;
}

-- Bob is in no group of the data source.
bob_is_restricted :
    show_widgets (user bob) seen_by_bob (first ∷ []) ≡ ok (restricted 1 1 2 (codes "{}") ∷ [])
unfolding show_widgets has_access guarded_query has_access_to_groups permissions groups_of groups
    group_ids
bob_is_restricted = refl

bob_lists : has_permissions seen_by_bob.groups (user bob) ("list_dashboards" ∷ []) ≡ true
unfolding has_permissions has_permission permissions
bob_lists = refl

board_there : dashboard_at seen_by_bob 1 (by_id 2) ≡ ok board
unfolding dashboard_at find_dashboard
board_there = refl

view_dashboard-AllShown_example :
    (view : DashboardView) × (view_dashboard (user bob) seen_by_bob 1 (by_id 2)
      ≡ ok (view, log seen_by_bob "view" "dashboard" 2))
    × (view.dashboard ≡ board)
    × AllShown seen_by_bob
        (user bob)
        (keep (λ w. w.dashboard_id == 2) seen_by_bob.widgets)
        view.widgets
view_dashboard-AllShown_example =
    view_dashboard-AllShown seen_by_bob (user bob) 1 (by_id 2) board seen_by_bob-IsShowable
      bob_lists board_there
