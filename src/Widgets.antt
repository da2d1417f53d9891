-- ===== src/Widgets.antt =====
-- redash/handlers/dashboard_widgets.py and redash/handlers/visualizations.py: what the dashboards show. The JSON of
-- options is its text. A row that a relation does not find is None.
pub mod View
mod Rows
pub mod Links
pub mod Restricted
mod Examples
use dingolytics_backend.Base.{
  ℕ, String, Bool, true, false, not, ◌&&◌, Option, none, some, List, [], ◌∷◌, ◌++◌, keep, any, find,
  or_else, ◌==◌, nat_eq, if◌then◌else◌,
}
use dingolytics_backend.Base.Result.{
  Result, ok, err, key_error, attribute_error, other_error, from_option, guard, ◌>>=◌, ◌>>◌,
  no_result_found,
}
use dingolytics_backend.Base.Text.{Text}
use dingolytics_backend.Users.{Principal}
use dingolytics_backend.Access.{has_access, require_access, require_permissions}
use dingolytics_backend.Grants.Handlers.{the_one, or_404}
use dingolytics_backend.Grants.Modify.{require_object_modify_permission}
use dingolytics_backend.Store.{
  Query, Visualization, Widget, Dashboard, Store, log, find_query, find_dashboard, guarded_query,
  is_at,
}

-- `Widget.get_by_id_and_org`: the organization is that of the dashboard.
unfoldable pub find_widget : Store → (id org : ℕ) → Result Widget
unfolding the_one
find_widget d id org = the_one (
    keep (λ w. w.id == id && any (λ b. b.id == w.dashboard_id && b.org_id == org) d.dashboards)
      d.widgets)

-- `Visualization.get_by_id_and_org`: the organization is that of the query.
unfoldable pub find_visualization : Store → (id org : ℕ) → Result Visualization
unfolding the_one
find_visualization d id org = the_one (
    keep (λ v. v.id == id && any (λ q. q.id == v.query_id && q.org_id == org) d.queries)
      d.visualizations)

-- `visualization.query_rel`, `widget.dashboard` and `widget.visualization`, of which an attribute is asked for.
unfoldable pub query_rel : Store → Visualization → Result Query
query_rel d v = from_option (find (λ q. q.id == v.query_id) d.queries) attribute_error

unfoldable pub dashboard_of_widget : Store → Widget → Result Dashboard
dashboard_of_widget d w =
    from_option (find (λ b. b.id == w.dashboard_id) d.dashboards) attribute_error

unfoldable pub visualization_of : Store → ℕ → Result Visualization
visualization_of d id = from_option (find (λ v. v.id == id) d.visualizations) attribute_error

unfoldable pub may_edit_dashboard : Store → Principal → Dashboard → Result (Unit {0})
unfolding require_object_modify_permission
may_edit_dashboard d p b =
    require_object_modify_permission d.groups d.permissions p
      (record { table_name = "dashboards"; id = b.id }) b.user_id p

unfoldable pub may_edit_query : Store → Principal → Query → Result (Unit {0})
unfolding require_object_modify_permission
may_edit_query d p q =
    require_object_modify_permission d.groups d.permissions p
      (record { table_name = "queries"; id = q.id }) q.user_id p

-- The body of a new widget; a missing key is `none`, a null in it `some none`.
pub record WidgetProperties : Type 0 where
  pub dashboard_id : Option ℕ
  pub visualization_id : Option (Option ℕ)
  pub options : Option Text
  pub text : Option Text
  pub width : Option ℕ

-- `if visualization_id:`
unfoldable pub non_zero : Option ℕ → Option ℕ
non_zero none = none
non_zero (some id) = if id == 0 then none else some id

unfoldable pub write_widget : Widget → List Widget → List Widget
write_widget w [] = []
write_widget w (v ∷ widgets) = (if v.id == w.id then w else v) ∷ write_widget w widgets

unfoldable pub write_visualization : Visualization → List Visualization → List Visualization
write_visualization v [] = []
write_visualization v (w ∷ rows) = (if w.id == v.id then v else w) ∷ write_visualization v rows

-- The body of a new visualization, which may bring its own id.
pub record VisualizationProperties : Type 0 where
  pub query_id : Option ℕ
  pub id : Option ℕ
  pub type : Option String
  pub name : Option Text
  pub description : Option Text
  pub options : Option Text

-- The items of a change of a visualization; `id` and `query_id` are dropped.
pub data Field : Type 0 where
  type_field : String → Field
  name_field : Text → Field
  description_field : Option Text → Field
  options_field : Text → Field
  dropped : String → Field

unfoldable pub set_field : Visualization → Field → Visualization
set_field v (type_field s) = record v { type = s }
set_field v (name_field s) = record v { name = s }
set_field v (description_field s) = record v { description = s }
set_field v (options_field s) = record v { options = s }
set_field v (dropped key) = v

unfoldable pub update_model : Visualization → List Field → Visualization
unfolding set_field
update_model v [] = v
update_model v (f ∷ fields) = update_model (set_field v f) fields

module _ (p : Principal) (org : ℕ) where
  -- `Dashboard.get_by_id_and_org(properties.get("dashboard_id"), ...)`
  unfoldable pub dashboard_named : Store → Option ℕ → Result Dashboard
  dashboard_named d none = err no_result_found
  dashboard_named d (some id) = find_dashboard d id org

  -- `visualization = ...` of `WidgetListResource.post`, given the id
  unfoldable pub chosen_visualization : Store → Option ℕ → Result (Option ℕ)
  unfolding find_visualization query_rel
  chosen_visualization d none = ok none
  chosen_visualization d (some id) = do
    v ← find_visualization d id org
    q ← query_rel d v
    require_access d.groups (guarded_query d q) p true
    ok (some v.id)

  -- `WidgetListResource.post`
  unfoldable pub add_widget : Store → WidgetProperties → (new_id : ℕ) → Result (Widget × Store)
  unfolding dashboard_named may_edit_dashboard non_zero chosen_visualization
  add_widget d body new_id = require_permissions d.groups p ("edit_dashboard" ∷ []) false (do
    b ← dashboard_named d body.dashboard_id
    may_edit_dashboard d p b
    options ← from_option body.options (key_error "options")
    given ← from_option body.visualization_id (key_error "visualization_id")
    shown ← chosen_visualization d (non_zero given)
    width ← from_option body.width (other_error "IntegrityError")
    let w : Widget = record {
      id = new_id;
      visualization_id = shown;
      text = body.text;
      width = width;
      options = options;
      dashboard_id = b.id;
    }
    ok (w, record d { widgets = d.widgets ++ w ∷ [] }))

  -- `WidgetResource.post`; the text may be null.
  unfoldable pub update_widget :
      Store
      → (widget_id : ℕ) → (text : Option (Option Text)) → (options : Option Text)
      → Result (Widget × Store)
  unfolding find_widget dashboard_of_widget may_edit_dashboard write_widget
  update_widget d widget_id text options =
      require_permissions d.groups p ("edit_dashboard" ∷ []) false (do
        w ← find_widget d widget_id org
        b ← dashboard_of_widget d w
        may_edit_dashboard d p b
        new_text ← from_option text (key_error "text")
        new_options ← from_option options (key_error "options")
        let w' = record w { text = new_text; options = new_options }
        ok (w', record d { widgets = write_widget w' d.widgets }))

  -- `WidgetResource.delete`
  unfoldable pub delete_widget : Store → (widget_id : ℕ) → Result Store
  unfolding find_widget dashboard_of_widget may_edit_dashboard
  delete_widget d widget_id = require_permissions d.groups p ("edit_dashboard" ∷ []) false (do
    w ← find_widget d widget_id org
    b ← dashboard_of_widget d w
    may_edit_dashboard d p b
    ok (
        log (record d { widgets = keep (λ v. not (v.id == w.id)) d.widgets }) "delete" "widget"
          widget_id))

  -- `VisualizationListResource.post`
  unfoldable pub create_visualization :
      Store → VisualizationProperties → (new_id : ℕ) → Result (Visualization × Store)
  unfolding may_edit_query
  create_visualization d body new_id = require_permissions d.groups p ("edit_query" ∷ []) false (do
    query_id ← from_option body.query_id (key_error "query_id")
    q ← or_404 (find_query d query_id org)
    may_edit_query d p q
    options ← from_option body.options (key_error "options")
    type ← from_option body.type (other_error "IntegrityError")
    name ← from_option body.name (other_error "IntegrityError")
    let id = or_else body.id new_id
    guard (not (any (λ v. v.id == id) d.visualizations)) (other_error "IntegrityError")
    let v : Visualization = record {
      id = id;
      query_id = q.id;
      type = type;
      name = name;
      description = body.description;
      options = options;
    }
    ok (v, record d { visualizations = d.visualizations ++ v ∷ [] }))

  -- `VisualizationResource.post`
  unfoldable pub update_visualization :
      Store → (visualization_id : ℕ) → List Field → Result (Visualization × Store)
  unfolding find_visualization query_rel may_edit_query update_model write_visualization
  update_visualization d visualization_id fields =
      require_permissions d.groups p ("edit_query" ∷ []) false (do
        v ← or_404 (find_visualization d visualization_id org)
        q ← query_rel d v
        may_edit_query d p q
        let v' = update_model v fields
        ok (v', record d { visualizations = write_visualization v' d.visualizations }))

  -- `VisualizationResource.delete`; the widgets that show it go with it, by the cascade of `Widget.visualization`.
  unfoldable pub delete_visualization : Store → (visualization_id : ℕ) → Result Store
  unfolding find_visualization query_rel may_edit_query is_at
  delete_visualization d visualization_id =
      require_permissions d.groups p ("edit_query" ∷ []) false (do
        v ← or_404 (find_visualization d visualization_id org)
        q ← query_rel d v
        may_edit_query d p q
        ok (
            log
              (record d {
                visualizations = keep (λ w. not (w.id == v.id)) d.visualizations;
                widgets = keep (λ w. not (is_at v.id w.visualization_id)) d.widgets;
              })
              "delete" "Visualization" visualization_id))
