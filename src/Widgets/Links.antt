-- ===== src/Widgets/Links.antt =====
-- References between the rows that the endpoints of redash/handlers/dashboard_widgets.py and
-- redash/handlers/visualizations.py write.
use dingolytics_backend.Base.{
  ℕ, true, Option, List, [], ◌∷◌, any, all, ◌==◌, nat_eq, ◌≡◌, sym, ap, subst, ◌∙◌, any_of_mem,
  beq_refl, all_at,
}
use dingolytics_backend.Base.Filters.{all-keep, all-snoc, all_mono}
use dingolytics_backend.Base.Result.{
  ok, key_error, other_error, from_option, ok_inj, >>=-eq-ok, >>-eq-ok, guard-eq-ok,
}
use dingolytics_backend.Base.Text.{Text}
use dingolytics_backend.Users.{Principal}
use dingolytics_backend.Access.Guards.{permissions_ok}
use dingolytics_backend.Grants.Handlers.{or_404}
use dingolytics_backend.Store.{Visualization, Widget, Store, log, find_query}
use dingolytics_backend.Store.Lookup.{find_query-Mem}
use dingolytics_backend.Widgets.{
  WidgetProperties, VisualizationProperties, Field, add_widget, update_widget, delete_widget,
  create_visualization, update_visualization, delete_visualization, update_model, find_widget,
  find_visualization, chosen_visualization, dashboard_named, query_rel, dashboard_of_widget,
  may_edit_query, may_edit_dashboard, non_zero,
}
use dingolytics_backend.Widgets.Rows.{
  has_visualization, all-write_widget, all-write_visualization, update_model-keeps,
  has_visualization-write, has_visualization-snoc, all-delete, dashboard_named-there,
  find_widget-Mem, find_visualization-Mem, or_404-find_visualization, chosen_visualization-there,
}

-- Every widget names a dashboard and, if it names one, a visualization of the table, and every visualization a query.
pub record IsShowable (d : Store) : Type 0 where
  pub shown_there :
      all (λ w. has_visualization d.visualizations w.visualization_id) d.widgets ≡ true
  pub dashboards_there : all (λ w. any (λ b. b.id == w.dashboard_id) d.dashboards) d.widgets ≡ true
  pub queries_there : all (λ v. any (λ q. q.id == v.query_id) d.queries) d.visualizations ≡ true

-- An answered request.
pub data Step : Store → Store → Type 0 where
  widget_added :
      {d d' : Store} (p : Principal) (org : ℕ) (body : WidgetProperties) (new_id : ℕ) (w : Widget)
      → add_widget p org d body new_id ≡ ok (w, d')
      → Step d d'
  widget_updated :
      {d d' : Store} (p : Principal) (org id : ℕ) (text : Option (Option Text))
      (options : Option Text) (w : Widget)
      → update_widget p org d id text options ≡ ok (w, d')
      → Step d d'
  widget_deleted :
      {d d' : Store} (p : Principal) (org id : ℕ) → delete_widget p org d id ≡ ok d' → Step d d'
  visualization_created :
      {d d' : Store} (p : Principal) (org : ℕ) (body : VisualizationProperties) (new_id : ℕ)
      (v : Visualization)
      → create_visualization p org d body new_id ≡ ok (v, d')
      → Step d d'
  visualization_updated :
      {d d' : Store} (p : Principal) (org id : ℕ) (fields : List Field) (v : Visualization)
      → update_visualization p org d id fields ≡ ok (v, d')
      → Step d d'
  visualization_deleted :
      {d d' : Store} (p : Principal) (org id : ℕ)
      → delete_visualization p org d id ≡ ok d'
      → Step d d'

pub data Reaches : Store → Store → Type 0 where
  here : {d : Store} → Reaches d d
  step : {d e f : Store} → Reaches d e → Step e f → Reaches d f

module _ (p : Principal) (org : ℕ) (d d' : Store) (l : IsShowable d) where
  add_widget-IsShowable :
      (body : WidgetProperties) (new_id : ℕ) (out : Widget)
      → add_widget p org d body new_id ≡ ok (out, d')
      → IsShowable d'
  unfolding add_widget
  add_widget-IsShowable body new_id out h =
      let (_, h0) = permissions_ok d.groups p ("edit_dashboard" ∷ []) _ h in
      let (b, found, h1) = >>=-eq-ok (dashboard_named p org d body.dashboard_id) _ h0 in
      let (_, h2) = >>-eq-ok (may_edit_dashboard d p b) _ h1 in
      let (options, _, h3) = >>=-eq-ok (from_option body.options (key_error "options")) _ h2 in
      let (given, _, h4) =
        >>=-eq-ok (from_option body.visualization_id (key_error "visualization_id")) _ h3 in
      let (shown, chosen, h5) = >>=-eq-ok (chosen_visualization p org d (non_zero given)) _ h4 in
      let (width, _, h6) = >>=-eq-ok (from_option body.width (other_error "IntegrityError")) _ h5 in
      subst IsShowable (ap (λ x. x.1) (ok_inj h6)) (record {
        shown_there =
            all-snoc (λ w. has_visualization d.visualizations w.visualization_id) d.widgets _
              l.shown_there (chosen_visualization-there p org d (non_zero given) shown chosen);
        dashboards_there =
            all-snoc (λ w. any (λ c. c.id == w.dashboard_id) d.dashboards) d.widgets _
              l.dashboards_there (dashboard_named-there p org d body.dashboard_id b found);
        queries_there = l.queries_there;
      })

  update_widget-IsShowable :
      (id : ℕ) (text : Option (Option Text)) (options : Option Text) (out : Widget)
      → update_widget p org d id text options ≡ ok (out, d')
      → IsShowable d'
  unfolding update_widget
  update_widget-IsShowable id text options out h =
      let (_, h0) = permissions_ok d.groups p ("edit_dashboard" ∷ []) _ h in
      let (w, found, h1) = >>=-eq-ok (find_widget d id org) _ h0 in
      let (b, _, h2) = >>=-eq-ok (dashboard_of_widget d w) _ h1 in
      let (_, h3) = >>-eq-ok (may_edit_dashboard d p b) _ h2 in
      let (t, _, h4) = >>=-eq-ok (from_option text (key_error "text")) _ h3 in
      let (o, _, h5) = >>=-eq-ok (from_option options (key_error "options")) _ h4 in
      let there = find_widget-Mem d id org w found in
      subst IsShowable (ap (λ x. x.1) (ok_inj h5)) (record {
        shown_there =
            all-write_widget (λ v. has_visualization d.visualizations v.visualization_id)
              (record w { text = t; options = o }) d.widgets
              (all_at (λ v. has_visualization d.visualizations v.visualization_id) there
                l.shown_there)
              l.shown_there;
        dashboards_there =
            all-write_widget (λ v. any (λ c. c.id == v.dashboard_id) d.dashboards)
              (record w { text = t; options = o }) d.widgets
              (all_at (λ v. any (λ c. c.id == v.dashboard_id) d.dashboards) there
                l.dashboards_there)
              l.dashboards_there;
        queries_there = l.queries_there;
      })

  delete_widget-IsShowable : (id : ℕ) → delete_widget p org d id ≡ ok d' → IsShowable d'
  unfolding delete_widget log
  delete_widget-IsShowable id h =
      let (_, h0) = permissions_ok d.groups p ("edit_dashboard" ∷ []) _ h in
      let (w, _, h1) = >>=-eq-ok (find_widget d id org) _ h0 in
      let (b, _, h2) = >>=-eq-ok (dashboard_of_widget d w) _ h1 in
      let (_, h3) = >>-eq-ok (may_edit_dashboard d p b) _ h2 in
      subst IsShowable (ok_inj h3) (record {
        shown_there =
            all-keep (λ v. has_visualization d.visualizations v.visualization_id) _ d.widgets
              l.shown_there;
        dashboards_there =
            all-keep (λ v. any (λ c. c.id == v.dashboard_id) d.dashboards) _ d.widgets
              l.dashboards_there;
        queries_there = l.queries_there;
      })

  create_visualization-IsShowable :
      (body : VisualizationProperties) (new_id : ℕ) (out : Visualization)
      → create_visualization p org d body new_id ≡ ok (out, d')
      → IsShowable d'
  unfolding create_visualization
  create_visualization-IsShowable body new_id out h =
      let (_, h0) = permissions_ok d.groups p ("edit_query" ∷ []) _ h in
      let (query_id, _, h1) = >>=-eq-ok (from_option body.query_id (key_error "query_id")) _ h0 in
      let (q, found, h2) = >>=-eq-ok (or_404 (find_query d query_id org)) _ h1 in
      let (_, h3) = >>-eq-ok (may_edit_query d p q) _ h2 in
      let (options, _, h4) = >>=-eq-ok (from_option body.options (key_error "options")) _ h3 in
      let (type, _, h5) = >>=-eq-ok (from_option body.type (other_error "IntegrityError")) _ h4 in
      let (name, _, h6) = >>=-eq-ok (from_option body.name (other_error "IntegrityError")) _ h5 in
      let (_, h7) = guard-eq-ok _ (other_error "IntegrityError") _ h6 in
      subst IsShowable (ap (λ x. x.1) (ok_inj h7)) (record {
        shown_there =
            all_mono (λ w. has_visualization d.visualizations w.visualization_id) _
              (λ w e. has_visualization-snoc _ d.visualizations w.visualization_id e) d.widgets
              l.shown_there;
        dashboards_there = l.dashboards_there;
        queries_there =
            all-snoc (λ v. any (λ r. r.id == v.query_id) d.queries) d.visualizations _
              l.queries_there
              (any_of_mem (λ r. r.id == q.id) (find_query-Mem d query_id org q found).0
                (beq_refl q.id));
      })

  update_visualization-IsShowable :
      (id : ℕ) (fields : List Field) (out : Visualization)
      → update_visualization p org d id fields ≡ ok (out, d')
      → IsShowable d'
  unfolding update_visualization
  update_visualization-IsShowable id fields out h =
      let (_, h0) = permissions_ok d.groups p ("edit_query" ∷ []) _ h in
      let (v, found, h1) = >>=-eq-ok (or_404 (find_visualization d id org)) _ h0 in
      let (q, _, h2) = >>=-eq-ok (query_rel d v) _ h1 in
      let (_, h3) = >>-eq-ok (may_edit_query d p q) _ h2 in
      let there = find_visualization-Mem d id org v (or_404-find_visualization d id org v found) in
      subst IsShowable (ap (λ x. x.1) (ok_inj h3)) (record {
        shown_there =
            all_mono (λ w. has_visualization d.visualizations w.visualization_id) _
              (λ w e. has_visualization-write _ d.visualizations w.visualization_id ∙ e) d.widgets
              l.shown_there;
        dashboards_there = l.dashboards_there;
        queries_there =
            all-write_visualization (λ w. any (λ r. r.id == w.query_id) d.queries)
              (update_model v fields) d.visualizations
              (subst (λ k. any (λ r. r.id == k) d.queries ≡ true)
                (sym (update_model-keeps v fields).1)
                (all_at (λ w. any (λ r. r.id == w.query_id) d.queries) there l.queries_there))
              l.queries_there;
      })

  delete_visualization-IsShowable :
      (id : ℕ) → delete_visualization p org d id ≡ ok d' → IsShowable d'
  unfolding delete_visualization log
  delete_visualization-IsShowable id h =
      let (_, h0) = permissions_ok d.groups p ("edit_query" ∷ []) _ h in
      let (v, _, h1) = >>=-eq-ok (or_404 (find_visualization d id org)) _ h0 in
      let (q, _, h2) = >>=-eq-ok (query_rel d v) _ h1 in
      let (_, h3) = >>-eq-ok (may_edit_query d p q) _ h2 in
      subst IsShowable (ok_inj h3) (record {
        shown_there = all-delete v.id d.visualizations d.widgets l.shown_there;
        dashboards_there =
            all-keep (λ w. any (λ c. c.id == w.dashboard_id) d.dashboards) _ d.widgets
              l.dashboards_there;
        queries_there =
            all-keep (λ w. any (λ r. r.id == w.query_id) d.queries) _ d.visualizations
              l.queries_there;
      })

Step-IsShowable : {d d' : Store} → Step d d' → IsShowable d → IsShowable d'
Step-IsShowable {d} {d'} (widget_added p org body new_id w h) l =
    add_widget-IsShowable p org d d' l body new_id w h
Step-IsShowable {d} {d'} (widget_updated p org id text options w h) l =
    update_widget-IsShowable p org d d' l id text options w h
Step-IsShowable {d} {d'} (widget_deleted p org id h) l = delete_widget-IsShowable p org d d' l id h
Step-IsShowable {d} {d'} (visualization_created p org body new_id v h) l =
    create_visualization-IsShowable p org d d' l body new_id v h
Step-IsShowable {d} {d'} (visualization_updated p org id fields v h) l =
    update_visualization-IsShowable p org d d' l id fields v h
Step-IsShowable {d} {d'} (visualization_deleted p org id h) l =
    delete_visualization-IsShowable p org d d' l id h

-- If every widget names a dashboard and, where it names one, a visualization, and every visualization a query, so they do
-- after any sequence of answered requests that add, change or delete widgets and visualizations.
pub Reaches-IsShowable : {d d' : Store} → Reaches d d' → IsShowable d → IsShowable d'
Reaches-IsShowable here l = l
Reaches-IsShowable (step before s) l = Step-IsShowable s (Reaches-IsShowable before l)
