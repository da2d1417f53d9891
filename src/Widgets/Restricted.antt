-- ===== src/Widgets/Restricted.antt =====
-- What a user sees of a dashboard.
use mathlib.Core.List.{Memᴰ}
use dingolytics_backend.Base.{
  ℕ, Bool, true, false, Option, none, some, List, [], ◌∷◌, keep, find, any, all, ◌==◌, nat_eq, ◌≡◌,
  refl, sym, ap, ◌∙◌, arith, eq_of_beq, Bool-cases, inl, inr, all_at,
}
use dingolytics_backend.Base.Filters.{all-keep}
use dingolytics_backend.Base.Result.{ok}
use dingolytics_backend.Users.{Principal, has_permissions}
use dingolytics_backend.Access.{has_access, require_permissions}
use dingolytics_backend.Grants.Handlers.{or_404}
use dingolytics_backend.Store.{Query, Visualization, Widget, Dashboard, Store, log, guarded_query}
use dingolytics_backend.Widgets.{visualization_of, query_rel}
use dingolytics_backend.Widgets.Links.{IsShowable}
use dingolytics_backend.Widgets.Rows.{has_visualization}
use dingolytics_backend.Widgets.View.{
  Shown, text_box, full, restricted, Address, dashboard_at, DashboardView, show_widget,
  show_widgets, view_dashboard, response,
}

-- How a widget may be shown to a caller: a text box as it is; a widget with a visualization with the visualization and its
-- query if the caller may view that query, and as an empty place if not.
pub data IsShown (d : Store) (p : Principal) : Widget → Shown → Type 0 where
  text : {w : Widget} → w.visualization_id ≡ none → IsShown d p w (text_box w)
  whole :
      {w : Widget} {v : Visualization} {q : Query}
      → w.visualization_id ≡ some v.id
      → Memᴰ v d.visualizations
      → q.id ≡ v.query_id
      → Memᴰ q d.queries
      → has_access d.groups (guarded_query d q) p true ≡ true
      → IsShown d p w (full w v q)
  place :
      {w : Widget} {v : Visualization} {q : Query}
      → w.visualization_id ≡ some v.id
      → Memᴰ v d.visualizations
      → q.id ≡ v.query_id
      → Memᴰ q d.queries
      → has_access d.groups (guarded_query d q) p true ≡ false
      → IsShown d p w (restricted w.id w.width w.dashboard_id w.options)

-- The widgets in order, each shown in its way.
pub data AllShown (d : Store) (p : Principal) : List Widget → List Shown → Type 0 where
  nothing : AllShown d p [] []
  next :
      {w : Widget} {s : Shown} {widgets : List Widget} {shown : List Shown}
      → IsShown d p w s
      → AllShown d p widgets shown
      → AllShown d p (w ∷ widgets) (s ∷ shown)

find_there :
    {A : Type 0} (p : A → Bool) (xs : List A)
    → any p xs ≡ true
    → (x : A) × (find p xs ≡ some x) × (p x ≡ true) × Memᴰ x xs
find_there p [] h = cc
find_there p (x ∷ xs) h = elim (Bool-cases (p x)) [
  | inl e ↦ (x, rw e refl, e, Memᴰ.head refl)
  | inr e ↦
      let (y, found, holds, m) = find_there p xs (rw e at h) in (y, rw e found, holds, Memᴰ.tail m)
]

module _ (d : Store) (p : Principal) where
  show_visualization :
      (w : Widget) (id : ℕ)
      → w.visualization_id ≡ some id
      → any (λ v. v.id == id) d.visualizations ≡ true
      → all (λ v. any (λ q. q.id == v.query_id) d.queries) d.visualizations ≡ true
      → (s : Shown) × (show_widget p d w ≡ ok s) × IsShown d p w s
  unfolding show_widget visualization_of query_rel
  show_visualization w id e h l =
      let (v, found, same, m) = find_there (λ v. v.id == id) d.visualizations h in
      let (q, there, of, n) =
        find_there (λ q. q.id == v.query_id) d.queries
          (all_at (λ v. any (λ q. q.id == v.query_id) d.queries) m l) in
      let shown : w.visualization_id ≡ some v.id = e ∙ ap some (sym (eq_of_beq v.id id same)) in
      let of_v = eq_of_beq q.id v.query_id of in
      elim (Bool-cases (has_access d.groups (guarded_query d q) p true)) [
        | inl granted ↦
            (full w v q, rw (e, found, there, granted) refl, whole shown m of_v n granted)
        | inr refused ↦ (
          restricted w.id w.width w.dashboard_id w.options,
          rw (e, found, there, refused) refl,
          place shown m of_v n refused,
        )
      ]

  show_widget-IsShown :
      (w : Widget) (id : Option ℕ)
      → w.visualization_id ≡ id
      → has_visualization d.visualizations id ≡ true
      → all (λ v. any (λ q. q.id == v.query_id) d.queries) d.visualizations ≡ true
      → (s : Shown) × (show_widget p d w ≡ ok s) × IsShown d p w s
  unfolding show_widget
  show_widget-IsShown w none e h l = (text_box w, rw e refl, text e)
  show_widget-IsShown w (some id) e h l = show_visualization w id e h l

  show_widgets-AllShown :
      (widgets : List Widget)
      → all (λ w. has_visualization d.visualizations w.visualization_id) widgets ≡ true
      → all (λ v. any (λ q. q.id == v.query_id) d.queries) d.visualizations ≡ true
      → (shown : List Shown) × (show_widgets p d widgets ≡ ok shown) × AllShown d p widgets shown
  unfolding show_widgets
  show_widgets-AllShown [] h l = ([], refl, nothing)
  show_widgets-AllShown (w ∷ widgets) h l =
      let here : has_visualization d.visualizations w.visualization_id ≡ true = ground arith in
      let (s, shows, is) = show_widget-IsShown w w.visualization_id refl here l in
      let (shown, rest, are) = show_widgets-AllShown widgets (ground arith) l in
      (s ∷ shown, rw (shows, rest) refl, next is are)

-- A dashboard that is found is shown to a caller with the permission, whatever it holds: all of its widgets, in order, each with
-- its visualization and the query exactly if the caller may view that query, and otherwise as an empty place. Nothing
-- is written but the event.
pub view_dashboard-AllShown :
    (d : Store) (p : Principal) (org : ℕ) (address : Address) (b : Dashboard)
    → IsShowable d
    → has_permissions d.groups p ("list_dashboards" ∷ []) ≡ true
    → dashboard_at d org address ≡ ok b
    → (view : DashboardView) × (view_dashboard p d org address
        ≡ ok (view, log d "view" "dashboard" b.id))
      × (view.dashboard ≡ b)
      × AllShown d p (keep (λ w. w.dashboard_id == b.id) d.widgets) view.widgets
unfolding view_dashboard require_permissions or_404 response
view_dashboard-AllShown d p org address b l permitted found =
    let (shown, shows, are) =
      show_widgets-AllShown d p (keep (λ w. w.dashboard_id == b.id) d.widgets)
        (all-keep (λ w. has_visualization d.visualizations w.visualization_id) _ d.widgets
          l.shown_there)
        l.queries_there in
    (response p d b shown, rw (permitted, found, shows) refl, refl, are)
