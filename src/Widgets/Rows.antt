-- ===== src/Widgets/Rows.antt =====
-- The rows of widgets and visualizations as redash/handlers/dashboard_widgets.py and redash/handlers/visualizations.py write them.
use mathlib.Core.List.{Memᴰ}
use dingolytics_backend.Base.{
  ℕ, Bool, true, false, not, Option, none, some, List, [], ◌∷◌, ◌++◌, keep, any, all, ◌==◌, nat_eq,
  ◌≡◌, refl, subst, ◌∙◌, arith, mem_of_keep, any_of_mem, beq_refl,
}
use dingolytics_backend.Base.Filters.{any-append}
use dingolytics_backend.Base.Result.{ok, ok_inj, >>=-eq-ok, >>-eq-ok}
use dingolytics_backend.Users.{Principal}
use dingolytics_backend.Grants.Handlers.{or_404}
use dingolytics_backend.Store.{
  Visualization, Widget, Dashboard, Store, find_dashboard, is_at, guarded_query,
}
use dingolytics_backend.Store.Lookup.{the_one-Mem, or_404-the_one}
use dingolytics_backend.Widgets.{
  Field, write_widget, write_visualization, update_model, find_widget, find_visualization,
  chosen_visualization, set_field, type_field, name_field, description_field, options_field,
  dropped, dashboard_named, query_rel, require_access,
}

abbrev pub has_visualization : List Visualization → Option ℕ → Bool
has_visualization rows none = true
has_visualization rows (some id) = any (λ v. v.id == id) rows

pub all-write_widget :
    (p : Widget → Bool) (w : Widget) (widgets : List Widget)
    → p w ≡ true
    → all p widgets ≡ true
    → all p (write_widget w widgets) ≡ true
unfolding write_widget
all-write_widget p w [] h e = refl
all-write_widget p w (v ∷ widgets) h e = ground (arith, all-write_widget p w widgets h)

pub all-write_visualization :
    (p : Visualization → Bool) (v : Visualization) (rows : List Visualization)
    → p v ≡ true
    → all p rows ≡ true
    → all p (write_visualization v rows) ≡ true
unfolding write_visualization
all-write_visualization p v [] h e = refl
all-write_visualization p v (w ∷ rows) h e = ground (arith, all-write_visualization p v rows h)

pub update_model-keeps :
    (v : Visualization) (fields : List Field)
    → ((update_model v fields).id ≡ v.id) × ((update_model v fields).query_id ≡ v.query_id)
unfolding update_model set_field
update_model-keeps v [] = (refl, refl)
update_model-keeps v (type_field x ∷ fields) = update_model-keeps (record v { type = x }) fields
update_model-keeps v (name_field x ∷ fields) = update_model-keeps (record v { name = x }) fields
update_model-keeps v (description_field x ∷ fields) =
    update_model-keeps (record v { description = x }) fields
update_model-keeps v (options_field x ∷ fields) =
    update_model-keeps (record v { options = x }) fields
update_model-keeps v (dropped x ∷ fields) = update_model-keeps v fields

pub has_visualization-write :
    (v : Visualization) (rows : List Visualization) (id : Option ℕ)
    → has_visualization (write_visualization v rows) id ≡ has_visualization rows id
unfolding write_visualization
has_visualization-write v rows none = refl
has_visualization-write v [] (some id) = refl
has_visualization-write v (w ∷ rows) (some id) =
    ground (arith, has_visualization-write v rows (some id))

pub has_visualization-snoc :
    (v : Visualization) (rows : List Visualization) (id : Option ℕ)
    → has_visualization rows id ≡ true
    → has_visualization (rows ++ v ∷ []) id ≡ true
has_visualization-snoc v rows none h = refl
has_visualization-snoc v rows (some id) h = any-append (λ w. w.id == id) rows _ ∙ rw h refl

has_visualization-delete :
    (id k : ℕ) (rows : List Visualization)
    → (k == id) ≡ false
    → any (λ v. v.id == k) (keep (λ v. not (v.id == id)) rows) ≡ any (λ v. v.id == k) rows
has_visualization-delete id k [] h = refl
has_visualization-delete id k (v ∷ rows) h = ground (arith, has_visualization-delete id k rows)

stays :
    (id : ℕ) (shown : Option ℕ) (rows : List Visualization)
    → has_visualization rows shown ≡ true
    → is_at id shown ≡ false
    → has_visualization (keep (λ v. not (v.id == id)) rows) shown ≡ true
unfolding is_at
stays id none rows h e = refl
stays id (some k) rows h e = has_visualization-delete id k rows e ∙ h

pub all-delete :
    (id : ℕ) (rows : List Visualization) (widgets : List Widget)
    → all (λ w. has_visualization rows w.visualization_id) widgets ≡ true
    → all
        (λ w. has_visualization (keep (λ v. not (v.id == id)) rows) w.visualization_id)
        (keep (λ w. not (is_at id w.visualization_id)) widgets)
      ≡ true
all-delete id rows [] h = refl
all-delete id rows (w ∷ widgets) h =
    ground (arith, stays id w.visualization_id rows, all-delete id rows widgets)

find_dashboard-there :
    (d : Store) (id org : ℕ) (b : Dashboard)
    → find_dashboard d id org ≡ ok b
    → any (λ c. c.id == b.id) d.dashboards ≡ true
unfolding find_dashboard
find_dashboard-there d id org b h =
    any_of_mem (λ c. c.id == b.id) (mem_of_keep _ d.dashboards (the_one-Mem _ b h)).0
      (beq_refl b.id)

pub dashboard_named-there :
    (p : Principal) (org : ℕ) (d : Store) (id : Option ℕ) (b : Dashboard)
    → dashboard_named p org d id ≡ ok b
    → any (λ c. c.id == b.id) d.dashboards ≡ true
unfolding dashboard_named
dashboard_named-there p org d none b h = cc
dashboard_named-there p org d (some id) b h = find_dashboard-there d id org b h

pub find_widget-Mem :
    (d : Store) (id org : ℕ) (w : Widget) → find_widget d id org ≡ ok w → Memᴰ w d.widgets
unfolding find_widget
find_widget-Mem d id org w h = (mem_of_keep _ d.widgets (the_one-Mem _ w h)).0

pub find_visualization-Mem :
    (d : Store) (id org : ℕ) (v : Visualization)
    → find_visualization d id org ≡ ok v
    → Memᴰ v d.visualizations
unfolding find_visualization
find_visualization-Mem d id org v h = (mem_of_keep _ d.visualizations (the_one-Mem _ v h)).0

pub or_404-find_visualization :
    (d : Store) (id org : ℕ) (v : Visualization)
    → or_404 (find_visualization d id org) ≡ ok v
    → find_visualization d id org ≡ ok v
unfolding find_visualization
or_404-find_visualization d id org v h = or_404-the_one _ v h

pub chosen_visualization-there :
    (p : Principal) (org : ℕ) (d : Store) (given shown : Option ℕ)
    → chosen_visualization p org d given ≡ ok shown
    → has_visualization d.visualizations shown ≡ true
unfolding chosen_visualization
chosen_visualization-there p org d none shown h =
    subst (λ s. has_visualization d.visualizations s ≡ true) (ok_inj h) refl
chosen_visualization-there p org d (some id) shown h =
    let (v, found, h1) = >>=-eq-ok (find_visualization d id org) _ h in
    let (q, _, h2) = >>=-eq-ok (query_rel d v) _ h1 in
    let (_, h3) = >>-eq-ok (require_access d.groups (guarded_query d q) p true) _ h2 in
    subst (λ s. has_visualization d.visualizations s ≡ true) (ok_inj h3)
      (any_of_mem (λ w. w.id == v.id) (find_visualization-Mem d id org v found) (beq_refl v.id))
