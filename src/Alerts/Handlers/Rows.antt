-- ===== src/Alerts/Handlers/Rows.antt =====
-- Rows of alerts and subscriptions, as redash/handlers/alerts.py writes them.
use mathlib.Core.List.{Memᴰ}
use dingolytics_backend.Base.{
  ℕ, Bool, true, false, not, List, [], ◌∷◌, keep, any, all, ◌==◌, nat_eq, ◌≡◌, refl, sym, subst,
  ◌∙◌, arith, mem_of_keep, eq_of_beq, all_at, all_at,
}
use dingolytics_backend.Base.Filters.{all_mono}
use dingolytics_backend.Base.Result.{ok}
use dingolytics_backend.Grants.Handlers.{or_404}
use dingolytics_backend.Store.{Store}
use dingolytics_backend.Store.Lookup.{the_one-Mem, or_404-the_one}
use dingolytics_backend.Alerts.Handlers.{
  AlertEntry, AlertSubscription, Site, Field, options_field, name_field, query_id_field,
  rearm_field, dropped, set_field, update_model, find_alert, write_alert, has_query,
}

abbrev pub has_alert : List AlertEntry → ℕ → Bool
has_alert alerts id = any (λ a. a.id == id) alerts

-- Every subscription names an alert of the table, and every alert a query.
pub record IsLinked (site : Site) : Type 0 where
  pub alerts_there : all (λ s. has_alert site.alerts s.alert_id) site.subscriptions ≡ true
  pub queries_there : all (λ a. has_query site.store a.query_id) site.alerts ≡ true

update_model-id : (a : AlertEntry) (fields : List Field) → (update_model a fields).id ≡ a.id
unfolding update_model
update_model-id a [] = refl
update_model-id a (options_field x ∷ fields) =
    update_model-id (set_field a (options_field x)) fields
update_model-id a (name_field x ∷ fields) = update_model-id (set_field a (name_field x)) fields
update_model-id a (query_id_field x ∷ fields) =
    update_model-id (set_field a (query_id_field x)) fields
update_model-id a (rearm_field x ∷ fields) = update_model-id (set_field a (rearm_field x)) fields
update_model-id a (dropped x ∷ fields) = update_model-id (set_field a (dropped x)) fields

has_alert-write :
    (a : AlertEntry) (alerts : List AlertEntry) (k : ℕ)
    → has_alert (write_alert a alerts) k ≡ has_alert alerts k
unfolding write_alert
has_alert-write a [] k = refl
has_alert-write a (b ∷ alerts) k = ground (arith, has_alert-write a alerts k)

all_queries-write :
    (d : Store) (a : AlertEntry) (alerts : List AlertEntry)
    → has_query d a.query_id ≡ true
    → all (λ b. has_query d b.query_id) alerts ≡ true
    → all (λ b. has_query d b.query_id) (write_alert a alerts) ≡ true
unfolding write_alert
all_queries-write d a [] h e = refl
all_queries-write d a (b ∷ alerts) h e = ground (arith, all_queries-write d a alerts h)

-- A write keeps the links, if the written row names a query of the table.
pub write_alert-IsLinked :
    (site : Site) (d : Store) (a : AlertEntry)
    → d.queries ≡ site.store.queries
    → has_query site.store a.query_id ≡ true
    → IsLinked site
    → IsLinked (record site { store = d; alerts = write_alert a site.alerts })
unfolding has_query
write_alert-IsLinked site d a same there l = record {
  alerts_there =
      all_mono (λ s. has_alert site.alerts s.alert_id)
        (λ s. has_alert (write_alert a site.alerts) s.alert_id)
        (λ s h. has_alert-write a site.alerts s.alert_id ∙ h) site.subscriptions l.alerts_there;
  queries_there =
      subst
        (λ queries.
          all (λ b. any (λ q. q.id == b.query_id) queries) (write_alert a site.alerts) ≡ true)
        (sym same) (all_queries-write site.store a site.alerts there l.queries_there);
}

pub find_alert-Mem :
    (site : Site) (id org : ℕ) (a : AlertEntry)
    → find_alert site id org ≡ ok a
    → Memᴰ a site.alerts × (a.id ≡ id)
unfolding find_alert
find_alert-Mem site id org a h =
    let (m, e) = mem_of_keep _ site.alerts (the_one-Mem _ a h) in
    (m, eq_of_beq a.id id (ground arith))

pub or_404-find_alert :
    (site : Site) (id org : ℕ) (a : AlertEntry)
    → or_404 (find_alert site id org) ≡ ok a
    → find_alert site id org ≡ ok a
unfolding find_alert
or_404-find_alert site id org a h = or_404-the_one _ a h

pub find_alert-has_query :
    (site : Site) (id org : ℕ) (a : AlertEntry)
    → IsLinked site
    → find_alert site id org ≡ ok a
    → has_query site.store a.query_id ≡ true
find_alert-has_query site id org a l h =
    all_at (λ b. has_query site.store b.query_id) (find_alert-Mem site id org a h).0 l.queries_there

has_alert-delete :
    (k id : ℕ) (alerts : List AlertEntry)
    → (k == id) ≡ false
    → has_alert (keep (λ b. not (b.id == id)) alerts) k ≡ has_alert alerts k
has_alert-delete k id [] ne = refl
has_alert-delete k id (b ∷ alerts) ne = ground (arith, has_alert-delete k id alerts)

pub all-delete :
    (alerts : List AlertEntry) (id : ℕ) (subscriptions : List AlertSubscription)
    → all (λ s. has_alert alerts s.alert_id) subscriptions ≡ true
    → all
        (λ s. has_alert (keep (λ b. not (b.id == id)) alerts) s.alert_id)
        (keep (λ s. not (s.alert_id == id)) subscriptions)
      ≡ true
all-delete alerts id [] h = refl
all-delete alerts id (s ∷ subscriptions) h =
    ground (arith, has_alert-delete s.alert_id id alerts, all-delete alerts id subscriptions)
