-- ===== src/Alerts/Handlers/Links.antt =====
-- References between the rows that the endpoints of redash/handlers/alerts.py write.
use dingolytics_backend.Base.{
  ℕ, Bool, true, not, Option, List, keep, any, ◌==◌, nat_eq, ◌≡◌, refl, ap, subst, ◌∙◌, mem_of_keep,
  any_of_mem, beq_refl, String,
}
use dingolytics_backend.Base.Dict.{Dict}
use dingolytics_backend.Base.Filters.{any-append, all-keep, all-snoc, all_mono}
use dingolytics_backend.Base.Result.{ok, other_error, ok_inj, >>=-eq-ok, >>-eq-ok, guard-eq-ok}
use dingolytics_backend.Base.Text.{Text}
use dingolytics_backend.Users.{Principal}
use dingolytics_backend.Access.{require_access, require_admin_or_owner}
use dingolytics_backend.Grants.Handlers.{or_404, the_one}
use dingolytics_backend.Store.{Query, log, find_query, guarded_query}
use dingolytics_backend.Store.Lookup.{the_one-Mem}
use dingolytics_backend.Queries.Update.{owner_of}
use dingolytics_backend.Alerts.Handlers.{
  AlertEntry, Site, Field, update_model, find_alert, query_rel, has_query, may_view, is_subscribed,
  find_destination, update_alert, delete_alert, mute_alert, create_alert, subscribe, unsubscribe,
}
use dingolytics_backend.Alerts.Handlers.Rows.{
  has_alert, IsLinked, write_alert-IsLinked, find_alert-Mem, or_404-find_alert,
  find_alert-has_query, all-delete,
}

-- One answered request that writes.
pub data Step : Site → Site → Type 0 where
  updated :
      {site site' : Site} (p : Principal) (org id : ℕ) (fields : List Field)
      (out : AlertEntry × Query)
      → update_alert p org site id fields ≡ ok (out, site')
      → Step site site'
  deleted :
      {site site' : Site} (p : Principal) (org id : ℕ)
      → delete_alert p org site id ≡ ok site'
      → Step site site'
  muted :
      {site site' : Site} (p : Principal) (org id : ℕ) (b : Bool)
      → mute_alert p org site id b ≡ ok site'
      → Step site site'
  created :
      {site site' : Site} (p : Principal) (org query_id : ℕ) (name : Text)
      (options : Dict String Text) (rearm : Option ℕ) (new_id : ℕ) (out : AlertEntry)
      → create_alert p org site query_id name options rearm new_id ≡ ok (out, site')
      → Step site site'
  subscribed :
      {site site' : Site} (p : Principal) (org id : ℕ) (destination : Option ℕ) (new_id : ℕ)
      → subscribe p org site id destination new_id ≡ ok site'
      → Step site site'
  unsubscribed :
      {site site' : Site} (p : Principal) (org id subscriber : ℕ)
      → unsubscribe p org site id subscriber ≡ ok site'
      → Step site site'

pub data Reaches : Site → Site → Type 0 where
  here : {site : Site} → Reaches site site
  step : {s t u : Site} → Reaches s t → Step t u → Reaches s u

module _ (p : Principal) (org : ℕ) (site site' : Site) (l : IsLinked site) where
  update_alert-IsLinked :
      (id : ℕ) (fields : List Field) (out : AlertEntry × Query)
      → update_alert p org site id fields ≡ ok (out, site')
      → IsLinked site'
  unfolding update_alert log
  update_alert-IsLinked id fields out h =
      let (a, _, h1) = >>=-eq-ok (or_404 (find_alert site id org)) _ h in
      let (_, h2) = >>-eq-ok (require_admin_or_owner site.store.groups p a.user_id) _ h1 in
      let (there, h3) =
        guard-eq-ok (has_query site.store (update_model a fields).query_id)
          (other_error "IntegrityError") _ h2 in
      let (q, _, h4) = >>=-eq-ok (query_rel site.store (update_model a fields).query_id) _ h3 in
      subst IsLinked (ap (λ x. x.1) (ok_inj h4))
        (write_alert-IsLinked site _ (update_model a fields) refl there l)

  mute_alert-IsLinked : (id : ℕ) (b : Bool) → mute_alert p org site id b ≡ ok site' → IsLinked site'
  unfolding mute_alert log
  mute_alert-IsLinked id b h =
      let (a, found, h1) = >>=-eq-ok (or_404 (find_alert site id org)) _ h in
      let (_, h2) = >>-eq-ok (require_admin_or_owner site.store.groups p a.user_id) _ h1 in
      subst IsLinked (ok_inj h2) (
        write_alert-IsLinked site _ _ refl
          (find_alert-has_query site id org a l (or_404-find_alert site id org a found)) l)

  delete_alert-IsLinked : (id : ℕ) → delete_alert p org site id ≡ ok site' → IsLinked site'
  unfolding delete_alert
  delete_alert-IsLinked id h =
      let (a, _, h1) = >>=-eq-ok (or_404 (find_alert site id org)) _ h in
      let (_, h2) = >>-eq-ok (require_admin_or_owner site.store.groups p a.user_id) _ h1 in
      subst IsLinked (ok_inj h2) (record {
        alerts_there = all-delete site.alerts a.id site.subscriptions l.alerts_there;
        queries_there =
            all-keep (λ b. has_query site.store b.query_id) _ site.alerts l.queries_there;
      })

  create_alert-IsLinked :
      (query_id : ℕ) (name : Text) (options : Dict String Text) (rearm : Option ℕ) (new_id : ℕ)
      (out : AlertEntry)
      → create_alert p org site query_id name options rearm new_id ≡ ok (out, site')
      → IsLinked site'
  unfolding create_alert log find_query has_query
  create_alert-IsLinked query_id name options rearm new_id out h =
      let (q, found, h1) = >>=-eq-ok (find_query site.store query_id org) _ h in
      let (_, h2) =
        >>-eq-ok (require_access site.store.groups (guarded_query site.store q) p true) _ h1 in
      let (owner, _, h3) = >>=-eq-ok (owner_of p) _ h2 in
      let (m, _) = mem_of_keep _ site.store.queries (the_one-Mem _ q found) in
      let there : any (λ r. r.id == q.id) site.store.queries ≡ true =
        any_of_mem (λ r. r.id == q.id) m (beq_refl q.id) in
      subst IsLinked (ap (λ x. x.1) (ok_inj h3)) (record {
        alerts_there =
            all_mono (λ s. has_alert site.alerts s.alert_id) _
              (λ s e. any-append (λ a. a.id == s.alert_id) site.alerts _ ∙ rw e refl)
              site.subscriptions l.alerts_there;
        queries_there =
            all-snoc (λ a. any (λ r. r.id == a.query_id) site.store.queries) site.alerts _
              l.queries_there there;
      })

  subscribe-IsLinked :
      (id : ℕ) (destination : Option ℕ) (new_id : ℕ)
      → subscribe p org site id destination new_id ≡ ok site'
      → IsLinked site'
  unfolding subscribe log has_query
  subscribe-IsLinked id destination new_id h =
      let (a, found, h1) = >>=-eq-ok (find_alert site id org) _ h in
      let (_, h2) = >>-eq-ok (may_view site p a) _ h1 in
      let (_, h3) = >>-eq-ok (find_destination site org destination) _ h2 in
      let (subscriber, _, h4) = >>=-eq-ok (owner_of p) _ h3 in
      let (_, h5) =
        guard-eq-ok (not (is_subscribed site a.id destination)) (other_error "IntegrityError") _
          h4 in
      subst IsLinked (ok_inj h5) (record {
        alerts_there =
            all-snoc (λ s. has_alert site.alerts s.alert_id) site.subscriptions _ l.alerts_there
              (any_of_mem (λ b. b.id == a.id) (find_alert-Mem site id org a found).0
                (beq_refl a.id));
        queries_there = l.queries_there;
      })

  unsubscribe-IsLinked :
      (id subscriber : ℕ) → unsubscribe p org site id subscriber ≡ ok site' → IsLinked site'
  unfolding unsubscribe log has_query
  unsubscribe-IsLinked id subscriber h =
      let (s, _, h1) =
        >>=-eq-ok (or_404 (the_one (keep (λ s. s.id == subscriber) site.subscriptions))) _ h in
      let (_, h2) = >>-eq-ok (require_admin_or_owner site.store.groups p s.user_id) _ h1 in
      subst IsLinked (ok_inj h2) (record {
        alerts_there =
            all-keep (λ s. has_alert site.alerts s.alert_id) _ site.subscriptions l.alerts_there;
        queries_there = l.queries_there;
      })

Step-IsLinked : {site site' : Site} → Step site site' → IsLinked site → IsLinked site'
Step-IsLinked {site} {site'} (updated p org id fields out h) l =
    update_alert-IsLinked p org site site' l id fields out h
Step-IsLinked {site} {site'} (deleted p org id h) l = delete_alert-IsLinked p org site site' l id h
Step-IsLinked {site} {site'} (muted p org id b h) l = mute_alert-IsLinked p org site site' l id b h
Step-IsLinked {site} {site'} (created p org query_id name options rearm new_id out h) l =
    create_alert-IsLinked p org site site' l query_id name options rearm new_id out h
Step-IsLinked {site} {site'} (subscribed p org id destination new_id h) l =
    subscribe-IsLinked p org site site' l id destination new_id h
Step-IsLinked {site} {site'} (unsubscribed p org id subscriber h) l =
    unsubscribe-IsLinked p org site site' l id subscriber h

-- If every subscription names an alert and every alert a query, so they do after any sequence of answered
-- requests that create, change, mute or delete alerts, subscribe to them or unsubscribe.
pub Reaches-IsLinked : {site site' : Site} → Reaches site site' → IsLinked site → IsLinked site'
Reaches-IsLinked here l = l
Reaches-IsLinked (step before s) l = Step-IsLinked s (Reaches-IsLinked before l)
