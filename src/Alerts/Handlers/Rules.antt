-- ===== src/Alerts/Handlers/Rules.antt =====
-- Who may subscribe to an alert, and which query its owner is shown.
use mathlib.Core.List.{Memᴰ}
use dingolytics_backend.Alerts.Handlers.Rows.{find_alert-Mem}
use dingolytics_backend.Base.{
  ℕ, true, false, not, Option, [], ◌∷◌, ◌++◌, ◌==◌, nat_eq, ◌≡◌, refl, sym, ap, arith, any_of_mem,
  List, Bool, any, keep, some, none, subst, eq_of_beq, any_find, mem_keep_of, Option-cases, inl,
  inr, ◌∙◌, ◌&&◌, false, mem_of_keep,
}
use dingolytics_backend.Base.Result.{
  Result, ok, other_error, ok_inj, >>=-eq-ok, >>-eq-ok, guard-eq-ok,
}
use dingolytics_backend.Users.{User, Principal, user}
use dingolytics_backend.Access.{
  has_access, require_access, require_admin_or_owner, is_admin_or_owner, has_permission_or_owner,
}
use dingolytics_backend.Grants.Handlers.{or_404, the_one}
use dingolytics_backend.Store.{Query, Store, log, is_at}
use dingolytics_backend.Store.Lookup.{the_one-Mem, the_one-only}
use dingolytics_backend.Queries.Update.{owner_of}
use dingolytics_backend.Alerts.Handlers.{
  AlertEntry, AlertSubscription, NotificationDestination, Site, query_id_field, update_model,
  find_alert, query_rel, guarded_alert, has_query, may_view, is_subscribed, find_destination,
  write_alert, update_alert, subscribe, api_user,
}

or_404-ok : {A : Type 0} (r : Result A) (a : A) → r ≡ ok a → or_404 r ≡ ok a
unfolding or_404
or_404-ok r a h = rw h refl

query_rel-there : (d : Store) (id : ℕ) (q : Query) → query_rel d id ≡ ok q → has_query d id ≡ true
unfolding query_rel has_query
query_rel-there d id q h =
    let (m, e) = mem_of_keep (λ q. q.id == id) d.queries (the_one-Mem _ q h) in
    any_of_mem (λ q. q.id == id) m e

query_rel-Mem :
    (d : Store) (id : ℕ) (q : Query) → query_rel d id ≡ ok q → Memᴰ q d.queries × (q.id ≡ id)
unfolding query_rel
query_rel-Mem d id q h =
    let (m, e) = mem_of_keep (λ q. q.id == id) d.queries (the_one-Mem _ q h) in
    (m, eq_of_beq q.id id e)

owner_passes :
    (site : Site) (u : User) (a : AlertEntry)
    → a.user_id ≡ u.id
    → require_admin_or_owner site.store.groups (user u) a.user_id ≡ ok tt
unfolding require_admin_or_owner is_admin_or_owner has_permission_or_owner
owner_passes site u a e = ground arith

-- The owner of an alert may turn it to any query of the site, and the response shows that query: neither
-- access to the query nor its organization is asked for.
pub update_alert_discloses :
    (site : Site) (u : User) (org alert_id : ℕ) (a : AlertEntry) (q : Query)
    → find_alert site alert_id org ≡ ok a
    → a.user_id ≡ u.id
    → query_rel site.store q.id ≡ ok q
    → update_alert (user u) org site alert_id (query_id_field q.id ∷ [])
      ≡ ok (
        (record a { query_id = q.id }, q),
        record site {
          store = log site.store "edit" "alert" a.id;
          alerts = write_alert (record a { query_id = q.id }) site.alerts;
        },
      )
unfolding update_alert update_model
update_alert_discloses site u org alert_id a q found owner there = rw (or_404-ok _ a found) (
    rw (owner_passes site u a owner) (rw (query_rel-there site.store q.id q there) (rw there refl)))

-- A row of the organization with the id of a destination, where a destination is named.
pub data IsDestination (site : Site) (org : ℕ) : Option ℕ → Type 0 where
  no_destination : IsDestination site org none
  destination :
      (n : NotificationDestination)
      → Memᴰ n site.destinations
      → n.org_id ≡ org
      → IsDestination site org (some n.id)

find_destination-IsDestination :
    (site : Site) (org : ℕ) (o : Option ℕ)
    → find_destination site org o ≡ ok tt
    → IsDestination site org o
unfolding find_destination
find_destination-IsDestination site org none h = no_destination
find_destination-IsDestination site org (some id) h =
    let (n, found, _) =
      >>=-eq-ok (the_one (keep (λ n. n.id == id && n.org_id == org) site.destinations)) _ h in
    let (m, e) = mem_of_keep _ site.destinations (the_one-Mem _ n found) in
    subst (λ k. IsDestination site org (some k)) (eq_of_beq n.id id (ground arith))
      (destination n m (eq_of_beq n.org_id org (ground arith)))

-- Whether a subscription is the one of an alert to a destination; without a destination it is none.
abbrev pub leads_to : (alert_id : ℕ) → (destination_id : Option ℕ) → AlertSubscription → Bool
leads_to alert_id none s = false
leads_to alert_id (some id) s = elim s.destination_id [
  | none ↦ false
  | some other ↦ s.alert_id == alert_id && other == id
]

any-leads_to :
    (alert_id id : ℕ) (rows : List AlertSubscription)
    → any (λ s. s.alert_id == alert_id && is_at id s.destination_id) rows ≡ false
    → any (leads_to alert_id (some id)) rows ≡ false
unfolding is_at
any-leads_to alert_id id [] h = refl
any-leads_to alert_id id (s ∷ rows) h = elim (Option-cases s.destination_id) [
  | inl e ↦ rw e (any-leads_to alert_id id rows (ground arith))
  | inr (other, e) ↦ rw e (ground (arith, any-leads_to alert_id id rows (ground arith)))
]

no_leads :
    (alert_id : ℕ) (rows : List AlertSubscription) → any (leads_to alert_id none) rows ≡ false
no_leads alert_id [] = refl
no_leads alert_id (s ∷ rows) = no_leads alert_id rows

not_subscribed :
    (site : Site) (alert_id : ℕ) (o : Option ℕ)
    → is_subscribed site alert_id o ≡ false
    → any (leads_to alert_id o) site.subscriptions ≡ false
unfolding is_subscribed
not_subscribed site alert_id none h = no_leads alert_id site.subscriptions
not_subscribed site alert_id (some id) h = any-leads_to alert_id id site.subscriptions h

-- The query of an alert that is found in an organization is of that organization.
query_rel-org :
    (site : Site) (id org : ℕ) (a : AlertEntry) (q : Query)
    → find_alert site id org ≡ ok a
    → query_rel site.store a.query_id ≡ ok q
    → q.org_id ≡ org
unfolding find_alert query_rel
query_rel-org site id org a q h there =
    let (m, e) = mem_of_keep _ site.alerts (the_one-Mem _ a h) in
    let (x, n, at) =
      any_find (λ q. q.id == a.query_id && q.org_id == org) site.store.queries (ground arith) in
    let kept = mem_keep_of (λ q. q.id == a.query_id) n (ground arith) in
    ap (λ y. y.org_id) (sym (the_one-only _ q x there kept)) ∙ eq_of_beq x.org_id org (ground arith)

owner_of-user :
    (p : Principal) (id : ℕ) → owner_of p ≡ ok id → (u : User) × (p ≡ user u) × (id ≡ u.id)
unfolding owner_of
owner_of-user (user u) id h = (u, refl, sym (ok_inj h))
owner_of-user (api_user a) id h = cc

-- What an answered subscription has checked, and the row that it adds.
pub record Subscribed (p : Principal) (org : ℕ) (site : Site) (alert_id : ℕ)
    (destination_id : Option ℕ) (new_id : ℕ) (site' : Site) : Type 0 where
  pub alert : AlertEntry
  pub found : Memᴰ alert site.alerts
  pub is_it : alert.id ≡ alert_id
  pub watched : Query
  pub queried : Memᴰ watched site.store.queries
  pub watches : watched.id ≡ alert.query_id
  pub of_org : watched.org_id ≡ org
  pub access : has_access site.store.groups (guarded_alert site.store watched) p true ≡ true
  pub reachable : IsDestination site org destination_id
  pub caller : User
  pub is_caller : p ≡ user caller
  pub first : any (leads_to alert_id destination_id) site.subscriptions ≡ false
  pub added :
      site'.subscriptions
      ≡ site.subscriptions
        ++ record {
          id = new_id;
          alert_id = alert_id;
          user_id = caller.id;
          destination_id = destination_id;
        }
          ∷ []
  pub alerts_kept : site'.alerts ≡ site.alerts

-- A subscription is added for the caller and for nobody else, to an alert of the table whose query is of the organization and may be
-- viewed by the caller. A destination that is named is a row of the organization, and no subscription of the alert leads to it yet.
-- The alerts stay as they were.
pub subscribe-Subscribed :
    (p : Principal) (org : ℕ) (site : Site) (alert_id : ℕ) (destination_id : Option ℕ) (new_id : ℕ)
    (site' : Site)
    → subscribe p org site alert_id destination_id new_id ≡ ok site'
    → Subscribed p org site alert_id destination_id new_id site'
unfolding subscribe may_view require_access
subscribe-Subscribed p org site alert_id destination_id new_id site' h =
    let (a, found, h1) = >>=-eq-ok (find_alert site alert_id org) _ h in
    let (viewed, h2) = >>-eq-ok (may_view site p a) _ h1 in
    let (q, watches, allowed) = >>=-eq-ok (query_rel site.store a.query_id) _ viewed in
    let (reachable, h3) = >>-eq-ok (find_destination site org destination_id) _ h2 in
    let (subscriber, caller, h4) = >>=-eq-ok (owner_of p) _ h3 in
    let (first, h5) =
      guard-eq-ok (not (is_subscribed site a.id destination_id)) (other_error "IntegrityError") _
        h4 in
    let (u, is_user, is_id) = owner_of-user p subscriber caller in
    let (m, is_it) = find_alert-Mem site alert_id org a found in
    let (n, same) = query_rel-Mem site.store a.query_id q watches in
    record {
      alert = a;
      found = m;
      is_it = is_it;
      watched = q;
      queried = n;
      watches = same;
      of_org = query_rel-org site alert_id org a q found watches;
      access = ground arith;
      reachable = find_destination-IsDestination site org destination_id reachable;
      caller = u;
      is_caller = is_user;
      first =
          subst (λ k. any (leads_to k destination_id) site.subscriptions ≡ false) is_it
            (not_subscribed site a.id destination_id (ground arith));
      added =
          ap (λ x. x.subscriptions) (sym (ok_inj h5))
          ∙ ap
              (λ (x : ℕ × ℕ).
                site.subscriptions
                ++ record {
                  id = new_id;
                  alert_id = x.0;
                  user_id = x.1;
                  destination_id = destination_id;
                }
                  ∷ [])
              (ap (λ k. (k, subscriber)) is_it ∙ ap (λ k. (alert_id, k)) is_id);
      alerts_kept = ap (λ x. x.alerts) (sym (ok_inj h5));
    }
