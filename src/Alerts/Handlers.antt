-- ===== src/Alerts/Handlers.antt =====
-- redash/handlers/alerts.py: the endpoints that create, change, mute and delete alerts and subscribe to them. An exception
-- before the commit leaves the database as it was. The database refuses a reference to a row that is not there.
mod Rows
pub mod Links
pub mod Rules
mod Examples
use dingolytics_backend.Base.{
  ℕ, String, Bool, true, false, not, ◌&&◌, Option, none, some, List, [], ◌∷◌, ◌++◌, keep, any,
  contains, ◌==◌, if◌then◌else◌, nat_eq, string_eq,
}
use dingolytics_backend.Base.Dict.{Dict, put}
use dingolytics_backend.Base.Result.{
  Result, ok, err, abort, attribute_error, no_result_found, other_error, guard, ◌>>=◌, ◌>>◌,
}
use dingolytics_backend.Base.Text.{Text, codes}
use dingolytics_backend.Users.{Principal, user, api_user}
use dingolytics_backend.Access.{
  Guarded, resource, group_ids, require_access, require_permissions, require_admin_or_owner,
}
use dingolytics_backend.Grants.Handlers.{the_one, or_404}
use dingolytics_backend.Store.{Query, Store, log, find_query, guarded_query, groups_of_query, is_at}
use dingolytics_backend.Queries.Update.{owner_of}

-- A row of the table `alerts`, as far as the endpoints look; an option is the text of its JSON.
pub record AlertEntry : Type 0 where
  pub id : ℕ
  pub query_id : ℕ
  pub user_id : ℕ
  pub name : Text
  pub options : Dict String Text
  pub rearm : Option ℕ

pub record AlertSubscription : Type 0 where
  pub id : ℕ
  pub alert_id : ℕ
  pub user_id : ℕ
  pub destination_id : Option ℕ

pub record NotificationDestination : Type 0 where
  pub id : ℕ
  pub org_id : ℕ

pub record Site : Type 0 where
  pub store : Store
  pub alerts : List AlertEntry
  pub subscriptions : List AlertSubscription
  pub destinations : List NotificationDestination

-- The items of a body that `project` keeps, and all others.
pub data Field : Type 0 where
  options_field : Dict String Text → Field
  name_field : Text → Field
  query_id_field : ℕ → Field
  rearm_field : Option ℕ → Field
  dropped : String → Field

unfoldable pub set_field : AlertEntry → Field → AlertEntry
set_field a (options_field o) = record a { options = o }
set_field a (name_field t) = record a { name = t }
set_field a (query_id_field id) = record a { query_id = id }
set_field a (rearm_field r) = record a { rearm = r }
set_field a (dropped key) = a

unfoldable pub update_model : AlertEntry → List Field → AlertEntry
unfolding set_field
update_model a [] = a
update_model a (f ∷ fields) = update_model (set_field a f) fields

-- `Alert.get_by_id_and_org`: the organization is that of the query.
unfoldable pub find_alert : Site → (id org : ℕ) → Result AlertEntry
unfolding the_one
find_alert site id org = the_one (
    keep (λ a. a.id == id && any (λ q. q.id == a.query_id && q.org_id == org) site.store.queries)
      site.alerts)

-- `alert.query_rel`
unfoldable pub query_rel : Store → ℕ → Result Query
unfolding the_one
query_rel d id = the_one (keep (λ q. q.id == id) d.queries)

-- What an access check sees of an alert: the groups of its query.
unfoldable pub guarded_alert : Store → Query → Guarded
unfolding groups_of_query
guarded_alert d q =
    resource (record { api_key = none; dashboard_api_keys = none; groups = groups_of_query d q })

unfoldable pub write_alert : AlertEntry → List AlertEntry → List AlertEntry
write_alert a [] = []
write_alert a (b ∷ alerts) = (if b.id == a.id then a else b) ∷ write_alert a alerts

unfoldable pub has_query : Store → ℕ → Bool
has_query d id = any (λ q. q.id == id) d.queries

-- `require_access(alert, ...)`
unfoldable pub may_view : Site → Principal → AlertEntry → Result (Unit {0})
unfolding query_rel guarded_alert
may_view site p a = query_rel site.store a.query_id >>= λ q.
    require_access site.store.groups (guarded_alert site.store q) p true

-- The unique index of the table; rows without a destination never collide.
unfoldable pub is_subscribed : Site → ℕ → Option ℕ → Bool
unfolding is_at
is_subscribed site alert_id none = false
is_subscribed site alert_id (some id) =
    any (λ s. s.alert_id == alert_id && is_at id s.destination_id) site.subscriptions

-- `NotificationDestination.get_by_id_and_org`, where the body names one.
unfoldable pub find_destination : Site → (org : ℕ) → Option ℕ → Result (Unit {0})
unfolding the_one
find_destination site org none = ok tt
find_destination site org (some id) =
    the_one (keep (λ n. n.id == id && n.org_id == org) site.destinations) >>= λ _. ok tt

module _ (p : Principal) (org : ℕ) where
  -- `AlertResource.get`
  unfoldable pub get_alert : Site → (alert_id : ℕ) → Result (AlertEntry × Site)
  unfolding find_alert may_view
  get_alert site alert_id = do
    a ← or_404 (find_alert site alert_id org)
    may_view site p a
    ok (a, record site { store = log site.store "view" "alert" a.id })

  -- `AlertResource.post`; the response holds the query that the alert then watches.
  unfoldable pub update_alert :
      Site → (alert_id : ℕ) → List Field → Result ((AlertEntry × Query) × Site)
  unfolding find_alert update_model write_alert query_rel
  update_alert site alert_id fields = do
    a ← or_404 (find_alert site alert_id org)
    require_admin_or_owner site.store.groups p a.user_id
    let a' = update_model a fields
    guard (has_query site.store a'.query_id) (other_error "IntegrityError")
    q ← query_rel site.store a'.query_id
    ok (
      (a', q),
      record site {
        store = log site.store "edit" "alert" a'.id;
        alerts = write_alert a' site.alerts;
      },
    )

  -- `AlertResource.delete`; the subscriptions go with the alert.
  unfoldable pub delete_alert : Site → (alert_id : ℕ) → Result Site
  unfolding find_alert
  delete_alert site alert_id = do
    a ← or_404 (find_alert site alert_id org)
    require_admin_or_owner site.store.groups p a.user_id
    ok (record site {
      alerts = keep (λ b. not (b.id == a.id)) site.alerts;
      subscriptions = keep (λ s. not (s.alert_id == a.id)) site.subscriptions;
    })

  -- `AlertMuteResource.post` and `AlertMuteResource.delete`
  unfoldable pub mute_alert : Site → (alert_id : ℕ) → (muted : Bool) → Result Site
  unfolding find_alert write_alert
  mute_alert site alert_id muted = do
    a ← or_404 (find_alert site alert_id org)
    require_admin_or_owner site.store.groups p a.user_id
    let options = put a.options "muted" (if muted then codes "true" else codes "false")
    ok (record site {
      store = log site.store (if muted then "mute" else "unmute") "alert" a.id;
      alerts = write_alert (record a { options = options }) site.alerts;
    })

  -- `AlertListResource.post`
  unfoldable pub create_alert :
      Site
      → (query_id : ℕ) → Text
      → Dict String Text
      → (rearm : Option ℕ) → (new_id : ℕ) → Result (AlertEntry × Site)
  unfolding owner_of
  create_alert site query_id name options rearm new_id = do
    q ← find_query site.store query_id org
    require_access site.store.groups (guarded_query site.store q) p true
    owner ← owner_of p
    let a : AlertEntry = record {
      id = new_id;
      query_id = q.id;
      user_id = owner;
      name = name;
      options = options;
      rearm = rearm;
    }
    ok (
      a,
      record site {
        store = log site.store "create" "alert" new_id;
        alerts = site.alerts ++ a ∷ [];
      },
    )

  -- `AlertListResource.get`: `Alert.all`, for the groups of the caller.
  unfoldable pub list_alerts : Site → Result (List AlertEntry)
  unfolding is_at
  list_alerts site = require_permissions site.store.groups p ("list_alerts" ∷ []) false (
      ok (
        keep
          (λ a.
            any
              (λ q.
                q.id == a.query_id
                && any
                    (λ r.
                      is_at r.data_source_id q.data_source_id && contains (group_ids p) r.group_id)
                    site.store.data_source_groups)
              site.store.queries)
          site.alerts))

  -- `AlertSubscriptionListResource.post`
  unfoldable pub subscribe :
      Site → (alert_id : ℕ) → (destination_id : Option ℕ) → (new_id : ℕ) → Result Site
  unfolding find_alert may_view is_subscribed find_destination owner_of
  subscribe site alert_id destination_id new_id = do
    a ← find_alert site alert_id org
    may_view site p a
    find_destination site org destination_id
    subscriber ← owner_of p
    guard (not (is_subscribed site a.id destination_id)) (other_error "IntegrityError")
    let s : AlertSubscription = record {
      id = new_id;
      alert_id = a.id;
      user_id = subscriber;
      destination_id = destination_id;
    }
    ok (record site {
      store = log site.store "subscribe" "alert" alert_id;
      subscriptions = site.subscriptions ++ s ∷ [];
    })

  -- `AlertSubscriptionResource.delete`: the row is looked up by its id alone.
  unfoldable pub unsubscribe : Site → (alert_id subscriber_id : ℕ) → Result Site
  unfolding the_one
  unsubscribe site alert_id subscriber_id = do
    s ← or_404 (the_one (keep (λ s. s.id == subscriber_id) site.subscriptions))
    require_admin_or_owner site.store.groups p s.user_id
    ok (record site {
      store = log site.store "unsubscribe" "alert" alert_id;
      subscriptions = keep (λ t. not (t.id == s.id)) site.subscriptions;
    })
