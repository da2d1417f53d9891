-- ===== src/Alerts/Handlers/Examples.antt =====
-- An alert of a small site that its owner turns to a query he may not view.
use dingolytics_backend.Groups.{groups}
use dingolytics_backend.Base.{true, false, none, some, [], ◌∷◌, ◌≡◌, refl}
use dingolytics_backend.Base.Result.{ok}
use dingolytics_backend.Base.Text.{codes}
use dingolytics_backend.Users.{permissions, user}
use dingolytics_backend.Access.{
  group_ids, groups_of, has_access_to_groups, has_access, require_access,
}
use dingolytics_backend.Store.{Query, Store, log, guarded_query}
use dingolytics_backend.Store.Samples.{site as sample, ada, daily, other}
use dingolytics_backend.Alerts.Handlers.{
  AlertEntry, Site, query_id_field, find_alert, query_rel, write_alert, update_alert, subscribe,
  has_query,
}
use dingolytics_backend.Alerts.Handlers.Rows.{IsLinked}
use dingolytics_backend.Alerts.Handlers.Links.{here, step, subscribed, Reaches-IsLinked}
use dingolytics_backend.Alerts.Handlers.Rules.{
  update_alert_discloses, Subscribed, subscribe-Subscribed,
}

-- A query of another organization, on a data source that nobody is linked to.
abbrev foreign : Query
foreign = record daily { id = 6; org_id = 2; data_source_id = some 8 }

abbrev watch : AlertEntry
watch = record { id = 1; query_id = 3; user_id = 7; name = codes "W"; options = []; rearm = none }

abbrev store : Store
store = record sample { queries = daily ∷ other ∷ foreign ∷ [] }

abbrev site : Site
site = record {
  store = store;
  alerts = watch ∷ [];
  subscriptions = [];
  destinations = record { id = 2; org_id = 1 } ∷ [];
}

watched : find_alert site 1 1 ≡ ok watch
unfolding find_alert
watched = refl

there : query_rel store 6 ≡ ok foreign
unfolding query_rel
there = refl

hidden : has_access store.groups (guarded_query store foreign) (user ada) true ≡ false
unfolding has_access guarded_query has_access_to_groups permissions groups_of groups
hidden = refl

update_alert_discloses_example :
    update_alert (user ada) 1 site 1 (query_id_field 6 ∷ [])
    ≡ ok (
      (record watch { query_id = 6 }, foreign),
      record site {
        store = log store "edit" "alert" 1;
        alerts = write_alert (record watch { query_id = 6 }) site.alerts;
      },
    )
update_alert_discloses_example =
    update_alert_discloses site ada 1 1 watch foreign watched refl there

abbrev after : Site
after = record site {
  store = record store {
    events = record { action = "subscribe"; object_type = "alert"; object_id = 1 } ∷ [];
  };
  subscriptions = record { id = 5; alert_id = 1; user_id = 7; destination_id = some 2 } ∷ [];
}

subscribes : subscribe (user ada) 1 site 1 (some 2) 5 ≡ ok after
unfolding subscribe require_access has_access has_access_to_groups permissions groups_of groups
    group_ids log
subscribes = refl

subscribe-Subscribed_example : Subscribed (user ada) 1 site 1 (some 2) 5 after
subscribe-Subscribed_example = subscribe-Subscribed (user ada) 1 site 1 (some 2) 5 after subscribes

site-IsLinked : IsLinked site
unfolding has_query
site-IsLinked = record { alerts_there = refl; queries_there = refl }

Reaches-IsLinked_example : IsLinked after
Reaches-IsLinked_example =
    Reaches-IsLinked (step here (subscribed (user ada) 1 1 (some 2) 5 subscribes)) site-IsLinked
