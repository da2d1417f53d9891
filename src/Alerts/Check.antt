-- ===== src/Alerts/Check.antt =====
-- dingolytics/tasks/check_alerts_for_query.py: the task that moves the alerts of a query to their new
-- states and notifies the subscriptions. Instants are microseconds, so `rearm` seconds are scaled.
use dingolytics_backend.Base.{
  ℕ, ◌+◌, ◌*◌, Bool, true, false, not, ◌&&◌, ◌||◌, Option, none, some, List, [], ◌∷◌, ◌++◌, ltb,
  map, if◌then◌else◌, String,
}
use dingolytics_backend.Base.Dict.{Dict}
use dingolytics_backend.Base.Result.{Exception, Result, ok, err}
use dingolytics_backend.Alerts.{
  Floats, Value, AlertState, unknown_state, ok_state, triggered_state, Alert, evaluate,
}

unfoldable pub state_eq : AlertState → AlertState → Bool
state_eq unknown_state unknown_state = true
state_eq ok_state ok_state = true
state_eq triggered_state triggered_state = true
state_eq _ _ = false

-- A notification that was attempted: the subscription and the state it was told.
pub record Notification : Type 0 where
  pub alert_id : ℕ
  pub subscription : ℕ
  pub new_state : AlertState

-- What the task has done: the alerts as they are stored, the notifications that it attempted, and
-- the exception that ended it, if one did.
pub record Outcome (F : Floats) : Type 0 where
  pub alerts : List (Alert F)
  pub notified : List Notification
  pub raised : Option Exception

unfoldable pub rearm_passed : Option ℕ → Option ℕ → ℕ → Bool
rearm_passed (some rearm) (some last) now =
    if ltb 0 rearm then ltb (last + rearm * 1_000_000) now else false
rearm_passed _ _ now = false

module _ {F : Floats} where
  unfoldable pub should_notify : Alert F → AlertState → ℕ → Bool
  unfolding state_eq rearm_passed
  should_notify alert new_state now =
      not (state_eq new_state alert.state)
      || (state_eq alert.state triggered_state
          && rearm_passed alert.rearm alert.last_triggered_at now)

  -- An exception of one destination is logged, and the loop goes on.
  unfoldable pub notify_subscriptions : Alert F → AlertState → List Notification
  notify_subscriptions alert new_state =
      map (λ s. record { alert_id = alert.id; subscription = s; new_state = new_state })
        alert.subscriptions

  -- The body of the loop: the two readings of the clock are those of `should_notify` and of the stamp.
  unfoldable pub check_alert :
      Alert F → AlertState → (checked_at stamped_at : ℕ) → Alert F × List Notification
  unfolding should_notify notify_subscriptions
  check_alert alert new_state checked_at stamped_at =
      let stored = record alert { state = new_state; last_triggered_at = some stamped_at } in
      if should_notify alert new_state checked_at
      then if state_eq alert.state unknown_state && state_eq new_state ok_state
        then (stored, [])
        else if alert.options.muted
        then (stored, [])
        else (stored, notify_subscriptions stored new_state)
      else (alert, [])

  prepend : Alert F × List Notification → Outcome F → Outcome F
  prepend (alert, sent) rest = record rest {
    alerts = alert ∷ rest.alerts;
    notified = sent ++ rest.notified;
  }

  unfoldable pub check_next :
      Alert F → List (Alert F) → Result AlertState → ℕ × ℕ → Outcome F → Outcome F
  unfolding check_alert prepend
  check_next alert later (err x) time rest = record {
    alerts = alert ∷ later;
    notified = [];
    raised = some x;
  }
  check_next alert later (ok new_state) time rest =
      prepend (check_alert alert new_state time.0 time.1) rest

  -- The loop over `query.alerts`, with the two readings of the clock for each alert. An exception of
  -- `evaluate` ends it; what was committed stays.
  unfoldable pub check_alerts :
      List (Alert F) → Option (List (Dict String (Value F))) → (clock : ℕ → ℕ × ℕ) → Outcome F
  check_alerts [] rows clock = record { alerts = []; notified = []; raised = none }
  check_alerts (alert ∷ later) rows clock =
      let rest = check_alerts later rows (λ n. clock (n + 1)) in
      check_next alert later (evaluate alert rows) (clock 0) rest
