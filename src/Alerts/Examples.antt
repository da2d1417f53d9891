-- ===== src/Alerts/Examples.antt =====
-- The alert task at numbers, with natural numbers in the place of floats.
use dingolytics_backend.Base.{
  ℕ, ◌+◌, String, false, not, ◌&&◌, none, some, [], ◌∷◌, ◌≡◌, refl, ltb, leb, ◌==◌, if◌then◌else◌,
  nat_eq, string_eq,
}
use dingolytics_backend.Base.Dict.{Dict}
use dingolytics_backend.Base.Result.{ok}
use dingolytics_backend.Alerts.{
  Floats, Value, null, number, text, ok_state, triggered_state, Alert, operators, float,
  compare_floats, state_of, next_state, evaluate,
}
use dingolytics_backend.Alerts.Check.{
  rearm_passed, notify_subscriptions, check_alert, check_next, check_alerts,
}
use dingolytics_backend.Alerts.Rules.{
  is_news, IsSettled, ReadsAs, check_alert_notifies, check_alerts-IsSettled,
}

abbrev floats : Floats
floats = record {
  Float = ℕ;
  float_of_text = λ t. if t == "7" then some 7 else none;
  float_of_bool = λ b. if b then 1 else 0;
  float_lt = ltb;
  float_le = leb;
  float_eq = λ x y. x == y;
}

abbrev load : Alert floats
load = record {
  id = 1;
  options = record { column = some "load"; op = some ">"; value = some (number 5); muted = false };
  state = ok_state;
  last_triggered_at = none;
  rearm = some 60;
  subscriptions = 10 ∷ 11 ∷ [];
}

abbrev load_triggered : Alert floats
load_triggered = record load { state = triggered_state; last_triggered_at = some 100 }

abbrev high : Dict String (Value floats)
high = ("load", number 9) ∷ []

abbrev absent : Dict String (Value floats)
absent = ("load", null) ∷ []

abbrev clock : ℕ → ℕ × ℕ
clock n = (100 + n, 101 + n)

check_alert_notifies_example : (check_alert load triggered_state 100 101).1 ≡ (
    if not load.options.muted
      && is_news load.state triggered_state (rearm_passed load.rearm load.last_triggered_at 100)
    then notify_subscriptions load triggered_state
    else [])
check_alert_notifies_example = check_alert_notifies load triggered_state 100 101

load_checked : (check_alerts (load ∷ []) (some (high ∷ [])) clock).raised ≡ none
unfolding check_alerts check_next evaluate next_state operators
load_checked = refl

check_alerts-IsSettled_example :
    IsSettled (some (high ∷ [])) (check_alerts (load ∷ []) (some (high ∷ [])) clock).alerts
check_alerts-IsSettled_example =
    check_alerts-IsSettled (load ∷ []) (some (high ∷ [])) clock load_checked

load_settled : evaluate load_triggered (some (high ∷ [])) ≡ ok triggered_state
unfolding evaluate next_state operators compare_floats state_of
load_settled = refl

load_quiet : rearm_passed load_triggered.rearm load_triggered.last_triggered_at 100 ≡ false
unfolding rearm_passed
load_quiet = refl

abbrev seven : Value floats
seven = text "7"

seven_reads : ReadsAs seven 7
unfolding float
seven_reads = refl

five_reads : float {F = floats} (number 5) ≡ ok 5
unfolding float
five_reads = refl
