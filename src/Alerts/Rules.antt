-- ===== src/Alerts/Rules.antt =====
-- The states that alerts reach, and when subscribers hear of it.
use dingolytics_backend.Base.{
  ℕ, ◌+◌, String, Bool, true, false, not, ◌&&◌, Option, none, some, List, [], ◌∷◌, if◌then◌else◌,
  ◌≡◌, ◌≢◌, ◌↔◌, refl, sym, ap, ◌∙◌, inl, inr, Option-cases, arith, string_eq,
}
use dingolytics_backend.Base.Dict.{Dict, get}
use dingolytics_backend.Base.Result.{Result, ok, err, type_error, value_error}
use dingolytics_backend.Alerts.{
  Floats, Value, null, bool, number, text, compound, AlertState, unknown_state, ok_state,
  triggered_state, Alert, evaluate, next_state, number_state, decide_state, after_float, Operand,
  num, str, apply_op, Operator, compare_floats, float, state_of,
}
use dingolytics_backend.Alerts.Check.{
  state_eq, rearm_passed, notify_subscriptions, check_alert, Outcome, check_alerts, check_next,
}

-- What the subscribers should hear of: old state, new state, rearm time passed.
abbrev pub is_news : AlertState → AlertState → Bool → Bool
is_news unknown_state triggered_state rearmed = true
is_news unknown_state _ rearmed = false
is_news ok_state ok_state rearmed = false
is_news ok_state _ rearmed = true
is_news triggered_state triggered_state rearmed = rearmed
is_news triggered_state _ rearmed = true

module _ {F : Floats} where
  -- Whatever it sends, a check leaves the alert in the state that was evaluated.
  check_alert-state :
      (alert : Alert F) (s : AlertState) (c t : ℕ) → (check_alert alert s c t).0.state ≡ s
  unfolding check_alert state_eq
  check_alert-state alert s c t = ground arith

  check_alert-options :
      (alert : Alert F) (s : AlertState) (c t : ℕ)
      → (check_alert alert s c t).0.options ≡ alert.options
  unfolding check_alert
  check_alert-options alert s c t = ground arith

  -- The subscribers of an alert that is not muted are told of every change of state but the one from
  -- unknown to ok, and are told again of a triggered state once the rearm time has passed.
  pub check_alert_notifies :
      (alert : Alert F) (s : AlertState) (c t : ℕ)
      → (check_alert alert s c t).1 ≡ (
          if not alert.options.muted
            && is_news alert.state s (rearm_passed alert.rearm alert.last_triggered_at c)
          then notify_subscriptions alert s
          else [])
  unfolding check_alert state_eq
  check_alert_notifies alert s c t = ground arith

  -- An alert whose stored state is what its query's result says.
  abbrev pub IsSettled : Option (List (Dict String (Value F))) → List (Alert F) → Type 0
  IsSettled rows [] = Unit
  IsSettled rows (alert ∷ alerts) = (evaluate alert rows ≡ ok alert.state) × IsSettled rows alerts

  evaluate_stored :
      (alert : Alert F) (s : AlertState) (l : Option ℕ)
      (rows : Option (List (Dict String (Value F))))
      → evaluate (record alert { state = s; last_triggered_at = l }) rows ≡ evaluate alert rows
  unfolding evaluate
  evaluate_stored alert s l none = refl
  evaluate_stored alert s l (some []) = refl
  evaluate_stored alert s l (some (row ∷ rows)) = refl

  evaluate-check_alert :
      (alert : Alert F) (s : AlertState) (c t : ℕ) (rows : Option (List (Dict String (Value F))))
      → evaluate (check_alert alert s c t).0 rows ≡ evaluate alert rows
  unfolding check_alert
  evaluate-check_alert alert s c t rows = ground (arith, evaluate_stored alert s (some t) rows)

  IsSettled-next :
      (alert : Alert F) (later : List (Alert F)) (rows : Option (List (Dict String (Value F))))
      (r : Result AlertState) (time : ℕ × ℕ) (rest : Outcome F)
      → evaluate alert rows ≡ r
      → (check_next alert later r time rest).raised ≡ none
      → (rest.raised ≡ none → IsSettled rows rest.alerts)
      → IsSettled rows (check_next alert later r time rest).alerts
  unfolding check_next
  IsSettled-next alert later rows (err x) time rest e h ih = cc
  IsSettled-next alert later rows (ok s) time rest e h ih = (
    evaluate-check_alert alert s time.0 time.1 rows
        ∙ e
        ∙ ap ok (sym (check_alert-state alert s time.0 time.1)),
    ih h,
  )

  -- If the task ends without an exception, every alert of the query is stored in the state that the
  -- query's result gives it.
  pub check_alerts-IsSettled :
      (alerts : List (Alert F)) (rows : Option (List (Dict String (Value F)))) (clock : ℕ → ℕ × ℕ)
      → (check_alerts alerts rows clock).raised ≡ none
      → IsSettled rows (check_alerts alerts rows clock).alerts
  unfolding check_alerts
  check_alerts-IsSettled [] rows clock h = tt
  check_alerts-IsSettled (alert ∷ later) rows clock h =
      IsSettled-next alert later rows (evaluate alert rows) (clock 0)
        (check_alerts later rows (λ n. clock (n + 1))) refl h
        (check_alerts-IsSettled later rows (λ n. clock (n + 1)))

  -- No alert is due to be sent again: none is triggered with its rearm time passed.
  abbrev pub IsQuiet : List (Alert F) → (ℕ → ℕ × ℕ) → Type 0
  IsQuiet [] clock = Unit
  IsQuiet (alert ∷ alerts) clock =
      (rearm_passed alert.rearm alert.last_triggered_at (clock 0).0 ≡ false)
      × IsQuiet alerts (λ n. clock (n + 1))

  check_alert_same :
      (alert : Alert F) (c t : ℕ)
      → rearm_passed alert.rearm alert.last_triggered_at c ≡ false
      → check_alert alert alert.state c t ≡ (alert, [])
  unfolding check_alert state_eq
  check_alert_same alert c t h = ground arith

  quiet_next :
      (alert : Alert F) (later : List (Alert F)) (time : ℕ × ℕ) (rest : Outcome F)
      → rearm_passed alert.rearm alert.last_triggered_at time.0 ≡ false
      → rest ≡ record { alerts = later; notified = []; raised = none }
      → check_next alert later (ok alert.state) time rest
        ≡ record { alerts = alert ∷ later; notified = []; raised = none }
  unfolding check_next
  quiet_next alert later time rest h e = rw (e, check_alert_same alert time.0 time.1 h)

  -- A second check over the same result is silent and changes nothing, while no rearm time passes.
  check_alerts_again :
      (alerts : List (Alert F)) (rows : Option (List (Dict String (Value F)))) (clock : ℕ → ℕ × ℕ)
      → IsSettled rows alerts
      → IsQuiet alerts clock
      → check_alerts alerts rows clock ≡ record { alerts = alerts; notified = []; raised = none }
  unfolding check_alerts
  check_alerts_again [] rows clock s q = refl
  check_alerts_again (alert ∷ later) rows clock s q = rw s.0 (
      quiet_next alert later (clock 0) _ q.0
        (check_alerts_again later rows (λ n. clock (n + 1)) s.1 q.1))

  -- The column of the alert holds a null in the first row of the result.
  pub record HasNull (alert : Alert F) (row : Dict String (Value F)) : Type 0 where
    pub column : String
    pub op : String
    pub threshold : Value F
    pub has_column : alert.options.column ≡ some column
    pub has_op : alert.options.op ≡ some op
    pub has_threshold : alert.options.value ≡ some threshold
    pub is_null : get row column ≡ some null

  evaluate_null :
      (alert : Alert F) (row : Dict String (Value F)) (rows : List (Dict String (Value F)))
      → HasNull alert row
      → evaluate alert (some (row ∷ rows)) ≡ err type_error
  unfolding evaluate next_state
  evaluate_null alert row rows h =
      ground (arith, h.has_column, h.has_op, h.has_threshold, h.is_null)

  -- A null in the column of an alert ends the task with TypeError: that alert and all the alerts
  -- behind it are neither moved nor reported, whatever their own columns hold.
  check_alerts_null :
      (alert : Alert F) (later : List (Alert F)) (row : Dict String (Value F))
      (rows : List (Dict String (Value F))) (clock : ℕ → ℕ × ℕ)
      → HasNull alert row
      → check_alerts (alert ∷ later) (some (row ∷ rows)) clock
        ≡ record { alerts = alert ∷ later; notified = []; raised = some type_error }
  unfolding check_alerts check_next
  check_alerts_null alert later row rows clock h = rw (evaluate_null alert row rows h)

  -- A value that `float` reads, and that is no boolean.
  abbrev pub ReadsAs : Value F → F.Float → Type 0
  ReadsAs (bool b) x = ⊥
  ReadsAs v x = float v ≡ ok x

  decide_state-ne-unknown :
      (op : Option Operator) (o : Operand F) → decide_state op o ≢ ok unknown_state
  unfolding decide_state
  decide_state-ne-unknown op o = ground arith

  number_state-unknown_iff :
      (op : Option Operator) (v : F.Float) (t : Value F)
      → (number_state op v t ≡ ok unknown_state) ↔ (float t ≡ err value_error)
  unfolding number_state
  number_state-unknown_iff op v t = (go (float t), λ h. rw h)
    where
      go :
          (r : Result F.Float)
          → after_float (λ y. decide_state {F = F} op (num v y)) r ≡ ok unknown_state
          → r ≡ err value_error
      go (ok y) h = absurd (decide_state-ne-unknown op (num v y) h)
      go (err value_error) h = refl
      go (err x) h = cc

  number_state-ok :
      (op : Operator) (v : F.Float) (t : Value F) (y : F.Float)
      → float t ≡ ok y
      → number_state (some op) v t ≡ ok (state_of (compare_floats F op v y))
  unfolding number_state apply_op
  number_state-ok op v t y h = rw h

  -- A value that `float` reads, and that is no boolean, goes the way of numbers.
  next_state-number_state :
      (op : Option Operator) (v t : Value F) (x : F.Float)
      → ReadsAs v x
      → next_state op v t ≡ number_state op x t
  unfolding next_state float
  next_state-number_state op null t x r = cc
  next_state-number_state op (bool b) t x r = absurd r
  next_state-number_state op (number v) t x r = ground arith
  next_state-number_state op (text s) t x r = elim (Option-cases (F.float_of_text s)) [
    | inl e ↦ cc (rw e at r)
    | inr (y, e) ↦ rw (e, next_state) (ground arith)
  ]
  next_state-number_state op compound t x r = cc

  -- Between numbers the state says whether the comparison holds.
  next_state_numbers :
      (op : Operator) (v t : Value F) (x y : F.Float)
      → ReadsAs v x
      → float t ≡ ok y
      → next_state (some op) v t ≡ ok (state_of (compare_floats F op x y))
  next_state_numbers op v t x y r h =
      next_state-number_state (some op) v t x r ∙ number_state-ok op x t y h

  unknown_reads :
      (op : Option Operator) (v t : Value F)
      → next_state op v t ≡ ok unknown_state
      → (x : F.Float) × ReadsAs v x
  unfolding next_state float
  unknown_reads op null t h = cc
  unknown_reads op (bool true) t h = absurd (decide_state-ne-unknown op _ h)
  unknown_reads op (bool false) t h = absurd (decide_state-ne-unknown op _ h)
  unknown_reads op (number v) t h = (v, refl)
  unknown_reads op (text s) t h = elim (Option-cases (F.float_of_text s)) [
    | inl e ↦ absurd (decide_state-ne-unknown op (str s t) (rw (e, next_state) at h))
    | inr (y, e) ↦ (y, rw e)
  ]
  unknown_reads op compound t h = cc

  -- The state becomes unknown exactly for a numeric value against a text that is no number.
  next_state-unknown_iff :
      (op : Option Operator) (v t : Value F)
      → (next_state op v t ≡ ok unknown_state)
        ↔ (((x : F.Float) × ReadsAs v x) × (float t ≡ err value_error))
  next_state-unknown_iff op v t = (
    λ h.
        let (x, r) = unknown_reads op v t h in
        (
          (x, r),
          (number_state-unknown_iff op x t).0 (sym (next_state-number_state op v t x r) ∙ h),
        ),
    λ (read, h).
        next_state-number_state op v t read.0 read.1 ∙ (number_state-unknown_iff op read.0 t).1 h,
  )
