-- ===== src/Schedule/Due.antt =====
-- When a scheduled query is due.
use dingolytics_backend.Base.{ℕ, ◌≤◌, String, true, Option, ◌≡◌, arith}
use dingolytics_backend.Base.Result.{ok, >>=-eq-ok}
use dingolytics_backend.Schedule.{next_iteration, delayed, should_schedule_next}

module _ (previous now later interval : ℕ) (time : Option (ℕ × ℕ)) (day_of_week : Option String)
    (failures : ℕ) where
  -- A query that is due stays due until it is run: it is due at every later instant.
  should_schedule_next_later :
      now ≤ later
      → should_schedule_next previous now interval time day_of_week failures ≡ ok true
      → should_schedule_next previous later interval time day_of_week failures ≡ ok true
  unfolding should_schedule_next
  should_schedule_next_later h due =
      let (next, found, is_due) =
        >>=-eq-ok (next_iteration previous interval time day_of_week) _ due in
      ground (arith, found, is_due)

  -- A query that has failed is due only where it would be without its failures.
  should_schedule_next_failures :
      should_schedule_next previous now interval time day_of_week failures ≡ ok true
      → should_schedule_next previous now interval time day_of_week 0 ≡ ok true
  unfolding should_schedule_next delayed
  should_schedule_next_failures due =
      let (next, found, is_due) =
        >>=-eq-ok (next_iteration previous interval time day_of_week) _ due in
      ground (arith, found, is_due)
