-- ===== src/Schedule.antt =====
-- redash/utils/schedule.py, `should_schedule_next`: whether a scheduled query is due. Instants are
-- microseconds since the epoch in UTC, from the second week on; `interval` is whole seconds, and `time` is
-- the hour and the minute that its text reads as.
pub mod Due
mod Examples
use dingolytics_backend.Base.{
  ℕ, suc, ◌+◌, ◌-◌, ◌*◌, ◌/◌, ◌%◌, ◌^◌, String, Bool, true, false, ◌&&◌, Option, none, some, List,
  [], ◌∷◌, ltb, leb, ◌==◌, if◌then◌else◌, string_eq, or_else,
}
use dingolytics_backend.Base.Result.{Result, ok, err, value_error, other_error, guard, ◌>>=◌, ◌>>◌}

abbrev pub minute : ℕ
minute = 60_000_000

abbrev pub day : ℕ
day = 86_400_000_000

-- The end of the last year that a datetime can hold, 9999.
abbrev pub end_of_time : ℕ
end_of_time = 253_402_300_800_000_000

abbrev day_name : List String
day_name = "Monday" ∷ "Tuesday" ∷ "Wednesday" ∷ "Thursday" ∷ "Friday" ∷ "Saturday" ∷ "Sunday" ∷ []

-- `list.index`
index : List String → String → Result ℕ
index [] name = err value_error
index (x ∷ xs) name =
    let rest = index xs name >>= λ n. ok (suc n) in if x == name then ok 0 else rest

-- `weekday()`; the epoch was a Thursday.
weekday : ℕ → ℕ
weekday t = (t / day + 3) % 7

-- `t.replace(hour=hour, minute=minute)`: the day, the seconds and what is below them stay.
replace : ℕ → ℕ × ℕ → ℕ
replace t (hour, minutes) = t / day * day + (hour * 60 + minutes) * minute + t % minute

-- The days between the weekday of the previous iteration and the one that is asked for, as a pair to add
-- and to take away.
days_to_add : ℕ → Option String → Result (ℕ × ℕ)
unfolding index weekday
days_to_add normalized none = ok (0, 0)
days_to_add normalized (some day_of_week) = do
  n ← index day_name day_of_week
  ok (n, weekday normalized)

-- The next iteration, before failures push it back.
unfoldable pub next_iteration :
    (previous : ℕ) → (interval : ℕ) → Option (ℕ × ℕ) → (day_of_week : Option String) → Result ℕ
unfolding replace days_to_add
next_iteration previous interval none day_of_week = ok (previous + interval * 1_000_000)
next_iteration previous interval (some time) day_of_week = do
  guard (ltb time.0 24 && ltb time.1 60) value_error
  let normalized = replace previous time
  let start = if ltb previous normalized then normalized - day else previous
  days ← days_to_add normalized day_of_week
  ok (replace (start + interval * 1_000_000 + days.0 * day - days.1 * day) time)

-- `if failures:` the delay in minutes doubles with each failure.
unfoldable pub delayed : ℕ → ℕ → ℕ
delayed next failures = if ltb 0 failures then next + 2 ^ failures * minute else next

-- A delay beyond the last year is an OverflowError, and the answer is False.
unfoldable pub should_schedule_next :
    (previous now interval : ℕ)
    → Option (ℕ × ℕ)
    → (day_of_week : Option String) → (failures : ℕ) → Result Bool
unfolding next_iteration delayed
should_schedule_next previous now interval time day_of_week failures = do
  next ← next_iteration previous interval time day_of_week
  ok (
      if ltb 0 failures && leb end_of_time (delayed next failures)
      then false
      else ltb (delayed next failures) now)
