-- ===== src/Schedule/Examples.antt =====
-- A query that runs every hour and has failed once.
use dingolytics_backend.Base.{ℕ, ◌+◌, true, none, ◌≡◌, refl}
use dingolytics_backend.Base.Result.{ok}
use dingolytics_backend.Schedule.{next_iteration, delayed, should_schedule_next}

abbrev start : ℕ
start = 1_000_000_000_000_000

abbrev soon : ℕ
soon = start + 4_000_000_000

soon_due : should_schedule_next start soon 3600 none none 1 ≡ ok true
unfolding should_schedule_next next_iteration delayed
soon_due = refl
