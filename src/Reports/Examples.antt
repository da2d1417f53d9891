-- ===== src/Reports/Examples.antt =====
-- The queue of a user with three failures of two kinds.
use dingolytics_backend.Base.{true, false, not, List, [], ◌∷◌, keep, ◌==◌, nat_eq, ◌≡◌, refl}
use dingolytics_backend.Base.Result.{ok}
use dingolytics_backend.Base.Text.{text_beq, codes}
use dingolytics_backend.Store.Samples.{ada}
use dingolytics_backend.Execution.{ErrorEntry}
use dingolytics_backend.Reports.{Report, send_failure_report}
use dingolytics_backend.Reports.Counts.{Delivered, send_failure_report_lem}

abbrev failed : ErrorEntry
failed = record { user_id = 7; query_id = 3; message = codes "E"; schedule_failures = 4 }

abbrev queue : List ErrorEntry
queue =
    failed
    ∷ record failed { message = codes "F"; schedule_failures = 3 }
    ∷ record failed { user_id = 8 }
    ∷ failed
    ∷ []

abbrev report : Report
report = record {
  email = "ada@example.org";
  failures =
      record { query_id = 3; message = codes "E"; failure_count = 2; has_notice = true }
      ∷ record { query_id = 3; message = codes "F"; failure_count = 1; has_notice = false }
      ∷ [];
}

reported :
    send_failure_report (ada ∷ []) 5 7 queue ≡ ok (report ∷ [], record failed { user_id = 8 } ∷ [])
unfolding send_failure_report text_beq
reported = refl

send_failure_report_lem_example :
    (record failed { user_id = 8 } ∷ [] ≡ keep (λ e. not (e.user_id == 7)) queue)
    × Delivered (ada ∷ []) 7 (keep (λ e. e.user_id == 7) queue) (report ∷ [])
send_failure_report_lem_example =
    send_failure_report_lem (ada ∷ []) 5 7 queue (report ∷ []) (record failed { user_id = 8 } ∷ [])
      reported
