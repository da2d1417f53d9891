-- ===== src/Reports.antt =====
-- dingolytics/tasks/failure_reports.py: the mails that sum up the failures of a user's scheduled queries. The queues of
-- all users are one list, the newest entry first. Rendering the mail is left out.
pub mod Counts
mod Examples
use dingolytics_backend.Base.{
  ℕ, ◌+◌, ◌*◌, String, Bool, true, false, not, ◌&&◌, Option, none, some, List, [], ◌∷◌, ◌++◌, map,
  keep, length, ltb, Eq, ◌==◌, ◌↔◌, ◌≡◌, if◌then◌else◌, nat_eq, string_eq, ap, arith, eq_of_beq,
  beq_refl, refl,
}
use mathlib.Core.List.{reverse}
use dingolytics_backend.Base.Dict.{Dict, put_all}
use dingolytics_backend.Base.Result.{Result, ok, err, ◌>>=◌}
use dingolytics_backend.Base.Text.{Text, text_eq, text_beq_iff}
use dingolytics_backend.Users.{User}
use dingolytics_backend.Grants.Handlers.{the_one}
use dingolytics_backend.Execution.{ErrorEntry}

-- `(e.get("id"), e.get("message"))`
abbrev pub Key : Type 0
Key = ℕ × Text

abbrev pub key_beq : Key → Key → Bool
key_beq (i, s) (j, t) = i == j && s == t

pub key_beq_iff : (k l : Key) → (key_beq k l ≡ true) ↔ (k ≡ l)
key_beq_iff (i, s) (j, t) = (
  λ h. ground (arith, eq_of_beq i j, eq_of_beq s t),
  λ h. ground (arith, h, beq_refl i, beq_refl s),
)

instance abbrev pub key_eq : Eq Key
key_eq = record { beq = key_beq; beq_iff = key_beq_iff }

unfoldable pub key_of : ErrorEntry → Key
key_of e = (e.query_id, e.message)

-- An item of the report.
pub record Failure : Type 0 where
  pub query_id : ℕ
  pub message : Text
  pub failure_count : ℕ
  pub has_notice : Bool

-- `occurrences[k]`
unfoldable pub occurrences : List ErrorEntry → Key → ℕ
unfolding key_of
occurrences errors k = length (keep (λ e. key_of e == k) errors)

-- `unique_errors`: the last error of each key, at the place of the first.
unfoldable pub unique_errors : List ErrorEntry → Dict Key ErrorEntry
unfolding key_of
unique_errors errors = put_all [] (map (λ e. (key_of e, e)) errors)

-- `_comment_for` has a notice: more than three quarters of the failures that are reported.
unfoldable pub has_notice_for : (max_failure_reports : ℕ) → ErrorEntry → Bool
has_notice_for max_failure_reports e = ltb (3 * max_failure_reports) (4 * e.schedule_failures)

failures_of : (max_failure_reports : ℕ) → List ErrorEntry → Dict Key ErrorEntry → List Failure
unfolding occurrences has_notice_for
failures_of max errors [] = []
failures_of max errors ((k, e) ∷ unique) =
    record {
      query_id = e.query_id;
      message = e.message;
      failure_count = occurrences errors k;
      has_notice = has_notice_for max e;
    }
    ∷ failures_of max errors unique

-- The list `failures` of the context.
unfoldable pub failures : (max_failure_reports : ℕ) → List ErrorEntry → List Failure
unfolding failures_of unique_errors
failures max errors = failures_of max errors (unique_errors errors)

pub record Report : Type 0 where
  pub email : String
  pub failures : List Failure

-- `_send_failure_report`: the reports that were sent, and the queues that are left.
unfoldable pub send_failure_report :
    (users : List User)
    → (max_failure_reports : ℕ) → (user_id : ℕ) → List ErrorEntry
    → Result (List Report × List ErrorEntry)
unfolding failures the_one
send_failure_report users max user_id errors = do
  u ← the_one (keep (λ u. u.id == user_id) users)
  elim (keep (λ e. e.user_id == user_id) errors) [
    | [] ↦ ok ([], errors)
    | e ∷ rest ↦ ok (
      record { email = u.email; failures = failures max (reverse (e ∷ rest)) } ∷ [],
      keep (λ x. not (x.user_id == user_id)) errors,
    )
  ]

-- `send_aggregated_failure_reports_task`, with the users in the order in which Redis gives their queues. An exception ends
-- the loop; what was sent is sent.
unfoldable pub send_reports :
    (users : List User)
    → (max_failure_reports : ℕ) → (user_ids : List ℕ) → List ErrorEntry
    → List Report × List ErrorEntry
unfolding send_failure_report
send_reports users max [] errors = ([], errors)
send_reports users max (id ∷ ids) errors = elim (send_failure_report users max id errors) [
  | err x ↦ ([], errors)
  | ok (sent, left) ↦ let (more, left') = send_reports users max ids left in (sent ++ more, left')
]
