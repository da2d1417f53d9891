-- ===== src/Reports/Counts.antt =====
-- The counts in the reports of dingolytics/tasks/failure_reports.py.
use mathlib.Core.List.{Memᴰ, reverse}
use dingolytics_backend.Base.{
  ℕ, ◌+◌, true, false, List, [], ◌∷◌, map, length, ◌==◌, if◌then◌else◌, ◌≡◌, refl, sym, subst, ◌∙◌,
  arith, Bool-cases, inl, inr, eq_of_beq, beq_refl, all, all_of, Bool, keep, not, ap, nat_eq,
  mem_of_keep,
}
use dingolytics_backend.Base.Dict.{Dict, put, put_all, has_key, get-put, IsDict}
use dingolytics_backend.Base.Result.{Result, ok, ok_inj, >>=-eq-ok}
use dingolytics_backend.Users.{User}
use dingolytics_backend.Grants.Handlers.{the_one}
use dingolytics_backend.Store.Lookup.{the_one-Mem}
use dingolytics_backend.Execution.{ErrorEntry}
use dingolytics_backend.Runner.Statements.{length-reverse}
use dingolytics_backend.Reports.{
  Report, send_failure_report, key_beq_iff, Key, key_eq, key_of, Failure, occurrences,
  unique_errors, failures_of, failures,
}

abbrev pub total : List Failure → ℕ
total [] = 0
total (f ∷ failures) = f.failure_count + total failures

-- How often the keys of a dictionary occur, all together.
abbrev count_keys : List ErrorEntry → Dict Key ErrorEntry → ℕ
count_keys errors [] = 0
count_keys errors ((k, e) ∷ d) = occurrences errors k + count_keys errors d

-- How often one key is a key of the dictionary.
abbrev times : Key → Dict Key ErrorEntry → ℕ
times k [] = 0
times k ((j, e) ∷ d) = (if k == j then 1 else 0) + times k d

count_keys-nil : (d : Dict Key ErrorEntry) → count_keys [] d ≡ 0
unfolding occurrences
count_keys-nil [] = refl
count_keys-nil ((k, e) ∷ d) = omega (arith, count_keys-nil d)

occurrences-cons :
    (e : ErrorEntry) (errors : List ErrorEntry) (k : Key)
    → occurrences (e ∷ errors) k ≡ (if key_of e == k then 1 else 0) + occurrences errors k
unfolding occurrences
occurrences-cons e errors k = ground arith

count_keys-cons :
    (e : ErrorEntry) (errors : List ErrorEntry) (d : Dict Key ErrorEntry)
    → count_keys (e ∷ errors) d ≡ times (key_of e) d + count_keys errors d
count_keys-cons e errors [] = refl
count_keys-cons e errors ((k, x) ∷ d) =
    omega (arith, occurrences-cons e errors k, count_keys-cons e errors d)

times_absent : (k : Key) (d : Dict Key ErrorEntry) → has_key d k ≡ false → times k d ≡ 0
times_absent k [] h = refl
times_absent k ((j, e) ∷ d) h = ground (arith, key_beq_iff j k, key_beq_iff k j, times_absent k d)

times_once : (k : Key) (d : Dict Key ErrorEntry) → IsDict d → has_key d k ≡ true → times k d ≡ 1
times_once k [] h p = cc
times_once k ((j, e) ∷ d) h p = elim (Bool-cases (j == k)) [
  | inl same ↦ ground (
    arith,
    key_beq_iff j k,
    key_beq_iff k j,
    times_absent k d (subst (λ i. has_key d i ≡ false) (eq_of_beq j k same) h.0),
  )
  | inr other ↦ ground (arith, key_beq_iff j k, key_beq_iff k j, times_once k d h.1)
]

count_keys-all :
    (errors : List ErrorEntry) (d : Dict Key ErrorEntry)
    → IsDict d
    → all (λ e. has_key d (key_of e)) errors ≡ true
    → count_keys errors d ≡ length errors
count_keys-all [] d h a = count_keys-nil d
count_keys-all (e ∷ errors) d h a = omega (
  arith,
  count_keys-cons e errors d,
  times_once (key_of e) d h (ground arith),
  count_keys-all errors d h (ground arith),
)

put-IsDict : (d : Dict Key ErrorEntry) (k : Key) (e : ErrorEntry) → IsDict d → IsDict (put d k e)
put-IsDict [] k e h = (refl, tt)
put-IsDict ((j, w) ∷ d) k e h = elim (Bool-cases (j == k)) [
  | inl same ↦ rw same h
  | inr other ↦
      rw other (
        ground (arith, get-put d k j e, key_beq_iff j k, key_beq_iff k j, h.0),
        put-IsDict d k e h.1,
      )
]

items : List ErrorEntry → Dict Key ErrorEntry
items errors = map (λ e. (key_of e, e)) errors

put_all-IsDict :
    (acc : Dict Key ErrorEntry) (errors : List ErrorEntry)
    → IsDict acc
    → IsDict (put_all acc (items errors))
unfolding items
put_all-IsDict acc [] h = h
put_all-IsDict acc (e ∷ errors) h =
    put_all-IsDict (put acc (key_of e) e) errors (put-IsDict acc (key_of e) e h)

put_all-kept :
    (acc : Dict Key ErrorEntry) (errors : List ErrorEntry) (k : Key)
    → has_key acc k ≡ true
    → has_key (put_all acc (items errors)) k ≡ true
unfolding items
put_all-kept acc [] k h = h
put_all-kept acc (e ∷ errors) k h =
    put_all-kept (put acc (key_of e) e) errors k (ground (arith, get-put acc (key_of e) k e))

put_all-has_key :
    (acc : Dict Key ErrorEntry) (errors : List ErrorEntry)
    → (x : ErrorEntry) → Memᴰ x errors
    → has_key (put_all acc (items errors)) (key_of x) ≡ true
unfolding items
put_all-has_key acc (e ∷ errors) x (Memᴰ.head same) =
    put_all-kept (put acc (key_of e) e) errors (key_of x) (
      subst (λ y. has_key (put acc (key_of e) e) (key_of y) ≡ true) (sym same)
        (ground (arith, get-put acc (key_of e) (key_of e) e, beq_refl (key_of e))))
put_all-has_key acc (e ∷ errors) x (Memᴰ.tail m) = put_all-has_key (put acc (key_of e) e) errors x m
put_all-has_key acc [] x m = elim m [ ]

total-failures_of :
    (max : ℕ) (errors : List ErrorEntry) (d : Dict Key ErrorEntry)
    → total (failures_of max errors d) ≡ count_keys errors d
unfolding failures_of
total-failures_of max errors [] = refl
total-failures_of max errors ((k, e) ∷ d) = omega (arith, total-failures_of max errors d)

total-failures : (max : ℕ) (errors : List ErrorEntry) → total (failures max errors) ≡ length errors
unfolding failures unique_errors items
total-failures max errors =
    total-failures_of max errors (unique_errors errors)
    ∙ count_keys-all errors (unique_errors errors) (put_all-IsDict [] errors tt)
        (all_of (λ e. has_key (unique_errors errors) (key_of e)) errors (put_all-has_key [] errors))

none_kept :
    (p : ErrorEntry → Bool) (xs : List ErrorEntry) → keep p xs ≡ [] → keep (λ x. not (p x)) xs ≡ xs
none_kept p [] h = refl
none_kept p (x ∷ xs) h = elim (Bool-cases (p x)) [
  | inl e ↦ absurd (cc (rw e at h))
  | inr e ↦ rw e (ap (λ l. x ∷ l) (none_kept p xs (rw e at h)))
]

-- No report for an empty queue, and one report to the user's address for any other, whose counts add up to its length.
pub data Delivered (users : List User) (id : ℕ) : List ErrorEntry → List Report → Type 0 where
  unsent : Delivered users id [] []
  sent_once :
      {e : ErrorEntry} {own : List ErrorEntry} {u : User} {r : Report}
      → Memᴰ u users
      → u.id ≡ id
      → r.email ≡ u.email
      → total r.failures ≡ length (e ∷ own)
      → Delivered users id (e ∷ own) (r ∷ [])

sent_for :
    (users : List User) (u : User) (max id : ℕ) (errors own : List ErrorEntry)
    → Memᴰ u users × (u.id ≡ id)
    → keep (λ e. e.user_id == id) errors ≡ own
    → (sent : List Report) (left : List ErrorEntry)
    → elim own as (λ _. Result (List Report × List ErrorEntry)) [
      | [] ↦ ok ([], errors)
      | e ∷ rest ↦ ok (
        record { email = u.email; failures = failures max (reverse (e ∷ rest)) } ∷ [],
        keep (λ x. not (x.user_id == id)) errors,
      )
    ]
      ≡ ok (sent, left)
    → (left ≡ keep (λ x. not (x.user_id == id)) errors) × Delivered users id own sent
sent_for users u max id errors [] m e sent left h = (
  ap (λ x. x.1) (sym (ok_inj h)) ∙ sym (none_kept (λ x. x.user_id == id) errors e),
  subst (λ x. Delivered users id [] x.0) (ok_inj h) unsent,
)
sent_for users u max id errors (x ∷ own) m e sent left h = (
  ap (λ y. y.1) (sym (ok_inj h)),
  subst (λ y. Delivered users id (x ∷ own) y.0) (ok_inj h)
      (sent_once m.0 m.1 refl (total-failures max (reverse (x ∷ own)) ∙ length-reverse (x ∷ own))),
)

-- A report to a user empties the user's queue and leaves the queues of all others. If the queue held failures,
-- exactly one report is sent, to the user's address, and it counts every failure once: the counts of its items add up to
-- the length of the queue. An empty queue is not reported.
pub send_failure_report_lem :
    (users : List User) (max id : ℕ) (errors : List ErrorEntry) (sent : List Report)
    (left : List ErrorEntry)
    → send_failure_report users max id errors ≡ ok (sent, left)
    → (left ≡ keep (λ e. not (e.user_id == id)) errors)
      × Delivered users id (keep (λ e. e.user_id == id) errors) sent
unfolding send_failure_report
send_failure_report_lem users max id errors sent left h =
    let (u, found, h1) = >>=-eq-ok (the_one (keep (λ u. u.id == id) users)) _ h in
    let (m, same) = mem_of_keep (λ u. u.id == id) users (the_one-Mem _ u found) in
    sent_for users u max id errors (keep (λ e. e.user_id == id) errors) (m, eq_of_beq u.id id same)
      refl sent left h1
