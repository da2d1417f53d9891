-- ===== src/Queries/Due.antt =====
-- When a schedule is due: what the body of the `try` in `outdated_queries` decides, written out.
use dingolytics_backend.Base.{
  ℕ, String, true, false, not, Option, none, some, List, leb, or_else, ◌⊎◌, ◌≡◌, refl, sym, ap, ◌∙◌,
  arith, Bool-cases, inl, inr,
}
use dingolytics_backend.Base.Result.{ok, type_error, from_option, ok_inj, >>=-eq-ok}
use dingolytics_backend.Schedule.{should_schedule_next}
use dingolytics_backend.Execution.{QueryResult}
use dingolytics_backend.Store.{Entry, missing, null, empty, malformed, value, QuerySchedule, Query}
use dingolytics_backend.Queries.{read, read_until, is_past, last_run, is_due_now, is_due}

-- An entry that can be read: a null, or a value.
abbrev pub entry_of {κ} : {A : Type κ} → Option A → Entry A
entry_of none = null
entry_of (some a) = value a

read-entry :
    {A : Type 0} (key : String) (e : Entry A) (o : Option A) → read key e ≡ ok o → e ≡ entry_of o
unfolding read
read-entry key missing o h = cc
read-entry key null o h = ap entry_of (ok_inj h)
read-entry key empty o h = cc
read-entry key malformed o h = cc
read-entry key (value a) o h = ap entry_of (ok_inj h)

entry-read : {A : Type 0} (key : String) (o : Option A) → read key (entry_of o) ≡ ok o
unfolding read
entry-read key none = refl
entry-read key (some a) = refl

value-read : {A : Type 0} (key : String) (a : A) → read key (value a) ≡ ok (some a)
unfolding read
value-read key a = refl

-- The end of a schedule; the empty text stands for none.
abbrev pub Ends : Entry ℕ → Option ℕ → Type 0
Ends e until = (e ≡ entry_of until) ⊎ ((e ≡ empty) × (until ≡ none))

read_until-Ends : (e : Entry ℕ) (o : Option ℕ) → read_until e ≡ ok o → Ends e o
unfolding read_until read
read_until-Ends missing o h = cc
read_until-Ends null o h = inl (ap entry_of (ok_inj h))
read_until-Ends empty o h = inr (refl, sym (ok_inj h))
read_until-Ends malformed o h = cc
read_until-Ends (value a) o h = inl (ap entry_of (ok_inj h))

Ends-read_until : (e : Entry ℕ) (o : Option ℕ) → Ends e o → read_until e ≡ ok o
unfolding read_until read
Ends-read_until e none (inl h) = rw h refl
Ends-read_until e (some a) (inl h) = rw h refl
Ends-read_until e o (inr (h, n)) = rw (h, n) refl

is_some_of : {A : Type 0} (o : Option A) (a : A) → from_option o type_error ≡ ok a → o ≡ some a
is_some_of none a h = cc
is_some_of (some b) a h = ap some (ok_inj h)

module _ (executions : ℕ → Option ℕ) (results : List QueryResult) (now : ℕ) (q : Query) where
  -- The query has a schedule that is not disabled, whose end, if it has one, lies ahead, and whose next run after the last
  -- one lies behind.
  pub record IsDue : Type 0 where
    pub schedule : QuerySchedule
    pub scheduled : q.schedule ≡ some schedule
    pub enabled : schedule.disabled ≡ false
    pub until : Option ℕ
    pub ends : Ends schedule.until until
    pub ahead : (elim until [ none ↦ true | some t ↦ not (leb t now) ]) ≡ true
    pub interval : ℕ
    pub every : schedule.interval ≡ value interval
    pub time : Option (ℕ × ℕ)
    pub at_time : schedule.time ≡ entry_of time
    pub day : Option String
    pub on_day : schedule.day_of_week ≡ entry_of day
    pub behind :
        should_schedule_next
          (or_else (last_run executions results q) now)
          now
          interval
          time
          day
          q.schedule_failures
        ≡ ok true

  ahead-is_past :
      (until : Option ℕ)
      → is_past until now ≡ false
      → (elim until [ none ↦ true | some t ↦ not (leb t now) ]) ≡ true
  unfolding is_past
  ahead-is_past none h = refl
  ahead-is_past (some t) h = ground arith

  is_past-ahead :
      (until : Option ℕ)
      → (elim until [ none ↦ true | some t ↦ not (leb t now) ]) ≡ true
      → is_past until now ≡ false
  unfolding is_past
  is_past-ahead none h = refl
  is_past-ahead (some t) h = ground arith

  pub is_due-IsDue :
      (s : QuerySchedule)
      → q.schedule ≡ some s
      → is_due executions results now q s ≡ ok true
      → IsDue
  unfolding is_due is_due_now
  is_due-IsDue s scheduled h = elim (Bool-cases s.disabled) [
    | inl e ↦ absurd (cc (rw e at h))
    | inr enabled ↦
        let (until, ends, h1) = >>=-eq-ok (read_until s.until) _ (rw enabled at h) in
        elim (Bool-cases (is_past until now)) [
          | inl e ↦ absurd (cc (rw e at h1))
          | inr to_come ↦
              let (given, every, h2) =
                >>=-eq-ok (read "interval" s.interval) _ (rw to_come at h1) in
              let (time, at_time, h3) = >>=-eq-ok (read "time" s.time) _ h2 in
              let (day, on_day, h4) = >>=-eq-ok (read "day_of_week" s.day_of_week) _ h3 in
              let (interval, is, h5) = >>=-eq-ok (from_option given type_error) _ h4 in
              record {
                schedule = s;
                scheduled = scheduled;
                enabled = enabled;
                until = until;
                ends = read_until-Ends s.until until ends;
                ahead = ahead-is_past until to_come;
                interval = interval;
                every =
                    read-entry "interval" s.interval given every
                    ∙ ap entry_of (is_some_of given interval is);
                time = time;
                at_time = read-entry "time" s.time time at_time;
                day = day;
                on_day = read-entry "day_of_week" s.day_of_week day on_day;
                behind = h5;
              }
        ]
  ]

  pub IsDue-is_due : (d : IsDue) → is_due executions results now q d.schedule ≡ ok true
  unfolding is_due is_due_now
  IsDue-is_due d =
      let every : read "interval" d.schedule.interval ≡ ok (some d.interval) =
        ap (read "interval") d.every ∙ value-read "interval" d.interval in
      let at_time : read "time" d.schedule.time ≡ ok d.time =
        ap (read "time") d.at_time ∙ entry-read "time" d.time in
      let on_day : read "day_of_week" d.schedule.day_of_week ≡ ok d.day =
        ap (read "day_of_week") d.on_day ∙ entry-read "day_of_week" d.day in
      rw
        (
          d.enabled,
          Ends-read_until d.schedule.until d.until d.ends,
          is_past-ahead d.until d.ahead,
          every,
          at_time,
          on_day,
        )
        d.behind
