-- ===== src/Queries/Found.antt =====
-- The dictionary of `outdated_queries` where every schedule can be read: its items are rows of the table that are due, under their keys.
use mathlib.Core.List.{Memᴰ}
use dingolytics_backend.Base.{
  ℕ, Bool, true, false, Option, none, some, List, [], ◌∷◌, ◌≡◌, refl, sym, ap, arith, Bool-cases,
  inl, inr, eq_of_beq, contains, beq_refl, ◌==◌, map, subst, ◌∙◌,
}
use dingolytics_backend.Base.Dict.{Dict, put, values, has_key, IsDict, get-put}
use dingolytics_backend.Base.Result.{Result, ok, err}
use dingolytics_backend.Base.Text.{Text, text_eq}
use dingolytics_backend.Execution.{QueryResult}
use dingolytics_backend.Store.{QuerySchedule, Query}
use dingolytics_backend.Queries.{is_due, queue_key, visit}

-- No text stands twice.
abbrev pub IsDistinct : List Text → Type 0
IsDistinct [] = Unit
IsDistinct (k ∷ ks) = (contains ks k ≡ false) × IsDistinct ks

module _ (executions : ℕ → Option ℕ) (results : List QueryResult) (now : ℕ) where
  -- The query is scheduled and the code finds it due.
  abbrev pub IsFoundDue : Query → Type 0
  IsFoundDue q =
      (s : QuerySchedule) × (q.schedule ≡ some s) × (is_due executions results now q s ≡ ok true)

  -- What holds of each item of the dictionary: a row of the table that is due, under its own key.
  abbrev pub IsSound : List Query → Dict Text Query → Type 0
  IsSound queries [] = Unit
  IsSound queries ((k, q) ∷ found) =
      ((k ≡ queue_key q) × Memᴰ q queries × IsFoundDue q) × IsSound queries found

  IsSound-put :
      (queries : List Query) (found : Dict Text Query) (q : Query)
      → IsSound queries found
      → Memᴰ q queries
      → IsFoundDue q
      → IsSound queries (put found (queue_key q) q)
  IsSound-put queries [] q h m d = ((refl, m, d), tt)
  IsSound-put queries ((j, w) ∷ found) q h m d = elim (Bool-cases (j == queue_key q)) [
    | inl e ↦ rw e ((eq_of_beq j (queue_key q) e, m, d), h.1)
    | inr e ↦ rw e (h.0, IsSound-put queries found q h.1 m d)
  ]

  -- The loop where every schedule can be read.
  unfoldable pub run_row : Query → Option QuerySchedule → Dict Text Query → Dict Text Query × Query
  unfolding visit
  run_row q none found = (found, q)
  run_row q (some s) found = visit (is_due executions results now q s) q s found

  unfoldable pub run_all : List Query → Dict Text Query → Dict Text Query
  unfolding run_row
  run_all [] found = found
  run_all (q ∷ queries) found = run_all queries (run_row q q.schedule found).0

  -- What a row does, by what its schedule says.
  run_row-visit :
      (found : Dict Text Query) (q : Query) (s : QuerySchedule) (due : Result Bool)
      → q.schedule ≡ some s
      → is_due executions results now q s ≡ due
      → run_row q q.schedule found ≡ visit due q s found
  unfolding run_row
  run_row-visit found q s due e d = ap (λ o. run_row q o found) e ∙ ap (λ r. visit r q s found) d

  visit-IsSound :
      (queries : List Query) (found : Dict Text Query) (q : Query) (s : QuerySchedule)
      (due : Result Bool)
      → q.schedule ≡ some s
      → is_due executions results now q s ≡ due
      → Memᴰ q queries
      → IsSound queries found
      → IsSound queries (visit due q s found).0
  unfolding visit
  visit-IsSound queries found q s (ok true) e d m h = IsSound-put queries found q h m (s, e, d)
  visit-IsSound queries found q s (ok false) e d m h = h
  visit-IsSound queries found q s (err x) e d m h = h

  run_row-IsSound :
      (queries : List Query) (found : Dict Text Query) (q : Query) (s : Option QuerySchedule)
      → q.schedule ≡ s
      → Memᴰ q queries
      → IsSound queries found
      → IsSound queries (run_row q s found).0
  unfolding run_row
  run_row-IsSound queries found q none e m h = h
  run_row-IsSound queries found q (some s) e m h =
      visit-IsSound queries found q s (is_due executions results now q s) e refl m h

  pub run_all-IsSound :
      (table queries : List Query) (found : Dict Text Query)
      → ((q : Query) → Memᴰ q queries → Memᴰ q table)
      → IsSound table found
      → IsSound table (run_all queries found)
  unfolding run_all
  run_all-IsSound table [] found sub h = h
  run_all-IsSound table (q ∷ queries) found sub h =
      run_all-IsSound table queries (run_row q q.schedule found).0 (λ p m. sub p (Memᴰ.tail m))
        (run_row-IsSound table found q q.schedule refl (sub q (Memᴰ.head refl)) h)

  pub values-IsSound :
      (queries : List Query) (found : Dict Text Query) (q : Query)
      → IsSound queries found
      → Memᴰ q (values found)
      → Memᴰ q queries × IsFoundDue q
  values-IsSound queries [] q h m = elim m [ ]
  values-IsSound queries ((k, w) ∷ found) q h (Memᴰ.head e) =
      subst (λ x. Memᴰ x queries × IsFoundDue x) (sym e) (h.0.1, h.0.2)
  values-IsSound queries ((k, w) ∷ found) q h (Memᴰ.tail m) = values-IsSound queries found q h.1 m

  pub keys-IsSound :
      (queries : List Query) (found : Dict Text Query) (k : Text)
      → IsSound queries found
      → contains (map queue_key (values found)) k ≡ has_key found k
  keys-IsSound queries [] k h = refl
  keys-IsSound queries ((j, w) ∷ found) k h =
      rw (sym h.0.0) (ground (arith, keys-IsSound queries found k h.1))

  visit-has_key :
      (found : Dict Text Query) (q : Query) (s : QuerySchedule) (due : Result Bool) (k : Text)
      → has_key found k ≡ true
      → has_key (visit due q s found).0 k ≡ true
  unfolding visit
  visit-has_key found q s (ok true) k h = ground (arith, get-put found (queue_key q) k q)
  visit-has_key found q s (ok false) k h = h
  visit-has_key found q s (err x) k h = h

  run_row-key :
      (found : Dict Text Query) (q : Query)
      → IsFoundDue q
      → has_key (run_row q q.schedule found).0 (queue_key q) ≡ true
  unfolding visit
  run_row-key found q (s, e, d) =
      rw (run_row-visit found q s (ok true) e d)
        (ground (arith, get-put found (queue_key q) (queue_key q) q, beq_refl (queue_key q)))

  run_row-has_key :
      (found : Dict Text Query) (q : Query) (s : Option QuerySchedule) (k : Text)
      → has_key found k ≡ true
      → has_key (run_row q s found).0 k ≡ true
  unfolding run_row
  run_row-has_key found q none k h = h
  run_row-has_key found q (some s) k h =
      visit-has_key found q s (is_due executions results now q s) k h

  run_all-has_key :
      (queries : List Query) (found : Dict Text Query) (k : Text)
      → has_key found k ≡ true
      → has_key (run_all queries found) k ≡ true
  unfolding run_all
  run_all-has_key [] found k h = h
  run_all-has_key (q ∷ queries) found k h =
      run_all-has_key queries (run_row q q.schedule found).0 k
        (run_row-has_key found q q.schedule k h)

  pub run_all-key :
      (queries : List Query) (found : Dict Text Query) (q : Query)
      → Memᴰ q queries
      → IsFoundDue q
      → has_key (run_all queries found) (queue_key q) ≡ true
  unfolding run_all
  run_all-key [] found q m d = elim m [ ]
  run_all-key (p ∷ queries) found q (Memᴰ.head e) d = run_all-has_key queries _ (queue_key q) (
      subst (λ x. has_key (run_row x x.schedule found).0 (queue_key q) ≡ true) e
        (run_row-key found q d))
  run_all-key (p ∷ queries) found q (Memᴰ.tail m) d = run_all-key queries _ q m d

  IsDict-put :
      (found : Dict Text Query) (k : Text) (q : Query) → IsDict found → IsDict (put found k q)
  IsDict-put [] k q h = (refl, tt)
  IsDict-put ((j, w) ∷ found) k q h = elim (Bool-cases (j == k)) [
    | inl e ↦ rw e h
    | inr e ↦ rw e (
      ground (arith, get-put found k j q, text_eq.beq_iff j k, text_eq.beq_iff k j),
      IsDict-put found k q h.1,
    )
  ]

  visit-IsDict :
      (found : Dict Text Query) (q : Query) (s : QuerySchedule) (due : Result Bool)
      → IsDict found
      → IsDict (visit due q s found).0
  unfolding visit
  visit-IsDict found q s (ok true) h = IsDict-put found (queue_key q) q h
  visit-IsDict found q s (ok false) h = h
  visit-IsDict found q s (err x) h = h

  run_row-IsDict :
      (found : Dict Text Query) (q : Query) (s : Option QuerySchedule)
      → IsDict found
      → IsDict (run_row q s found).0
  unfolding run_row
  run_row-IsDict found q none h = h
  run_row-IsDict found q (some s) h = visit-IsDict found q s (is_due executions results now q s) h

  pub run_all-IsDict :
      (queries : List Query) (found : Dict Text Query)
      → IsDict found
      → IsDict (run_all queries found)
  unfolding run_all
  run_all-IsDict [] found h = h
  run_all-IsDict (q ∷ queries) found h =
      run_all-IsDict queries _ (run_row-IsDict found q q.schedule h)

  pub IsDistinct-keys :
      (queries : List Query) (found : Dict Text Query)
      → IsSound queries found
      → IsDict found
      → IsDistinct (map queue_key (values found))
  IsDistinct-keys queries [] h d = tt
  IsDistinct-keys queries ((k, q) ∷ found) h d = (
    keys-IsSound queries found (queue_key q) h.1 ∙ (rw (sym h.0.0) d.0),
    IsDistinct-keys queries found h.1 d.1,
  )
