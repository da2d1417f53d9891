-- ===== src/Authentication/Keys.antt =====
-- Whom an API key stands for.
use mathlib.Core.List.{Memᴰ}
use dingolytics_backend.Base.{
  ℕ, String, Bool, true, false, ◌&&◌, ◌||◌, ◌⊎◌, Option, none, some, [], ◌∷◌, keep, ◌==◌, ◌≡◌, refl,
  sym, ap, subst, ◌∙◌, arith, Bool-cases, inl, inr, mem_of_keep, eq_of_beq, contains, any, nat_eq,
  string_eq,
}
use dingolytics_backend.Base.Dict.{keys}
use dingolytics_backend.Base.Result.{
  no_result_found, abort, key_error, attribute_error, type_error, value_error, runtime_error,
  not_implemented, multiple_results_found, invalid_parameters, query_detached, other_error, Result,
  ok, err, >>=-eq-ok,
}
use dingolytics_backend.Users.{User, ApiUser, Principal, user, api_user, is_disabled}
use dingolytics_backend.Access.{has_access}
use dingolytics_backend.Access.Rules.{has_access-api_user}
use dingolytics_backend.Grants.Handlers.{the_one}
use dingolytics_backend.Store.{
  Query, ApiKey, Store, find_query, groups_of_query, guarded_query, dashboard_api_keys,
}
use dingolytics_backend.Store.Lookup.{the_one-Mem}
use dingolytics_backend.Authentication.{
  or_missing, non_empty, user_by_key, object_by_key, by_key, query_by_key, get_user_from_api_key,
}

or_missing-ok {ℓ} :
    {A : Type ℓ} (r next : Result A) (a : A) → or_missing r next ≡ ok a → (r ≡ ok a) ⊎ (next ≡ ok a)
unfolding or_missing
or_missing-ok (err no_result_found) next a h = inr h
or_missing-ok (err (abort n)) next a h = inl h
or_missing-ok (err (key_error k)) next a h = inl h
or_missing-ok (err attribute_error) next a h = inl h
or_missing-ok (err type_error) next a h = inl h
or_missing-ok (err value_error) next a h = inl h
or_missing-ok (err runtime_error) next a h = inl h
or_missing-ok (err not_implemented) next a h = inl h
or_missing-ok (err multiple_results_found) next a h = inl h
or_missing-ok (err (invalid_parameters ns)) next a h = inl h
or_missing-ok (err (query_detached i)) next a h = inl h
or_missing-ok (err (other_error m)) next a h = inl h
or_missing-ok (ok r) next a h = inl h

non_empty-cases : (s : String) → (non_empty (some s) ≡ none) ⊎ (non_empty (some s) ≡ some s)
unfolding non_empty
non_empty-cases s = elim (Bool-cases (s == "")) [
  | inl e ↦ inl (rw e refl)
  | inr e ↦ inr (rw e refl)
]

module _ (d : Store) (org : ℕ) where
  -- An enabled user of the organization whose key it is; or the bearer of an active key of a shared object,
  -- in no group; or the bearer of the key of the query that is asked for, in the groups of its data source.
  pub data Bears (key : String) (query_id : Option ℕ) : Principal → Type 0 where
    own_key :
        (u : User)
        → Memᴰ u d.users
        → (u.org_id == org && u.api_key == key) ≡ true
        → is_disabled u ≡ false
        → Bears key query_id (user u)
    object_key :
        (k : ApiKey)
        → Memᴰ k d.api_keys
        → (k.api_key == key && k.active) ≡ true
        → Bears key query_id (api_user (record { id = key; group_ids = [] }))
    query_key :
        (q : Query) (id : ℕ)
        → query_id ≡ some id
        → find_query d id org ≡ ok q
        → q.api_key ≡ key
        → Bears key query_id
            (api_user (record { id = key; group_ids = keys (groups_of_query d q) }))

  user_by_key-Bears :
      (key : String) (query_id : Option ℕ) (p : Principal)
      → user_by_key d org key ≡ ok (some p)
      → Bears key query_id p
  unfolding user_by_key
  user_by_key-Bears key query_id p h =
      let (u, found, h1) =
        >>=-eq-ok (the_one (keep (λ u. u.org_id == org && u.api_key == key) d.users)) _ h in
      let (m, e) =
        mem_of_keep (λ u. u.org_id == org && u.api_key == key) d.users (the_one-Mem _ u found) in
      elim (Bool-cases (is_disabled u)) [
        | inl f ↦ absurd (cc (rw f at h1))
        | inr f ↦ subst (λ x. Bears key query_id x) (cc (rw f at h1)) (own_key u m e f)
      ]

  object_by_key-Bears :
      (key : String) (query_id : Option ℕ) (p : Principal)
      → object_by_key d org key ≡ ok (some p)
      → Bears key query_id p
  unfolding object_by_key
  object_by_key-Bears key query_id p h =
      let (k, found, h1) =
        >>=-eq-ok (the_one (keep (λ k. k.api_key == key && k.active) d.api_keys)) _ h in
      let (m, e) =
        mem_of_keep (λ k. k.api_key == key && k.active) d.api_keys (the_one-Mem _ k found) in
      let same : k.api_key ≡ key = eq_of_beq k.api_key key (ground arith) in
      let bearer : ApiUser = record { id = k.api_key; group_ids = [] } in
      let loaded : api_user bearer ≡ p = cc h1 in
      subst (λ x. Bears key query_id x)
        (ap (λ (s : String). api_user (record { id = s; group_ids = [] })) (sym same) ∙ loaded)
        (object_key k m e)

  query_by_key-Bears :
      (key : String) (query_id : Option ℕ) (p : Principal)
      → query_by_key d org key query_id ≡ ok (some p)
      → Bears key query_id p
  unfolding query_by_key
  query_by_key-Bears key none p h = cc
  query_by_key-Bears key (some id) p h =
      let (q, found, h1) = >>=-eq-ok (find_query d id org) _ h in
      elim (Bool-cases (q.api_key == key)) [
        | inl f ↦
            subst (λ x. Bears key (some id) x) (cc (rw f at h1))
              (query_key q id refl found (eq_of_beq q.api_key key f))
        | inr f ↦ absurd (cc (rw f at h1))
      ]

  -- The principal that a key gives is one that bears it: no other key, and no key of a disabled user, loads it.
  pub get_user_from_api_key-Bears :
      (key : String) (query_id : Option ℕ) (p : Principal)
      → get_user_from_api_key d org (some key) query_id ≡ ok (some p)
      → Bears key query_id p
  unfolding get_user_from_api_key by_key
  get_user_from_api_key-Bears key query_id p h = elim (non_empty-cases key) [
    | inl e ↦ absurd (cc (sym (ap (by_key d org query_id) e) ∙ h))
    | inr e ↦
        elim (or_missing-ok (user_by_key d org key) _ (some p)
          (sym (ap (by_key d org query_id) e) ∙ h)) [
            | inl f ↦ user_by_key-Bears key query_id p f
            | inr f ↦ elim (or_missing-ok (object_by_key d org key) _ (some p) f) [
              | inl g ↦ object_by_key-Bears key query_id p g
              | inr g ↦ query_by_key-Bears key query_id p g
            ]
          ]
  ]

  bearer_id :
      (key : String) (query_id : Option ℕ) (a : ApiUser)
      → Bears key query_id (api_user a)
      → a.id ≡ key
  bearer_id key query_id a b = id_of (api_user a) b refl
    where
      id_of : (p : Principal) → Bears key query_id p → p ≡ api_user a → a.id ≡ key
      id_of (user w) (own_key v m e f) h = absurd (cc h)
      id_of p (object_key k m e) h = cc h
      id_of p (query_key q id e f g) h = cc h

  -- A principal that is no user, loaded by a key, may view exactly the queries whose key it is or that a dashboard
  -- with that key shows, and may modify none.
  pub get_user_from_api_key-has_access :
      (key : String) (query_id : Option ℕ) (a : ApiUser) (q : Query) (need_view_only : Bool)
      → get_user_from_api_key d org (some key) query_id ≡ ok (some (api_user a))
      → has_access d.groups (guarded_query d q) (api_user a) need_view_only
        ≡ (need_view_only && (q.api_key == key || contains (dashboard_api_keys d q.id) key))
  unfolding guarded_query
  get_user_from_api_key-has_access key query_id a q need_view_only h =
      let same =
        bearer_id key query_id a (get_user_from_api_key-Bears key query_id (api_user a) h) in
      let by_id = has_access-api_user d.groups _ q.api_key a need_view_only refl in
      let one_list : (k : String)
          → (need_view_only
              && (q.api_key == k || any (λ keys. contains keys k) (dashboard_api_keys d q.id ∷ [])))
            ≡ (need_view_only && (q.api_key == k || contains (dashboard_api_keys d q.id) k)) =
        λ k. ground arith in
      by_id
      ∙ one_list a.id
      ∙ ap
          (λ (k : String).
            need_view_only && (q.api_key == k || contains (dashboard_api_keys d q.id) k))
          same
