-- ===== src/Access/Rules.antt =====
-- The rules that the checks of redash/permissions.py enforce together.
use mathlib.Core.List.{Memᴰ}
use dingolytics_backend.Base.{
  ℕ, String, Bool, true, false, ◌&&◌, ◌||◌, Option, none, some, List, [], ◌∷◌, contains, all, any,
  ◌≡◌, ◌⊎◌, inl, inr, arith, nat_eq, string_eq, Bool-cases, Mem→contains, all_at, all_fails,
  contains→Mem, any_find, any_of_mem, ◌==◌,
}
use dingolytics_backend.Base.Result.{Result, err, abort, guard}
use dingolytics_backend.Users.{
  Group, Principal, user, api_user, ApiUser, permissions, has_permission, has_permissions,
}
use dingolytics_backend.Access.{
  Guarded, resource, group_map, Resource, has_access_to_groups, has_access_to_object, has_access,
  require_permissions, require_admin_or_owner, access_by_key,
}
use dingolytics_backend.Access.Laws.{
  has_access_to_groups-view_only, has_access_to_groups-NotViewOnly,
}

abbrev pub owns_id : Principal → ℕ → Bool
owns_id (user u) owner = owner == u.id
owns_id _ owner = false

module _ (table : List Group) where
  groups_mono :
      (obj : Guarded) (p : Principal)
      → has_access_to_groups table obj p false ≡ true
      → has_access_to_groups table obj p true ≡ true
  groups_mono obj p h =
      (has_access_to_groups-view_only table obj p).1
        (elim ((has_access_to_groups-NotViewOnly table obj p).0 h) [
          | inl a ↦ inl a
          | inr (s, _) ↦ inr s
        ])

  key_mono :
      (r : Resource) (own key : String)
      → has_access_to_object r own key false ≡ true
      → has_access_to_object r own key true ≡ true
  unfolding has_access_to_object
  key_mono r own key h = ground arith

  by_key_mono :
      (r : Resource) (a : ApiUser) (own : Option String)
      → access_by_key table r (api_user a) false own ≡ true
      → access_by_key table r (api_user a) true own ≡ true
  unfolding access_by_key
  by_key_mono r a none h = groups_mono (resource r) (api_user a) h
  by_key_mono r a (some own) h = key_mono r own a.id h

  -- Whoever may modify an object may view it.
  has_access_mono :
      (obj : Guarded) (p : Principal)
      → has_access table obj p false ≡ true
      → has_access table obj p true ≡ true
  unfolding has_access
  has_access_mono (group_map d) p h = groups_mono (group_map d) p h
  has_access_mono (resource r) (user u) h = groups_mono (resource r) (user u) h
  has_access_mono (resource r) (api_user a) h = by_key_mono r a r.api_key h

  -- On an object that has an API key, an API user may never modify, and may view exactly if it holds
  -- the object's key or the key of a dashboard that shows the object.
  pub has_access-api_user :
      (r : Resource) (own : String) (a : ApiUser) (need_view_only : Bool)
      → r.api_key ≡ some own
      → has_access table (resource r) (api_user a) need_view_only ≡ (
          need_view_only
          && (own == a.id
              || any
                  (λ keys. contains keys a.id)
                  (elim r.dashboard_api_keys [ none ↦ [] | some keys ↦ keys ∷ [] ])))
  unfolding has_access has_access_to_object
  has_access-api_user r own a need e = ground arith

  has_permission_mem :
      (p : Principal) (name : String)
      → has_permission table p name ≡ true
      → Memᴰ name (permissions table p)
  unfolding has_permission
  has_permission_mem p name h = contains→Mem _ name (ground arith)

  mem_has_permission :
      (p : Principal) (name : String)
      → Memᴰ name (permissions table p)
      → has_permission table p name ≡ true
  unfolding has_permission
  mem_has_permission p name m = rw (Mem→contains m)

  -- With `allow_one` false the wrapped function runs if the principal has every permission of the
  -- list; otherwise one is missing and the answer is 403.
  require_permissions_all {ℓ} :
      {A : Type ℓ} (p : Principal) (wanted : List String) (fn : Result A)
      → (((name : String) → Memᴰ name wanted → Memᴰ name (permissions table p))
          × (require_permissions table p wanted false fn ≡ fn))
        ⊎ (((name : String) × Memᴰ name wanted × ¬ Memᴰ name (permissions table p))
            × (require_permissions table p wanted false fn ≡ err (abort 403)))
  unfolding require_permissions has_permissions
  require_permissions_all p wanted fn =
      let held : String → Bool = λ name. contains (permissions table p) name in
      elim (Bool-cases (all held wanted)) [
        | inl h ↦ inl (λ name m. contains→Mem _ name (all_at held m h), rw h)
        | inr h ↦
            let (name, m, missing) = all_fails held wanted h in
            inr ((name, m, λ n. cc (missing, Mem→contains n)), rw h)
      ]

  -- With `allow_one` true the wrapped function runs if the principal has a permission of the list;
  -- otherwise it has none and the answer is 403.
  require_permissions_any {ℓ} :
      {A : Type ℓ} (p : Principal) (wanted : List String) (fn : Result A)
      → (((name : String) × Memᴰ name wanted × Memᴰ name (permissions table p))
          × (require_permissions table p wanted true fn ≡ fn))
        ⊎ (((name : String) → Memᴰ name wanted → ¬ Memᴰ name (permissions table p))
            × (require_permissions table p wanted true fn ≡ err (abort 403)))
  unfolding require_permissions
  require_permissions_any p wanted fn =
      let held : String → Bool = λ name. has_permission table p name in
      elim (Bool-cases (any held wanted)) [
        | inl h ↦
            let (name, m, has) = any_find held wanted h in
            inl ((name, m, has_permission_mem p name has), rw h)
        | inr h ↦ inr (λ name m n. cc (h, any_of_mem held m (mem_has_permission p name n)), rw h)
      ]

  -- An administrator and the owner of an object pass; every other user or API user gets 403.
  pub require_admin_or_owner_iff :
      (p : Principal) (owner : ℕ)
      → require_admin_or_owner table p owner
        ≡ guard (owns_id p owner || contains (permissions table p) "admin") (abort 403)
  unfolding require_admin_or_owner has_permission has_permissions
  require_admin_or_owner_iff (user u) owner = ground arith
  require_admin_or_owner_iff (api_user a) owner = ground arith
