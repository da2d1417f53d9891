-- ===== src/Access/Guards.antt =====
-- What follows from a check of redash/permissions.py that was passed.
use dingolytics_backend.Base.{String, true, false, List, any, ◌≡◌, Bool-cases, inl, inr}
use dingolytics_backend.Base.Result.{Result, ok}
use dingolytics_backend.Users.{Group, Principal, has_permissions, has_permission}
use dingolytics_backend.Access.{require_permissions}

pub permissions_ok {ℓ} :
    {A : Type ℓ} (table : List Group) (p : Principal) (wanted : List String) (fn : Result A)
    {out : A}
    → require_permissions table p wanted false fn ≡ ok out
    → (has_permissions table p wanted ≡ true) × (fn ≡ ok out)
unfolding require_permissions
permissions_ok table p wanted fn h = elim (Bool-cases (has_permissions table p wanted)) [
  | inl e ↦ (e, rw e at h)
  | inr e ↦ absurd (cc (rw e at h))
]

pub any_permission_ok {ℓ} :
    {A : Type ℓ} (table : List Group) (p : Principal) (wanted : List String) (fn : Result A)
    {out : A}
    → require_permissions table p wanted true fn ≡ ok out
    → (any (λ name. has_permission table p name) wanted ≡ true) × (fn ≡ ok out)
unfolding require_permissions
any_permission_ok table p wanted fn h =
    elim (Bool-cases (any (λ name. has_permission table p name) wanted)) [
      | inl e ↦ (e, rw e at h)
      | inr e ↦ absurd (cc (rw e at h))
    ]
