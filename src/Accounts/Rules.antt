-- ===== src/Accounts/Rules.antt =====
-- What the endpoints of redash/handlers/users.py let through, and what they leave alone.
use mathlib.Core.List.{Memᴰ}
use dingolytics_backend.Base.{
  ℕ, Bool, true, false, not, ◌&&◌, Option, none, some, List, [], ◌∷◌, is_some, ◌==◌, nat_eq,
  string_eq, ◌≡◌, ◌⊎◌, refl, ap, subst, arith, Bool-cases, inl, inr, eq_of_beq, mem_of_keep, all_at,
  mem_keep_of, Option-cases,
}
use dingolytics_backend.Base.Result.{
  Exception, ok, abort, guard, ok_inj, >>=-eq-ok, >>-eq-ok, guard-eq-ok,
}
use dingolytics_backend.Base.Text.{Text, text_eq}
use dingolytics_backend.Users.{Principal, has_permission}
use dingolytics_backend.Access.{owns, is_admin_or_owner, require_admin_or_owner}
use dingolytics_backend.Access.Guards.{permissions_ok}
use dingolytics_backend.Store.Lookup.{the_one-Mem}
use dingolytics_backend.Accounts.{
  Account, Site, Params, find_account, write_account, is_taken, in_org, verify_password,
  check_passwords, check_groups, check_email, new_groups, new_password, changed, update_user,
  delete_user, disable_user,
}

guard-ok : (b : Bool) (x : Exception) → guard b x ≡ ok tt → b ≡ true
guard-ok b x h = ground arith

module _ (bind_email : Text → Text) (hash : Text → Text) (verify : Text → Text → Bool) where
  -- What an update of an account that was answered has checked, and what it leaves alone.
  pub record Updated (p : Principal) (org : ℕ) (site : Site) (user_id : ℕ) (params : Params)
      (after : Account) (site' : Site) : Type 0 where
    pub before : Account
    pub in_table : Memᴰ before site.accounts
    pub same_row : (before.id ≡ user_id) × (before.org_id ≡ org)
    pub permitted : is_admin_or_owner site.groups p user_id ≡ true
    -- a new password comes with the old one
    pub password_known :
        (after.password_hash ≡ before.password_hash)
        ⊎ ((old : Text) × (params.old_password ≡ some old)
            × (verify_password bind_email hash verify before old ≡ true))
    -- other groups come from an administrator, and are groups of the organization
    pub groups_allowed :
        (after.group_ids ≡ before.group_ids)
        ⊎ ((has_permission site.groups p "admin" ≡ true)
            × ((g : ℕ) → Memᴰ g after.group_ids → in_org site org g ≡ true))
    pub address_free : is_taken site.accounts after ≡ false
    pub kept :
        (after.id ≡ before.id)
        × (after.org_id ≡ before.org_id)
        × (after.api_key ≡ before.api_key)
        × (after.disabled_at ≡ before.disabled_at)
        × (after.is_invitation_pending ≡ before.is_invitation_pending)
    pub written : site'.accounts ≡ write_account after site.accounts
    pub groups_kept : site'.groups ≡ site.groups

  password_lem :
      (site : Site) (a : Account) (params : Params)
      → check_passwords bind_email hash verify a params ≡ ok tt
      → ((changed bind_email hash verify site a params).password_hash ≡ a.password_hash)
        ⊎ ((old : Text) × (params.old_password ≡ some old)
            × (verify_password bind_email hash verify a old ≡ true))
  unfolding changed check_passwords new_password
  password_lem site a params h = elim (Option-cases params.password) [
    | inl e ↦ inl (rw (e, new_password) refl)
    | inr (password, e) ↦ elim (Option-cases params.old_password) [
      | inl f ↦ absurd (cc (rw (e, f) at h))
      | inr (old, f) ↦
          let (_, h1) =
            >>-eq-ok
              (guard (not (is_some params.password && not (is_some params.old_password)))
                (abort 403))
              _ h in
          inr (
            old,
            f,
            guard-ok (verify_password bind_email hash verify a old) (abort 403) (rw f at h1),
          )
    ]
  ]

  groups_lem :
      (site : Site) (p : Principal) (org : ℕ) (a : Account) (ids : Option (List ℕ))
      → check_groups bind_email hash verify site p org ids ≡ ok tt
      → (new_groups bind_email hash verify a ids ≡ a.group_ids)
        ⊎ ((has_permission site.groups p "admin" ≡ true)
            × ((g : ℕ)
                → Memᴰ g (new_groups bind_email hash verify a ids)
                → in_org site org g ≡ true))
  unfolding check_groups new_groups
  groups_lem site p org a none h = inl refl
  groups_lem site p org a (some []) h = inl refl
  groups_lem site p org a (some (g ∷ ids)) h =
      let (admin, h1) = guard-eq-ok (has_permission site.groups p "admin") (abort 403) _ h in
      inr (admin, λ k m. all_at (in_org site org) m (guard-ok _ _ h1))

  find_account-Mem :
      (site : Site) (id org : ℕ) (a : Account)
      → find_account site id org ≡ ok a
      → Memᴰ a site.accounts × (a.id ≡ id) × (a.org_id ≡ org)
  unfolding find_account
  find_account-Mem site id org a h =
      let (m, e) = mem_of_keep _ site.accounts (the_one-Mem _ a h) in
      (m, eq_of_beq a.id id (ground arith), eq_of_beq a.org_id org (ground arith))

  -- An update of an account that is answered comes from an administrator or the user himself. The password
  -- changes only if the old one was given, the groups only for an administrator and to groups of the
  -- organization, and the address only to one that no other account of the organization has. The id, the
  -- organization, the key, the instant of disabling and the state of the invitation stay, and the row is written to the
  -- place of the account and nowhere else.
  pub update_user_lem :
      (p : Principal) (org : ℕ) (site : Site) (user_id : ℕ) (params : Params) (after : Account)
      (site' : Site)
      → update_user bind_email hash verify p org site user_id params ≡ ok (after, site')
      → Updated p org site user_id params after site'
  unfolding update_user require_admin_or_owner
  update_user_lem p org site user_id params after site' h =
      let (permitted, h1) = guard-eq-ok (is_admin_or_owner site.groups p user_id) (abort 403) _ h in
      let (a, found, h2) = >>=-eq-ok (find_account site user_id org) _ h1 in
      let (passwords, h3) = >>-eq-ok (check_passwords bind_email hash verify a params) _ h2 in
      let (groups, h4) =
        >>-eq-ok (check_groups bind_email hash verify site p org params.group_ids) _ h3 in
      let (_, h5) = >>-eq-ok (check_email bind_email hash verify site params.email) _ h4 in
      let (free, h6) =
        guard-eq-ok (not (is_taken site.accounts (changed bind_email hash verify site a params)))
          (abort 400) _ h5 in
      let (m, id, o) = find_account-Mem site user_id org a found in
      subst (λ (x : Account × Site). Updated p org site user_id params x.0 x.1) (ok_inj h6)
        (record {
          before = a;
          in_table = m;
          same_row = (id, o);
          permitted = permitted;
          password_known = password_lem site a params passwords;
          groups_allowed = groups_lem site p org a params.group_ids groups;
          address_free = ground arith;
          kept = (refl, refl, refl, refl, refl);
          written = refl;
          groups_kept = refl;
        })

  write_account-other :
      (a b : Account) {accounts : List Account}
      → (a.id == b.id) ≡ false
      → Memᴰ a accounts
      → Memᴰ a (write_account b accounts)
  unfolding write_account
  write_account-other a b ne (Memᴰ.head {x = c} e) =
      rw (subst (λ x. (x.id == b.id) ≡ false) e ne) (Memᴰ.head e)
  write_account-other a b ne (Memᴰ.tail {x = c} m) = Memᴰ.tail (write_account-other a b ne m)

  other_row :
      (p : Principal) (a b : Account)
      → owns p a.id ≡ true
      → not (owns p b.id) ≡ true
      → (a.id == b.id) ≡ false
  other_row p a b own ne = elim (Bool-cases (a.id == b.id)) [
    | inl e ↦ ground (arith, ap (owns p) (eq_of_beq a.id b.id e))
    | inr e ↦ e
  ]

  -- Disabling or deleting a user never touches the account of the administrator who does it.
  pub caller_kept :
      (p : Principal) (org : ℕ) (site site' : Site) (user_id now : ℕ) (a : Account)
      → (disable_user bind_email hash verify p org site user_id now ≡ ok site')
        ⊎ (delete_user bind_email hash verify p org site user_id ≡ ok site')
      → owns p a.id ≡ true
      → Memᴰ a site.accounts
      → Memᴰ a site'.accounts
  unfolding disable_user delete_user
  caller_kept p org site site' user_id now a (inl h) own m =
      let (_, h1) = permissions_ok site.groups p ("admin" ∷ []) _ h in
      let (b, _, h2) = >>=-eq-ok (find_account site user_id org) _ h1 in
      let (ne, h3) = guard-eq-ok (not (owns p b.id)) (abort 403) _ h2 in
      subst (λ x. Memᴰ a x.accounts) (ok_inj h3)
        (write_account-other a (record b { disabled_at = some now }) (other_row p a b own ne) m)
  caller_kept p org site site' user_id now a (inr h) own m =
      let (_, h1) = permissions_ok site.groups p ("admin" ∷ []) _ h in
      let (b, _, h2) = >>=-eq-ok (find_account site user_id org) _ h1 in
      let (ne, h3) = guard-eq-ok (not (owns p b.id)) (abort 403) _ h2 in
      let (_, h4) = guard-eq-ok b.is_invitation_pending (abort 403) _ h3 in
      subst (λ x. Memᴰ a x.accounts) (ok_inj h4)
        (mem_keep_of (λ c. not (c.id == b.id)) m (ground (arith, other_row p a b own ne)))
