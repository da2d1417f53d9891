-- ===== src/Dashboards/Sharing.antt =====
-- The keys under which a dashboard is public.
use dingolytics_backend.Base.{
  ℕ, ◌+◌, ◌-◌, String, true, false, ◌&&◌, List, [], ◌∷◌, ◌++◌, keep, length, ◌==◌, ◌≡◌, refl, sym,
  ap, ◌∙◌, arith, Bool-cases, inl, inr, beq_refl, eq_of_beq, mem_of_keep, nat_eq, string_eq,
}
use dingolytics_backend.Base.Filters.{keep-append, length-append}
use dingolytics_backend.Base.Result.{ok, ok_inj, >>=-eq-ok, >>-eq-ok}
use dingolytics_backend.Users.{Principal}
use dingolytics_backend.Access.{require_admin_or_owner}
use dingolytics_backend.Store.{Dashboard, ApiKey, Store, find_dashboard, log}
use dingolytics_backend.Store.Lookup.{the_one-Mem}
use dingolytics_backend.Dashboards.{opens, key_row, deactivate, user_id_of, share, unshare}

-- The keys that open the dashboard.
abbrev pub open_keys : Store → ℕ → List ApiKey
open_keys d id = keep (opens id) d.api_keys

closed : (id : ℕ) (k : ApiKey) → opens id (record k { active = false }) ≡ false
unfolding opens
closed id k = ground arith

length-deactivate :
    (id : ℕ) (ks : List ApiKey)
    → length (keep (opens id) (deactivate id ks)) ≡ length (keep (opens id) ks) - 1
unfolding deactivate
length-deactivate id [] = omega arith
length-deactivate id (k ∷ ks) = elim (Bool-cases (opens id k)) [
  | inl e ↦ rw (e, closed id k) (omega arith)
  | inr e ↦ rw (e, e) (length-deactivate id ks)
]

opens-key_row :
    (org id user_id new_id : ℕ) (key : String) → opens id (key_row org id user_id new_id key) ≡ true
unfolding opens key_row
opens-key_row org id user_id new_id key = ground (arith, beq_refl id)

find_dashboard-id :
    (d : Store) (id org : ℕ) (b : Dashboard) → find_dashboard d id org ≡ ok b → b.id ≡ id
unfolding find_dashboard
find_dashboard-id d id org b h =
    let (m, e) =
      mem_of_keep (λ b. b.id == id && b.org_id == org) d.dashboards (the_one-Mem _ b h) in
    eq_of_beq b.id id (ground arith)

module _ (p : Principal) (org : ℕ) where
  share-open_keys :
      (d d' : Store) (id new_id : ℕ) (key : String)
      → share p org d id new_id key ≡ ok d'
      → length (open_keys d' id) ≡ length (open_keys d id) + 1
  unfolding share log
  share-open_keys d d' id new_id key h =
      let (b, found, h1) = >>=-eq-ok (find_dashboard d id org) _ h in
      let (_, h2) = >>-eq-ok (require_admin_or_owner d.groups p b.user_id) _ h1 in
      let (u, _, h3) = >>=-eq-ok (user_id_of p) _ h2 in
      let row = key_row org b.id u new_id key in
      let same = find_dashboard-id d id org b found in
      let opened : opens id row ≡ true =
        ap (λ (i : ℕ). opens i row) (sym same) ∙ opens-key_row org b.id u new_id key in
      let keys : d'.api_keys ≡ d.api_keys ++ row ∷ [] = ap (λ x. x.api_keys) (sym (ok_inj h3)) in
      ap (λ ks. length (keep (opens id) ks)) keys
      ∙ ap length (keep-append (opens id) d.api_keys (row ∷ []))
      ∙ length-append (keep (opens id) d.api_keys) (keep (opens id) (row ∷ []))
      ∙ rw opened refl

  unshare-open_keys :
      (d d' : Store) (id : ℕ)
      → unshare p org d id ≡ ok d'
      → length (open_keys d' id) ≡ length (open_keys d id) - 1
  unfolding unshare log
  unshare-open_keys d d' id h =
      let (b, found, h1) = >>=-eq-ok (find_dashboard d id org) _ h in
      let (_, h2) = >>-eq-ok (require_admin_or_owner d.groups p b.user_id) _ h1 in
      ap (λ x. length (open_keys x id)) (sym (ok_inj h2))
      ∙ ap (λ (i : ℕ). length (keep (opens id) (deactivate i d.api_keys)))
          (find_dashboard-id d id org b found)
      ∙ length-deactivate id d.api_keys

  -- Sharing a dashboard adds one key that opens it, whether or not there is one already; taking the sharing back
  -- closes one of them, so a dashboard that was shared twice stays public.
  pub unshare-share :
      (d d' d'' d''' : Store) (id first_id second_id : ℕ) (first_key second_key : String)
      → share p org d id first_id first_key ≡ ok d'
      → share p org d' id second_id second_key ≡ ok d''
      → unshare p org d'' id ≡ ok d'''
      → length (open_keys d''' id) ≡ length (open_keys d id) + 1
  unshare-share d d' d'' d''' id first_id second_id first_key second_key h1 h2 h3 = omega (
    arith,
    share-open_keys d d' id first_id first_key h1,
    share-open_keys d' d'' id second_id second_key h2,
    unshare-open_keys d'' d''' id h3,
  )
