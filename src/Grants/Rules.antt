-- ===== src/Grants/Rules.antt =====
-- What granting and revoking do to the permissions that `exists` reports.
use mathlib.Core.List.{Memᴰ}
use text.Mathlib.TextEquality.{eq_iff}
use dingolytics_backend.Base.{
  ℕ, String, Bool, true, not, ◌&&◌, ◌||◌, Option, none, some, List, [], ◌∷◌, ◌++◌, length, keep,
  any, ◌==◌, ◌≡◌, ◌≢◌, refl, sym, beq_refl, ap, subst, ◌∙◌, ◌≤◌, arith, if◌then◌else◌, nat_eq,
  string_eq, Bool-cases, mem_of_keep, any_of_mem, inl, inr,
}
use dingolytics_backend.Base.Result.{ok}
use dingolytics_backend.Base.Filters.{
  length-append, keep-append, count_pos, any-append, any-keep, any_congr, any-and,
  length-keep-keep-le,
}
use dingolytics_backend.Grants.{
  ObjectRef, AccessPermission, selects, exists, permission_row, same_row, grant, revoke,
}

-- No grant stands twice in the table.
abbrev pub IsUnique : List AccessPermission → Type 0
IsUnique rows = (row : AccessPermission) → length (keep (same_row row) rows) ≤ 1

exists-any :
    (rows : List AccessPermission) (o : ObjectRef) (s : String) (u : ℕ)
    → exists rows o s u ≡ any (selects o (some s) (some u) none) rows
unfolding exists
exists-any rows o s u = count_pos (selects o (some s) (some u) none) rows

same_row_eq : (a b : AccessPermission) → same_row a b ≡ true → a ≡ b
unfolding same_row
same_row_eq a b h =
    ground (arith, eq_iff b.object_type a.object_type, eq_iff b.access_type a.access_type)

IsUnique-snoc :
    (rows : List AccessPermission) (row : AccessPermission)
    → IsUnique rows
    → keep (same_row row) rows ≡ []
    → IsUnique (rows ++ row ∷ [])
IsUnique-snoc rows row u e r =
    rw (keep-append (same_row r) rows (row ∷ []), length-append)
      (elim (Bool-cases (same_row r row)) [
        | inl same ↦
            rw same
              (rw (ap (λ z. keep (same_row z) rows) (same_row_eq r row same) ∙ e) (omega arith))
        | inr other ↦ rw other (omega (arith, u r))
      ])

module _ (o : ObjectRef) (s : String) (u : ℕ) (row : AccessPermission) where
  exists-snoc :
      (rows : List AccessPermission)
      → exists (rows ++ row ∷ []) o s u
        ≡ (exists rows o s u || selects o (some s) (some u) none row)
  exists-snoc rows =
      rw (exists-any (rows ++ row ∷ []) o s u, exists-any rows o s u, any-append) (ground arith)

  exists_present :
      (rows : List AccessPermission)
      → Memᴰ row rows
      → exists rows o s u ≡ (exists rows o s u || selects o (some s) (some u) none row)
  exists_present rows m =
      rw (exists-any rows o s u) (ground (arith, any_of_mem (selects o (some s) (some u) none) m))

-- What `grant` promises: it returns the row asked for, keeps each row at most once, and `exists`
-- afterwards reports what it reported before and what the new row grants.
pub record Granted (rows : List AccessPermission) (obj : ObjectRef) (t : String)
    (grantee grantor : ℕ) : Type 0 where
  pub rows_after : List AccessPermission
  pub returned :
      grant rows obj t grantee grantor ≡ ok (permission_row obj t grantee grantor, rows_after)
  pub unique : IsUnique rows_after
  pub reported :
      (o : ObjectRef) (s : String) (u : ℕ)
      → exists rows_after o s u ≡ (
          exists rows o s u
          || selects o (some s) (some u) none (permission_row obj t grantee grantor))

module _ (rows : List AccessPermission) (obj : ObjectRef) (t : String) (grantee grantor : ℕ) where
  abbrev row : AccessPermission
  row = permission_row obj t grantee grantor

  grant_new :
      keep (same_row row) rows ≡ [] → grant rows obj t grantee grantor ≡ ok (row, rows ++ row ∷ [])
  unfolding grant
  grant_new e = rw (e, grant)

  grant_found :
      (found : AccessPermission)
      → keep (same_row row) rows ≡ found ∷ []
      → grant rows obj t grantee grantor ≡ ok (found, rows)
  unfolding grant
  grant_found found e = rw (e, grant)

  -- In a table without repeated rows a grant succeeds, and granting is all that it does.
  pub grant-Granted : IsUnique rows → Granted rows obj t grantee grantor
  grant-Granted u = go (keep (same_row row) rows) refl
    where
      go :
          (found : List AccessPermission)
          → keep (same_row row) rows ≡ found
          → Granted rows obj t grantee grantor
      go [] e = record {
        rows_after = rows ++ row ∷ [];
        returned = grant_new e;
        unique = IsUnique-snoc rows row u e;
        reported = λ o s v. exists-snoc o s v row rows;
      }
      go (x ∷ []) e =
          let (m, same) =
            mem_of_keep (same_row row) rows (subst (λ l. Memᴰ x l) (sym e) (Memᴰ.head refl)) in
          let is_row = same_row_eq row x same in
          record {
            rows_after = rows;
            returned = grant_found x e ∙ ap (λ r. ok (r, rows)) (sym is_row);
            unique = u;
            reported =
                λ o s v. exists_present o s v row rows (subst (λ r. Memᴰ r rows) (sym is_row) m);
          }
      go (x ∷ y ∷ l) e = absurd (omega (arith, u row, ap length e))

abbrev type_covers : Option String → String → Bool
type_covers none s = true
type_covers (some t) s = if t == "" then true else t == s

-- What `revoke` takes away.
abbrev pub is_revoked : ObjectRef → ℕ → Option String → ObjectRef → String → ℕ → Bool
is_revoked obj grantee t o s u =
    obj.id == o.id && obj.table_name == o.table_name && grantee == u && type_covers t s

module _ (rows : List AccessPermission) (obj : ObjectRef) (grantee : ℕ) where
  revoked_row :
      (t : Option String) (o : ObjectRef) (s : String) (u : ℕ) (row : AccessPermission)
      → s ≢ ""
      → (not (selects obj t (some grantee) none row) && selects o (some s) (some u) none row)
        ≡ (selects o (some s) (some u) none row && not (is_revoked obj grantee t o s u))
  unfolding selects
  revoked_row none o s u row h = ground (
    arith,
    eq_iff row.object_type o.table_name,
    eq_iff row.object_type obj.table_name,
    eq_iff obj.table_name o.table_name,
    eq_iff s "",
  )
  revoked_row (some t) o s u row h = ground (
    arith,
    eq_iff row.object_type o.table_name,
    eq_iff row.object_type obj.table_name,
    eq_iff obj.table_name o.table_name,
    eq_iff s "",
    eq_iff row.access_type s,
    eq_iff row.access_type t,
    eq_iff t s,
  )

  exists-revoke-any :
      (t : Option String) (o : ObjectRef) (s : String) (u : ℕ)
      → exists (revoke rows obj grantee t).0 o s u
        ≡ any
            (λ row.
              not (selects obj t (some grantee) none row) && selects o (some s) (some u) none row)
            rows
  unfolding revoke
  exists-revoke-any t o s u = exists-any _ o s u ∙ any-keep _ _ rows

  -- After `revoke` with a named access type, or with none, exactly the permissions of that grantee
  -- on that object that the type covers are gone; every other answer of `exists` is as before.
  pub exists-revoke :
      (t : Option String) (o : ObjectRef) (s : String) (u : ℕ)
      → s ≢ ""
      → exists (revoke rows obj grantee t).0 o s u
        ≡ (exists rows o s u && not (is_revoked obj grantee t o s u))
  exists-revoke t o s u h =
      exists-revoke-any t o s u
      ∙ any_congr _ _ (λ row. revoked_row t o s u row h) rows
      ∙ any-and _ _ rows
      ∙ ap (λ b. b && not (is_revoked obj grantee t o s u)) (sym (exists-any rows o s u))

  -- Revoking keeps each grant at most once.
  pub revoke-IsUnique : (t : Option String) → IsUnique rows → IsUnique (revoke rows obj grantee t).0
  unfolding revoke
  revoke-IsUnique t h row = omega (
    arith,
    h row,
    length-keep-keep-le (same_row row) (λ r. not (selects obj t (some grantee) none r)) rows,
  )

  -- What has just been granted is reported.
  pub Granted-exists :
      (t : String) (grantor : ℕ) (g : Granted rows obj t grantee grantor)
      → exists g.rows_after obj t grantee ≡ true
  unfolding selects permission_row
  Granted-exists t grantor g =
      ground (arith, g.reported obj t grantee, beq_refl t, beq_refl obj.table_name, eq_iff t "")
