-- ===== src/Dashboards/Handlers.antt =====
-- redash/handlers/dashboards.py: creating, changing and archiving a dashboard. `has_changes` is SQLAlchemy's decision
-- whether a commit writes the row, which then gets the next version.
use dingolytics_backend.Base.{
  ℕ, suc, String, Bool, true, false, not, Option, none, some, List, [], ◌∷◌, ◌++◌, or_else, ◌==◌,
  ◌≡◌, refl, sym, ap, ◌∙◌, arith, Bool-cases, inl, inr, if◌then◌else◌, nat_eq, string_eq, ◌⊎◌,
}
use dingolytics_backend.Base.Result.{
  Result, ok, err, abort, runtime_error, from_option, guard, ok_inj, ◌>>=◌, ◌>>◌, >>=-eq-ok,
  guard-eq-ok, >>-eq-ok,
}
use dingolytics_backend.Base.Text.{Text}
use dingolytics_backend.Users.{Principal, has_permissions}
use dingolytics_backend.Access.{require_permissions}
use dingolytics_backend.Access.Guards.{permissions_ok}
use dingolytics_backend.Grants.Modify.{can_modify, require_object_modify_permission}
use dingolytics_backend.Store.{Dashboard, Store, log, find_dashboard}
use dingolytics_backend.Dashboards.{generate_slug, user_id_of}

-- The items that `project` keeps, of the columns that are modelled.
pub data Field : Type 0 where
  name_field : Text → Field
  version_field : ℕ → Field
  tags_field : List String → Field
  is_draft_field : Bool → Field
  is_archived_field : Bool → Field

unfoldable pub set_field : Dashboard → Field → Dashboard
set_field b (name_field t) = record b { name = t }
set_field b (version_field v) = record b { version = v }
set_field b (tags_field ts) = record b { tags = ts }
set_field b (is_draft_field x) = record b { is_draft = x }
set_field b (is_archived_field x) = record b { is_archived = x }

unfoldable pub update_dashboard_model : Dashboard → List Field → Dashboard
unfolding set_field
update_dashboard_model b [] = b
update_dashboard_model b (f ∷ fields) = update_dashboard_model (set_field b f) fields

-- The last item of a key counts, as in JSON.
unfoldable pub version_of : List Field → Option ℕ
version_of [] = none
version_of (version_field v ∷ fields) = some (or_else (version_of fields) v)
version_of (_ ∷ fields) = version_of fields

unfoldable pub is_behind : Option ℕ → Dashboard → Bool
is_behind none b = false
is_behind (some v) b = not (v == b.version)

unfoldable pub write_dashboard : Dashboard → List Dashboard → List Dashboard
write_dashboard b [] = []
write_dashboard b (c ∷ rows) = (if c.id == b.id then b else c) ∷ write_dashboard b rows

module _ (has_changes : Dashboard → Dashboard → Bool) (p : Principal) (org : ℕ) where
  -- The row as the commit writes it: the version counts the writes.
  unfoldable pub committed : (before after : Dashboard) → Dashboard
  committed before after =
      if has_changes before after then record after { version = suc before.version } else before

  -- `DashboardListResource.post`
  unfoldable pub create_dashboard : Store → (new_id : ℕ) → Text → Result (Dashboard × Store)
  create_dashboard d new_id name =
      require_permissions d.groups p ("create_dashboard" ∷ []) false (do
        owner ← user_id_of p
        slug ← from_option (generate_slug d.dashboards name) runtime_error
        let b : Dashboard = record {
          id = new_id;
          version = 1;
          org_id = org;
          slug = slug;
          name = name;
          user_id = owner;
          is_archived = false;
          is_draft = true;
          tags = [];
        }
        ok (b, record d { dashboards = d.dashboards ++ b ∷ [] }))

  -- `DashboardResource.post`
  unfoldable pub update_dashboard : Store → (id : ℕ) → List Field → Result (Dashboard × Store)
  unfolding committed update_dashboard_model version_of is_behind write_dashboard
  update_dashboard d id fields = require_permissions d.groups p ("edit_dashboard" ∷ []) false (do
    b ← find_dashboard d id org
    require_object_modify_permission d.groups d.permissions p
        (record { table_name = "dashboards"; id = b.id }) b.user_id p
    guard (not (is_behind (version_of fields) b)) (abort 409)
    let b' = committed b (update_dashboard_model b fields)
    ok (
      b',
      log (record d { dashboards = write_dashboard b' d.dashboards }) "edit" "dashboard" b.id,
    ))

  -- `DashboardResource.delete`: it asks for the permission alone.
  unfoldable pub archive_dashboard : Store → (id : ℕ) → Result (Dashboard × Store)
  unfolding committed write_dashboard
  archive_dashboard d id = require_permissions d.groups p ("edit_dashboard" ∷ []) false (do
    b ← find_dashboard d id org
    let b' = committed b (record b { is_archived = true })
    ok (
      b',
      log (record d { dashboards = write_dashboard b' d.dashboards }) "archive" "dashboard" b.id,
    ))

  is_behind-committed :
      (b after : Dashboard)
      → has_changes b after ≡ true
      → is_behind (some b.version) (committed b after) ≡ true
  unfolding is_behind committed
  is_behind-committed b after e = rw e (ground arith)

  -- Once an update of a dashboard has been written, a request that carries the version from before it is behind, so
  -- that it is answered 409 and cannot overwrite it.
  is_behind-update_dashboard :
      (d : Store) (id : ℕ) (fields : List Field) (b' : Dashboard) (d' : Store)
      → update_dashboard d id fields ≡ ok (b', d')
      → (b : Dashboard) × (find_dashboard d id org ≡ ok b)
        × ((has_changes b (update_dashboard_model b fields) ≡ false)
            ⊎ (is_behind (some b.version) b' ≡ true))
  unfolding update_dashboard
  is_behind-update_dashboard d id fields b' d' h =
      let (_, h1) = permissions_ok d.groups p ("edit_dashboard" ∷ []) _ h in
      let (b, found, h2) = >>=-eq-ok (find_dashboard d id org) _ h1 in
      let (_, h3) =
        >>-eq-ok
          (require_object_modify_permission d.groups d.permissions p
            (record { table_name = "dashboards"; id = b.id }) b.user_id p)
          _ h2 in
      let (_, h4) = guard-eq-ok _ (abort 409) _ h3 in
      let written : committed b (update_dashboard_model b fields) ≡ b' =
        ap (λ r. r.0) (ok_inj h4) in
      (
        b,
        found,
        elim (Bool-cases (has_changes b (update_dashboard_model b fields))) [
          | inl e ↦ inr (ap (is_behind (some b.version)) (sym written) ∙ is_behind-committed b _ e)
          | inr e ↦ inl e
        ],
      )

  -- A caller with the permission who may not modify a dashboard is refused its update, but its archiving is
  -- carried out.
  archive_dashboard_unchecked :
      (d : Store) (id : ℕ) (fields : List Field) (b : Dashboard)
      → has_permissions d.groups p ("edit_dashboard" ∷ []) ≡ true
      → find_dashboard d id org ≡ ok b
      → can_modify d.groups d.permissions p
          (record { table_name = "dashboards"; id = b.id })
          b.user_id
          p
        ≡ false
      → (update_dashboard d id fields ≡ err (abort 403))
        × (let b' = committed b (record b { is_archived = true }) in
            archive_dashboard d id
            ≡ ok (
              b',
              log
                  (record d { dashboards = write_dashboard b' d.dashboards })
                  "archive"
                  "dashboard"
                  b.id,
            ))
  unfolding update_dashboard archive_dashboard require_permissions require_object_modify_permission
  archive_dashboard_unchecked d id fields b permitted found refused =
      (rw (permitted, found, refused) refl, rw (permitted, found) refl)
