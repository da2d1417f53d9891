-- ===== src/Queries/Versions.antt =====
-- What the endpoints of redash/handlers/queries.py check, and what they leave in the table.
use dingolytics_backend.Base.{
  ℕ, Bool, true, false, not, Option, none, some, List, [], ◌∷◌, ◌≡◌, sym, ap, ◌∙◌, arith, or_else,
  ◌==◌, nat_eq, string_eq,
}
use dingolytics_backend.Base.Result.{ok, abort, >>=-eq-ok, guard-eq-ok, >>-eq-ok, ok_inj}
use dingolytics_backend.Base.Text.{Text}
use dingolytics_backend.Users.{Principal, has_permissions}
use dingolytics_backend.Access.Guards.{permissions_ok}
use dingolytics_backend.Grants.Handlers.{or_404}
use dingolytics_backend.Grants.Modify.{can_modify, require_object_modify_permission}
use dingolytics_backend.Store.{Query, Store, find_query}
use dingolytics_backend.Queries.{hashed}
use dingolytics_backend.Queries.Listing.{require_access_to_dropdown_queries}
use dingolytics_backend.Queries.Update.{
  may_use_source, Field, update_model, version_of, is_behind, write_query, update_query,
  parameters_of, source_of,
}

-- The query that an update starts from and the one that it writes.
pub record Updated (hash_of : Option ℕ → Text → Bool → Text) (p : Principal) (org : ℕ) (d : Store)
    (query_id : ℕ) (fields : List Field) (q' : Query) (d' : Store) : Type 0 where
  pub before : Query
  pub found : or_404 (find_query d query_id org) ≡ ok before
  pub permitted : has_permissions d.groups p ("edit_query" ∷ []) ≡ true
  pub modifiable :
      can_modify d.groups d.permissions p
        (record { table_name = "queries"; id = before.id })
        before.user_id
        p
      ≡ true
  pub current : is_behind (version_of fields) before ≡ false
  pub after : q' ≡ hashed hash_of (update_model before fields)
  pub rows : d'.queries ≡ write_query q' d.queries

untrue : {b : Bool} → not b ≡ true → b ≡ false
untrue h = ground arith

module _ (hash_of : Option ℕ → Text → Bool → Text) (p : Principal) (org : ℕ) where
  pub update_query-Updated :
      (d : Store) (query_id : ℕ) (fields : List Field) (q' : Query) (d' : Store)
      → update_query hash_of p org d query_id fields ≡ ok (q', d')
      → Updated hash_of p org d query_id fields q' d'
  unfolding update_query require_object_modify_permission
  update_query-Updated d query_id fields q' d' h =
      let (permitted, h1) = permissions_ok d.groups p ("edit_query" ∷ []) _ h in
      let (q, found, h2) = >>=-eq-ok (or_404 (find_query d query_id org)) _ h1 in
      let (modifiable, h3) = guard-eq-ok _ (abort 403) _ h2 in
      let (_, h4) =
        >>-eq-ok (require_access_to_dropdown_queries d p (or_else (parameters_of fields) [])) _
          h3 in
      let (_, h5) = >>-eq-ok (may_use_source hash_of p org d (source_of fields)) _ h4 in
      let (current, h6) = guard-eq-ok _ (abort 409) _ h5 in
      record {
        before = q;
        found = found;
        permitted = permitted;
        modifiable = modifiable;
        current = untrue current;
        after = sym (ap (λ r. r.0) (ok_inj h6));
        rows =
            sym (ap (λ r. r.1.queries) (ok_inj h6))
            ∙ ap (λ x. write_query x d.queries) (ap (λ r. r.0) (ok_inj h6));
      }

abbrev behind : Option ℕ → ℕ → Bool
behind none n = false
behind (some v) n = not (v == n)
