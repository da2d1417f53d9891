-- ===== src/Queries/Hashes.antt =====
-- The hash of a query under the endpoints of redash/handlers/queries.py: requests as steps on the tables.
use dingolytics_backend.Base.{
  ℕ, String, Bool, false, Option, List, [], ◌∷◌, ◌++◌, ◌≡◌, refl, sym, ap, subst, Bool-cases, inl,
  inr, ◌==◌, nat_eq,
}
use dingolytics_backend.Base.Result.{ok, ok_inj, >>=-eq-ok, >>-eq-ok}
use dingolytics_backend.Base.Text.{Text}
use dingolytics_backend.Users.{Principal}
use dingolytics_backend.Access.{require_access, require_admin_or_owner}
use dingolytics_backend.Grants.Handlers.{or_404}
use dingolytics_backend.Parameters.Values.{Definition}
use dingolytics_backend.Store.{
  QuerySchedule, Query, Store, find_query, find_data_source, guarded_source, log,
}
use dingolytics_backend.Queries.{hashed, archive_row, set_key, archive, regenerate_api_key, fork}
use dingolytics_backend.Queries.Listing.{require_access_to_dropdown_queries}
use dingolytics_backend.Queries.Update.{
  may_copy_from, owner_of, Field, update_model, Columns, known_keys, write_query, update_query,
  create_query, archive_query, regenerate_key, fork_query,
}
use dingolytics_backend.Queries.Versions.{update_query-Updated}
use dingolytics_backend.Access.Guards.{permissions_ok}

module _ (hash_of : Option ℕ → Text → Bool → Text) where
  abbrev pub IsHashed : Query → Type 0
  IsHashed q = q.query_hash ≡ hash_of q.data_source_id q.query_text q.apply_auto_limit

  abbrev pub AllHashed : List Query → Type 0
  AllHashed [] = Unit
  AllHashed (q ∷ queries) = IsHashed q × AllHashed queries

  -- A request that is answered, by the endpoint.
  pub data Step : Store → Store → Type 0 where
    updated :
        {d d' : Store} (p : Principal) (org id : ℕ) (fields : List Field) (q : Query)
        → update_query hash_of p org d id fields ≡ ok (q, d')
        → Step d d'
    created :
        {d d' : Store} (p : Principal) (org source : ℕ) (name text : Text)
        (schedule : Option QuerySchedule) (parameters : List Definition) (auto_limit : Bool)
        (columns : Columns) (unknown : List String) (id visualization_id : ℕ) (key : String)
        (q : Query)
        → create_query hash_of p org d source name text schedule parameters auto_limit columns
            unknown id visualization_id key
          ≡ ok (q, d')
        → Step d d'
    archived :
        {d d' : Store} (p : Principal) (org id : ℕ)
        → archive_query hash_of p org d id ≡ ok d'
        → Step d d'
    rekeyed :
        {d d' : Store} (p : Principal) (org id : ℕ) (key : String)
        → regenerate_key hash_of p org d id key ≡ ok d'
        → Step d d'
    forked :
        {d d' : Store} (p : Principal) (org id new_id visualization_id : ℕ) (key : String)
        (q : Query)
        → fork_query hash_of p org d id new_id visualization_id key ≡ ok (q, d')
        → Step d d'

  pub data Reaches : Store → Store → Type 0 where
    here : {d : Store} → Reaches d d
    step : {d d' d'' : Store} → Reaches d d' → Step d' d'' → Reaches d d''

  AllHashed-write :
      (q : Query) (queries : List Query)
      → IsHashed q
      → AllHashed queries
      → AllHashed (write_query q queries)
  unfolding write_query
  AllHashed-write q [] h a = tt
  AllHashed-write q (r ∷ queries) h a = elim (Bool-cases (r.id == q.id)) [
    | inl e ↦ rw e (h, AllHashed-write q queries h a.1)
    | inr e ↦ rw e (a.0, AllHashed-write q queries h a.1)
  ]

  AllHashed-append :
      (queries : List Query) (q : Query)
      → AllHashed queries
      → IsHashed q
      → AllHashed (queries ++ q ∷ [])
  AllHashed-append [] q a h = (h, tt)
  AllHashed-append (r ∷ queries) q a h = (a.0, AllHashed-append queries q a.1 h)

  AllHashed-archive_row :
      (id : ℕ) (queries : List Query)
      → AllHashed queries
      → AllHashed (archive_row hash_of id queries)
  unfolding archive_row hashed
  AllHashed-archive_row id [] a = tt
  AllHashed-archive_row id (q ∷ queries) a = elim (Bool-cases (q.id == id)) [
    | inl e ↦ rw e (refl, AllHashed-archive_row id queries a.1)
    | inr e ↦ rw e (a.0, AllHashed-archive_row id queries a.1)
  ]

  AllHashed-set_key :
      (id : ℕ) (key : String) (queries : List Query)
      → AllHashed queries
      → AllHashed (set_key hash_of id key queries)
  unfolding set_key hashed
  AllHashed-set_key id key [] a = tt
  AllHashed-set_key id key (q ∷ queries) a = elim (Bool-cases (q.id == id)) [
    | inl e ↦ rw e (refl, AllHashed-set_key id key queries a.1)
    | inr e ↦ rw e (a.0, AllHashed-set_key id key queries a.1)
  ]

  hashed-IsHashed : (q : Query) → IsHashed (hashed hash_of q)
  unfolding hashed
  hashed-IsHashed q = refl

  update-AllHashed :
      (p : Principal) (org : ℕ) (d : Store) (id : ℕ) (fields : List Field) (q' : Query) (d' : Store)
      → update_query hash_of p org d id fields ≡ ok (q', d')
      → AllHashed d.queries
      → AllHashed d'.queries
  update-AllHashed p org d id fields q' d' h a =
      let u = update_query-Updated hash_of p org d id fields q' d' h in
      subst AllHashed (sym u.rows) (
        AllHashed-write q' d.queries
          (subst IsHashed (sym u.after) (hashed-IsHashed (update_model u.before fields))) a)

  archive-AllHashed :
      (p : Principal) (org : ℕ) (d : Store) (id : ℕ) (d' : Store)
      → archive_query hash_of p org d id ≡ ok d'
      → AllHashed d.queries
      → AllHashed d'.queries
  unfolding archive_query archive
  archive-AllHashed p org d id d' h a =
      let (q, found, h1) = >>=-eq-ok (or_404 (find_query d id org)) _ h in
      let (_, h2) = >>-eq-ok (require_admin_or_owner d.groups p q.user_id) _ h1 in
      subst AllHashed (ap (λ x. x.queries) (ok_inj h2)) (AllHashed-archive_row q.id d.queries a)

  regenerate-AllHashed :
      (p : Principal) (org : ℕ) (d : Store) (id : ℕ) (key : String) (d' : Store)
      → regenerate_key hash_of p org d id key ≡ ok d'
      → AllHashed d.queries
      → AllHashed d'.queries
  unfolding regenerate_key regenerate_api_key log
  regenerate-AllHashed p org d id key d' h a =
      let (_, h0) = permissions_ok d.groups p ("edit_query" ∷ []) _ h in
      let (q, found, h1) = >>=-eq-ok (or_404 (find_query d id org)) _ h0 in
      let (_, h2) = >>-eq-ok (require_admin_or_owner d.groups p q.user_id) _ h1 in
      subst AllHashed (ap (λ x. x.queries) (ok_inj h2)) (AllHashed-set_key q.id key d.queries a)

  create-AllHashed :
      (p : Principal) (org : ℕ) (d : Store) (source : ℕ) (name text : Text)
      (schedule : Option QuerySchedule) (parameters : List Definition) (auto_limit : Bool)
      (columns : Columns) (unknown : List String) (id visualization_id : ℕ) (key : String)
      (q' : Query) (d' : Store)
      → create_query hash_of p org d source name text schedule parameters auto_limit columns unknown
          id visualization_id key
        ≡ ok (q', d')
      → AllHashed d.queries
      → AllHashed d'.queries
  unfolding create_query log hashed
  create-AllHashed p org d source name text schedule parameters auto_limit columns unknown id
        visualization_id key q' d' h a =
      let (_, h0) = permissions_ok d.groups p ("create_query" ∷ []) _ h in
      let (s, found, h1) = >>=-eq-ok (find_data_source d source org) _ h0 in
      let (_, h2) = >>-eq-ok (require_access d.groups (guarded_source d s.id) p false) _ h1 in
      let (_, h3) = >>-eq-ok (require_access_to_dropdown_queries d p parameters) _ h2 in
      let (_, h4) = >>-eq-ok (known_keys hash_of p org unknown) _ h3 in
      let (owner, _, h5) = >>=-eq-ok (owner_of p) _ h4 in
      subst AllHashed (ap (λ r. r.1.queries) (ok_inj h5)) (AllHashed-append d.queries _ a refl)

  fork-AllHashed :
      (p : Principal) (org : ℕ) (d : Store) (id new_id visualization_id : ℕ) (key : String)
      (q' : Query) (d' : Store)
      → fork_query hash_of p org d id new_id visualization_id key ≡ ok (q', d')
      → AllHashed d.queries
      → AllHashed d'.queries
  unfolding fork_query log fork hashed
  fork-AllHashed p org d id new_id visualization_id key q' d' h a =
      let (_, h0) = permissions_ok d.groups p ("edit_query" ∷ []) _ h in
      let (q, found, h1) = >>=-eq-ok (or_404 (find_query d id org)) _ h0 in
      let (_, h2) = >>-eq-ok (may_copy_from hash_of p org d q.data_source_id) _ h1 in
      let (owner, _, h3) = >>=-eq-ok (owner_of p) _ h2 in
      subst AllHashed (ap (λ r. r.1.queries) (ok_inj h3)) (AllHashed-append d.queries _ a refl)

  Step-AllHashed : {d d' : Store} → Step d d' → AllHashed d.queries → AllHashed d'.queries
  Step-AllHashed (updated p org id fields q h) a = update-AllHashed p org _ id fields q _ h a
  Step-AllHashed
        (created p org source name text schedule parameters auto_limit columns unknown id vis key q
          h)
        a =
      create-AllHashed p org _ source name text schedule parameters auto_limit columns unknown id
        vis key q _ h a
  Step-AllHashed (archived p org id h) a = archive-AllHashed p org _ id _ h a
  Step-AllHashed (rekeyed p org id key h) a = regenerate-AllHashed p org _ id key _ h a
  Step-AllHashed (forked p org id new_id vis key q h) a =
      fork-AllHashed p org _ id new_id vis key q _ h a

  -- If every query of the table has the hash of its text, options and data source, so it is after any sequence of
  -- answered requests that update, create, archive or copy queries or renew their keys.
  pub Reaches-AllHashed : {d d' : Store} → Reaches d d' → AllHashed d.queries → AllHashed d'.queries
  Reaches-AllHashed here a = a
  Reaches-AllHashed (step before s) a = Step-AllHashed s (Reaches-AllHashed before a)
