-- ===== src/CrossQueries/Reads.antt =====
-- Whose results a query over other queries may read.
use mathlib.Core.List.{Memᴰ}
use dingolytics_backend.Base.{
  ℕ, true, Bool, Option, none, some, List, [], ◌∷◌, keep, ◌==◌, nat_eq, ◌≡◌, sym, ap, ◌⊎◌, inl, inr,
  eq_of_beq, subst, ◌++◌, false, Bool-cases, ◌∙◌, refl,
}
use dingolytics_backend.Base.Result.{ok, other_error, ok_inj, >>=-eq-ok, guard-eq-ok}
use dingolytics_backend.Base.Text.{Text, codes, str_ℕ}
use dingolytics_backend.Users.{Principal, has_permission}
use dingolytics_backend.Access.{has_access}
use dingolytics_backend.Grants.Handlers.{the_one}
use dingolytics_backend.Store.{Query, Store, guarded_source}
use dingolytics_backend.CrossQueries.{
  Reader, is_org, has_access_to_source, load_query, get_query_results, create_table, create_tables,
  create_tables_from_query_ids, extract_query_ids, extract_cached_query_ids, run_query, Table,
  Environment, Store, Option, Text, List, ℕ, Query, Bool, the_one, ok, has_access, guarded_source,
  Column, Dict,
}
use dingolytics_backend.Base.{◌≡◌, some, keep, ap, ◌==◌, true, nat_eq}

-- The query is there once, in the organization of the reader, on a data source that the reader may view, or without a data source if
-- the reader is an administrator.
pub record IsReadable (d : Store) (u : Reader) (query_id : ℕ) : Type 0 where
  pub query : Query
  pub found : the_one (keep (λ q. q.id == query_id) d.queries) ≡ ok query
  pub same_org : u.org_id ≡ some query.org_id
  pub access :
      ((source : ℕ) × (query.data_source_id ≡ some source)
        × (has_access d.groups (guarded_source d source) u.principal true ≡ true))
      ⊎ ((query.data_source_id ≡ none) × (has_permission d.groups u.principal "admin" ≡ true))

is_org-some : (o : Option ℕ) (org : ℕ) → is_org o org ≡ true → o ≡ some org
unfolding is_org
is_org-some none org h = cc
is_org-some (some n) org h = ap some (eq_of_beq n org h)

has_access_to_source-true :
    (d : Store) (p : Principal) (o : Option ℕ) (b : Bool)
    → has_access_to_source d p o ≡ ok b
    → b ≡ true
    → ((source : ℕ) × (o ≡ some source)
        × (has_access d.groups (guarded_source d source) p true ≡ true))
      ⊎ ((o ≡ none) × (has_permission d.groups p "admin" ≡ true))
unfolding has_access_to_source
has_access_to_source-true d p none b h t = elim (Bool-cases (has_permission d.groups p "admin")) [
  | inl e ↦ inr (refl, e)
  | inr e ↦ absurd (cc (rw e at h))
]
has_access_to_source-true d p (some id) b h t = inl (id, refl, ok_inj h ∙ t)

load_query-IsReadable :
    (d : Store) (u : Reader) (query_id : ℕ) (q : Query)
    → load_query d (some u) query_id ≡ ok q
    → IsReadable d u query_id
unfolding load_query
load_query-IsReadable d u query_id q h =
    let (r, found, h1) = >>=-eq-ok (the_one (keep (λ q. q.id == query_id) d.queries)) _ h in
    let (same, h2) = guard-eq-ok (is_org u.org_id r.org_id) (other_error "PermissionError") _ h1 in
    let (b, looked, h3) = >>=-eq-ok (has_access_to_source d u.principal r.data_source_id) _ h2 in
    let (passed, _) = guard-eq-ok b (other_error "PermissionError") _ h3 in
    record {
      query = r;
      found = found;
      same_org = is_org-some u.org_id r.org_id same;
      access = has_access_to_source-true d u.principal r.data_source_id b looked passed;
    }

module _ {Cell Connection : Type 0} (env : Environment Cell Connection) where
  get_query_results-IsReadable :
      (d : Store) (u : Reader) (query_id : ℕ) (cached : Bool) (t : Table Cell)
      → get_query_results env d (some u) query_id cached ≡ ok t
      → IsReadable d u query_id
  unfolding get_query_results
  get_query_results-IsReadable d u query_id true t h =
      let (q, loaded, _) = >>=-eq-ok (load_query d (some u) query_id) _ h in
      load_query-IsReadable d u query_id q loaded
  get_query_results-IsReadable d u query_id false t h =
      let (q, loaded, _) = >>=-eq-ok (load_query d (some u) query_id) _ h in
      load_query-IsReadable d u query_id q loaded

  create_tables-IsReadable :
      (d : Store) (u : Reader) (prefix : Text) (cached : Bool) (c c' : Connection) (ids : List ℕ)
      → create_tables env d (some u) prefix cached c ids ≡ ok c'
      → (id : ℕ) → Memᴰ id ids
      → IsReadable d u id
  unfolding create_tables
  create_tables-IsReadable d u prefix cached c c' [] h id m = elim m [ ]
  create_tables-IsReadable d u prefix cached c c' (x ∷ ids) h id m =
      let (t, read, h1) = >>=-eq-ok (get_query_results env d (some u) x cached) _ h in
      let (c1, _, h2) = >>=-eq-ok (create_table env c (prefix ++ str_ℕ x) t) _ h1 in
      elim m [
        | Memᴰ.head e ↦
            subst (IsReadable d u) (sym e) (get_query_results-IsReadable d u x cached t read)
        | Memᴰ.tail n ↦ create_tables-IsReadable d u prefix cached c1 c' ids h2 id n
      ]

  -- A query that is carried out for a user, or for the API user of a key, reads only what this reader may: each query that it names, as
  -- a table of fresh or of cached results, is of the reader's organization, and on a data source that the reader may view, or
  -- without a data source if the reader is an administrator. `in_set` visits every number that it is given.
  pub run_query-IsReadable :
      (d : Store) (u : Reader) (text : Text)
      (out : Option (List Column × List (Dict Text Cell)) × Option Text)
      → ((ids : List ℕ) (id : ℕ) → Memᴰ id ids → Memᴰ id (env.in_set ids))
      → run_query env d (some u) text ≡ ok out
      → (id : ℕ) → Memᴰ id (extract_query_ids text) ⊎ Memᴰ id (extract_cached_query_ids text)
      → IsReadable d u id
  unfolding run_query create_tables_from_query_ids
  run_query-IsReadable d u text out visits h id m =
      let (c, created, _) =
        >>=-eq-ok
          (create_tables_from_query_ids env d (some u) env.connect (extract_query_ids text)
            (extract_cached_query_ids text))
          _ h in
      let (c1, cached, fresh) =
        >>=-eq-ok
          (create_tables env d (some u) (codes "cached_query_") true env.connect
            (env.in_set (extract_cached_query_ids text)))
          _ created in
      elim m [
        | inl n ↦
            create_tables-IsReadable d u (codes "query_") false c1 c _ fresh id (visits _ id n)
        | inr n ↦
            create_tables-IsReadable d u (codes "cached_query_") true env.connect c1 _ cached id
              (visits _ id n)
      ]
