-- ===== src/Results/Serving.antt =====
-- Whom a result is handed out to.
use mathlib.Core.List.{Memᴰ}
use dingolytics_backend.Base.{
  ℕ, true, ◌&&◌, Option, none, some, [], ◌∷◌, keep, ◌≡◌, ap, ◌∙◌, arith, ◌==◌, nat_eq, subst,
  mem_of_keep, eq_of_beq,
}
use dingolytics_backend.Base.Result.{
  ok, abort, from_option, ok_inj, >>=-eq-ok, >>-eq-ok, guard-eq-ok,
}
use dingolytics_backend.Base.Text.{text_eq}
use dingolytics_backend.Users.{Principal, api_user, ApiUser}
use dingolytics_backend.Access.{has_access, require_access}
use dingolytics_backend.Access.Guards.{any_permission_ok}
use dingolytics_backend.Grants.Handlers.{the_one, or_404}
use dingolytics_backend.Execution.{QueryResult}
use dingolytics_backend.Store.{Query, Store, find_query, find_result, guarded_source}
use dingolytics_backend.Store.Lookup.{the_one-Mem, or_404-the_one}
use dingolytics_backend.Results.{
  result_by_id, same_hash, shown_result, check_hash, result_of_query, chosen_result, get_result,
}

result_by_id-Mem :
    (d : Store) (org : ℕ) (id : Option ℕ) (r : QueryResult)
    → result_by_id d org id ≡ ok (some r)
    → Memᴰ r d.results × (r.org_id ≡ org)
unfolding result_by_id find_result
result_by_id-Mem d org none r h = cc
result_by_id-Mem d org (some id) r h =
    let (x, found, h1) =
      >>=-eq-ok (or_404 (the_one (keep (λ r. r.id == id && r.org_id == org) d.results))) _ h in
    let (m, e) =
      mem_of_keep (λ r. r.id == id && r.org_id == org) d.results
        (the_one-Mem _ x (or_404-the_one _ x found)) in
    let same : x ≡ r = cc (ok_inj h1) in
    subst (λ y. Memᴰ y d.results × (y.org_id ≡ org)) same (m, eq_of_beq x.org_id org (ground arith))

shown_result-Mem :
    (d : Store) (org : ℕ) (q : Query) (found : Option QueryResult) (r : QueryResult)
    → ((x : QueryResult) → found ≡ some x → Memᴰ x d.results × (x.org_id ≡ org))
    → shown_result d org q found ≡ ok (some r)
    → Memᴰ r d.results × (r.org_id ≡ org)
unfolding shown_result
shown_result-Mem d org q none r known h = result_by_id-Mem d org q.latest_query_data_id r h
shown_result-Mem d org q (some x) r known h = known r (ok_inj h)

check_hash-ok :
    (p : Principal) (q : Query) (o : Option QueryResult) (r : QueryResult)
    → check_hash p q o ≡ ok (some r)
    → (o ≡ some r) × (same_hash p q r ≡ true)
unfolding check_hash
check_hash-ok p q none r h = cc
check_hash-ok p q (some x) r h =
    let (same, h1) = guard-eq-ok (same_hash p q x) (abort 404) _ h in
    let e = ok_inj h1 in
    (
      e,
      subst
          (λ (o : Option QueryResult). elim o as (λ _. Type 0) [
            | none ↦ Unit
            | some y ↦ same_hash p q y ≡ true
          ])
          e same,
    )

chosen_result-Mem :
    (d : Store) (p : Principal) (org : ℕ) (query_id query_result_id : Option ℕ) (r : QueryResult)
    → chosen_result d p org query_id query_result_id ≡ ok (some r)
    → Memᴰ r d.results × (r.org_id ≡ org)
unfolding chosen_result result_of_query
chosen_result-Mem d p org none query_result_id r h = result_by_id-Mem d org query_result_id r h
chosen_result-Mem d p org (some id) query_result_id r h =
    let (found, e, h1) = >>=-eq-ok (result_by_id d org query_result_id) _ h in
    let (q, _, h2) = >>=-eq-ok (or_404 (find_query d id org)) _ h1 in
    let (shown, f, h3) = >>=-eq-ok (shown_result d org q found) _ h2 in
    let (g, _) = check_hash-ok p q shown r h3 in
    shown_result-Mem d org q found r (λ x k. result_by_id-Mem d org query_result_id x (e ∙ ap ok k))
      (f ∙ ap ok g)

from_option-ok :
    (o : Option QueryResult) (r : QueryResult) → from_option o (abort 404) ≡ ok r → o ≡ some r
from_option-ok none r h = cc
from_option-ok (some x) r h = ap some (ok_inj h)

-- A result that is handed out is one of the organization, and the caller may view its data source.
pub get_result-has_access :
    (d : Store) (p : Principal) (org : ℕ) (query_id query_result_id : Option ℕ) (r : QueryResult)
    → get_result d p org query_id query_result_id ≡ ok r
    → Memᴰ r d.results
      × (r.org_id ≡ org)
      × (has_access d.groups (guarded_source d r.data_source_id) p true ≡ true)
unfolding get_result require_access
get_result-has_access d p org query_id query_result_id r h =
    let (_, h1) = any_permission_ok d.groups p ("view_query" ∷ "execute_query" ∷ []) _ h in
    let (o, chosen, h2) = >>=-eq-ok (chosen_result d p org query_id query_result_id) _ h1 in
    let (x, e, h3) = >>=-eq-ok (from_option o (abort 404)) _ h2 in
    let (may, h4) =
      guard-eq-ok (has_access d.groups (guarded_source d x.data_source_id) p true) (abort 403) _
        h3 in
    let (m, same_org) =
      chosen_result-Mem d p org query_id query_result_id x
        (chosen ∙ ap ok (from_option-ok o x e)) in
    subst
      (λ y.
        Memᴰ y d.results
        × (y.org_id ≡ org)
        × (has_access d.groups (guarded_source d y.data_source_id) p true ≡ true))
      (ok_inj h4) (m, same_org, may)

hash_checked :
    (d : Store) (a : ApiUser) (org id : ℕ) (query_result_id : Option ℕ) (r : QueryResult)
    → chosen_result d (api_user a) org (some id) query_result_id ≡ ok (some r)
    → (q : Query) × (or_404 (find_query d id org) ≡ ok q) × (q.query_hash ≡ r.query_hash)
unfolding chosen_result result_of_query same_hash
hash_checked d a org id query_result_id r h =
    let (found, e, h1) = >>=-eq-ok (result_by_id d org query_result_id) _ h in
    let (q, there, h2) = >>=-eq-ok (or_404 (find_query d id org)) _ h1 in
    let (shown, f, h3) = >>=-eq-ok (shown_result d org q found) _ h2 in
    let (_, same) = check_hash-ok (api_user a) q shown r h3 in
    (q, there, eq_of_beq q.query_hash r.query_hash same)

-- An API user who asks for the result of a query gets one under the hash that the query has, even by the
-- id of another result.
get_result-same_hash :
    (d : Store) (a : ApiUser) (org query_id : ℕ) (query_result_id : Option ℕ) (r : QueryResult)
    → get_result d (api_user a) org (some query_id) query_result_id ≡ ok r
    → (q : Query) × (or_404 (find_query d query_id org) ≡ ok q) × (q.query_hash ≡ r.query_hash)
unfolding get_result
get_result-same_hash d a org query_id query_result_id r h =
    let (_, h1) =
      any_permission_ok d.groups (api_user a) ("view_query" ∷ "execute_query" ∷ []) _ h in
    let (o, chosen, h2) =
      >>=-eq-ok (chosen_result d (api_user a) org (some query_id) query_result_id) _ h1 in
    let (x, e, h3) = >>=-eq-ok (from_option o (abort 404)) _ h2 in
    let (_, h4) =
      >>-eq-ok (require_access d.groups (guarded_source d x.data_source_id) (api_user a) true) _
        h3 in
    let (q, found, same) =
      hash_checked d a org query_id query_result_id x (chosen ∙ ap ok (from_option-ok o x e)) in
    (q, found, same ∙ ap (λ y. y.query_hash) (ok_inj h4))
