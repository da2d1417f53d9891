-- ===== src/Sources/Deletion.antt =====
-- What is left of a data source that has been deleted.
use mathlib.Core.List.{Memᴰ}
use dingolytics_backend.Base.{
  contains, ℕ, Bool, false, not, List, [], ◌∷◌, keep, map, any, ◌≡◌, refl, arith, ◌==◌, nat_eq,
  mem_of_keep, eq_of_beq, sym, subst, ap, ◌∙◌,
}
use dingolytics_backend.Base.Result.{ok, ok_inj, >>=-eq-ok, guard-eq-ok}
use dingolytics_backend.Users.{Principal}
use dingolytics_backend.Access.Guards.{permissions_ok}
use dingolytics_backend.Store.{Query, Store, is_at, find_data_source, log}
use dingolytics_backend.Store.Lookup.{the_one-Mem}
use dingolytics_backend.Sources.{detach, shows, delete, delete_source}

-- No row of the second store and no stream refers to the source, no query shows one of its results, and the queries of the
-- other sources are all still there.
pub record Deleted (id : ℕ) (streams : List ℕ) (d d' : Store) : Type 0 where
  pub no_source : any (λ s. s.id == id) d'.data_sources ≡ false
  pub no_group : any (λ r. r.data_source_id == id) d'.data_source_groups ≡ false
  pub no_result : any (λ r. r.data_source_id == id) d'.results ≡ false
  pub no_stream : any (λ s. s == id) streams ≡ false
  pub no_query : any (λ q. is_at id q.data_source_id) d'.queries ≡ false
  pub not_shown : any (shows (keep (λ r. r.data_source_id == id) d.results)) d'.queries ≡ false
  pub others_kept :
      (q : Query) → Memᴰ q d.queries → is_at id q.data_source_id ≡ false → Memᴰ q d'.queries

keep_others {ℓ} :
    {A : Type ℓ} (p : A → Bool) (xs : List A) → any p (keep (λ x. not (p x)) xs) ≡ false
keep_others p [] = refl
keep_others p (x ∷ xs) = ground (arith, keep_others p xs)

detach-none : (id : ℕ) (q : Query) → is_at id (detach id q).data_source_id ≡ false
unfolding detach is_at
detach-none id q = ground arith

detach-all :
    (id : ℕ) (qs : List Query) → any (λ q. is_at id q.data_source_id) (map (detach id) qs) ≡ false
detach-all id [] = refl
detach-all id (q ∷ qs) = rw (detach-none id q) (detach-all id qs)

detach-other : (id : ℕ) (q : Query) → is_at id q.data_source_id ≡ false → detach id q ≡ q
unfolding detach
detach-other id q h = rw h refl

detach-Mem :
    (id : ℕ) (q : Query) {qs : List Query}
    → Memᴰ q qs
    → is_at id q.data_source_id ≡ false
    → Memᴰ q (map (detach id) qs)
detach-Mem id q (Memᴰ.head {x = r} e) h =
    Memᴰ.head (sym (ap (detach id) (sym e) ∙ detach-other id q h) ∙ refl)
detach-Mem id q (Memᴰ.tail m) h = Memᴰ.tail (detach-Mem id q m h)

delete-Deleted :
    (streams : List ℕ) (d : Store) (id : ℕ) (d' : Store)
    → delete streams d id ≡ ok d'
    → Deleted id streams d d'
unfolding delete
delete-Deleted streams d id d' h =
    let (no_stream, h1) = guard-eq-ok (not (contains streams id)) _ _ h in
    let (unused, e) = guard-eq-ok _ _ _ h1 in
    subst (λ x. Deleted id streams d x) (ok_inj e)
      (record {
        no_source = keep_others (λ s. s.id == id) d.data_sources;
        no_group = keep_others (λ r. r.data_source_id == id) d.data_source_groups;
        no_result = keep_others (λ r. r.data_source_id == id) d.results;
        no_stream = ground arith;
        no_query = detach-all id d.queries;
        not_shown = ground arith;
        others_kept = λ q m. detach-Mem id q m;
      })

log-Deleted :
    (streams : List ℕ) (d : Store) (id : ℕ) (d' : Store)
    → Deleted id streams d d'
    → Deleted id streams d (log d' "delete" "datasource" id)
unfolding log
log-Deleted streams d id d' r = record {
  no_source = r.no_source;
  no_group = r.no_group;
  no_result = r.no_result;
  no_stream = r.no_stream;
  no_query = r.no_query;
  not_shown = r.not_shown;
  others_kept = r.others_kept;
}

-- If the deletion of a source is answered, no row of the store and no stream refers to the source any more, no query shows
-- a result that went with it, and the queries of the other sources are all still there, unchanged.
pub delete_source_lem :
    (p : Principal) (org : ℕ) (streams : List ℕ) (d : Store) (id : ℕ) (d' : Store)
    → delete_source p org streams d id ≡ ok d'
    → Deleted id streams d d'
unfolding delete_source find_data_source
delete_source_lem p org streams d id d' h =
    let (_, h0) = permissions_ok d.groups p ("admin" ∷ []) _ h in
    let (s, found, h1) = >>=-eq-ok (find_data_source d id org) _ h0 in
    let (x, gone, h2) = >>=-eq-ok (delete streams d s.id) _ h1 in
    let (m, same) = mem_of_keep _ d.data_sources (the_one-Mem _ s found) in
    subst (λ y. Deleted id streams d y) (ok_inj h2)
      (log-Deleted streams d id x (
        delete-Deleted streams d id x
          (subst (λ i. delete streams d i ≡ ok x) (eq_of_beq s.id id (ground arith)) gone)))
