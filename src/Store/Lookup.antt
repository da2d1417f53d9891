-- ===== src/Store/Lookup.antt =====
-- A row that is found by its id is a row of the table.
use mathlib.Core.List.{Memᴰ}
use dingolytics_backend.Base.{
  ℕ, true, ◌&&◌, List, [], ◌∷◌, ◌≡◌, sym, ◌∙◌, mem_of_keep, ◌==◌, nat_eq,
}
use dingolytics_backend.Base.Result.{ok, ok_inj}
use dingolytics_backend.Grants.Handlers.{the_one, or_404}
use dingolytics_backend.Store.{Query, Store, find_query}

module _ {ℓ} {A : Type ℓ} where
  pub the_one-Mem : (rows : List A) (x : A) → the_one rows ≡ ok x → Memᴰ x rows
  unfolding the_one
  the_one-Mem [] x h = cc
  the_one-Mem (y ∷ []) x h = Memᴰ.head (sym (ok_inj h))
  the_one-Mem (y ∷ z ∷ rows) x h = cc

  -- Only one row is there to be found.
  pub the_one-only : (rows : List A) (x y : A) → the_one rows ≡ ok x → Memᴰ y rows → y ≡ x
  unfolding the_one
  the_one-only [] x y h m = elim m [ ]
  the_one-only (z ∷ []) x y h (Memᴰ.head e) = e ∙ ok_inj h
  the_one-only (z ∷ []) x y h (Memᴰ.tail m) = elim m [ ]
  the_one-only (z ∷ w ∷ rows) x y h m = cc

  pub or_404-the_one : (rows : List A) (x : A) → or_404 (the_one rows) ≡ ok x → the_one rows ≡ ok x
  unfolding the_one or_404
  or_404-the_one [] x h = cc
  or_404-the_one (y ∷ []) x h = h
  or_404-the_one (y ∷ z ∷ rows) x h = cc

-- The query that a handler finds is in the table, with the id and in the organization that it asked for.
pub find_query-Mem :
    (d : Store) (id org : ℕ) (q : Query)
    → or_404 (find_query d id org) ≡ ok q
    → Memᴰ q d.queries × ((q.id == id && q.org_id == org) ≡ true)
unfolding find_query
find_query-Mem d id org q h =
    mem_of_keep (λ q. q.id == id && q.org_id == org) d.queries
      (the_one-Mem _ q (or_404-the_one _ q h))
