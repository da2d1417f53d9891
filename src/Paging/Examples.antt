-- ===== src/Paging/Examples.antt =====
-- Listings of a few rows, and of one row more than a page holds.
use dingolytics_backend.Base.{
  ℕ, zero, suc, ◌+◌, ◌≤◌, ◌≡◌, ◌⊎◌, refl, List, [], ◌∷◌, length, map, arith, true, ltb,
}
use dingolytics_backend.Base.Result.{Result, ok, err, abort}
use dingolytics_backend.Paging.{Page, paginate, require_fields, offset}
use dingolytics_backend.Paging.Slices.{as_documented}
use dingolytics_backend.Paging.Offsets.{IsPage}
use dingolytics_backend.Paging.Pages.{Refuses, collect, paginate_bounds, paginate_complete}

abbrev few : List ℕ
few = 11 ∷ 12 ∷ 13 ∷ 14 ∷ 15 ∷ []

abbrev rows : ℕ → List ℕ
rows zero = []
rows (suc n) = n ∷ rows n

abbrev double : ℕ → ℕ
double n = n + n

abbrev pages_of : List ℕ → ℕ → ℕ → Result (Page ℕ)
pages_of xs n page = paginate as_documented double xs page n

second_page :
    pages_of few 2 2 ≡ ok (record { count = 5; page = 2; page_size = 2; results = 26 ∷ 28 ∷ [] })
unfolding paginate offset
second_page = refl

missing_field : require_fields (("name", few) ∷ []) ("name" ∷ "query" ∷ []) ≡ err (abort 400)
unfolding require_fields
missing_field = refl

paginate_bounds_example :
    (IsPage 5 3 2
      × (out : Page ℕ) × (pages_of few 2 3 ≡ ok out)
      × (out.count ≡ 5)
      × (length out.results ≤ 2)
      × (length out.results ≤ 100)
      × (ltb 0 (length out.results) ≡ true))
    ⊎ ((¬ IsPage 5 3 2) × Refuses as_documented double few (pages_of few 2 3))
paginate_bounds_example = paginate_bounds as_documented double few (λ page per_page _ _. refl) 3 2

paginate_complete_example : collect (pages_of few 2) 3 ≡ ok (map double few)
paginate_complete_example =
    paginate_complete as_documented double few (λ page per_page _ _. refl) 2 3 (omega arith)
      (omega arith) (omega arith) (omega arith)
