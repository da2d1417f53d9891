-- ===== src/Paging/Slices.antt =====
-- Pieces of a list, and what flask_sqlalchemy 3.0 documents of `paginate`: at most 100 rows on a page, and 404
-- for a page without rows, unless it is the first.
use native.Mathlib.Numerals.{unary_clauses}
use dingolytics_backend.Base.{
  ℕ, zero, suc, ◌+◌, ◌-◌, ◌≤◌, ◌≡◌, refl, ap, ◌∙◌, List, [], ◌∷◌, ◌++◌, length, ltb, ◌==◌, nat_eq,
  if◌then◌else◌, arith, ◌<◌,
}
use dingolytics_backend.Base.Result.{Result, ok, err, abort}
use dingolytics_backend.Paging.{offset}

-- The default of `max_per_page`.
abbrev pub max_per_page : ℕ
max_per_page = 100

abbrev pub per_page_of : ℕ → ℕ
per_page_of n = if ltb max_per_page n then max_per_page else n

module _ {ℓ} {A : Type ℓ} where
  abbrev pub take : ℕ → List A → List A
  take zero xs = []
  take (suc n) [] = []
  take (suc n) (x ∷ xs) = x ∷ take n xs

  abbrev pub drop : ℕ → List A → List A
  drop zero xs = xs
  drop (suc n) [] = []
  drop (suc n) (x ∷ xs) = drop n xs

  pub length-take-le : (n : ℕ) (xs : List A) → length (take n xs) ≤ n
  length-take-le zero xs = omega arith
  length-take-le (suc n) [] = omega arith
  length-take-le (suc n) (x ∷ xs) = omega (arith, length-take-le n xs)

  pub length-take-drop-le : (n m : ℕ) (xs : List A) → length (take n (drop m xs)) ≤ length xs
  length-take-drop-le zero m xs = omega arith
  length-take-drop-le (suc n) zero [] = omega arith
  length-take-drop-le (suc n) zero (x ∷ xs) = omega (arith, length-take-drop-le n zero xs)
  length-take-drop-le (suc n) (suc m) [] = omega arith
  length-take-drop-le (suc n) (suc m) (x ∷ xs) = omega (arith, length-take-drop-le (suc n) m xs)

  pub take_all : (n : ℕ) (xs : List A) → length xs ≤ n → take n xs ≡ xs
  take_all zero [] h = refl
  take_all zero (x ∷ xs) h = absurd (omega arith)
  take_all (suc n) [] h = refl
  take_all (suc n) (x ∷ xs) h = ap (λ l. x ∷ l) (take_all n xs (omega arith))

  pub drop_all : (n : ℕ) (xs : List A) → length xs ≤ n → drop n xs ≡ []
  drop_all zero [] h = refl
  drop_all zero (x ∷ xs) h = absurd (omega arith)
  drop_all (suc n) [] h = refl
  drop_all (suc n) (x ∷ xs) h = drop_all n xs (omega arith)

  pub length-drop : (n : ℕ) (xs : List A) → length (drop n xs) ≡ length xs - n
  length-drop zero xs = omega arith
  length-drop (suc n) [] = omega arith
  length-drop (suc n) (x ∷ xs) = omega (arith, length-drop n xs)

  pub take-append-drop : (n m : ℕ) (xs : List A) → take n xs ++ take m (drop n xs) ≡ take (n + m) xs
  take-append-drop zero m xs = ap (λ (k : ℕ). take k xs) (omega arith)
  take-append-drop (suc n) zero [] = simp unary_clauses refl
  take-append-drop (suc n) (suc m) [] = simp unary_clauses refl
  take-append-drop (suc n) m (x ∷ xs) =
      let e : suc (n + m) ≡ suc n + m = omega arith in
      ap (λ l. x ∷ l) (take-append-drop n m xs) ∙ ap (λ (k : ℕ). take k (x ∷ xs)) e

  pub take-NonEmpty : (n : ℕ) (xs : List A) → 1 ≤ n → 0 < length xs → 0 < length (take n xs)
  take-NonEmpty zero xs hn h = absurd (omega arith)
  take-NonEmpty (suc n) [] hn h = h
  take-NonEmpty (suc n) (x ∷ xs) hn h = omega arith

  -- The page that a list has at a size.
  abbrev pub slice : List A → (page per_page : ℕ) → List A
  slice xs page per_page = take per_page (drop (offset page per_page) xs)

  -- `error_out`
  abbrev pub or_not_found : (page : ℕ) → List A → Result (List A)
  or_not_found page [] = if page == 1 then ok [] else err (abort 404)
  or_not_found page (x ∷ xs) = ok (x ∷ xs)

  abbrev pub as_documented : List A → (page per_page : ℕ) → Result (List A)
  as_documented xs page per_page = or_not_found page (slice xs page (per_page_of per_page))
