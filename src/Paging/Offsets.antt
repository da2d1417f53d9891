-- ===== src/Paging/Offsets.antt =====
-- Which pages there are, and where they begin.
use native.Mathlib.Nat.{mul-le-mul_left}
use dingolytics_backend.Base.{
  ℕ, zero, suc, ◌+◌, ◌-◌, ◌*◌, ◌≤◌, ◌<◌, ◌≡◌, ◌⊎◌, inl, inr, refl, ap, List, [], ◌∷◌, ◌++◌, length,
  map, ltb, leb, arith, Bool-cases, ◌&&◌, ◌||◌, ◌≢◌, ◌==◌, nat_eq,
}
use dingolytics_backend.Base.Result.{ok, err, abort}
use dingolytics_backend.Paging.{offset}
use dingolytics_backend.Paging.Slices.{take, or_not_found, per_page_of}

-- The pages that the code lets through.
abbrev pub IsPage : (count page page_size : ℕ) → Type 0
IsPage count page page_size =
    (1 ≤ page)
    × (1 ≤ page_size)
    × (page_size ≤ 250)
    × ((offset page page_size < count) ⊎ ((count ≡ 0) × (page ≡ 1)))

pub offset-suc : (page n : ℕ) → offset (suc page) n ≡ page * n
unfolding offset
offset-suc page n = ap (λ (t : ℕ). t * n) (omega arith)

offset_next : (page n : ℕ) → offset (suc (suc page)) n ≡ offset (suc page) n + n
offset_next page n = omega (arith, offset-suc page n, offset-suc (suc page) n)

pub per_page_of-le : (n : ℕ) → per_page_of n ≤ n
per_page_of-le n = ground arith

pub is_page? : (count page n : ℕ) → IsPage count page n ⊎ (¬ IsPage count page n)
is_page? count page n =
    let test =
      leb 1 page
      && leb 1 n
      && leb n 250
      && (ltb (offset page n) count || (count == 0 && page == 1)) in
    elim (Bool-cases test) [
      | inl h ↦ inl (
        ground arith,
        ground arith,
        ground arith,
        elim (Bool-cases (ltb (offset page n) count)) [
          | inl e ↦ inl (ground arith)
          | inr e ↦ inr (ground arith)
        ],
      )
      | inr h ↦ inr (λ p. ground arith)
    ]

pub offset-per_page_of : (page n : ℕ) → offset page (per_page_of n) ≤ offset page n
unfolding offset
offset-per_page_of page n = mul-le-mul_left (page - 1) (per_page_of-le n)

module _ {ℓ κ} {A : Type ℓ} {B : Type κ} where
  pub length-map : (f : A → B) (xs : List A) → length (map f xs) ≡ length xs
  length-map f [] = refl
  length-map f (x ∷ xs) = ap suc (length-map f xs)

  pub map-append : (f : A → B) (xs ys : List A) → map f (xs ++ ys) ≡ map f xs ++ map f ys
  map-append f [] ys = refl
  map-append f (x ∷ xs) ys = ap (λ l. f x ∷ l) (map-append f xs ys)

pub or_not_found-ok {ℓ} :
    {A : Type ℓ} (page : ℕ) (xs : List A)
    → (page ≡ 1) ⊎ (0 < length xs)
    → or_not_found page xs ≡ ok xs
or_not_found-ok page [] (inl h) = ground arith
or_not_found-ok page [] (inr h) = absurd (omega arith)
or_not_found-ok page (x ∷ xs) h = refl

pub not_found {ℓ} :
    {A : Type ℓ} (page n : ℕ) (xs : List A)
    → xs ≡ []
    → page ≢ 1
    → or_not_found page (take n xs) ≡ err (abort 404)
not_found page zero xs e h = ground arith
not_found page (suc n) [] e h = ground arith
not_found page (suc n) (x ∷ xs) e h = absurd (cc e)
