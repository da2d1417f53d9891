-- ===== src/Base/Filters.antt =====
-- Lists cut down by a test: their lengths, and what they hold.
use Prim.Native.Nat.{◌+◌, ◌≤◌}
use mathlib.Core.Path.{◌≡◌, refl}
use mathlib.Core.Bool.{Bool, true, false, ◌&&◌, ◌||◌, not}
use mathlib.Core.List.{List, [], ◌∷◌, ◌++◌}
use native.Mathlib.Omega.{arith}
use dingolytics_backend.Base.Tests.{ltb}
use dingolytics_backend.Base.Lists.{length, keep, any, all}

module _ {ℓ} {A : Type ℓ} where
  pub length-append : (xs ys : List A) → length (xs ++ ys) ≡ length xs + length ys
  length-append [] ys = omega arith
  length-append (x ∷ xs) ys = omega (arith, length-append xs ys)

  pub keep-append : (p : A → Bool) (xs ys : List A) → keep p (xs ++ ys) ≡ keep p xs ++ keep p ys
  keep-append p [] ys = refl
  keep-append p (x ∷ xs) ys = ground (arith, keep-append p xs ys)

  pub keep-keep : (p q : A → Bool) (xs : List A) → keep p (keep q xs) ≡ keep (λ x. q x && p x) xs
  keep-keep p q [] = refl
  keep-keep p q (x ∷ xs) = ground (arith, keep-keep p q xs)

  pub keep_congr : (p q : A → Bool) → ((x : A) → p x ≡ q x) → (xs : List A) → keep p xs ≡ keep q xs
  keep_congr p q h [] = refl
  keep_congr p q h (x ∷ xs) = ground (arith, h x, keep_congr p q h xs)

  pub length-keep-le :
      (p q : A → Bool)
      → ((x : A) → p x ≡ true → q x ≡ true)
      → (xs : List A) → length (keep p xs) ≤ length (keep q xs)
  length-keep-le p q h [] = omega arith
  length-keep-le p q h (x ∷ xs) = ground (arith, h x, length-keep-le p q h xs)

  -- A count above zero is the existence of a match.
  pub count_pos : (p : A → Bool) (xs : List A) → ltb 0 (length (keep p xs)) ≡ any p xs
  count_pos p [] = refl
  count_pos p (x ∷ xs) = ground (arith, count_pos p xs)

  pub any-append : (p : A → Bool) (xs ys : List A) → any p (xs ++ ys) ≡ (any p xs || any p ys)
  any-append p [] ys = refl
  any-append p (x ∷ xs) ys = ground (arith, any-append p xs ys)

  pub any-keep : (p q : A → Bool) (xs : List A) → any p (keep q xs) ≡ any (λ x. q x && p x) xs
  any-keep p q [] = refl
  any-keep p q (x ∷ xs) = ground (arith, any-keep p q xs)

  pub any_congr : (p q : A → Bool) → ((x : A) → p x ≡ q x) → (xs : List A) → any p xs ≡ any q xs
  any_congr p q h [] = refl
  any_congr p q h (x ∷ xs) = ground (arith, h x, any_congr p q h xs)

  pub any_never : (p : A → Bool) → ((x : A) → p x ≡ false) → (xs : List A) → any p xs ≡ false
  any_never p h [] = refl
  any_never p h (x ∷ xs) = ground (arith, h x, any_never p h xs)

  pub any-and : (p : A → Bool) (c : Bool) (xs : List A) → any (λ x. p x && c) xs ≡ (any p xs && c)
  any-and p c [] = refl
  any-and p c (x ∷ xs) = ground (arith, any-and p c xs)

  pub length-keep-keep-le :
      (p q : A → Bool) (xs : List A) → length (keep p (keep q xs)) ≤ length (keep p xs)
  length-keep-keep-le p q [] = omega arith
  length-keep-keep-le p q (x ∷ xs) = ground (arith, length-keep-keep-le p q xs)

  pub any-keep-not : (p : A → Bool) (xs : List A) → any p (keep (λ x. not (p x)) xs) ≡ false
  any-keep-not p [] = refl
  any-keep-not p (x ∷ xs) = ground (arith, any-keep-not p xs)

  pub all-keep : (p q : A → Bool) (xs : List A) → all p xs ≡ true → all p (keep q xs) ≡ true
  all-keep p q [] h = refl
  all-keep p q (x ∷ xs) h = ground (arith, all-keep p q xs)

  pub all-snoc :
      (p : A → Bool) (xs : List A) (x : A)
      → all p xs ≡ true
      → p x ≡ true
      → all p (xs ++ x ∷ []) ≡ true
  all-snoc p [] x h e = ground arith
  all-snoc p (y ∷ xs) x h e = ground (arith, all-snoc p xs x)

  pub all_mono :
      (p q : A → Bool)
      → ((x : A) → p x ≡ true → q x ≡ true)
      → (xs : List A) → all p xs ≡ true
      → all q xs ≡ true
  all_mono p q h [] e = refl
  all_mono p q h (x ∷ xs) e = ground (arith, h x, all_mono p q h xs)
