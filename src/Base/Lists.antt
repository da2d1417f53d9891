-- ===== src/Base/Lists.antt =====
-- Lists measured by native numbers, and the tests that comprehensions and `in` make.
use Prim.Native.Nat.{ℕ, suc}
use mathlib.Core.Path.{◌≡◌, refl, sym, subst}
use mathlib.Core.Logic.{inl, inr}
use mathlib.Core.Bool.{Bool, true, false, ◌&&◌, ◌||◌}
use mathlib.Core.Option.{Option, none, some}
use mathlib.Core.List.{List, [], ◌∷◌, Memᴰ}
use native.Mathlib.Omega.{arith}
use dingolytics_backend.Base.Tests.{if◌then◌else◌, Eq, ◌==◌, Bool-cases}

module _ {ℓ} {A : Type ℓ} where
  abbrev pub length : List A → ℕ
  length [] = 0
  length (x ∷ xs) = suc (length xs)

  -- `[x for x in xs if p(x)]`
  abbrev pub keep : (A → Bool) → List A → List A
  keep p [] = []
  keep p (x ∷ xs) = let rest = keep p xs in if p x then x ∷ rest else rest

  abbrev pub any : (A → Bool) → List A → Bool
  any p [] = false
  any p (x ∷ xs) = p x || any p xs

  abbrev pub all : (A → Bool) → List A → Bool
  all p [] = true
  all p (x ∷ xs) = p x && all p xs

  -- `next((x for x in xs if p(x)), None)`
  abbrev pub find : (A → Bool) → List A → Option A
  find p [] = none
  find p (x ∷ xs) = if p x then some x else find p xs

  pub any_find : (p : A → Bool) (xs : List A) → any p xs ≡ true → (x : A) × Memᴰ x xs × (p x ≡ true)
  any_find p [] h = cc
  any_find p (x ∷ xs) h = elim (Bool-cases (p x)) [
    | inl e ↦ (x, Memᴰ.head refl, e)
    | inr e ↦ let (y, m, q) = any_find p xs (rw e at h) in (y, Memᴰ.tail m, q)
  ]

  pub any_of_mem : (p : A → Bool) {x : A} {xs : List A} → Memᴰ x xs → p x ≡ true → any p xs ≡ true
  any_of_mem p (Memᴰ.head e) h = rw (subst (λ y. p y ≡ true) e h)
  any_of_mem p (Memᴰ.tail m) h = ground (arith, any_of_mem p m h)

  pub all_at : (p : A → Bool) {x : A} {xs : List A} → Memᴰ x xs → all p xs ≡ true → p x ≡ true
  all_at p (Memᴰ.head e) h = subst (λ y. p y ≡ true) (sym e) (ground arith)
  all_at p (Memᴰ.tail m) h = all_at p m (ground arith)

  pub all_of : (p : A → Bool) (xs : List A) → ((x : A) → Memᴰ x xs → p x ≡ true) → all p xs ≡ true
  all_of p [] h = refl
  all_of p (x ∷ xs) h = rw (h x (Memᴰ.head refl)) (all_of p xs (λ y m. h y (Memᴰ.tail m)))

  pub all_fails :
      (p : A → Bool) (xs : List A) → all p xs ≡ false → (x : A) × Memᴰ x xs × (p x ≡ false)
  all_fails p [] h = cc
  all_fails p (x ∷ xs) h = elim (Bool-cases (p x)) [
    | inl e ↦ let (y, m, q) = all_fails p xs (rw e at h) in (y, Memᴰ.tail m, q)
    | inr e ↦ (x, Memᴰ.head refl, e)
  ]

  pub all_fails_of :
      (p : A → Bool) {x : A} {xs : List A} → Memᴰ x xs → p x ≡ false → all p xs ≡ false
  all_fails_of p (Memᴰ.head e) h = rw (subst (λ y. p y ≡ false) e h)
  all_fails_of p (Memᴰ.tail m) h = ground (arith, all_fails_of p m h)

  keep_head :
      (p : A → Bool) {x y : A} {xs ys : List A}
      → p y ≡ true
      → (Memᴰ x ys → Memᴰ x xs × (p x ≡ true))
      → Memᴰ x (y ∷ ys)
      → Memᴰ x (y ∷ xs) × (p x ≡ true)
  keep_head p h rest (Memᴰ.head e) = (Memᴰ.head e, subst (λ z. p z ≡ true) (sym e) h)
  keep_head p h rest (Memᴰ.tail m) = let (n, q) = rest m in (Memᴰ.tail n, q)

  -- What a comprehension with a condition holds: the members that meet it.
  pub mem_of_keep :
      (p : A → Bool) {x : A} (xs : List A) → Memᴰ x (keep p xs) → Memᴰ x xs × (p x ≡ true)
  mem_of_keep p [] m = elim m [ ]
  mem_of_keep p (y ∷ xs) m = elim (Bool-cases (p y)) [
    | inl e ↦ keep_head p e (mem_of_keep p xs) (rw e at m)
    | inr e ↦ let (n, q) = mem_of_keep p xs (rw e at m) in (Memᴰ.tail n, q)
  ]

  pub mem_keep_of :
      (p : A → Bool) {x : A} {xs : List A} → Memᴰ x xs → p x ≡ true → Memᴰ x (keep p xs)
  mem_keep_of p (Memᴰ.head {x = y} e) h = rw (subst (λ z. p z ≡ true) e h) (Memᴰ.head e)
  mem_keep_of p (Memᴰ.tail {x = y} m) h = elim (Bool-cases (p y)) [
    | inl e ↦ rw e (Memᴰ.tail (mem_keep_of p m h))
    | inr e ↦ rw e (mem_keep_of p m h)
  ]

module _ {ℓ} {A : Type ℓ} ⦃e : Eq A⦄ where
  -- `a in xs`
  abbrev pub contains : List A → A → Bool
  contains xs a = any (λ x. x == a) xs

  pub contains→Mem : (xs : List A) (a : A) → contains xs a ≡ true → Memᴰ a xs
  contains→Mem xs a h =
      let (x, m, q) = any_find (λ x. x == a) xs h in subst (λ y. Memᴰ y xs) ((e.beq_iff x a).0 q) m

  pub Mem→contains : {xs : List A} {a : A} → Memᴰ a xs → contains xs a ≡ true
  Mem→contains {a = a} m = any_of_mem (λ x. x == a) m ((e.beq_iff a a).1 refl)
