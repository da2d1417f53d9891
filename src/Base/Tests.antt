-- ===== src/Base/Tests.antt =====
-- Boolean tests on numbers and texts, and the conditional.
use Prim.Native.Nat.{ℕ, compare, Ordering}
use Prim.Native.String.{String}
use mathlib.Core.Path.{◌≡◌, refl}
use mathlib.Core.Logic.{◌↔◌, ◌⊎◌, inl, inr}
use mathlib.Core.Bool.{Bool, true, false}
use mathlib.Core.Option.{Option, none, some}
use native.Mathlib.Omega.{arith}
use text.Mathlib.Text.{◌==◌ as str_eq}
use text.Mathlib.TextEquality.{eq_iff}

abbrev pub ltb : ℕ → ℕ → Bool
ltb a b = elim (compare a b) [ Ordering.lt ↦ true | _ ↦ false ]

abbrev pub leb : ℕ → ℕ → Bool
leb a b = elim (compare a b) [ Ordering.gt ↦ false | _ ↦ true ]

abbrev pub nat_beq : ℕ → ℕ → Bool
nat_beq a b = elim (compare a b) [ Ordering.eq ↦ true | _ ↦ false ]

pub nat_beq_iff : (a b : ℕ) → (nat_beq a b ≡ true) ↔ (a ≡ b)
nat_beq_iff a b = ground arith

infix 1 if◌then◌else◌
abbrev pub if◌then◌else◌ {ℓ} : {A : Type ℓ} → Bool → A → A → A
if true then x else y = x
if false then x else y = y

-- Python's `==` at the types of keys.
pub record Eq {κ} (K : Type κ) : Type κ where
  pub beq : K → K → Bool
  pub beq_iff : (x y : K) → (beq x y ≡ true) ↔ (x ≡ y)

instance abbrev pub string_eq : Eq String
string_eq = record { beq_iff = eq_iff; beq = str_eq }

infix 50 ◌==◌
abbrev pub ◌==◌ {κ} : {K : Type κ} ⦃e : Eq K⦄ → K → K → Bool
◌==◌ ⦃e⦄ = e.beq

module _ {ℓ} {A : Type ℓ} ⦃e : Eq A⦄ where
  pub beq_refl : (a : A) → (a == a) ≡ true
  beq_refl a = (e.beq_iff a a).1 refl

  pub eq_of_beq : (a b : A) → (a == b) ≡ true → a ≡ b
  eq_of_beq a b h = (e.beq_iff a b).0 h

instance abbrev pub nat_eq : Eq ℕ
nat_eq = record { beq_iff = nat_beq_iff; beq = nat_beq }

-- To split on a computed value and keep the equation.
pub Bool-cases : (b : Bool) → (b ≡ true) ⊎ (b ≡ false)
Bool-cases true = inl refl
Bool-cases false = inr refl

pub Option-cases {ℓ} : {A : Type ℓ} (o : Option A) → (o ≡ none) ⊎ ((a : A) × (o ≡ some a))
Option-cases none = inl refl
Option-cases (some a) = inr (a, refl)

abbrev pub is_some {ℓ} : {A : Type ℓ} → Option A → Bool
is_some none = false
is_some (some a) = true

-- `o or d`, for a value that is never falsy
abbrev pub or_else {ℓ} : {A : Type ℓ} → Option A → A → A
or_else none d = d
or_else (some a) d = a
