-- ===== src/Base/Result.antt =====
-- Exceptions as values: what a Python function of the program raises, and what it returns.
use mathlib.Core.Path.{◌≡◌, refl}
use mathlib.Core.Bool.{Bool, true, false}
use mathlib.Core.Option.{Option, none, some}
use Prim.Native.Nat.{ℕ}
use Prim.Native.String.{String}
use mathlib.Core.List.{List}

pub data Exception : Type 0 where
  -- flask_restful's `abort(status)`
  abort : ℕ → Exception
  key_error : String → Exception
  attribute_error type_error value_error runtime_error not_implemented : Exception
  no_result_found multiple_results_found : Exception
  invalid_parameters : List (List ℕ) → Exception
  query_detached : ℕ → Exception
  -- an exception of code that is not modelled
  other_error : String → Exception

pub data Result {κ} (R : Type κ) : Type κ where
  err : Exception → Result R
  ok : R → Result R

-- `if not b: raise x`
abbrev pub guard : Bool → Exception → Result (Unit {0})
guard false x = err x
guard true x = ok tt

infixl 5 ◌>>=◌ ◌>>◌
abbrev pub ◌>>=◌ {ℓ κ} : {R : Type ℓ} {S : Type κ} → Result R → (R → Result S) → Result S
err x >>= rest = err x
ok r >>= rest = rest r

abbrev pub ◌>>◌ {κ} : {S : Type κ} → Result (Unit {0}) → Result S → Result S
first >> rest = first >>= λ _. rest

abbrev pub from_option {ℓ} : {A : Type ℓ} → Option A → Exception → Result A
from_option none x = err x
from_option (some a) x = ok a

-- A chain that returns has run its first step, and the rest from what that step gave.
pub >>=-eq-ok {ℓ κ} :
    {R : Type ℓ} {S : Type κ} (step : Result R) (rest : R → Result S) {out : S}
    → (step >>= rest) ≡ ok out
    → (r : R) × (step ≡ ok r) × (rest r ≡ ok out)
>>=-eq-ok (err x) rest done = cc
>>=-eq-ok (ok r) rest done = (r, refl, done)

-- A chain that returns has passed its checks.
pub >>-eq-ok {κ} :
    {S : Type κ} (step : Result (Unit {0})) (rest : Result S) {out : S}
    → (step >> rest) ≡ ok out
    → (step ≡ ok tt) × (rest ≡ ok out)
>>-eq-ok (err x) rest done = cc
>>-eq-ok (ok r) rest done = (refl, done)

pub guard-eq-ok {κ} :
    {S : Type κ} (b : Bool) (x : Exception) (rest : Result S) {out : S}
    → (guard b x >> rest) ≡ ok out
    → (b ≡ true) × (rest ≡ ok out)
guard-eq-ok true x rest done = (refl, done)
guard-eq-ok false x rest done = cc

pub ok_inj {ℓ} : {A : Type ℓ} {a b : A} → ok a ≡ ok b → a ≡ b
ok_inj h = cc
