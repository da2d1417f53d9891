-- ===== src/Alerts.antt =====
-- `Alert` and `next_state` of redash/models/__init__.py: the state of an alert that follows from the
-- first row of the latest result of its query.
pub mod Check
pub mod Handlers
pub mod Rules
mod Examples
use Prim.Native.String.{compare}
use Prim.Native.Nat.{Ordering}
use dingolytics_backend.Base.{
  ℕ, String, Bool, true, false, not, Option, none, some, List, [], ◌∷◌, ◌==◌, if◌then◌else◌,
  string_eq,
}
use dingolytics_backend.Base.Dict.{Dict, get}
use dingolytics_backend.Base.Result.{
  Result, ok, err, key_error, attribute_error, type_error, value_error, from_option, ◌>>=◌,
}

-- Python's floats: what `float` reads and how it compares.
pub record Floats : Type 1 where
  pub Float : Type 0
  pub float_of_text : String → Option Float
  pub float_of_bool : Bool → Float
  pub float_lt : Float → Float → Bool
  pub float_le : Float → Float → Bool
  pub float_eq : Float → Float → Bool

pub data AlertState : Type 0 where
  unknown_state ok_state triggered_state : AlertState

pub data Operator : Type 0 where
  gt ge lt le eq ne : Operator

-- `OPERATORS.get(name)`; `none` stands for the default, which answers False.
unfoldable pub operators : String → Option Operator
operators name =
    if name == ">"
    then some gt
    else if name == ">="
    then some ge
    else if name == "<"
    then some lt
    else if name == "<="
    then some le
    else if name == "=="
    then some eq
    else if name == "!="
    then some ne
    else if name == "greater than"
    then some gt
    else if name == "less than"
    then some lt
    else if name == "equals"
    then some eq
    else none

str_lt : String → String → Bool
str_lt a b = elim (compare a b) [ Ordering.lt ↦ true | _ ↦ false ]

unfoldable pub compare_texts : Operator → String → String → Bool
unfolding str_lt
compare_texts gt v t = str_lt t v
compare_texts ge v t = not (str_lt v t)
compare_texts lt v t = str_lt v t
compare_texts le v t = not (str_lt t v)
compare_texts eq v t = v == t
compare_texts ne v t = not (v == t)

-- A text against a value of another type: unequal, and no order is defined.
unfoldable pub compare_unlike : Operator → Result Bool
compare_unlike eq = ok false
compare_unlike ne = ok true
compare_unlike _ = err type_error

unfoldable pub state_of : Bool → AlertState
state_of true = triggered_state
state_of false = ok_state

-- The number case: a threshold that is a text but no number leaves the state unknown.
after_float {ℓ} : {A : Type ℓ} → (A → Result AlertState) → Result A → Result AlertState
after_float decided (ok t) = decided t
after_float decided (err value_error) = ok unknown_state
after_float decided (err x) = err x

module _ (F : Floats) where
  open F use {Float, float_of_text, float_of_bool, float_lt, float_le, float_eq}

  -- A value of a result row or of the options, as JSON gives it; `compound` is a list or an object.
  pub data Value : Type 0 where
    null : Value
    bool : Bool → Value
    number : Float → Value
    text : String → Value
    compound : Value

  pub data Operand : Type 0 where
    num : Float → Float → Operand
    str : String → Value → Operand

  unfoldable pub compare_floats : Operator → Float → Float → Bool
  compare_floats gt v t = float_lt t v
  compare_floats ge v t = float_le t v
  compare_floats lt v t = float_lt v t
  compare_floats le v t = float_le v t
  compare_floats eq v t = float_eq v t
  compare_floats ne v t = not (float_eq v t)

module _ {F : Floats} where
  open F use {Float, float_of_text, float_of_bool, float_lt, float_le, float_eq}

  -- Python's `float(value)`
  unfoldable pub float : Value F → Result Float
  float (bool b) = ok (float_of_bool b)
  float (number x) = ok x
  float (text s) = from_option (float_of_text s) value_error
  float _ = err type_error

  unfoldable pub compare_text_value : Operator → String → Value F → Result Bool
  unfolding compare_texts compare_unlike
  compare_text_value op v (text t) = ok (compare_texts op v t)
  compare_text_value op v _ = compare_unlike op

  -- `op(value, threshold)`
  unfoldable pub apply_op : Option Operator → Operand F → Result Bool
  unfolding compare_floats compare_text_value
  apply_op none operands = ok false
  apply_op (some op) (num v t) = ok (compare_floats F op v t)
  apply_op (some op) (str v t) = compare_text_value op v t

  unfoldable pub decide_state : Option Operator → Operand F → Result AlertState
  unfolding apply_op state_of
  decide_state op operands = do met ← apply_op op operands; ok (state_of met)

  number_state : Option Operator → Float → Value F → Result AlertState
  unfolding after_float float decide_state
  number_state op v threshold = after_float (λ t. decide_state op (num v t)) (float threshold)

  unfoldable pub next_state : Option Operator → Value F → Value F → Result AlertState
  unfolding number_state
  next_state op (bool true) threshold = decide_state op (str "true" threshold)
  next_state op (bool false) threshold = decide_state op (str "false" threshold)
  next_state op (text s) threshold = elim (float_of_text s) [
    | some v ↦ number_state op v threshold
    | none ↦ decide_state op (str s threshold)
  ]
  next_state op (number v) threshold = number_state op v threshold
  next_state op null threshold = err type_error
  next_state op compound threshold = err type_error

module _ (F : Floats) where
  -- The options that `evaluate` reads; `none` where the key is missing.
  pub record AlertOptions : Type 0 where
    pub column : Option String
    pub op : Option String
    pub value : Option (Value F)
    pub muted : Bool

  pub record Alert : Type 0 where
    pub id : ℕ
    pub options : AlertOptions
    pub state : AlertState
    pub last_triggered_at : Option ℕ
    pub rearm : Option ℕ
    pub subscriptions : List ℕ

module _ {F : Floats} where
  evaluate_row : Alert F → Dict String (Value F) → Result AlertState
  evaluate_row alert row = do
    column ← from_option alert.options.column (key_error "column")
    elim (get row column) [
      | none ↦ ok unknown_state
      | some value ↦ do
        op ← from_option alert.options.op (key_error "op")
        threshold ← from_option alert.options.value (key_error "value")
        next_state (operators op) value threshold
    ]

  -- `data` is the table of the latest result of the alert's query, if there is one.
  unfoldable pub evaluate : Alert F → Option (List (Dict String (Value F))) → Result AlertState
  unfolding evaluate_row
  evaluate alert none = err attribute_error
  evaluate alert (some []) = ok unknown_state
  evaluate alert (some (row ∷ rows)) = evaluate_row alert row
