-- ===== src/Config.antt =====
-- `ConfigurationContainer` of redash/utils/configuration.py: the options of a data source or of a
-- destination, whose secret values are masked when they are shown and kept when the mask comes back.
-- `Validator` stands for the package jsonschema.
pub mod Masking
mod Examples
use dingolytics_backend.Base.{
  ℕ, String, Bool, true, false, ◌&&◌, Option, none, some, List, [], ◌∷◌, contains, ◌==◌,
  if◌then◌else◌, string_eq, map, Eq, or_else,
}
use dingolytics_backend.Base.Dict.{Dict, get, put, values, has_key}
use dingolytics_backend.Base.Result.{
  Exception, Result, ok, err, key_error, runtime_error, value_error, from_option, guard, ◌>>=◌,
  ◌>>◌,
}

abbrev pub Property {ℓ} : Type ℓ → Type ℓ
Property V = record { enum : Option (List V); extended_enum : Option (Dict String V) }

-- A configuration schema: its properties, and the keys that are secret if it names them.
pub record Schema {ℓ} (V : Type ℓ) : Type ℓ where
  pub properties : Dict String (Property V)
  pub secret : Option (List String)

pub record ConfigurationContainer {ℓ} (V : Type ℓ) : Type ℓ where
  pub config : Dict String V
  pub schema : Option (Schema V)

abbrev pub Validator {ℓ} : Type ℓ → Type ℓ
Validator V = Dict String V → Schema V → Bool

module _ {ℓ} {V : Type ℓ} where
  -- `extendedEnum` is a list of options with a name and a value; their values become the `enum`.
  expand_property : Property V → Property V
  expand_property p = elim p.extended_enum [
    | none ↦ p
    | some options ↦ record { enum = some (values options); extended_enum = none }
  ]

  expand_properties : Dict String (Property V) → Dict String (Property V)
  unfolding expand_property
  expand_properties [] = []
  expand_properties ((k, p) ∷ rest) = (k, expand_property p) ∷ expand_properties rest

  unfoldable pub set_schema :
      ConfigurationContainer V → Option (Schema V) → ConfigurationContainer V
  unfolding expand_properties
  set_schema c none = record c { schema = none }
  set_schema c (some s) = record c {
    schema = some (record s { properties = expand_properties s.properties });
  }

  -- the property `schema`
  unfoldable pub schema_of : ConfigurationContainer V → Result (Schema V)
  schema_of c = from_option c.schema runtime_error

  -- `key in schema["secret"]`, and nothing where the schema has no such entry
  unfoldable pub is_secret : Schema V → String → Bool
  is_secret s key = contains (or_else s.secret []) key

  -- `c[item]`, `c[key] = value`, `item in c` and `c.get(item)`
  unfoldable pub get_item : ConfigurationContainer V → String → Result V
  get_item c item = from_option (get c.config item) (key_error item)

  unfoldable pub set_item : ConfigurationContainer V → String → V → ConfigurationContainer V
  set_item c key value = record c { config = put c.config key value }

  unfoldable pub has_item : ConfigurationContainer V → String → Bool
  has_item c item = has_key c.config item

module _ {ℓ} {V : Type ℓ} ⦃e : Eq V⦄ (text : String → V) where
  abbrev pub secret_placeholder : V
  secret_placeholder = text "--------"

  mask : List String → Dict String V → Dict String V
  mask secret [] = []
  mask secret ((key, v) ∷ config) =
      (key, if contains secret key then secret_placeholder else v) ∷ mask secret config

  unfoldable pub to_dict : ConfigurationContainer V → (mask_secrets : Bool) → Result (Dict String V)
  unfolding mask
  to_dict c false = ok c.config
  to_dict c true = do
    s ← schema_of c
    elim s.secret [ none ↦ ok c.config | some secret ↦ ok (mask secret c.config) ]

  -- The value that `update` stores for one item: a secret that comes back masked is the old one.
  new_value : Dict String V → Schema V → String → V → Result V
  new_value config s k v =
      if is_secret s k && v == secret_placeholder
      then from_option (get config k) (key_error k)
      else ok v

  -- The loop of `update` over the items of the new configuration.
  merge : Dict String V → Schema V → Dict String V → Dict String V → Result (Dict String V)
  unfolding new_value
  merge config s [] result = ok result
  merge config s ((k, v) ∷ items) result =
      new_value config s k v >>= λ w. merge config s items (put result k w)

  unfoldable pub update :
      Validator V → ConfigurationContainer V → Dict String V → Result (ConfigurationContainer V)
  unfolding merge
  update validate c new_config = do
    s ← schema_of c
    guard (validate new_config s) value_error
    config ← merge c.config s new_config []
    ok (record c { config = config })
