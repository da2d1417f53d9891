-- ===== src/Parameters.antt =====
-- redash/models/parameterized_query.py: a query with parameters, whose values are checked against their
-- definitions before they are put into its text.
pub mod Values
pub mod Missing
pub mod Checked
mod Examples
use dingolytics_backend.Base.{
  ℕ, Bool, true, false, not, ◌&&◌, ◌||◌, Option, none, some, List, [], ◌∷◌, ◌++◌, map, keep, any,
  all, find, contains, ◌==◌, if◌then◌else◌, or_else, is_some, String, string_eq, nat_eq, Eq,
}
use dingolytics_backend.Base.Dict.{Dict, get, put, put_all, keys, has_key}
use dingolytics_backend.Base.Result.{
  Exception, Result, ok, err, key_error, type_error, value_error, no_result_found,
  invalid_parameters, query_detached, other_error, from_option, guard, ◌>>=◌, ◌>>◌,
}
use dingolytics_backend.Base.Text.{Text, codes, text_eq, lower, join}
use dingolytics_backend.Parameters.Values.{
  Library, Value, str, list, dict, other, ResultData, Referred, EnumOptions, MultiValues,
  Definition, options_of, date_types, range_types, find_definition, dropdown_values, is_number,
  is_date_value, is_date_range, is_value_within_options,
}

abbrev is_nil {ℓ} : {A : Type ℓ} → List A → Bool
is_nil [] = true
is_nil (x ∷ xs) = false

module _ (L : Library) where
  open L use {Element, Other, text_of}

  pub record ParameterizedQuery : Type 0 where
    pub schema : List Definition
    pub template : Text
    pub query : Text
    pub parameters : Dict Text (Value L)

  unfoldable pub is_list : Value L → Bool
  is_list (list _) = true
  is_list _ = false

  -- Without `enumOptions` the options are None, which is looked into only if the value is no list, or
  -- lists are allowed.
  validate_enum : Option EnumOptions → Bool → Value L → Result Bool
  unfolding options_of is_value_within_options is_list
  validate_enum none allow_list value =
      if is_list value && not allow_list then ok false else err type_error
  validate_enum (some options) allow_list value =
      ok (is_value_within_options L value (options_of options) allow_list)

  validate_text : Value L → Bool
  validate_text (str _) = true
  validate_text _ = false

  module _ (find_query : Option ℕ → Result (Referred L)) where
    validate_query : Option ℕ → Bool → Value L → Result Bool
    validate_query query_id allow_list value = do
      options ← dropdown_values L find_query query_id
      ok (is_value_within_options L value options allow_list)

    -- `validators.get(definition["type"], lambda x: False)(value)`
    unfoldable pub validate : Definition → Value L → Result Bool
    unfolding validate_enum validate_text validate_query
    validate d value =
        let allow = is_some d.multi_values_options in
        let type = d.type in
        if type == "text"
        then ok (validate_text value)
        else if type == "number"
        then is_number L value
        else if type == "enum"
        then validate_enum d.enum_options allow value
        else if type == "query"
        then validate_query d.query_id allow value
        else if contains date_types type
        then is_date_value L value
        else if contains range_types type
        then is_date_range L value
        else ok false

    -- `_valid`; without a schema everything is.
    unfoldable pub valid : List Definition → Text → Value L → Result Bool
    unfolding find_definition
    valid [] name value = ok true
    valid (d ∷ schema) name value = elim (find_definition (d ∷ schema) name) [
      | none ↦ ok false
      | some definition ↦ validate definition value
    ]

    -- The names of the values that are not valid, in order.
    unfoldable pub invalid_names : List Definition → Dict Text (Value L) → Result (List Text)
    invalid_names schema [] = ok []
    invalid_names schema ((name, value) ∷ parameters) = do
      passes ← valid schema name value
      names ← invalid_names schema parameters
      ok (if passes then names else name ∷ names)

  -- `[prefix + v + suffix for v in value]`; only texts can be added to a text.
  wrap : Text → Text → List Element → Result (List Text)
  wrap prefix suffix [] = ok []
  wrap prefix suffix (v ∷ vs) = do
    s ← from_option (text_of v) type_error
    rest ← wrap prefix suffix vs
    ok ((prefix ++ (s ++ suffix)) ∷ rest)

  separator_of : Option MultiValues → Text
  separator_of none = codes ","
  separator_of (some m) = or_else m.separator (codes ",")

  prefix_of : Option MultiValues → Text
  prefix_of none = []
  prefix_of (some m) = or_else m.prefix []

  suffix_of : Option MultiValues → Text
  suffix_of none = []
  suffix_of (some m) = or_else m.suffix []

  multi_values : Option Definition → Option MultiValues
  multi_values none = none
  multi_values (some d) = d.multi_values_options

  -- A value as the template gets it; the list of a multiple choice is joined to a text.
  unfoldable pub join_value : List Definition → Text → Value L → Result (Value L)
  unfolding find_definition wrap separator_of prefix_of suffix_of multi_values
  join_value schema key (list vs) = do
    let options = multi_values (find_definition schema key)
    parts ← wrap (prefix_of options) (suffix_of options) vs
    ok (str (join (separator_of options) parts))
  join_value schema key value = ok value

  unfoldable pub join_parameter_list_values :
      List Definition → Dict Text (Value L) → Dict Text (Value L) → Result (Dict Text (Value L))
  join_parameter_list_values schema acc [] = ok acc
  join_parameter_list_values schema acc ((key, value) ∷ parameters) = do
    joined ← join_value schema key value
    join_parameter_list_values schema (put acc key joined) parameters

  -- `mustache_render` stands for pystache's renderer.
  unfoldable pub apply :
      (find_query : Option ℕ → Result (Referred L))
      (mustache_render : Text → Dict Text (Value L) → Text)
      → ParameterizedQuery
      → Dict Text (Value L)
      → Result (ParameterizedQuery)
  apply find_query mustache_render q parameters = do
    names ← invalid_names find_query q.schema parameters
    guard (is_nil names) (invalid_parameters names)
    joined ← join_parameter_list_values q.schema [] parameters
    ok (record q {
      parameters = put_all q.parameters parameters;
      query = mustache_render q.template joined;
    })

  unfoldable pub is_safe : ParameterizedQuery → Bool
  is_safe q = not (any (λ d. d.type == "text") q.schema)
