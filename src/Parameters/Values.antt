-- ===== src/Parameters/Values.antt =====
-- The values of parameters in redash/models/parameterized_query.py and the tests that the kinds of
-- parameters put them to. `Library` stands for Python's `str` and `float`, for
-- dateutil's `parse` and for pystache.
use dingolytics_backend.Base.{
  ℕ, Bool, true, false, ◌&&◌, Option, none, some, List, [], ◌∷◌, all, find, contains, ◌==◌,
  if◌then◌else◌, String, string_eq, nat_eq,
}
use dingolytics_backend.Base.Dict.{Dict, get, put_all, has_key}
use dingolytics_backend.Base.Result.{
  Result, ok, err, key_error, type_error, value_error, query_detached, other_error, from_option,
  ◌>>=◌,
}
use dingolytics_backend.Base.Text.{Text, codes, text_eq, lower}

-- An element of a list or an object stays abstract, but for its text if it is one.
pub record Library : Type 1 where
  pub Element : Type 0
  pub text_of : Element → Option Text
  pub str_element : Element → Text
  pub str_object : Dict Text Element → Text
  -- a value that is no text, list or object: a number, a boolean or null
  pub Other : Type 0
  pub str_other : Other → Text
  pub is_number_type : Other → Bool
  -- whether `float` reads a text
  pub reads_float : Text → Bool
  -- dateutil's `parse` of a text: no result, or what it raises
  pub parse_date : Text → Result (Unit {0})

module _ (L : Library) where
  open L use {Element, Other}

  -- A value of a parameter, as JSON gives it; `other` is a number, a boolean or null.
  pub data Value : Type 0 where
    str : Text → Value
    list : List Element → Value
    dict : Dict Text Element → Value
    other : Other → Value

  -- The table that a dropdown query gave.
  pub record ResultData : Type 0 where
    pub columns : List Text
    pub rows : List (Dict Text Element)

-- A query that a dropdown refers to, as the database gives it.
pub record Referred (L : Library) : Type 0 where
  pub id : ℕ
  pub has_data_source : Bool
  pub latest : Result (ResultData L)

pub data EnumOptions : Type 0 where
  lines : Text → EnumOptions
  listed : List Text → EnumOptions

pub record MultiValues : Type 0 where
  pub separator : Option Text
  pub prefix : Option Text
  pub suffix : Option Text

-- A definition of the schema; the optional keys are `none` where they are missing.
pub record Definition : Type 0 where
  pub name : Text
  pub type : String
  pub enum_options : Option EnumOptions
  pub query_id : Option ℕ
  pub multi_values_options : Option MultiValues

-- `s.split("\n")`
split_lines : Text → List Text
split_lines [] = [] ∷ []
split_lines (c ∷ s) = elim (split_lines s) [
  | [] ↦ (c ∷ []) ∷ []
  | part ∷ parts ↦ if c == 10 then [] ∷ part ∷ parts else (c ∷ part) ∷ parts
]

unfoldable pub options_of : EnumOptions → List Text
unfolding split_lines
options_of (lines s) = split_lines s
options_of (listed options) = options

abbrev pub date_types : List String
date_types = "date" ∷ "datetime-local" ∷ "datetime-with-seconds" ∷ []

abbrev pub range_types : List String
range_types = "date-range" ∷ "datetime-range" ∷ "datetime-range-with-seconds" ∷ []

unfoldable pub find_definition : List Definition → Text → Option Definition
find_definition schema name = find (λ d. d.name == name) schema

module _ (L : Library) where
  open L use {
    Element, Other, text_of, str_element, str_other, is_number_type, reads_float, parse_date,
  }

  lower_keys : Dict Text Element → Dict Text Element
  lower_keys [] = []
  lower_keys ((k, v) ∷ row) = (lower k, v) ∷ lower_keys row

  -- `_pluck_name_and_value`, the value alone; its name is looked up as well, and may be missing.
  pluck_value : Text → Dict Text Element → Result Text
  unfolding lower_keys
  pluck_value default_column row = do
    let lowered = put_all [] (lower_keys row)
    let name_column = if has_key lowered (codes "name") then codes "name" else lower default_column
    let value_column =
        if has_key lowered (codes "value") then codes "value" else lower default_column
    name ← from_option (get lowered name_column) (key_error "name")
    value ← from_option (get lowered value_column) (key_error "value")
    ok (str_element value)

  pluck_values : Text → List (Dict Text Element) → Result (List Text)
  unfolding pluck_value
  pluck_values column [] = ok []
  pluck_values column (row ∷ rows) = do
    value ← pluck_value column row
    values ← pluck_values column rows
    ok (value ∷ values)

  load_result : (Option ℕ → Result (Referred L)) → Option ℕ → Result (ResultData L)
  load_result find_query query_id = do
    query ← find_query query_id
    if query.has_data_source then query.latest else err (query_detached query.id)

  first_column : List Text → Result Text
  first_column [] = err (other_error "IndexError")
  first_column (c ∷ columns) = ok c

  -- `dropdown_values`, the values alone
  unfoldable pub dropdown_values : (Option ℕ → Result (Referred L)) → Option ℕ → Result (List Text)
  unfolding load_result first_column pluck_values
  dropdown_values find_query query_id = do
    data_ ← load_result find_query query_id
    column ← first_column data_.columns
    pluck_values column data_.rows

  -- `_is_number`: `float` of a list, an object or null raises TypeError, which is not caught.
  unfoldable pub is_number : Value L → Result Bool
  is_number (str s) = ok (reads_float s)
  is_number (other v) = if is_number_type v then ok true else err type_error
  is_number _ = err type_error

  -- `except (ValueError, TypeError)`
  after_parse : Result (Unit {0}) → Result Bool
  after_parse (ok _) = ok true
  after_parse (err value_error) = ok false
  after_parse (err type_error) = ok false
  after_parse (err x) = err x

  -- `_is_date`; `parse` raises TypeError for what is no text.
  unfoldable pub is_date : Option Text → Result Bool
  unfolding after_parse
  is_date none = ok false
  is_date (some s) = after_parse (parse_date s)

  unfoldable pub is_date_value : Value L → Result Bool
  unfolding is_date
  is_date_value (str s) = is_date (some s)
  is_date_value _ = ok false

  -- `_is_date_range`: a missing key, or a value without keys, is no range.
  unfoldable pub is_date_range : Value L → Result Bool
  unfolding is_date
  is_date_range (dict d) = elim (get d (codes "start")) [
    | none ↦ ok false
    | some start ↦ is_date (text_of start) >>= λ starts.
        if starts
        then (elim (get d (codes "end")) [ none ↦ ok false | some end ↦ is_date (text_of end) ])
        else ok false
  ]
  is_date_range _ = ok false

  -- `_is_value_within_options`
  unfoldable pub is_value_within_options : Value L → List Text → Bool → Bool
  is_value_within_options (list vs) options allow_list =
      allow_list && all (λ v. contains options (str_element v)) vs
  is_value_within_options (str s) options allow_list = contains options s
  is_value_within_options (dict d) options allow_list = contains options (L.str_object d)
  is_value_within_options (other v) options allow_list = contains options (str_other v)
