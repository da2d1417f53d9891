-- ===== src/Parameters/Examples.antt =====
-- A query with a number and a multiple choice, in a library whose numbers are the text "5".
use mathlib.Core.List.{Memᴰ}
use dingolytics_backend.Base.{
  ℕ, true, false, Option, none, some, [], ◌∷◌, ◌≡◌, ◌≢◌, refl, ◌==◌, string_eq,
}
use dingolytics_backend.Base.Dict.{Dict}
use dingolytics_backend.Base.Result.{Result, ok, err, no_result_found, value_error}
use dingolytics_backend.Base.Text.{text_beq, Text, codes, join, text_eq}
use dingolytics_backend.Parameters.Values.{
  Library, Value, str, list, Referred, Definition, listed, is_number,
}
use dingolytics_backend.Parameters.{
  ParameterizedQuery, validate, valid, invalid_names, join_value, join_parameter_list_values, apply,
  is_safe,
}
use dingolytics_backend.Parameters.Checked.{apply-valid}

abbrev python : Library
python = record {
  Element = Text;
  text_of = λ v. some v;
  str_element = λ v. v;
  str_object = λ d. codes "object";
  Other = ℕ;
  str_other = λ n. codes "number";
  is_number_type = λ n. true;
  reads_float = λ t. t == codes "5";
  parse_date = λ t. err value_error;
}

abbrev no_query : Option ℕ → Result (Referred python)
no_query id = err no_result_found

abbrev first_value : Text → Dict Text (Value python) → Text
first_value template ((k, str s) ∷ d) = s
first_value template d = template

abbrev limit : Definition
limit = record {
  name = codes "limit";
  type = "number";
  enum_options = none;
  query_id = none;
  multi_values_options = none;
}

abbrev choice : Definition
choice = record {
  name = codes "choice";
  type = "enum";
  enum_options = some (listed (codes "a" ∷ codes "b" ∷ []));
  query_id = none;
  multi_values_options =
      some (record { separator = none; prefix = some (codes "<"); suffix = some (codes ">") });
}

abbrev template : ParameterizedQuery python
template = record {
  schema = limit ∷ choice ∷ [];
  template = codes "t";
  query = codes "t";
  parameters = [];
}

abbrev good : Dict Text (Value python)
good = (codes "limit", str (codes "5")) ∷ []

abbrev chosen : Dict Text (Value python)
chosen = (codes "choice", list (codes "a" ∷ codes "b" ∷ [])) ∷ []

abbrev chosen_joined : Dict Text (Value python)
chosen_joined = (codes "choice", str (codes "<a>,<b>")) ∷ []

abbrev applied : ParameterizedQuery python
applied = record template { query = codes "5"; parameters = good }

apply-good : apply python no_query first_value template good ≡ ok applied
unfolding apply invalid_names valid text_beq validate is_number join_parameter_list_values
    join_value
apply-good = refl

apply-valid_example :
    valid python no_query template.schema (codes "limit") (str (codes "5")) ≡ ok true
apply-valid_example =
    apply-valid python no_query first_value template good applied (codes "limit") (str (codes "5"))
      apply-good (Memᴰ.head refl)

bad_decided : valid python no_query template.schema (codes "limit") (str (codes "x")) ≡ ok false
unfolding valid text_beq validate is_number
bad_decided = refl

template_safe : is_safe python template ≡ true
unfolding is_safe
template_safe = refl

has_schema : template.schema ≢ []
has_schema h = cc

good_valid : valid python no_query template.schema (codes "limit") (str (codes "5")) ≡ ok true
unfolding valid text_beq validate is_number
good_valid = refl

chosen_is_joined : join_parameter_list_values python template.schema [] chosen ≡ ok chosen_joined
unfolding join_parameter_list_values join_value text_beq join
chosen_is_joined = refl
