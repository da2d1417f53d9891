-- ===== src/Endpoints/Examples.antt =====
-- A published query of a small site, asked for by its key.
use mathlib.Core.List.{Memᴰ}
use dingolytics_backend.Execution.{is_failure}
use dingolytics_backend.Grants.Handlers.{the_one, or_404}
use dingolytics_backend.Base.{ℕ, true, false, Option, none, some, [], ◌∷◌, ◌++◌, ◌≡◌, refl, leb}
use dingolytics_backend.Base.Dict.{Dict}
use dingolytics_backend.Base.Result.{Result, ok, err, value_error, no_result_found}
use dingolytics_backend.Base.Text.{join, is_lower, Text, codes, text_beq}
use dingolytics_backend.Parameters.{
  join_value, validate, valid, invalid_names, join_parameter_list_values, apply,
}
use dingolytics_backend.Parameters.Values.{find_definition, Library, Value, Referred, Definition}
use dingolytics_backend.Store.{Query, Store}
use dingolytics_backend.Store.Samples.{site, daily, other}
use dingolytics_backend.Endpoints.{
  Loaded, object, escape_string, validate_identifier, format_value, boolean, sequence, argument,
  no_arguments, null, find_by_id, endpoint_result,
}
use dingolytics_backend.Endpoints.Literals.{
  read_literal, read_literal-escape_string, is_identifier, drop_newline, validate_identifier_lem,
}
use dingolytics_backend.Endpoints.Published.{
  Answered, endpoint_result-Answered, endpoint_result-number,
}

abbrev python : Library
python = record {
  Element = Text;
  text_of = λ v. some v;
  str_element = λ v. v;
  str_object = λ d. codes "object";
  Other = ℕ;
  str_other = λ n. codes "number";
  is_number_type = λ n. true;
  reads_float = λ t. elim t [ [] ↦ false | c ∷ s ↦ leb b'0' c ];
  parse_date = λ t. err value_error;
}

abbrev no_query : Option ℕ → Result (Referred python)
no_query id = err no_result_found

abbrev as_it_is : Text → Dict Text (Value python) → Text
as_it_is template values = template

abbrev two_rows : ℕ → Text → Result (Option Text × Option Text)
two_rows source text = ok (some text, none)

abbrev loads : Text → Result (Loaded ℕ)
loads text = ok (object (some (1 ∷ 2 ∷ [])))

abbrev city : Definition
city = record {
  name = codes "city";
  type = "text";
  enum_options = none;
  query_id = none;
  multi_values_options = none;
}

abbrev open_query : Query
open_query = record daily { is_published = true; parameters = city ∷ [] }

abbrev open_site : Store
open_site = record site { queries = open_query ∷ other ∷ [] }

abbrev request : Dict Text Text
request = (codes "p_city", codes "O'Hare") ∷ (codes "page", codes "2") ∷ []

answered :
    endpoint_result python no_query as_it_is two_rows loads open_site 3 "q3" request ≡ ok (some 1)
unfolding endpoint_result or_404 the_one is_lower apply invalid_names valid text_beq validate
    join_parameter_list_values join_value is_failure
answered = refl

endpoint_result-Answered_example :
    Answered python no_query as_it_is two_rows loads open_site 3 "q3" request
endpoint_result-Answered_example =
    endpoint_result-Answered python no_query as_it_is two_rows loads open_site 3 "q3" request
      (some 1) answered

literal : escape_string (codes "a'b") ≡ codes "'a\\'b'"
unfolding escape_string
literal = refl

-- A boolean gets the spelling of Python, which the branch for booleans was to prevent.
formatted :
    format_value (sequence (argument (boolean true) (argument null no_arguments)))
    ≡ codes "[True,NULL]"
unfolding format_value join
formatted = refl

read_literal-escape_string_example :
    read_literal (escape_string (codes "a'b\\") ++ codes " OR 1")
    ≡ some (codes "a'b\\", codes " OR 1")
read_literal-escape_string_example = read_literal-escape_string (codes "a'b\\") (codes " OR 1")

validate_identifier_lem_example :
    validate_identifier (b'a' ∷ 10 ∷ []) ≡ is_identifier (drop_newline (b'a' ∷ 10 ∷ []))
validate_identifier_lem_example = validate_identifier_lem (b'a' ∷ 10 ∷ [])

abbrev age : Definition
age = record city { name = codes "age"; type = "number" }

abbrev aged_query : Query
aged_query = record open_query { parameters = age ∷ [] }

abbrev aged_site : Store
aged_site = record site { queries = aged_query ∷ [] }

abbrev aged_request : Dict Text Text
aged_request = (codes "p_age", codes "7") ∷ []

aged_there : find_by_id aged_site 3 ≡ ok aged_query
unfolding find_by_id the_one
aged_there = refl

endpoint_result-number_example : ¬ (
    endpoint_result python no_query as_it_is two_rows loads aged_site 3 "q3" aged_request
    ≡ ok (some 1))
unfolding find_definition text_beq
endpoint_result-number_example =
    endpoint_result-number python no_query as_it_is two_rows loads (λ s. refl) aged_site 3 "q3"
      aged_request aged_query (codes "age") (codes "7") age aged_there (Memᴰ.head refl) refl refl
      (some 1)
