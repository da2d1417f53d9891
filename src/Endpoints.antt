-- ===== src/Endpoints.antt =====
-- dingolytics/api/endpoints.py: published queries that are answered by a token. Values of a request are written as
-- literals of ClickHouse before they become parameters of the query.
pub mod Literals
mod Requests
pub mod Published
mod Examples
use dingolytics_backend.Base.{
  ℕ, String, Bool, true, false, not, ◌&&◌, ◌||◌, Option, none, some, List, [], ◌∷◌, ◌++◌, keep,
  ◌==◌, if◌then◌else◌, nat_eq, string_eq,
}
use dingolytics_backend.Base.Dict.{Dict, put}
use dingolytics_backend.Base.Result.{
  Result, ok, err, abort, value_error, type_error, attribute_error, from_option, guard, ◌>>=◌, ◌>>◌,
}
use dingolytics_backend.Base.Text.{text_eq, Text, codes, is_upper, is_lower, is_digit, join}
use dingolytics_backend.Users.{Principal, user, User}
use dingolytics_backend.Access.{require_access, require_permissions}
use dingolytics_backend.Grants.Handlers.{the_one, or_404}
use dingolytics_backend.Parameters.Values.{Library, Value, str, Referred}
use dingolytics_backend.Parameters.{ParameterizedQuery, apply}
use dingolytics_backend.Execution.{is_failure}
use dingolytics_backend.Store.{Query, DataSource, Store, log, guarded_query}
use dingolytics_backend.Queries.Listing.{all_queries}

-- `text.replace(c, by)`
unfoldable pub replace : ℕ → Text → Text → Text
replace c by [] = []
replace c by (x ∷ s) = let rest = replace c by s in if x == c then by ++ rest else x ∷ rest

-- between quotes
unfoldable pub quote : Text → Text
quote s = 39 ∷ (s ++ 39 ∷ [])

-- `_escape_string`, up to the quotes
unfoldable pub escaped : Text → Text
unfolding replace
escaped value =
    let s1 = replace 92 (codes "\\\\") value in
    let s2 = replace 39 (codes "\\'") s1 in
    let s3 = replace 10 (codes "\\n") s2 in
    let s4 = replace 9 (codes "\\t") s3 in
    let s5 = replace 8 (codes "\\b") s4 in
    let s6 = replace 12 (codes "\\f") s5 in
    let s7 = replace 13 (codes "\\r") s6 in replace 0 (codes "\\0") s7

unfoldable pub escape_string : Text → Text
unfolding escaped quote
escape_string value = quote (escaped value)

-- The values that `_format_value` tells apart; a number and a moment carry their text, `other` its `str`.
mutual
  pub data Argument : Type 0 where
    null : Argument
    number : Text → Argument
    boolean : Bool → Argument
    moment : Text → Argument
    sequence : Arguments → Argument
    other : Text → Argument

  pub data Arguments : Type 0 where
    no_arguments : Arguments
    argument : Argument → Arguments → Arguments

-- `_format_value`. A boolean is an `int` of Python, so the test for numbers takes it first.
unfoldable mutual
  unfolding escape_string

  pub format_value : Argument → Text
  format_value null = codes "NULL"
  format_value (number s) = s
  format_value (boolean true) = codes "True"
  format_value (boolean false) = codes "False"
  format_value (moment s) = quote s
  format_value (sequence xs) = codes "[" ++ (join (codes ",") (format_values xs) ++ codes "]")
  format_value (other s) = escape_string s

  pub format_values : Arguments → List Text
  format_values no_arguments = []
  format_values (argument x xs) = format_value x ∷ format_values xs

unfoldable pub is_letter : ℕ → Bool
is_letter c = is_lower c || is_upper c || c == b'_'

unfoldable pub is_word : ℕ → Bool
unfolding is_letter
is_word c = is_letter c || is_digit c

-- `[a-zA-Z0-9_]*$`; `$` also stands before a newline at the end.
unfoldable pub word_to_end : Text → Bool
unfolding is_word
word_to_end [] = true
word_to_end (c ∷ []) = is_word c || c == 10
word_to_end (c ∷ d ∷ s) = let rest = word_to_end (d ∷ s) in if is_word c then rest else false

-- `_validate_identifier`
unfoldable pub validate_identifier : Text → Bool
unfolding is_letter word_to_end
validate_identifier [] = false
validate_identifier (c ∷ s) = is_letter c && word_to_end s

-- The name of a parameter, without the prefix `p_`.
unfoldable pub param_name : Text → Option Text
param_name (p ∷ u ∷ name) = if p == b'p' && u == b'_' then some name else none
param_name _ = none

-- `_parameters_from_request`; the values of a request are texts.
unfoldable pub parameters_from_request : Dict Text Text → Dict Text Text → Result (Dict Text Text)
unfolding validate_identifier escape_string param_name
parameters_from_request acc [] = ok acc
parameters_from_request acc ((key, value) ∷ args) = elim (param_name key) [
  | none ↦ parameters_from_request acc args
  | some name ↦ do
    guard (validate_identifier name) value_error
    parameters_from_request (put acc name (escape_string value)) args
]

-- `except ValueError: abort(400)`
unfoldable pub or_400 {ℓ} : {A : Type ℓ} → Result A → Result A
or_400 (err value_error) = err (abort 400)
or_400 r = r

unfoldable pub find_by_id : Store → ℕ → Result Query
find_by_id d id = the_one (keep (λ q. q.id == id) d.queries)

-- `EndpointDetailsResource.get`, the endpoint alone
unfoldable pub endpoint_details : Store → Principal → (endpoint_id : ℕ) → Result (Query × Store)
unfolding find_by_id
endpoint_details d p endpoint_id =
    require_permissions d.groups p ("list_data_sources" ∷ []) false (do
      q ← or_404 (find_by_id d endpoint_id)
      guard (not (q.is_draft || not q.is_published)) (abort 404)
      require_access d.groups (guarded_query d q) p true
      ok (q, log d "view" "endpoint" q.id))

-- `EndpointListResource.get`, the endpoints alone
unfoldable pub list_endpoints : Store → User → Result (List Query)
list_endpoints d u = require_permissions d.groups (user u) ("create_query" ∷ []) false (
    ok (
      keep (λ q. not q.is_draft && q.is_published)
        (all_queries d u.group_ids (some u.id) false false)))

module _ (L : Library) where
  -- The literals as values of parameters.
  unfoldable pub as_values : Dict Text Text → Dict Text (Value L)
  as_values [] = []
  as_values ((name, s) ∷ args) = (name, str s) ∷ as_values args

-- What `json.loads` makes of the data: an object, whose `rows` may be missing, or something else.
pub data Loaded (Row : Type 0) : Type 0 where
  object : Option (List Row) → Loaded Row
  no_object : Loaded Row

unfoldable pub rows_of : {Row : Type 0} → Loaded Row → List Row
rows_of (object (some rows)) = rows
rows_of _ = []

unfoldable pub first_row : {Row : Type 0} → List Row → Option Row
first_row [] = none
first_row (row ∷ rows) = some row

-- `run` is `run_query` of the runner of a data source, `json_loads` fails with ValueError for a text that is no JSON.
module _ (L : Library) (find_referred : Option ℕ → Result (Referred L))
    (mustache_render : Text → Dict Text (Value L) → Text) {Row : Type 0}
    (run : (data_source : ℕ) → Text → Result (Option Text × Option Text))
    (json_loads : Text → Result (Loaded Row)) where
  -- `json.loads(result_str)`; JSONDecodeError is a ValueError.
  unfoldable pub load : Option Text → Result (Loaded Row)
  load none = err type_error
  load (some s) = elim (json_loads s) [ err value_error ↦ err (abort 500) | r ↦ r ]

  unfoldable pub published_query : Store → (endpoint_id : ℕ) → (token : String) → Result Query
  unfolding find_by_id
  published_query d endpoint_id token = do
    q ← or_404 (find_by_id d endpoint_id)
    guard (not (q.is_draft || q.is_archived || not q.is_published)) (abort 403)
    guard (token == q.api_key) (abort 403)
    ok q

  -- The query with the parameters of the request.
  unfoldable pub applied_query : Query → Dict Text Text → Result (ParameterizedQuery L)
  unfolding parameters_from_request or_400 as_values
  applied_query q args = do
    literals ← or_400 (parameters_from_request [] args)
    apply L find_referred mustache_render
        (record {
          schema = q.parameters;
          template = q.query_text;
          query = q.query_text;
          parameters = [];
        })
        (as_values L literals)

  -- `EndpointPublicResultsResource.get`
  unfoldable pub endpoint_result :
      Store → (endpoint_id : ℕ) → (token : String) → Dict Text Text → Result (Option Row)
  unfolding published_query applied_query load rows_of first_row
  endpoint_result d endpoint_id token args = do
    q ← published_query d endpoint_id token
    applied ← applied_query q args
    source ← from_option q.data_source_id (attribute_error)
    (data_, error) ← run source applied.query
    guard (not (is_failure error)) (abort 400)
    loaded ← load data_
    ok (first_row (rows_of loaded))
