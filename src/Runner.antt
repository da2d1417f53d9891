-- ===== src/Runner.antt =====
-- redash/query_runner/__init__.py: splitting a query into statements, the automatic limit, the names of
-- the result's columns and the tunnel around a run. `Parser` stands for the package sqlparse.
pub mod Limit
pub mod Statements
pub mod Columns
pub mod Tunnel
mod Examples
use mathlib.Core.List.{reverse}
use dingolytics_backend.Base.{
  ℕ, ◌+◌, String, Bool, true, false, not, ◌&&◌, ◌||◌, Option, none, some, List, [], ◌∷◌, ◌++◌, keep,
  ◌==◌, if◌then◌else◌, nat_eq, map, contains,
}
use dingolytics_backend.Base.Dict.{Dict}
use dingolytics_backend.Base.Result.{Result, ok, err, other_error, ◌>>=◌}
use dingolytics_backend.Utils.{gen_query_hash}
use dingolytics_backend.Base.Text.{Text, codes, text_eq, strip, upper, join, str_ℕ}

-- What the code asks of a token: `comment` covers comment groups too, and `keyword` every kind below it.
pub data Kind : Type 0 where
  whitespace comment keyword punctuation other : Kind

pub record Token : Type 0 where
  pub kind : Kind
  pub value : Text

-- `FilterStack.run` and `parse`, and the filter that strips comments.
pub record Parser : Type 0 where
  pub parse : Text → List (List Token)
  pub strip_comments : List Token → List Token

unfoldable pub is_blank : Token → Bool
is_blank t = elim t.kind [ whitespace ↦ true | comment ↦ true | _ ↦ false ]

unfoldable pub is_whitespace : Token → Bool
is_whitespace t = elim t.kind [ whitespace ↦ true | _ ↦ false ]

unfoldable pub is_punctuation : Token → Bool
is_punctuation t = elim t.kind [ punctuation ↦ true | _ ↦ false ]

unfoldable pub is_keyword : Token → Bool
is_keyword t = elim t.kind [ keyword ↦ true | _ ↦ false ]

unfoldable pub is_semicolon : Token → Bool
unfolding is_punctuation
is_semicolon t = is_punctuation t && t.value == codes ";"

-- `sqlparse.sql.Token(Whitespace, ' ')`
abbrev pub space : Token
space = record { kind = whitespace; value = codes " " }

-- `str(stmt)`
unfoldable pub str : List Token → Text
str [] = []
str (t ∷ ts) = t.value ++ str ts

-- The loops run from the last token back: these are their bodies on the reversed tokens.
unfoldable pub blank_comments : List Token → List Token
unfolding is_blank
blank_comments [] = []
blank_comments (t ∷ ts) =
    let rest = space ∷ blank_comments ts in if is_blank t then rest else t ∷ ts

unfoldable pub blank_semicolon : List Token → List Token
unfolding is_whitespace is_semicolon
blank_semicolon [] = []
blank_semicolon (t ∷ ts) =
    let rest = t ∷ blank_semicolon ts in
    if is_whitespace t then rest else if is_semicolon t then space ∷ ts else t ∷ ts

unfoldable pub strip_trailing_comments : List Token → List Token
unfolding blank_comments
strip_trailing_comments stmt = reverse (blank_comments (reverse stmt))

unfoldable pub strip_trailing_semicolon : List Token → List Token
unfolding blank_semicolon
strip_trailing_semicolon stmt = reverse (blank_semicolon (reverse stmt))

unfoldable pub is_empty_statement : Parser → List Token → Bool
is_empty_statement parser stmt = elim (parser.parse (str stmt)) [
  | [] ↦ true
  | first ∷ _ ↦ strip (str (parser.strip_comments first)) == []
]

or_one_empty : List Text → List Text
or_one_empty [] = [] ∷ []
or_one_empty (s ∷ statements) = s ∷ statements

-- The three comprehensions of `split_sql_statements`.
stripped : Parser → Text → List (List Token)
stripped parser query =
    map strip_trailing_semicolon (map strip_trailing_comments (parser.parse query))

unfoldable pub split_sql_statements : Parser → Text → List Text
unfolding stripped or_one_empty
split_sql_statements parser query = or_one_empty (
    map (λ stmt. strip (str stmt))
      (keep (λ stmt. not (is_empty_statement parser stmt)) (stripped parser query)))

unfoldable pub combine_sql_statements : List Text → Text
combine_sql_statements queries = join (codes ";\n") queries

-- `find_last_keyword_idx`, as the token at that index; `none` for -1.
unfoldable pub last_keyword : List Token → Option Token
last_keyword [] = none
last_keyword (t ∷ ts) = elim (last_keyword ts) [
  | some k ↦ some k
  | none ↦ if is_keyword t then some t else none
]

abbrev pub limit_keywords : List Text
limit_keywords = codes "LIMIT" ∷ codes "OFFSET" ∷ []

-- `sqlparse.parse(query)[0]`
unfoldable pub first_statement : Parser → Text → Result (List Token)
first_statement parser query = elim (parser.parse query) [
  | [] ↦ err (other_error "IndexError")
  | stmt ∷ _ ↦ ok stmt
]

unfoldable pub is_select : List Token → Bool
is_select [] = false
is_select (t ∷ ts) = upper t.value == codes "SELECT"

unfoldable pub no_limit : List Token → Bool
unfolding last_keyword is_select
no_limit stmt = elim (last_keyword stmt) [
  | none ↦ false
  | some k ↦ is_select stmt && not (contains limit_keywords (upper k.value))
]

unfoldable pub query_is_select_no_limit : Parser → Text → Result Bool
unfolding first_statement no_limit
query_is_select_no_limit parser query = do stmt ← first_statement parser query; ok (no_limit stmt)

-- The limit goes behind the last token, or before it if it is punctuation.
unfoldable pub insert_limit : List Token → List Token → Result (List Token)
insert_limit limit [] = err (other_error "IndexError")
insert_limit limit (t ∷ []) = ok (if is_punctuation t then limit ++ t ∷ [] else t ∷ limit)
insert_limit limit (t ∷ u ∷ ts) = insert_limit limit (u ∷ ts) >>= λ rest. ok (t ∷ rest)

abbrev pub limit_query : Text
limit_query = codes " LIMIT 1000"

unfoldable pub add_limit_to_query : Parser → Text → Result Text
unfolding first_statement insert_limit
add_limit_to_query parser query = do
  stmt ← first_statement parser query
  limit_tokens ← first_statement parser limit_query
  tokens ← insert_limit limit_tokens stmt
  ok (str tokens)

-- `queries[-1]` is replaced by what the step makes of it.
unfoldable pub on_last : (Text → Result Text) → List Text → Result (List Text)
on_last f [] = err (other_error "IndexError")
on_last f (q ∷ []) = do r ← f q; ok (r ∷ [])
on_last f (q ∷ r ∷ queries) = do rest ← on_last f (r ∷ queries); ok (q ∷ rest)

unfoldable pub limit_last : Parser → Text → Result Text
limit_last parser query = do
  limits ← query_is_select_no_limit parser query
  if limits then add_limit_to_query parser query else ok query

unfoldable pub apply_auto_limit : Parser → Text → Bool → Result Text
apply_auto_limit parser query_text false = ok query_text
apply_auto_limit parser query_text true = do
  queries ← on_last (limit_last parser) (split_sql_statements parser query_text)
  ok (combine_sql_statements queries)

-- `BaseQueryRunner.gen_query_hash`, for a runner that limits: the hash of the query as it will run.
unfoldable pub hash_of_limited :
    (hash : Text → Text) → Parser → Text → (set_auto_limit : Bool) → Result Text
hash_of_limited hash parser query_text set_auto_limit = do
  limited ← apply_auto_limit parser query_text set_auto_limit
  ok (gen_query_hash hash limited)

-- `annotate_query` for a runner that annotates.
unfoldable pub annotation : Dict Text Text → List Text
annotation [] = []
annotation ((k, v) ∷ metadata) = (k ++ (codes ": " ++ v)) ∷ annotation metadata

unfoldable pub annotate_query : Bool → Text → Dict Text Text → Text
unfolding annotation
annotate_query should_annotate query metadata =
    if should_annotate
    then codes "/* " ++ (join (codes ", ") (annotation metadata) ++ (codes " */ " ++ query))
    else query

pub record Column : Type 0 where
  pub name : Text
  pub friendly_name : Text
  pub type : Option Text

-- The loop of `fetch_columns` over the pairs of a name and a type.
unfoldable pub fetch_from : List Text → ℕ → List (Text × Option Text) → List Column
fetch_from column_names duplicates_counter [] = []
fetch_from column_names duplicates_counter ((col, type) ∷ columns) =
    let taken = contains column_names col in
    let column_name = if taken then col ++ str_ℕ duplicates_counter else col in
    let counter = if taken then duplicates_counter + 1 else duplicates_counter in
    record { name = column_name; friendly_name = column_name; type = type }
    ∷ fetch_from (column_names ++ column_name ∷ []) counter columns

unfoldable pub fetch_columns : List (Text × Option Text) → List Column
unfolding fetch_from
fetch_columns columns = fetch_from [] 1 columns
