-- ===== src/CrossQueries.antt =====
-- redash/query_runner/query_results.py: the data source whose queries read the results of other queries, as tables of an
-- SQLite database in memory. Texts are ASCII.
pub mod Reads
mod Examples
use dingolytics_backend.Base.{
  ℕ, zero, suc, ◌+◌, ◌-◌, ◌*◌, String, Bool, true, false, not, ◌||◌, Option, none, some, List, [],
  ◌∷◌, ◌++◌, map, keep, contains, length, or_else, ◌==◌, nat_eq, if◌then◌else◌, string_eq,
}
use dingolytics_backend.Base.Dict.{Dict, get, put_all}
use dingolytics_backend.Base.Result.{
  Result, ok, err, attribute_error, other_error, from_option, guard, ◌>>=◌, ◌>>◌, Exception,
}
use dingolytics_backend.Base.Text.{
  Text, text_eq, codes, is_space, is_digit, lower, lstrip, join, str_ℕ,
}
use dingolytics_backend.Users.{Principal, has_permission}
use dingolytics_backend.Access.{has_access}
use dingolytics_backend.Grants.Handlers.{the_one}
use dingolytics_backend.Execution.{is_failure}
use dingolytics_backend.Runner.{Column, fetch_columns}
use dingolytics_backend.Store.{Query, Store, guarded_source}

-- What follows a prefix.
unfoldable pub after : Text → Text → Option Text
after [] s = some s
after (c ∷ prefix) [] = none
after (c ∷ prefix) (d ∷ s) = let rest = after prefix s in if c == d then rest else none

-- `\d*`, as a number on top of the digits before, and what follows.
unfoldable pub digits : ℕ → Text → ℕ × Text
digits n [] = (n, [])
digits n (c ∷ s) =
    let rest = digits (n * 10 + (c - b'0')) s in if is_digit c then rest else (n, c ∷ s)

-- `(\d+)`
unfoldable pub number : Text → Option (ℕ × Text)
unfolding digits
number [] = none
number (c ∷ s) = if is_digit c then some (digits 0 (c ∷ s)) else none

-- `\s+`
unfoldable pub after_spaces : Text → Option Text
after_spaces [] = none
after_spaces (c ∷ s) = if is_space c then some (lstrip s) else none

-- `(?:join|from)`
unfoldable pub after_keyword : Text → Option Text
unfolding after
after_keyword s = elim (after (codes "join") s) [ none ↦ after (codes "from") s | some t ↦ some t ]

-- The regular expression at the start of a text in lower case: the number, and what follows the match.
unfoldable pub table_here : (prefix : Text) → Text → Option (ℕ × Text)
unfolding after_keyword after_spaces after number
table_here prefix s = elim (after_keyword s) [
  | none ↦ none
  | some t ↦ elim (after_spaces t) [
    | none ↦ none
    | some u ↦ elim (after prefix u) [ none ↦ none | some v ↦ number v ]
  ]
]

-- `re.findall`: `skip` counts the characters that are left of the last match.
unfoldable pub find_tables : (prefix : Text) → (skip : ℕ) → Text → List ℕ
unfolding table_here
find_tables prefix skip [] = []
find_tables prefix (suc skip) (c ∷ s) = find_tables prefix skip s
find_tables prefix zero (c ∷ s) = elim (table_here prefix (c ∷ s)) [
  | none ↦ find_tables prefix zero s
  | some (id, rest) ↦ id ∷ find_tables prefix (length s - length rest) s
]

unfoldable pub extract_query_ids : Text → List ℕ
unfolding find_tables
extract_query_ids query = find_tables (codes "query_") 0 (lower query)

unfoldable pub extract_cached_query_ids : Text → List ℕ
unfolding find_tables
extract_cached_query_ids query = find_tables (codes "cached_query_") 0 (lower query)

-- The user for whom a query runs: a user, or the API user of a key, whose organization may be None.
pub record Reader : Type 0 where
  pub principal : Principal
  pub org_id : Option ℕ

-- `user.org_id != query.org_id`, negated.
unfoldable pub is_org : Option ℕ → ℕ → Bool
is_org none org = false
is_org (some org_id) org = org_id == org

-- `has_access(query.data_source, user, view_only)`. None has no groups to look up: an administrator passes before, and for all others
-- `groups.keys()` raises.
unfoldable pub has_access_to_source : Store → Principal → Option ℕ → Result Bool
has_access_to_source d p none =
    if has_permission d.groups p "admin" then ok true else err attribute_error
has_access_to_source d p (some id) = ok (has_access d.groups (guarded_source d id) p true)

-- `_load_query`; without a user there is no `user.org_id`.
unfoldable pub load_query : Store → Option Reader → (query_id : ℕ) → Result Query
unfolding the_one is_org has_access_to_source
load_query d none query_id =
    the_one (keep (λ q. q.id == query_id) d.queries) >>= λ _. err attribute_error
load_query d (some u) query_id = do
  q ← the_one (keep (λ q. q.id == query_id) d.queries)
  guard (is_org u.org_id q.org_id) (other_error "PermissionError")
  may_view ← has_access_to_source d u.principal q.data_source_id
  guard may_view (other_error "PermissionError")
  ok q

-- `[:."\s]` becomes `_`.
unfoldable pub safe_code : ℕ → ℕ
safe_code c = if c == b':' || c == b'.' || c == 34 || is_space c then b'_' else c

unfoldable pub fix_column_name : Text → Text
unfolding safe_code
fix_column_name name = 34 ∷ (map safe_code name ++ 34 ∷ [])

-- `columns` and `rows` of a result, with the names of the columns and the values of a row by column.
pub record Table (Cell : Type 0) : Type 0 where
  pub columns : List Text
  pub rows : List (Dict Text Cell)

unfoldable pub column_list : List Text → Text
unfolding fix_column_name
column_list columns = join (codes ", ") (map fix_column_name columns)

-- The statements of `create_table`.
unfoldable pub create_statement : Text → List Text → Text
unfolding column_list
create_statement table_name columns =
    codes "CREATE TABLE " ++ (table_name ++ (codes " (" ++ (column_list columns ++ codes ")")))

unfoldable pub insert_statement : Text → List Text → Text
unfolding column_list
insert_statement table_name columns =
    codes "insert into "
    ++ (table_name
        ++ (codes " ("
            ++ (column_list columns
                ++ (codes ") values ("
                    ++ (join (codes ",") (map (λ c. codes "?") columns) ++ codes ")")))))

-- The type of a column after one more value: the first guess, and `string` once two guesses differ.
unfoldable pub retype : Option Text → Text → Option Text
retype none guess = some guess
retype (some type) guess = if type == guess then some type else some (codes "string")

-- `except sqlite3.OperationalError`
unfoldable pub create_error : Exception → Exception
create_error (other_error name) =
    if name == "OperationalError" then other_error "CreateTableError" else other_error name
create_error x = x

unfoldable pub or_create_error {ℓ} : {A : Type ℓ} → Result A → Result A
unfolding create_error
or_create_error (err x) = err (create_error x)
or_create_error (ok r) = ok r

-- What the runner calls. `connect`, `execute` and `fetch` are SQLite's: a new database, a statement with its values (which raises
-- OperationalError as `other_error "OperationalError"`), and the names of the columns and the rows of a query, or no
-- description. `in_set` is the order in which Python goes through a set of numbers, `run_on` runs a query on a data
-- source, `load` is `json_loads`, `data_of` the data of a stored result, and `null` is None.
pub record Environment (Cell Connection : Type 0) : Type 0 where
  pub null : Cell
  pub flatten : Cell → Cell
  pub guess_type : Cell → Text
  pub connect : Connection
  pub execute : Connection → Text → List Cell → Result Connection
  pub fetch : Connection → Text → Result (Option (List Text × List (List Cell)))
  pub in_set : List ℕ → List ℕ
  pub run_on : ℕ → Text → Option Reader → Result (Option Text × Option Text)
  pub load : Option Text → Result (Table Cell)
  pub data_of : ℕ → Result (Table Cell)

module _ {Cell Connection : Type 0} (env : Environment Cell Connection) where
  unfoldable pub get_query_results :
      Store → Option Reader → (query_id : ℕ) → (bring_from_cache : Bool) → Result (Table Cell)
  unfolding load_query
  get_query_results d u query_id true = do
    q ← load_query d u query_id
    id ← from_option q.latest_query_data_id (other_error "Exception")
    env.data_of id
  get_query_results d u query_id false = do
    q ← load_query d u query_id
    source ← from_option q.data_source_id attribute_error
    (results, error) ← env.run_on source q.query_text u
    guard (not (is_failure error)) (other_error "Exception")
    env.load results

  -- The loop over the rows of `create_table`.
  unfoldable pub insert_rows :
      Connection → Text → (columns : List Text) → List (Dict Text Cell) → Result Connection
  unfolding insert_statement
  insert_rows c table_name columns [] = ok c
  insert_rows c table_name columns (row ∷ rows) = do
    c' ←
        env.execute c (insert_statement table_name columns)
          (map (λ column. env.flatten (or_else (get row column) env.null)) columns)
    insert_rows c' table_name columns rows

  unfoldable pub create_table : Connection → Text → Table Cell → Result Connection
  unfolding create_statement insert_rows or_create_error
  create_table c table_name results = do
    c' ← or_create_error (env.execute c (create_statement table_name results.columns) [])
    insert_rows c' table_name results.columns results.rows

  -- A loop of `create_tables_from_query_ids`.
  unfoldable pub create_tables :
      Store
      → Option Reader
      → (prefix : Text) → (bring_from_cache : Bool) → Connection
      → List ℕ
      → Result Connection
  unfolding get_query_results create_table
  create_tables d u prefix cached c [] = ok c
  create_tables d u prefix cached c (query_id ∷ ids) = do
    results ← get_query_results d u query_id cached
    c' ← create_table c (prefix ++ str_ℕ query_id) results
    create_tables d u prefix cached c' ids

  unfoldable pub create_tables_from_query_ids :
      Store → Option Reader → Connection → (query_ids cached_query_ids : List ℕ) → Result Connection
  unfolding create_tables
  create_tables_from_query_ids d u c query_ids cached_query_ids = do
    c' ← create_tables d u (codes "cached_query_") true c (env.in_set cached_query_ids)
    create_tables d u (codes "query_") false c' (env.in_set query_ids)

  -- The loop over the cells of a row; a row has as many as there are columns.
  unfoldable pub retype_row : List Column → List Cell → List Column
  unfolding retype
  retype_row (column ∷ columns) (cell ∷ cells) =
      record column { type = retype column.type (env.guess_type cell) } ∷ retype_row columns cells
  retype_row columns cells = columns

  unfoldable pub retype_rows : List Column → List (List Cell) → List Column
  unfolding retype_row
  retype_rows columns [] = columns
  retype_rows columns (row ∷ rows) = retype_rows (retype_row columns row) rows

  -- `zip(column_names, row)`
  unfoldable pub cells_by_name : List Column → List Cell → Dict Text Cell
  cells_by_name (column ∷ columns) (cell ∷ cells) =
      (column.name, cell) ∷ cells_by_name columns cells
  cells_by_name columns cells = []

  unfoldable pub data_of_rows : List Text → List (List Cell) → List Column × List (Dict Text Cell)
  unfolding retype_rows cells_by_name
  data_of_rows names rows =
      let columns = fetch_columns (map (λ name. (name, none)) names) in
      (retype_rows columns rows, map (λ row. put_all [] (cells_by_name columns row)) rows)

  -- `Results.run_query`: the data before it becomes JSON, or the message.
  unfoldable pub run_query :
      Store
      → Option Reader
      → (query : Text) → Result (Option (List Column × List (Dict Text Cell)) × Option Text)
  unfolding extract_query_ids extract_cached_query_ids create_tables_from_query_ids data_of_rows
  run_query d u query = do
    c ←
        create_tables_from_query_ids d u env.connect (extract_query_ids query)
          (extract_cached_query_ids query)
    selected ← env.fetch c query
    elim selected [
      | none ↦ ok (none, some (codes "Query completed but it returned no data."))
      | some (names, rows) ↦ ok (some (data_of_rows names rows), none)
    ]
