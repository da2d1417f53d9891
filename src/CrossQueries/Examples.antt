-- ===== src/CrossQueries/Examples.antt =====
-- A query over the sample site's query 3, on a database that keeps the statements it is given.
use mathlib.Core.List.{Memᴰ}
use dingolytics_backend.Runner.{fetch_columns}
use dingolytics_backend.Execution.{is_failure}
use dingolytics_backend.Groups.{groups}
use dingolytics_backend.Users.{permissions, user}
use dingolytics_backend.Store.{guarded_source}
use dingolytics_backend.Access.{group_ids, groups_of, has_access_to_groups, has_access}
use dingolytics_backend.Base.{ℕ, Option, none, some, List, [], ◌∷◌, ◌++◌, ◌≡◌, refl, inl}
use dingolytics_backend.Base.Result.{ok, err, other_error}
use dingolytics_backend.Base.Text.{is_digit, lstrip, is_space, lower, Text, codes}
use dingolytics_backend.Store.Samples.{site, ada, bob}
use dingolytics_backend.CrossQueries.{
  Reader, Table, Environment, extract_query_ids, extract_cached_query_ids, fix_column_name,
  run_query, Column, Dict,
}
use dingolytics_backend.CrossQueries.Reads.{IsReadable, run_query-IsReadable}

abbrev one_row : Table ℕ
one_row = record { columns = codes "n" ∷ []; rows = ((codes "n", 5) ∷ []) ∷ [] }

abbrev statements : Environment ℕ (List Text)
statements = record {
  null = 0;
  flatten = λ x. x;
  guess_type = λ x. codes "integer";
  connect = [];
  execute = λ c text values. ok (c ++ text ∷ []);
  fetch = λ c text. ok (some (codes "n" ∷ [], (5 ∷ []) ∷ []));
  in_set = λ ids. ids;
  run_on = λ source text u. ok (some (codes "{}"), none);
  load = λ text. ok one_row;
  data_of = λ id. ok one_row;
}

abbrev ada_reader : Reader
ada_reader = record { principal = user ada; org_id = some ada.org_id }

abbrev bob_reader : Reader
bob_reader = record { principal = user bob; org_id = some bob.org_id }

abbrev over_three : Text
over_three = codes "SELECT * FROM query_3"

finds_tables : extract_query_ids (codes "select a from query_12 JOIN  Query_3") ≡ 12 ∷ 3 ∷ []
unfolding extract_query_ids lower is_space lstrip is_digit
finds_tables = refl

finds_no_cached : extract_cached_query_ids over_three ≡ []
unfolding extract_cached_query_ids lower is_space lstrip
finds_no_cached = refl

three_is_named : Memᴰ 3 (extract_query_ids over_three)
unfolding extract_query_ids lower is_space lstrip is_digit
three_is_named = Memᴰ.head refl

quotes_names : fix_column_name (codes "a.b c") ≡ codes "\"a_b_c\""
unfolding fix_column_name is_space
quotes_names = refl

abbrev answer : Option (List Column × List (Dict Text ℕ)) × Option Text
answer = (
  some (
    record { name = codes "n"; friendly_name = codes "n"; type = some (codes "integer") } ∷ [],
    ((codes "n", 5) ∷ []) ∷ [],
  ),
  none,
)

ada_reads : run_query statements site (some ada_reader) over_three ≡ ok answer
unfolding run_query lower is_space lstrip is_digit has_access guarded_source has_access_to_groups
    permissions groups_of groups group_ids is_failure fetch_columns
ada_reads = refl

bob_is_refused :
    run_query statements site (some bob_reader) over_three ≡ err (other_error "PermissionError")
unfolding run_query lower is_space lstrip is_digit has_access guarded_source has_access_to_groups
    permissions groups_of groups group_ids
bob_is_refused = refl

run_query-IsReadable_example : IsReadable site ada_reader 3
run_query-IsReadable_example =
    run_query-IsReadable statements site ada_reader over_three answer (λ ids id m. m) ada_reads 3
      (inl three_is_named)
