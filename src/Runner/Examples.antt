-- ===== src/Runner/Examples.antt =====
-- The query runner's text work at short queries, with a parser that takes a text for one keyword.
use dingolytics_backend.Base.{ℕ, String, true, [], ◌∷◌, ◌≡◌, refl, string_eq, arith}
use dingolytics_backend.Base.Dict.{Dict, put, get-put}
use dingolytics_backend.Base.Result.{Result, ok, err, other_error}
use dingolytics_backend.Base.Text.{text_beq, Text, codes, upper, strip, join}
use dingolytics_backend.Runner.{
  is_empty_statement, is_keyword, is_punctuation, Parser, Token, keyword, str, limit_query,
  first_statement, limit_last, apply_auto_limit, split_sql_statements, combine_sql_statements,
  strip_trailing_comments, strip_trailing_semicolon, query_is_select_no_limit, add_limit_to_query,
  on_last,
}
use dingolytics_backend.Runner.Tunnel.{KeepsAddress, Action}

abbrev one_keyword : Text → Token
one_keyword text = record { kind = keyword; value = text }

abbrev parser : Parser
parser = record { parse = λ text. (one_keyword text ∷ []) ∷ []; strip_comments = λ stmt. stmt }

abbrev query : Text
query = codes "select"

abbrev limited : Text
limited = codes "select LIMIT 1000"

query_limited : apply_auto_limit parser query true ≡ ok limited
unfolding apply_auto_limit on_last split_sql_statements is_empty_statement text_beq strip str
    strip_trailing_semicolon strip_trailing_comments limit_last query_is_select_no_limit is_keyword
    upper add_limit_to_query combine_sql_statements join
query_limited = refl

query_first : first_statement parser query ≡ ok (one_keyword query ∷ [])
unfolding first_statement
query_first = refl

limit_first : first_statement parser limit_query ≡ ok (one_keyword limit_query ∷ [])
unfolding first_statement
limit_first = refl

last_limited : limit_last parser query ≡ ok limited
unfolding limit_last query_is_select_no_limit is_keyword text_beq upper add_limit_to_query str
    is_punctuation
last_limited = refl

abbrev remote : Dict String String
remote = ("host", "db.example.org") ∷ ("port", "5432") ∷ []

abbrev local : Dict String String
local = put (put remote "host" "127.0.0.1") "port" "9000"

abbrev open_local : String → String → Result (String × String)
open_local host port = ok ("127.0.0.1", "9000")

-- A run that fails after it has written to the port.
abbrev failing_run : Action String ℕ
failing_run config = (err (other_error "closed"), put config "port" "1")

failing_run-KeepsAddress : KeepsAddress failing_run
failing_run-KeepsAddress = record {
  host_kept = λ c h. ground (arith, get-put c "port" "host" "1");
  port_kept = λ c h. ground (arith, get-put c "port" "port" "1");
}
