-- ===== src/Runner/Limit.antt =====
-- Where the automatic limit goes.
use mathlib.Core.List.{append-nil}
use dingolytics_backend.Base.{
  true, false, List, [], ◌∷◌, ◌++◌, ◌≡◌, refl, ap, arith, Bool-cases, inl, inr, ◌⊎◌,
}
use dingolytics_backend.Base.Result.{Result, ok, >>=-eq-ok, ◌>>=◌}
use dingolytics_backend.Base.Text.{Text}
use dingolytics_backend.Runner.{
  Parser, Token, is_punctuation, str, split_sql_statements, combine_sql_statements, no_limit,
  first_statement, insert_limit, add_limit_to_query, on_last, limit_last, apply_auto_limit,
  query_is_select_no_limit, limit_query,
}

-- All but the last of the statements stay, and the last one is what the step made of it.
pub record OnLast (f : Text → Result Text) (queries results : List Text) : Type 0 where
  pub before : List Text
  pub query : Text
  pub result : Text
  pub of_queries : queries ≡ before ++ query ∷ []
  pub of_results : results ≡ before ++ result ∷ []
  pub done : f query ≡ ok result

on_last-OnLast :
    (f : Text → Result Text) (queries results : List Text)
    → on_last f queries ≡ ok results
    → OnLast f queries results
unfolding on_last
on_last-OnLast f [] results h = cc
on_last-OnLast f (q ∷ []) results h =
    let (r, done, e) = >>=-eq-ok (f q) _ h in
    record {
      before = [];
      query = q;
      result = r;
      of_queries = refl;
      of_results = ground arith;
      done = done;
    }
on_last-OnLast f (q ∷ q' ∷ queries) results h =
    let (rest, done, e) = >>=-eq-ok (on_last f (q' ∷ queries)) _ h in
    let s = on_last-OnLast f (q' ∷ queries) rest done in
    record {
      before = q ∷ s.before;
      query = s.query;
      result = s.result;
      of_queries = ap (λ l. q ∷ l) s.of_queries;
      of_results = ground (arith, s.of_results);
      done = s.done;
    }

-- The statements before and behind the place of the limit.
pub record Inserted (limit stmt result : List Token) : Type 0 where
  pub before : List Token
  pub after : List Token
  pub of_stmt : stmt ≡ before ++ after
  pub of_result : result ≡ before ++ (limit ++ after)
  pub at_end : (after ≡ []) ⊎ ((t : Token) × (after ≡ t ∷ []) × (is_punctuation t ≡ true))

insert_limit-Inserted :
    (limit stmt result : List Token)
    → insert_limit limit stmt ≡ ok result
    → Inserted limit stmt result
unfolding insert_limit
insert_limit-Inserted limit [] result h = cc
insert_limit-Inserted limit (t ∷ []) result h = elim (Bool-cases (is_punctuation t)) [
  | inl e ↦ record {
    before = [];
    after = t ∷ [];
    of_stmt = refl;
    of_result = ground arith;
    at_end = inr (t, refl, e);
  }
  | inr e ↦ record {
    before = t ∷ [];
    after = [];
    of_stmt = refl;
    of_result = ground (arith, append-nil limit);
    at_end = inl refl;
  }
]
insert_limit-Inserted limit (t ∷ u ∷ ts) result h =
    let (rest, done, e) = >>=-eq-ok (insert_limit limit (u ∷ ts)) _ h in
    let s = insert_limit-Inserted limit (u ∷ ts) rest done in
    record {
      before = t ∷ s.before;
      after = s.after;
      of_stmt = ap (λ l. t ∷ l) s.of_stmt;
      of_result = ground (arith, s.of_result);
      at_end = s.at_end;
    }

-- With the limit asked for, the result joins the statements of the query, all but the last one as
-- they are; the last one is what `limit_last` makes of it.
apply_auto_limit-OnLast :
    (parser : Parser) (query_text result : Text)
    → apply_auto_limit parser query_text true ≡ ok result
    → (queries : List Text) × (result ≡ combine_sql_statements queries)
      × OnLast (limit_last parser) (split_sql_statements parser query_text) queries
unfolding apply_auto_limit
apply_auto_limit-OnLast parser query_text result h =
    let (queries, done, e) =
      >>=-eq-ok (on_last (limit_last parser) (split_sql_statements parser query_text)) _ h in
    (queries, ground arith, on_last-OnLast (limit_last parser) _ queries done)

-- A statement changes only if its first token is SELECT and its last keyword is neither LIMIT nor
-- OFFSET. The tokens of the limit then stand at its end, or before its last token if that is
-- punctuation, and everything else is as it was.
limit_last_cases :
    (parser : Parser) (query result : Text) (stmt limit : List Token)
    → first_statement parser query ≡ ok stmt
    → first_statement parser limit_query ≡ ok limit
    → limit_last parser query ≡ ok result
    → ((no_limit stmt ≡ false) × (result ≡ query))
      ⊎ ((no_limit stmt ≡ true)
          × ((tokens : List Token) × (result ≡ str tokens) × Inserted limit stmt tokens))
unfolding limit_last query_is_select_no_limit add_limit_to_query
limit_last_cases parser query result stmt limit hs hl h = elim (Bool-cases (no_limit stmt)) [
  | inr e ↦ inl (e, ground arith)
  | inl e ↦
      let inserted : (insert_limit limit stmt >>= λ tokens. ok (str tokens)) ≡ ok result =
        ground arith in
      let (tokens, done, e') = >>=-eq-ok (insert_limit limit stmt) _ inserted in
      inr (e, (tokens, ground arith, insert_limit-Inserted limit stmt tokens done))
]
