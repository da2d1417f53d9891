-- ===== src/Endpoints/Published.antt =====
-- Which requests a published query answers.
use mathlib.Core.List.{Memᴰ}
use dingolytics_backend.Base.{
  ℕ, String, true, false, not, ◌||◌, Option, some, List, [], ◌∷◌, ◌==◌, nat_eq, string_eq, ◌≡◌,
  refl, sym, ap, subst, ◌∙◌, arith, eq_of_beq, mem_of_keep,
}
use dingolytics_backend.Base.Dict.{Dict}
use dingolytics_backend.Base.Result.{Result, ok, err, abort, ok_inj, >>=-eq-ok, guard-eq-ok}
use dingolytics_backend.Base.Text.{text_eq, Text}
use dingolytics_backend.Grants.Handlers.{or_404}
use dingolytics_backend.Parameters.Values.{
  Library, Value, str, Definition, Referred, find_definition, is_number,
}
use dingolytics_backend.Parameters.{valid, validate}
use dingolytics_backend.Parameters.Checked.{apply-valid}
use dingolytics_backend.Store.{Query, Store}
use dingolytics_backend.Store.Lookup.{the_one-Mem, or_404-the_one}
use dingolytics_backend.Queries.Visible.{some_of}
use dingolytics_backend.Endpoints.{
  Loaded, find_by_id, parameters_from_request, or_400, as_values, published_query, applied_query,
  endpoint_result,
}
use dingolytics_backend.Endpoints.Requests.{
  mem_of_get, parameters_from_request-quoted, parameters_from_request-sets,
}

or_400-ok : {A : Type 0} (r : Result A) {a : A} → or_400 r ≡ ok a → r ≡ ok a
unfolding or_400
or_400-ok (ok a) h = h
or_400-ok (err x) h = ground arith

or_404-ok_of : {A : Type 0} (r : Result A) (a : A) → r ≡ ok a → or_404 r ≡ ok a
unfolding or_404
or_404-ok_of (ok b) a h = h
or_404-ok_of (err x) a h = cc

module _ (L : Library) (find_referred : Option ℕ → Result (Referred L)) where
  as_values-Mem :
      (name v : Text) {d : Dict Text Text} → Memᴰ (name, v) d → Memᴰ (name, str v) (as_values L d)
  unfolding as_values
  as_values-Mem name v (Memᴰ.head {x = x} e) =
      Memᴰ.head (ap (λ (i : Text × Text). (i.0, str i.1)) e)
  as_values-Mem name v (Memᴰ.tail {x = x} m) = Memᴰ.tail (as_values-Mem name v m)

  valid-number :
      (schema : List Definition) (name v : Text) (definition : Definition)
      → find_definition schema name ≡ some definition
      → definition.type ≡ "number"
      → valid L find_referred schema name (str v) ≡ ok (L.reads_float v)
  unfolding valid validate is_number
  valid-number [] name v definition h e = cc
  valid-number (x ∷ schema) name v definition h e = rw (h, valid) (rw (e, validate) refl)

module _ (L : Library) (find_referred : Option ℕ → Result (Referred L))
    (mustache_render : Text → Dict Text (Value L) → Text) {Row : Type 0}
    (run : (data_source : ℕ) → Text → Result (Option Text × Option Text))
    (json_loads : Text → Result (Loaded Row)) where
  -- A request that is answered names a row of the table that is published, by its key; the values of the
  -- request, as literals, are let through by the definitions of the row's parameters.
  pub record Answered (d : Store) (endpoint_id : ℕ) (token : String) (args : Dict Text Text)
      : Type 0 where
    pub endpoint : Query
    pub in_table : Memᴰ endpoint d.queries
    pub same_id : endpoint.id ≡ endpoint_id
    pub published : endpoint.is_published ≡ true
    pub no_draft : endpoint.is_draft ≡ false
    pub not_archived : endpoint.is_archived ≡ false
    pub same_key : token ≡ endpoint.api_key
    pub literals : Dict Text Text
    pub from_request : parameters_from_request [] args ≡ ok literals
    pub let_through :
        (name : Text) (value : Value L)
        → Memᴰ (name, value) (as_values L literals)
        → valid L find_referred endpoint.parameters name value ≡ ok true

  -- What an answered request went through.
  answered_steps :
      (d : Store) (endpoint_id : ℕ) (token : String) (args : Dict Text Text) (row : Option Row)
      → endpoint_result L find_referred mustache_render run json_loads d endpoint_id token args
        ≡ ok row
      → (q : Query) × (or_404 (find_by_id d endpoint_id) ≡ ok q)
        × (not (q.is_draft || q.is_archived || not q.is_published) ≡ true)
        × ((token == q.api_key) ≡ true)
        × (literals : Dict Text Text) × (parameters_from_request [] args ≡ ok literals)
        × ((name : Text) (value : Value L)
            → Memᴰ (name, value) (as_values L literals)
            → valid L find_referred q.parameters name value ≡ ok true)
  unfolding endpoint_result published_query applied_query
  answered_steps d endpoint_id token args row h =
      let (q, found, h1) =
        >>=-eq-ok
          (published_query L find_referred mustache_render run json_loads d endpoint_id token) _
          h in
      let (q', there, h2) = >>=-eq-ok (or_404 (find_by_id d endpoint_id)) _ found in
      let (open', h3) =
        guard-eq-ok (not (q'.is_draft || q'.is_archived || not q'.is_published)) (abort 403) _ h2 in
      let (same, h4) = guard-eq-ok (token == q'.api_key) (abort 403) _ h3 in
      let (applied, e, _) =
        >>=-eq-ok (applied_query L find_referred mustache_render run json_loads q args) _ h1 in
      let (literals, read, h5) = >>=-eq-ok (or_400 (parameters_from_request [] args)) _ e in
      (
        q',
        there,
        open',
        same,
        literals,
        or_400-ok _ read,
        λ name value m.
            subst (λ x. valid L find_referred x.parameters name value ≡ ok true) (sym (ok_inj h4))
              (apply-valid L find_referred mustache_render _ (as_values L literals) applied name
                value h5 m),
      )

  -- A request that is answered asks for a published query, neither draft nor archived, by its key, and every
  -- value that reaches the query was let through by the definition of its parameter.
  pub endpoint_result-Answered :
      (d : Store) (endpoint_id : ℕ) (token : String) (args : Dict Text Text) (row : Option Row)
      → endpoint_result L find_referred mustache_render run json_loads d endpoint_id token args
        ≡ ok row
      → Answered d endpoint_id token args
  unfolding find_by_id
  endpoint_result-Answered d endpoint_id token args row h =
      let (q, found, opened, same, literals, read, passed) =
        answered_steps d endpoint_id token args row h in
      let (m, e) = mem_of_keep _ d.queries (the_one-Mem _ q (or_404-the_one _ q found)) in
      record {
        endpoint = q;
        in_table = m;
        same_id = eq_of_beq q.id endpoint_id e;
        published = ground arith;
        no_draft = ground arith;
        not_archived = ground arith;
        same_key = eq_of_beq token q.api_key same;
        literals = literals;
        from_request = read;
        let_through = passed;
      }

  -- A parameter that is defined as a number cannot be set: its value arrives as a literal between quotes, which
  -- is no number, so that a request that sets it is never answered. It is assumed of `float` that it reads no
  -- text that begins with a quote.
  pub endpoint_result-number :
      ((s : Text) → L.reads_float (39 ∷ s) ≡ false)
      → (d : Store) (endpoint_id : ℕ) (token : String) (args : Dict Text Text) (q : Query)
        (name value : Text) (definition : Definition)
      → find_by_id d endpoint_id ≡ ok q
      → Memᴰ (b'p' ∷ b'_' ∷ name, value) args
      → find_definition q.parameters name ≡ some definition
      → definition.type ≡ "number"
      → (row : Option Row)
      → ¬ (
          endpoint_result L find_referred mustache_render run json_loads d endpoint_id token args
          ≡ ok row)
  endpoint_result-number no_quote d endpoint_id token args q name value definition found m defined
        number row h =
      let (q', there, _, _, literals, read, passed) =
        answered_steps d endpoint_id token args row h in
      let same : q' ≡ q = ok_inj (sym there ∙ or_404-ok_of (find_by_id d endpoint_id) q found) in
      let (v, got) = some_of _ (parameters_from_request-sets name value [] m literals read) in
      let (t, quoted) =
        parameters_from_request-quoted [] args (λ n w k. elim k [ ]) literals read name v
          (mem_of_get literals name v got) in
      cc (
        passed name (str v) (as_values-Mem L find_referred name v (mem_of_get literals name v got)),
        valid-number L find_referred q'.parameters name v definition
            (ap (λ x. find_definition x.parameters name) same ∙ defined) number,
        ap (λ x. ok (L.reads_float x)) quoted,
        no_quote t,
      )
