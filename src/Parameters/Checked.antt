-- ===== src/Parameters/Checked.antt =====
-- What `ParameterizedQuery.apply` lets through, and what the template is rendered with.
use mathlib.Core.List.{Memᴰ}
use dingolytics_backend.Base.{
  ℕ, Bool, true, false, not, Option, none, some, List, [], ◌∷◌, any, ◌==◌, if◌then◌else◌, ◌≡◌, ◌≢◌,
  refl, sym, ap, ◌∙◌, arith, Bool-cases, Option-cases, inl, inr, string_eq, any_of_mem,
}
use dingolytics_backend.Base.Dict.{Dict, put, values}
use dingolytics_backend.Base.Result.{Result, ok, err, invalid_parameters, >>=-eq-ok}
use dingolytics_backend.Base.Text.{Text, text_eq}
use dingolytics_backend.Parameters.Values.{
  Library, Value, str, list, dict, other, Referred, Definition, find_definition,
}
use dingolytics_backend.Parameters.{
  ParameterizedQuery, is_nil, validate, valid, invalid_names, join_value,
  join_parameter_list_values, apply, is_safe, is_list,
}

module _ (L : Library) (find_query : Option ℕ → Result (Referred L))
    (schema : List Definition) where
  invalid_names-cons :
      (name : Text) (value : Value L) (parameters : Dict Text (Value L)) (b : Bool)
      (names : List Text)
      → valid L find_query schema name value ≡ ok b
      → invalid_names L find_query schema parameters ≡ ok names
      → invalid_names L find_query schema ((name, value) ∷ parameters)
        ≡ ok (if b then names else name ∷ names)
  unfolding invalid_names
  invalid_names-cons name value parameters b names e r = rw (e, r)

  valid_of_nil :
      (name : Text) (value : Value L) (parameters : Dict Text (Value L))
      → invalid_names L find_query schema parameters ≡ ok []
      → Memᴰ (name, value) parameters
      → valid L find_query schema name value ≡ ok true
  unfolding invalid_names
  valid_of_nil name value [] h m = elim m [ ]
  valid_of_nil name value ((n, v) ∷ parameters) h m =
      let (b, checked, h1) = >>=-eq-ok (valid L find_query schema n v) _ h in
      let (names, rest, h2) = >>=-eq-ok (invalid_names L find_query schema parameters) _ h1 in
      elim (Bool-cases b) [
        | inl e ↦
            at_place m (checked ∙ ap ok e)
              (valid_of_nil name value parameters (rest ∙ ground arith))
        | inr e ↦ absurd (cc (rw e at h2))
      ]
    where
      at_place :
          Memᴰ (name, value) ((n, v) ∷ parameters)
          → valid L find_query schema n v ≡ ok true
          → (Memᴰ (name, value) parameters → valid L find_query schema name value ≡ ok true)
          → valid L find_query schema name value ≡ ok true
      at_place (Memᴰ.head same) here later = ap (λ p. valid L find_query schema p.0 p.1) same ∙ here
      at_place (Memᴰ.tail n') here later = later n'

  -- What a check says of every parameter.
  abbrev pub Decides : (Text → Value L → Bool) → Dict Text (Value L) → Type 0
  Decides verdict [] = Unit
  Decides verdict ((name, value) ∷ parameters) =
      (valid L find_query schema name value ≡ ok (verdict name value)) × Decides verdict parameters

  -- The names of the parameters that a check turns down.
  abbrev pub refused : (Text → Value L → Bool) → Dict Text (Value L) → List Text
  refused verdict [] = []
  refused verdict ((name, value) ∷ parameters) =
      if verdict name value then refused verdict parameters else name ∷ refused verdict parameters

  invalid_names-refused :
      (verdict : Text → Value L → Bool) (parameters : Dict Text (Value L))
      → Decides verdict parameters
      → invalid_names L find_query schema parameters ≡ ok (refused verdict parameters)
  unfolding invalid_names
  invalid_names-refused verdict [] d = refl
  invalid_names-refused verdict ((name, value) ∷ parameters) d =
      invalid_names-cons name value parameters (verdict name value) (refused verdict parameters) d.0
        (invalid_names-refused verdict parameters d.1)

is_nil-eq : (names : List Text) → is_nil names ≡ true → names ≡ []
is_nil-eq [] h = refl
is_nil-eq (x ∷ names) h = cc

module _ (L : Library) (find_query : Option ℕ → Result (Referred L))
    (mustache_render : Text → Dict Text (Value L) → Text) (q : ParameterizedQuery L) where
  -- If `apply` returns, every parameter that it was given passed the check of its definition.
  pub apply-valid :
      (parameters : Dict Text (Value L)) (after : ParameterizedQuery L) (name : Text)
      (value : Value L)
      → apply L find_query mustache_render q parameters ≡ ok after
      → Memᴰ (name, value) parameters
      → valid L find_query q.schema name value ≡ ok true
  unfolding apply
  apply-valid parameters after name value h m =
      let (names, found, h1) = >>=-eq-ok (invalid_names L find_query q.schema parameters) _ h in
      elim (Bool-cases (is_nil names)) [
        | inl e ↦
            valid_of_nil L find_query q.schema name value parameters
              (found ∙ ap ok (is_nil-eq names e)) m
        | inr e ↦ absurd (cc (rw e at h1))
      ]

  all_pass :
      (parameters : Dict Text (Value L))
      → ((name : Text) (value : Value L)
          → Memᴰ (name, value) parameters
          → valid L find_query q.schema name value ≡ ok true)
      → Decides L find_query q.schema (λ name value. true) parameters
  all_pass [] h = tt
  all_pass ((name, value) ∷ parameters) h =
      (h name value (Memᴰ.head refl), all_pass parameters (λ n v m. h n v (Memᴰ.tail m)))

  -- What `apply` lets through has passed as a whole.
  pub apply-Decides :
      (parameters : Dict Text (Value L)) (after : ParameterizedQuery L)
      → apply L find_query mustache_render q parameters ≡ ok after
      → Decides L find_query q.schema (λ name value. true) parameters
  apply-Decides parameters after h =
      all_pass parameters (λ name value m. apply-valid parameters after name value h m)

  -- If the check of a parameter fails and no check raises, `apply` raises InvalidParameterError with the
  -- names of exactly the parameters that failed, in their order.
  apply-refused :
      (verdict : Text → Value L → Bool) (parameters : Dict Text (Value L)) (name : Text)
      (names : List Text)
      → Decides L find_query q.schema verdict parameters
      → refused L find_query q.schema verdict parameters ≡ name ∷ names
      → apply L find_query mustache_render q parameters ≡ err (invalid_parameters (name ∷ names))
  unfolding apply
  apply-refused verdict parameters name names d some_refused =
      rw (invalid_names-refused L find_query q.schema verdict parameters d, some_refused)

module _ (L : Library) (find_query : Option ℕ → Result (Referred L))
    (q : ParameterizedQuery L) where
  find_definition_found :
      (schema : List Definition) (name : Text) (d : Definition)
      → find_definition schema name ≡ some d
      → Memᴰ d schema × ((d.name == name) ≡ true)
  unfolding find_definition
  find_definition_found [] name d h = cc
  find_definition_found (c ∷ schema) name d h = elim (Bool-cases (c.name == name)) [
    | inl e ↦ let same : d ≡ c = ground arith in (Memᴰ.head same, ap (λ x. x.name == name) same ∙ e)
    | inr e ↦
        let (m, named) = find_definition_found schema name d (ground arith) in (Memᴰ.tail m, named)
  ]

  -- The definition that let a value through.
  pub record LetThrough (name : Text) (value : Value L) : Type 0 where
    pub definition : Definition
    pub of_schema : Memᴰ definition q.schema
    pub named : (definition.name == name) ≡ true
    pub passed : validate L find_query definition value ≡ ok true
    pub no_text : (definition.type == "text") ≡ false

  not-any :
      (p : Definition → Bool) (d : Definition) (ds : List Definition)
      → Memᴰ d ds
      → not (any p ds) ≡ true
      → p d ≡ false
  not-any p d ds m h = elim (Bool-cases (p d)) [
    | inl e ↦ absurd (cc (h, any_of_mem p m e))
    | inr e ↦ e
  ]

  valid-cons :
      (schema : List Definition) (name : Text) (value : Value L)
      → schema ≢ []
      → valid L find_query schema name value ≡ (elim (find_definition schema name) [
        | none ↦ ok false
        | some d ↦ validate L find_query d value
      ])
  unfolding valid
  valid-cons [] name value h = absurd (h refl)
  valid-cons (d ∷ schema) name value h = refl

  -- In a query that `is_safe` and has a schema, a value only passes by a definition of that name that
  -- is no text parameter.
  valid-LetThrough :
      (name : Text) (value : Value L)
      → q.schema ≢ []
      → is_safe L q ≡ true
      → valid L find_query q.schema name value ≡ ok true
      → LetThrough name value
  unfolding is_safe
  valid-LetThrough name value schema safe h = elim (Option-cases (find_definition q.schema name)) [
    | inl e ↦ absurd (cc (rw e at (sym (valid-cons q.schema name value schema) ∙ h)))
    | inr (d, e) ↦
        let (m, named) = find_definition_found q.schema name d e in
        record {
          definition = d;
          of_schema = m;
          named = named;
          passed = rw e at (sym (valid-cons q.schema name value schema) ∙ h);
          no_text = not-any (λ x. x.type == "text") d q.schema m safe;
        }
  ]

module _ (L : Library) (schema : List Definition) where
  join_value-plain :
      (key : Text) (value joined : Value L)
      → join_value L schema key value ≡ ok joined
      → is_list L joined ≡ false
  unfolding join_value is_list
  join_value-plain key (str s) joined h = ground arith
  join_value-plain key (dict d) joined h = ground arith
  join_value-plain key (other v) joined h = ground arith
  join_value-plain key (list vs) joined h = ground arith

  plain_put :
      (d : Dict Text (Value L)) (k : Text) (v : Value L)
      → any (is_list L) (values d) ≡ false
      → is_list L v ≡ false
      → any (is_list L) (values (put d k v)) ≡ false
  plain_put [] k v h e = ground arith
  plain_put ((j, w) ∷ d) k v h e = ground (arith, plain_put d k v)

  join_from :
      (acc parameters r : Dict Text (Value L))
      → any (is_list L) (values acc) ≡ false
      → join_parameter_list_values L schema acc parameters ≡ ok r
      → any (is_list L) (values r) ≡ false
  unfolding join_parameter_list_values
  join_from acc [] r plain h = ground arith
  join_from acc ((k, v) ∷ parameters) r plain h =
      let (w, joined, h1) = >>=-eq-ok (join_value L schema k v) _ h in
      join_from (put acc k w) parameters r (plain_put acc k w plain (join_value-plain k v w joined))
        h1

  -- The values that the template is rendered with hold no list.
  join_parameter_list_values-plain :
      (parameters r : Dict Text (Value L))
      → join_parameter_list_values L schema [] parameters ≡ ok r
      → any (is_list L) (values r) ≡ false
  join_parameter_list_values-plain parameters r h = join_from [] parameters r refl h
