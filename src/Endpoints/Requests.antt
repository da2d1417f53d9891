-- ===== src/Endpoints/Requests.antt =====
-- What dingolytics/api/endpoints.py reads from a request.
use mathlib.Core.List.{Memᴰ}
use dingolytics_backend.Base.{
  true, some, [], ◌∷◌, ◌==◌, nat_eq, string_eq, ◌≡◌, sym, ap, subst, arith, eq_of_beq, Option-cases,
  Bool-cases, inl, inr, beq_refl, ◌⊎◌,
}
use dingolytics_backend.Base.Dict.{Dict, get, put, has_key, get-put}
use dingolytics_backend.Base.Result.{ok, value_error, ok_inj, guard-eq-ok}
use dingolytics_backend.Base.Text.{text_eq, Text}
use dingolytics_backend.Endpoints.{
  param_name, validate_identifier, quote, escape_string, parameters_from_request,
}

pub mem_of_get : (d : Dict Text Text) (k v : Text) → get d k ≡ some v → Memᴰ (k, v) d
mem_of_get [] k v h = cc
mem_of_get ((j, w) ∷ d) k v h = elim (Bool-cases (j == k)) [
  | inl e ↦ Memᴰ.head (ground (arith, eq_of_beq j k e))
  | inr e ↦ Memᴰ.tail (mem_of_get d k v (rw e at h))
]

mem_of_put :
    (d : Dict Text Text) (k v : Text) {item : Text × Text}
    → Memᴰ item (put d k v)
    → (item.1 ≡ v) ⊎ Memᴰ item d
mem_of_put [] k v (Memᴰ.head e) = inl (ap (λ x. x.1) e)
mem_of_put [] k v (Memᴰ.tail n) = elim n [ ]
mem_of_put ((j, w) ∷ d) k v {item} m = elim (Bool-cases (j == k)) [
  | inl e ↦ at_key (rw e at m)
  | inr e ↦ at_rest (rw e at m) (mem_of_put d k v)
]
  where
    at_key : Memᴰ item ((j, v) ∷ d) → (item.1 ≡ v) ⊎ Memᴰ item ((j, w) ∷ d)
    at_key (Memᴰ.head e) = inl (ap (λ x. x.1) e)
    at_key (Memᴰ.tail n) = inr (Memᴰ.tail n)

    at_rest :
        Memᴰ item ((j, w) ∷ put d k v)
        → (Memᴰ item (put d k v) → (item.1 ≡ v) ⊎ Memᴰ item d)
        → (item.1 ≡ v) ⊎ Memᴰ item ((j, w) ∷ d)
    at_rest (Memᴰ.head e) later = inr (Memᴰ.head e)
    at_rest (Memᴰ.tail n) later = elim (later n) [ inl e ↦ inl e | inr r ↦ inr (Memᴰ.tail r) ]

-- Every value that is read is a literal.
pub parameters_from_request-quoted :
    (acc args : Dict Text Text)
    → ((n w : Text) → Memᴰ (n, w) acc → (t : Text) × (w ≡ 39 ∷ t))
    → (literals : Dict Text Text) → parameters_from_request acc args ≡ ok literals
    → (n w : Text) → Memᴰ (n, w) literals
    → (t : Text) × (w ≡ 39 ∷ t)
unfolding parameters_from_request escape_string quote
parameters_from_request-quoted acc [] quoted literals h n w m =
    quoted n w (subst (λ x. Memᴰ (n, w) x) (sym (ok_inj h)) m)
parameters_from_request-quoted acc ((key, value) ∷ args) quoted literals h n w m =
    elim (Option-cases (param_name key)) [
      | inl e ↦
          parameters_from_request-quoted acc args quoted literals
            (rw (e, parameters_from_request) at h) n w m
      | inr (name, e) ↦
          let (_, h1) =
            guard-eq-ok (validate_identifier name) value_error _
              (rw (e, parameters_from_request) at h) in
          parameters_from_request-quoted (put acc name (escape_string value)) args
            (λ n' w' k. elim (mem_of_put acc name (escape_string value) k) [
              | inl same ↦ (_, same)
              | inr old ↦ quoted n' w' old
            ])
            literals h1 n w m
    ]

-- What has been read stays.
parameters_from_request-kept :
    (acc args : Dict Text Text) (name : Text) (literals : Dict Text Text)
    → parameters_from_request acc args ≡ ok literals
    → has_key acc name ≡ true
    → has_key literals name ≡ true
unfolding parameters_from_request
parameters_from_request-kept acc [] name literals h there =
    subst (λ x. has_key x name ≡ true) (ok_inj h) there
parameters_from_request-kept acc ((key, value) ∷ args) name literals h there =
    elim (Option-cases (param_name key)) [
      | inl e ↦
          parameters_from_request-kept acc args name literals (rw (e, parameters_from_request) at h)
            there
      | inr (n, e) ↦
          let (_, h1) =
            guard-eq-ok (validate_identifier n) value_error _
              (rw (e, parameters_from_request) at h) in
          parameters_from_request-kept (put acc n (escape_string value)) args name literals h1
            (ground (arith, get-put acc n name (escape_string value)))
    ]

-- A value that a request sets is read.
pub parameters_from_request-sets :
    (name value : Text) (acc : Dict Text Text) {args : Dict Text Text}
    → Memᴰ (b'p' ∷ b'_' ∷ name, value) args
    → (literals : Dict Text Text) → parameters_from_request acc args ≡ ok literals
    → has_key literals name ≡ true
unfolding parameters_from_request param_name
parameters_from_request-sets name value acc (Memᴰ.head {x = x} {xs = args} e) literals h =
    let at_front : parameters_from_request acc ((b'p' ∷ b'_' ∷ name, value) ∷ args) ≡ ok literals =
      subst (λ y. parameters_from_request acc (y ∷ args) ≡ ok literals) (sym e) h in
    let (_, h1) = guard-eq-ok (validate_identifier name) value_error _ at_front in
    parameters_from_request-kept (put acc name (escape_string value)) args name literals h1
      (ground (arith, get-put acc name name (escape_string value), beq_refl name))
parameters_from_request-sets name value acc (Memᴰ.tail {x = x} {xs = args} m) literals h =
    elim (Option-cases (param_name x.0)) [
      | inl e ↦
          parameters_from_request-sets name value acc m literals
            (rw (e, parameters_from_request) at h)
      | inr (n, e) ↦
          let (_, h1) =
            guard-eq-ok (validate_identifier n) value_error _
              (rw (e, parameters_from_request) at h) in
          parameters_from_request-sets name value (put acc n (escape_string x.1)) m literals h1
    ]
