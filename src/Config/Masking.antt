-- ===== src/Config/Masking.antt =====
-- Showing a configuration with its secrets masked, and taking it back.
use dingolytics_backend.Base.{
  String, some, List, [], ◌∷◌, contains, if◌then◌else◌, string_eq, Eq, ◌≡◌, refl, arith, or_else,
  beq_refl, ap, true, Option, Option-cases, Bool-cases, ◌∙◌, inl, sym, inr, none, ◌==◌, ◌&&◌,
  eq_of_beq, subst,
}
use dingolytics_backend.Base.Dict.{
  Dict, get, put, Holds, put_all, IsDict, has_key, Holds-self, put_all-nil, get-put,
}
use dingolytics_backend.Base.Result.{ok, >>=-eq-ok, from_option, runtime_error, guard, value_error}
use dingolytics_backend.Config.{
  Schema, is_secret, secret_placeholder, mask, new_value, merge, to_dict, update,
  ConfigurationContainer, schema_of, Validator,
}

module _ {ℓ} {V : Type ℓ} ⦃e : Eq V⦄ (text : String → V) where
  abbrev shown : List String → String → V → V
  shown secret key v = if contains secret key then secret_placeholder text else v

  new_value-shown :
      (config : Dict String V) (s : Schema V) (k : String) (v : V)
      → get config k ≡ some v
      → new_value text config s k (shown (or_else s.secret []) k v) ≡ ok v
  unfolding new_value is_secret
  new_value-shown config s k v h = ground (arith, h, beq_refl (secret_placeholder text))

  merge-mask :
      (config : Dict String V) (s : Schema V) (items acc : Dict String V)
      → Holds config items
      → merge text config s (mask text (or_else s.secret []) items) acc ≡ ok (put_all acc items)
  unfolding merge mask
  merge-mask config s [] acc h = refl
  merge-mask config s ((k, v) ∷ items) acc h =
      rw (new_value-shown config s k v h.0) (merge-mask config s items (put acc k v) h.1)

  mask-nil : (d : Dict String V) → mask text [] d ≡ d
  unfolding mask
  mask-nil [] = refl
  mask-nil ((k, v) ∷ d) = ap (λ l. (k, v) ∷ l) (mask-nil d)

  to_dict-mask :
      (c : ConfigurationContainer V) (s : Schema V)
      → c.schema ≡ some s
      → to_dict text c true ≡ ok (mask text (or_else s.secret []) c.config)
  unfolding to_dict schema_of
  to_dict-mask c s h = elim (Option-cases s.secret) [
    | inl none_secret ↦ rw (h, none_secret) (ap ok (sym (mask-nil c.config)))
    | inr (secret, some_secret) ↦ rw (h, some_secret)
  ]

  -- Taking back the masked form of a configuration changes nothing: every secret keeps its value.
  pub update-to_dict :
      (validate : Validator V) (c : ConfigurationContainer V) (s : Schema V)
      (shown_config : Dict String V)
      → c.schema ≡ some s
      → IsDict c.config
      → to_dict text c true ≡ ok shown_config
      → validate shown_config s ≡ true
      → update text validate c shown_config ≡ ok c
  unfolding update schema_of
  update-to_dict validate c s shown_config h d e' valid =
      let masked : shown_config ≡ mask text (or_else s.secret []) c.config =
        cc (to_dict-mask c s h) in
      let merged : merge text c.config s shown_config [] ≡ ok c.config =
        ap (λ i. merge text c.config s i []) masked
        ∙ merge-mask c.config s c.config [] (Holds-self c.config d)
        ∙ ap ok (put_all-nil c.config d) in
      rw (h, valid, merged)

  mask-put :
      (secret : List String) (d : Dict String V) (k : String) (v : V)
      → contains secret k ≡ true
      → has_key d k ≡ true
      → mask text secret (put d k v) ≡ mask text secret d
  unfolding mask
  mask-put secret [] k v h present = cc
  mask-put secret ((j, w) ∷ d) k v h present = elim (Bool-cases (j == k)) [
    | inl same ↦ let q = eq_of_beq j k same in ground (arith, ap (contains secret) q)
    | inr other ↦ rw (other, mask-put secret d k v h (ground arith))
  ]

  -- The masked form tells nothing of the value of a secret: it stays the same whatever value that
  -- secret is given.
  to_dict-hides_secret :
      (c : ConfigurationContainer V) (s : Schema V) (k : String) (v : V)
      → c.schema ≡ some s
      → is_secret s k ≡ true
      → has_key c.config k ≡ true
      → to_dict text (record c { config = put c.config k v }) true ≡ to_dict text c true
  unfolding is_secret
  to_dict-hides_secret c s k v h secret present =
      to_dict-mask (record c { config = put c.config k v }) s h
      ∙ ap ok (mask-put (or_else s.secret []) c.config k v secret present)
      ∙ sym (to_dict-mask c s h)

  -- What an item of the new configuration stores under its key.
  abbrev pub stored : Dict String V → Schema V → String → Option V → Option V → Option V
  stored config s k none old = old
  stored config s k (some v) old =
      if is_secret s k && v == secret_placeholder text then get config k else some v

  new_value-stored :
      (config : Dict String V) (s : Schema V) (k : String) (v w : V) (old : Option V)
      → new_value text config s k v ≡ ok w
      → stored config s k (some v) old ≡ some w
  unfolding new_value
  new_value-stored config s k v w old h = ground arith

  merge-get :
      (config : Dict String V) (s : Schema V) (items acc r : Dict String V)
      → IsDict items
      → merge text config s items acc ≡ ok r
      → (k : String) → get r k ≡ stored config s k (get items k) (get acc k)
  unfolding merge
  merge-get config s [] acc r d h k = cc
  merge-get config s ((j, v) ∷ items) acc r d h k =
      let (w, found, rest) = >>=-eq-ok (new_value text config s j v) _ h in
      merge-get config s items (put acc j w) r d.1 rest k ∙ (elim (Bool-cases (j == k)) [
        | inl same ↦
            let q = eq_of_beq j k same in
            ground (
              arith,
              same,
              q,
              d.0,
              ap (get items) q,
              get-put acc j k w,
              new_value-stored config s j v w (get acc k) found,
              ap (is_secret s) q,
              ap (get config) q,
            )
        | inr other ↦ rw (other, get-put acc j k w) (rw other)
      ])

  -- `update` stores each item of the new configuration, but for a secret that comes back masked: that
  -- one keeps its old value. Keys that are not in the new configuration are gone.
  update-get :
      (validate : Validator V) (c after : ConfigurationContainer V) (s : Schema V)
      (new_config : Dict String V)
      → c.schema ≡ some s
      → IsDict new_config
      → update text validate c new_config ≡ ok after
      → (k : String) → get after.config k ≡ stored c.config s k (get new_config k) none
  unfolding update schema_of
  update-get validate c after s new_config h d done k =
      let (s', found, h1) = >>=-eq-ok (from_option c.schema runtime_error) _ done in
      let (_, valid, h2) = >>=-eq-ok (guard (validate new_config s') value_error) _ h1 in
      let (config, merged, h3) = >>=-eq-ok (merge text c.config s' new_config []) _ h2 in
      let same : s' ≡ s = ground arith in
      let got = merge-get c.config s' new_config [] config d merged k in
      let same_config : config ≡ after.config = ground arith in
      subst (λ r. get r k ≡ stored c.config s k (get new_config k) none) same_config
        (subst (λ t. get config k ≡ stored c.config t k (get new_config k) none) same got)
