-- ===== src/Authentication/Signatures.antt =====
-- Signed requests.
use dingolytics_backend.Base.{
  ℕ, ◌+◌, String, true, ◌&&◌, Option, none, some, [], ◌∷◌, keep, ◌==◌, ◌≡◌, ◌≢◌, refl, sym, ap,
  subst, ◌∙◌, arith, Bool-cases, inl, inr, find, Option-cases, ◌<◌, ◌≤◌, nat_eq, string_eq, ltb,
  leb,
}
use dingolytics_backend.Base.Dict.{keys}
use dingolytics_backend.Base.Result.{ok, >>=-eq-ok}
use dingolytics_backend.Base.Text.{Text, text_beq_iff}
use dingolytics_backend.Users.{User, ApiUser, Principal, user, api_user}
use dingolytics_backend.Grants.Handlers.{the_one}
use dingolytics_backend.Store.{Store, groups_of_query}
use dingolytics_backend.Authentication.{
  Request, sign, is_signed, signed_user, signed_query, in_window, or_query, with_signature,
  hmac_load_user_from_request,
}

module _ (hmac : String → Text → ℕ → Text) (d : Store) where
  -- The request carries the digest of its path and instant under a key that is not empty.
  abbrev pub IsSigned : Request → String → Type 0
  IsSigned r key = (key ≢ "") × (r.signature ≡ some (hmac key r.path r.expires))

  abbrev pub key_of : Principal → String
  key_of (user u) = u.api_key
  key_of (api_user a) = a.id

  is_signed-eq :
      (key : String) (path : Text) (expires : ℕ) (signature : Text)
      → is_signed hmac d key path expires signature ≡ true
      → (key ≢ "") × (signature ≡ hmac key path expires)
  unfolding is_signed sign
  is_signed-eq key path expires signature h = elim (Bool-cases (key == "")) [
    | inl e ↦ absurd (cc (rw (e, is_signed, sign) at h))
    | inr e ↦ (
      λ k. cc (e, (string_eq.beq_iff key "").1 k),
      (text_beq_iff signature (hmac key path expires)).0 (rw (e, is_signed, sign) at h),
    )
  ]

  is_signed_intro :
      (key : String) (path : Text) (expires : ℕ) (signature : Text)
      → key ≢ ""
      → signature ≡ hmac key path expires
      → is_signed hmac d key path expires signature ≡ true
  unfolding is_signed
  is_signed_intro key path expires signature named same = elim (Bool-cases (key == "")) [
    | inl e ↦ absurd (named ((string_eq.beq_iff key "").0 e))
    | inr e ↦ rw (e, is_signed, sign) ((text_beq_iff signature (hmac key path expires)).1 same)
  ]

  signed_user_found :
      (r : Request) (signature : Text) (id : ℕ) (u : User)
      → find (λ u. u.id == id) d.users ≡ some u
      → is_signed hmac d u.api_key r.path r.expires signature ≡ true
      → signed_user hmac d r signature (some id) ≡ ok (some (user u))
  unfolding signed_user
  signed_user_found r signature id u e f = rw (e, f, signed_user) refl

  signed_user-key :
      (r : Request) (signature : Text) (id : Option ℕ) (p : Principal)
      → signed_user hmac d r signature id ≡ ok (some p)
      → (key_of p ≢ "") × (signature ≡ hmac (key_of p) r.path r.expires)
  unfolding signed_user
  signed_user-key r signature none p h = cc
  signed_user-key r signature (some id) p h = elim (Option-cases (find (λ u. u.id == id) d.users)) [
    | inl e ↦ absurd (cc (rw (e, signed_user) at h))
    | inr (u, e) ↦ elim (Bool-cases (is_signed hmac d u.api_key r.path r.expires signature)) [
      | inl f ↦
          let loaded : user u ≡ p = cc (rw (e, f, signed_user) at h) in
          subst (λ x. (key_of x ≢ "") × (signature ≡ hmac (key_of x) r.path r.expires)) loaded
            (is_signed-eq u.api_key r.path r.expires signature f)
      | inr f ↦ absurd (cc (rw (e, f, signed_user) at h))
    ]
  ]

  signed_query-key :
      (r : Request) (signature : Text) (id : Option ℕ) (p : Principal)
      → signed_query hmac d r signature id ≡ ok (some p)
      → (key_of p ≢ "") × (signature ≡ hmac (key_of p) r.path r.expires)
  unfolding signed_query
  signed_query-key r signature none p h = cc
  signed_query-key r signature (some id) p h =
      let (q, found, h1) = >>=-eq-ok (the_one (keep (λ q. q.id == id) d.queries)) _ h in
      elim (Bool-cases (is_signed hmac d q.api_key r.path r.expires signature)) [
        | inl f ↦
            let a : ApiUser = record { id = q.api_key; group_ids = keys (groups_of_query d q) } in
            let loaded : api_user a ≡ p = cc (rw f at h1) in
            subst (λ x. (key_of x ≢ "") × (signature ≡ hmac (key_of x) r.path r.expires)) loaded
              (is_signed-eq q.api_key r.path r.expires signature f)
        | inr f ↦ absurd (cc (rw f at h1))
      ]

  or_query-key :
      (r : Request) (signature : Text) (o : Option Principal) (p : Principal)
      → signed_user hmac d r signature r.user_id ≡ ok o
      → or_query hmac d r signature o ≡ ok (some p)
      → (key_of p ≢ "") × (signature ≡ hmac (key_of p) r.path r.expires)
  unfolding or_query
  or_query-key r signature none p e h = signed_query-key r signature r.query_id p h
  or_query-key r signature (some x) p e h = signed_user-key r signature r.user_id p (e ∙ h)

  with_signature-IsSigned :
      (r : Request) (now : ℕ) (o : Option Text) (p : Principal)
      → r.signature ≡ o
      → with_signature hmac d r now o ≡ ok (some p)
      → (now < r.expires) × (r.expires ≤ now + 3600) × IsSigned r (key_of p)
  unfolding with_signature in_window
  with_signature-IsSigned r now none p e h = cc
  with_signature-IsSigned r now (some []) p e h = cc
  with_signature-IsSigned r now (some (c ∷ signature)) p e h =
      elim (Bool-cases (ltb now r.expires && leb r.expires (now + 3600))) [
        | inl f ↦
            let (o, by_user, h1) =
              >>=-eq-ok (signed_user hmac d r (c ∷ signature) r.user_id) _ (rw f at h) in
            let (named, same) = or_query-key r (c ∷ signature) o p by_user h1 in
            (ground arith, ground arith, (named, e ∙ ap some same))
        | inr f ↦ absurd (cc (rw f at h))
      ]

  -- Whoever a signed request runs as, the request is not past its instant and at most an hour before it, and is signed with the key
  -- of that user or query.
  pub hmac_load_user_from_request-IsSigned :
      (r : Request) (now : ℕ) (p : Principal)
      → hmac_load_user_from_request hmac d r now ≡ ok (some p)
      → (now < r.expires) × (r.expires ≤ now + 3600) × IsSigned r (key_of p)
  unfolding hmac_load_user_from_request
  hmac_load_user_from_request-IsSigned r now p h =
      with_signature-IsSigned r now r.signature p refl h

  -- A request that is signed with a user's key is loaded as that user while its window lasts, whether or not the
  -- user has been disabled.
  hmac_load_user_from_request_user :
      (r : Request) (now id : ℕ) (u : User) (c : ℕ) (digest : Text)
      → r.user_id ≡ some id
      → find (λ u. u.id == id) d.users ≡ some u
      → u.api_key ≢ ""
      → r.signature ≡ some (c ∷ digest)
      → hmac u.api_key r.path r.expires ≡ c ∷ digest
      → now < r.expires
      → r.expires ≤ now + 3600
      → hmac_load_user_from_request hmac d r now ≡ ok (some (user u))
  unfolding hmac_load_user_from_request with_signature in_window or_query
  hmac_load_user_from_request_user r now id u c digest hid found key hs same low high =
      let window : (ltb now r.expires && leb r.expires (now + 3600)) ≡ true = ground arith in
      let loaded : signed_user hmac d r (c ∷ digest) r.user_id ≡ ok (some (user u)) =
        ap (signed_user hmac d r (c ∷ digest)) hid
        ∙ signed_user_found r (c ∷ digest) id u found
            (is_signed_intro u.api_key r.path r.expires (c ∷ digest) key (sym same)) in
      ap (with_signature hmac d r now) hs ∙ rw (window, loaded) refl
