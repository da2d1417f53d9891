-- ===== src/Authentication.antt =====
-- redash/authentication/__init__.py: whom a request runs as. `hmac` stands for the SHA-1 digest of a path and an
-- instant under a key, `identity` for `User.get_id` behind the dash, and a verified token of jwt_auth is its email.
pub mod Keys
pub mod Signatures
mod Examples
use dingolytics_backend.Base.{
  ℕ, zero, suc, ◌+◌, ◌-◌, String, Bool, true, false, not, ◌&&◌, ◌||◌, Option, none, some, List, [],
  ◌∷◌, ◌++◌, keep, ltb, leb, ◌==◌, if◌then◌else◌, nat_eq, string_eq, find,
}
use dingolytics_backend.Base.Dict.{keys}
use dingolytics_backend.Base.Result.{
  Result, ok, err, attribute_error, no_result_found, value_error, other_error, ◌>>=◌,
}
use dingolytics_backend.Base.Text.{Text, codes, text_beq}
use dingolytics_backend.Users.{User, ApiUser, Principal, user, api_user, is_disabled}
use dingolytics_backend.Grants.Handlers.{the_one}
use dingolytics_backend.Store.{Query, ApiKey, Store, find_query, groups_of_query}

-- What is read of a request; a missing argument is `none`. Without `view_args` there is no route.
pub record Request : Type 0 where
  pub path : Text
  pub api_key : Option String
  pub authorization : Option String
  pub signature : Option Text
  pub expires : ℕ
  pub user_id : Option ℕ
  pub has_view_args : Bool
  pub query_id : Option ℕ
  pub token : Option String

-- `try: r except NoResultFound: next`
unfoldable pub or_missing {ℓ} : {A : Type ℓ} → Result A → Result A → Result A
or_missing (err no_result_found) next = next
or_missing r next = r

drop_chars : ℕ → String → String
drop_chars zero s = s
drop_chars (suc n) String.[] = String.[]
drop_chars (suc n) (String.◌∷◌ c s) = drop_chars n s

starts_with : Text → Text → Bool
starts_with [] s = true
starts_with (c ∷ prefix) [] = false
starts_with (c ∷ prefix) (d ∷ s) = c == d && starts_with prefix s

-- `auth_header.replace("Key ", "", 1)`
unfoldable pub strip_key : String → String
unfolding drop_chars starts_with
strip_key String.[] = String.[]
strip_key (String.◌∷◌ c s) =
    let rest = strip_key s in
    if starts_with (codes "Key ") (codes (String.◌∷◌ c s))
    then drop_chars 3 s
    else String.◌∷◌ c rest

-- A text that is there and not empty.
unfoldable pub non_empty : Option String → Option String
non_empty none = none
non_empty (some s) = if s == "" then none else some s

unfoldable pub get_api_key_from_request : Request → Option String
unfolding strip_key non_empty
get_api_key_from_request r = elim r.api_key [
  | some key ↦ some key
  | none ↦ elim (non_empty r.authorization) [
    | some header ↦ some (strip_key header)
    | none ↦ if r.has_view_args then non_empty r.token else none
  ]
]

module _ (d : Store) (org : ℕ) where
  -- The key of a user of the organization; a disabled user is nobody.
  unfoldable pub user_by_key : String → Result (Option Principal)
  unfolding is_disabled the_one
  user_by_key key = do
    u ← the_one (keep (λ u. u.org_id == org && u.api_key == key) d.users)
    ok (if is_disabled u then none else some (user u))

  -- `ApiKey.get_by_api_key`: the key of a shared object, in any organization.
  unfoldable pub object_by_key : String → Result (Option Principal)
  unfolding the_one
  object_by_key key = do
    k ← the_one (keep (λ k. k.api_key == key && k.active) d.api_keys)
    ok (some (api_user (record { id = k.api_key; group_ids = [] })))

  unfoldable pub query_by_key : String → Option ℕ → Result (Option Principal)
  query_by_key key none = ok none
  query_by_key key (some id) = do
    q ← find_query d id org
    ok (
        if q.api_key == key
        then some (api_user (record { id = key; group_ids = keys (groups_of_query d q) }))
        else none)

  by_key : Option ℕ → Option String → Result (Option Principal)
  unfolding or_missing user_by_key object_by_key query_by_key
  by_key query_id none = ok none
  by_key query_id (some key) =
      or_missing (user_by_key key) (or_missing (object_by_key key) (query_by_key key query_id))

  unfoldable pub get_user_from_api_key :
      Option String → (query_id : Option ℕ) → Result (Option Principal)
  unfolding by_key non_empty
  get_user_from_api_key api_key query_id = by_key query_id (non_empty api_key)

  unfoldable pub api_key_load_user_from_request : Request → Result (Option Principal)
  unfolding get_api_key_from_request get_user_from_api_key
  api_key_load_user_from_request r =
      if r.has_view_args
      then get_user_from_api_key (get_api_key_from_request r) r.query_id
      else ok none

  -- `load_user`, for the id and the identity of the session, or `none` for a text of another shape.
  unfoldable pub load_user :
      (identity : User → String) → Request → Option (ℕ × String) → Result (Option Principal)
  unfolding api_key_load_user_from_request
  load_user identity r session = do
    by_key ← api_key_load_user_from_request r
    elim by_key [
      | some p ↦ ok (some p)
      | none ↦ elim session [
        | none ↦ ok none
        | some s ↦
            or_missing
              (the_one (keep (λ u. u.id == s.0 && u.org_id == org) d.users) >>= λ u.
                ok (if is_disabled u || not (identity u == s.1) then none else some (user u)))
              (ok none)
      ]
    ]

module _ (hmac : String → Text → ℕ → Text) (d : Store) where
  -- `sign`
  unfoldable pub sign : String → Text → ℕ → Option Text
  sign key path expires = if key == "" then none else some (hmac key path expires)

  -- `key and signature == calculated_signature`
  unfoldable pub is_signed : String → Text → ℕ → Text → Bool
  unfolding sign
  is_signed key path expires signature = elim (sign key path expires) [
    | none ↦ false
    | some calculated ↦ text_beq signature calculated
  ]

  -- `User.query.get(user_id)`, in any organization
  unfoldable pub signed_user : Request → Text → Option ℕ → Result (Option Principal)
  unfolding is_signed
  signed_user r signature none = ok none
  signed_user r signature (some id) = elim (find (λ u. u.id == id) d.users) [
    | none ↦ err attribute_error
    | some u ↦ ok (if is_signed u.api_key r.path r.expires signature then some (user u) else none)
  ]

  unfoldable pub signed_query : Request → Text → Option ℕ → Result (Option Principal)
  unfolding is_signed the_one
  signed_query r signature none = ok none
  signed_query r signature (some id) = do
    q ← the_one (keep (λ q. q.id == id) d.queries)
    ok (
        if is_signed q.api_key r.path r.expires signature
        then some (api_user (record { id = q.api_key; group_ids = keys (groups_of_query d q) }))
        else none)

  in_window : (now expires : ℕ) → Bool
  in_window now expires = ltb now expires && leb expires (now + 3600)

  -- The query is tried where the user did not sign.
  or_query : Request → Text → Option Principal → Result (Option Principal)
  unfolding signed_query
  or_query r signature (some p) = ok (some p)
  or_query r signature none = signed_query r signature r.query_id

  with_signature : Request → (now : ℕ) → Option Text → Result (Option Principal)
  unfolding in_window or_query signed_user
  with_signature r now none = ok none
  with_signature r now (some []) = ok none
  with_signature r now (some (c ∷ signature)) =
      if in_window now r.expires
      then (signed_user r (c ∷ signature) r.user_id >>= or_query r (c ∷ signature))
      else ok none

  -- `hmac_load_user_from_request`
  unfoldable pub hmac_load_user_from_request : Request → (now : ℕ) → Result (Option Principal)
  unfolding with_signature
  hmac_load_user_from_request r now = with_signature r now r.signature

-- `create_and_login_user`: the user, if any, and the table afterwards; the database gives the new row its id
-- and the row draws a key.
unfoldable pub create_and_login_user :
    List User
    → (org : ℕ) → (name email : String) → (new_id default_group : ℕ) → (key : String)
    → Result (Option User × List User)
unfolding the_one
create_and_login_user users org name email new_id default_group key =
    let found = the_one (keep (λ u. u.org_id == org && u.email == email) users) in
    let created : User = record {
      id = new_id;
      org_id = org;
      name = name;
      email = email;
      group_ids = default_group ∷ [];
      api_key = key;
      disabled_at = none;
    } in
    or_missing
      (found >>= λ u. ok (
        if is_disabled u
        then (none, users)
        else (some (record u { name = name }), rename users u.id)))
      (ok (some created, users ++ created ∷ []))
  where
    rename : List User → ℕ → List User
    rename [] id = []
    rename (u ∷ us) id = (if u.id == id then record u { name = name } else u) ∷ rename us id

-- `jwt_token_load_user_from_request`, for the email of a valid token.
unfoldable pub jwt_load_user :
    List User
    → (org : ℕ) → Option String
    → (new_id default_group : ℕ) → (key : String) → Result (Option User × List User)
unfolding create_and_login_user
jwt_load_user users org none new_id default_group key = ok (none, users)
jwt_load_user users org (some email) new_id default_group key =
    or_missing
      (the_one (keep (λ u. u.org_id == org && u.email == email) users) >>= λ u. ok (some u, users))
      (create_and_login_user users org email email new_id default_group key)
