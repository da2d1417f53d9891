-- ===== src/Authentication/Examples.antt =====
-- Keys and signatures of the sample site, where one user is disabled.
use dingolytics_backend.Base.{
  ℕ, ◌<◌, ◌≤◌, String, true, ◌&&◌, ◌||◌, none, some, [], ◌∷◌, ◌≡◌, ◌≢◌, refl, contains, ◌==◌,
  string_eq,
}
use dingolytics_backend.Base.Result.{ok}
use dingolytics_backend.Base.Text.{text_beq, Text, codes}
use dingolytics_backend.Users.{ApiUser, user, api_user}
use dingolytics_backend.Access.{has_access}
use dingolytics_backend.Store.{guarded_query, dashboard_api_keys}
use dingolytics_backend.Store.Samples.{site, ada, bob, daily}
use dingolytics_backend.Authentication.{
  Request, get_user_from_api_key, hmac_load_user_from_request, get_api_key_from_request,
}
use dingolytics_backend.Authentication.Keys.{
  Bears, get_user_from_api_key-Bears, get_user_from_api_key-has_access,
}
use dingolytics_backend.Authentication.Signatures.{IsSigned, hmac_load_user_from_request-IsSigned}

loads_ada : get_user_from_api_key site 1 (some "k7") none ≡ ok (some (user ada))
unfolding get_user_from_api_key
loads_ada = refl

disabled_bob : get_user_from_api_key site 1 (some "k8") none ≡ ok none
unfolding get_user_from_api_key
disabled_bob = refl

get_user_from_api_key-Bears_example : Bears site 1 "k7" none (user ada)
get_user_from_api_key-Bears_example =
    get_user_from_api_key-Bears site 1 "k7" none (user ada) loads_ada

abbrev dashboard_bearer : ApiUser
dashboard_bearer = record { id = "d2"; group_ids = [] }

loads_bearer : get_user_from_api_key site 1 (some "d2") none ≡ ok (some (api_user dashboard_bearer))
unfolding get_user_from_api_key
loads_bearer = refl

get_user_from_api_key-has_access_example :
    has_access site.groups (guarded_query site daily) (api_user dashboard_bearer) true
    ≡ (true && (daily.api_key == "d2" || contains (dashboard_api_keys site 3) "d2"))
get_user_from_api_key-has_access_example =
    get_user_from_api_key-has_access site 1 "d2" none dashboard_bearer daily true loads_bearer

abbrev first_letter : String → Text → ℕ → Text
first_letter key path expires = expires ∷ codes key

abbrev request : Request
request = record {
  path = codes "/api";
  api_key = none;
  authorization = some "Key k7";
  signature = some (200 ∷ codes "k8");
  expires = 200;
  user_id = some 8;
  has_view_args = true;
  query_id = none;
  token = none;
}

reads_header : get_api_key_from_request request ≡ some "k7"
unfolding get_api_key_from_request
reads_header = refl

loads_bob : hmac_load_user_from_request first_letter site request 100 ≡ ok (some (user bob))
unfolding hmac_load_user_from_request text_beq
loads_bob = refl

hmac_load_user_from_request-IsSigned_example :
    (100 < 200) × (200 ≤ 3700) × IsSigned first_letter site request "k8"
hmac_load_user_from_request-IsSigned_example =
    hmac_load_user_from_request-IsSigned first_letter site request 100 (user bob) loads_bob

abbrev bob_key : String
bob_key = "k8"

bob_named : bob_key ≢ ""
bob_named h = cc
