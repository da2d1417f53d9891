-- ===== src/Dashboards/Examples.antt =====
-- The dashboard of the sample site.
use dingolytics_backend.Grants.{exists}
use dingolytics_backend.Grants.Handlers.{or_404}
use dingolytics_backend.Access.{is_admin_or_owner, require_permissions, require_admin_or_owner}
use dingolytics_backend.Utils.{slugify}
use dingolytics_backend.Base.{◌+◌, Bool, true, false, some, List, [], ◌∷◌, length, ◌≡◌, refl}
use dingolytics_backend.Base.Result.{ok}
use dingolytics_backend.Base.Text.{str_ℕ, text_beq, Text, codes}
use dingolytics_backend.Users.{has_permission, permissions, User, user, has_permissions}
use dingolytics_backend.Grants.Modify.{require_object_modify_permission, can_modify}
use dingolytics_backend.Store.{Dashboard, Store, find_dashboard, log}
use dingolytics_backend.Store.Samples.{site, ada, board, board_key}
use dingolytics_backend.Dashboards.{
  get_by_api_key, is_taken, generate_slug, share, unshare, public_dashboard,
}
use dingolytics_backend.Dashboards.Slug.{generate_slug_free}
use dingolytics_backend.Dashboards.Sharing.{open_keys, unshare-share}
use dingolytics_backend.Dashboards.Handlers.{
  Field, name_field, version_field, update_dashboard, committed,
}

second_slug : generate_slug site.dashboards (codes "Sales") ≡ some (codes "sales_1")
unfolding generate_slug text_beq slugify str_ℕ
second_slug = refl

generate_slug_free_example :
    (slug : Text) × (generate_slug site.dashboards (codes "Sales") ≡ some slug)
    × (is_taken site.dashboards slug ≡ false)
generate_slug_free_example = generate_slug_free site.dashboards (codes "Sales")

abbrev shared_once : Store
shared_once = record site {
  api_keys = board_key ∷ record board_key { id = 2; api_key = "e2" } ∷ [];
  events = record { action = "activate_api_key"; object_type = "dashboard"; object_id = 2 } ∷ [];
}

abbrev shared_twice : Store
shared_twice = record site {
  api_keys =
      board_key
      ∷ record board_key { id = 2; api_key = "e2" }
      ∷ record board_key { id = 3; api_key = "f2" }
      ∷ [];
  events =
      record { action = "activate_api_key"; object_type = "dashboard"; object_id = 2 }
      ∷ record { action = "activate_api_key"; object_type = "dashboard"; object_id = 2 }
      ∷ [];
}

abbrev unshared : Store
unshared = record site {
  api_keys =
      record board_key { active = false }
      ∷ record board_key { id = 2; api_key = "e2" }
      ∷ record board_key { id = 3; api_key = "f2" }
      ∷ [];
  events =
      record { action = "activate_api_key"; object_type = "dashboard"; object_id = 2 }
      ∷ record { action = "activate_api_key"; object_type = "dashboard"; object_id = 2 }
      ∷ record { action = "deactivate_api_key"; object_type = "dashboard"; object_id = 2 }
      ∷ [];
}

shares_once : share (user ada) 1 site 2 2 "e2" ≡ ok shared_once
unfolding share find_dashboard require_admin_or_owner log
shares_once = refl

shares_twice : share (user ada) 1 shared_once 2 3 "f2" ≡ ok shared_twice
unfolding share find_dashboard require_admin_or_owner log
shares_twice = refl

unshares : unshare (user ada) 1 shared_twice 2 ≡ ok unshared
unfolding unshare find_dashboard require_admin_or_owner log
unshares = refl

still_public : public_dashboard unshared false "f2" ≡ ok (some board)
unfolding public_dashboard or_404 get_by_api_key
still_public = refl

unshare-share_example : length (open_keys unshared 2) ≡ length (open_keys site 2) + 1
unshare-share_example =
    unshare-share (user ada) 1 site shared_once shared_twice unshared 2 2 3 "e2" "f2" shares_once
      shares_twice unshares

abbrev always : Dashboard → Dashboard → Bool
always before after = true

abbrev fields : List Field
fields = name_field (codes "S") ∷ version_field 1 ∷ []

abbrev renamed : Dashboard
renamed = record board { name = codes "S"; version = 2 }

abbrev after_rename : Store
after_rename = record site {
  dashboards = renamed ∷ [];
  events = record { action = "edit"; object_type = "dashboard"; object_id = 2 } ∷ [];
}

renames : update_dashboard always (user ada) 1 site 2 fields ≡ ok (renamed, after_rename)
unfolding update_dashboard require_permissions has_permissions permissions find_dashboard
    require_object_modify_permission can_modify is_admin_or_owner log
renames = refl

-- A member of the same group who owns nothing.
abbrev eve : User
eve = record ada { id = 9; name = "Eve"; email = "eve@example.org"; api_key = "k9" }

eve_permitted : has_permissions site.groups (user eve) ("edit_dashboard" ∷ []) ≡ true
unfolding has_permissions permissions
eve_permitted = refl

board_found : find_dashboard site 2 1 ≡ ok board
unfolding find_dashboard
board_found = refl

eve_refused :
    can_modify site.groups site.permissions
      (user eve)
      (record { table_name = "dashboards"; id = 2 })
      7
      (user eve)
    ≡ false
unfolding can_modify is_admin_or_owner has_permission permissions exists
eve_refused = refl

abbrev archived : Dashboard
archived = committed always (user eve) 1 board (record board { is_archived = true })
