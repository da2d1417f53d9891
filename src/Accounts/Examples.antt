-- ===== src/Accounts/Examples.antt =====
-- Accounts of a small site.
use mathlib.Core.List.{Memᴰ}
use dingolytics_backend.Base.{Bool, true, false, none, some, [], ◌∷◌, ◌≡◌, refl, inl, ◌==◌, nat_eq}
use dingolytics_backend.Base.Result.{ok, err, abort}
use dingolytics_backend.Base.Text.{lower, Text, codes, text_beq}
use dingolytics_backend.Users.{permissions, has_permissions, Group, user}
use dingolytics_backend.Access.{require_admin_or_owner, require_permissions, owns}
use dingolytics_backend.Store.Samples.{ada, analysts}
use dingolytics_backend.Accounts.{
  Account, Site, Params, update_user, disable_user, require_allowed_email,
}
use dingolytics_backend.Accounts.Rules.{Updated, update_user_lem, caller_kept}

abbrev same : Text → Text
same t = t

abbrev matches : Text → Text → Bool
matches password stored = elim password [
  | [] ↦ false
  | c ∷ s ↦ elim stored [ [] ↦ false | d ∷ t ↦ c == d ]
]

abbrev admins : Group
admins = record analysts { permissions = "admin" ∷ [] }

abbrev account : Account
account = record {
  id = 7;
  org_id = 1;
  name = codes "Ada";
  email = codes "ada@example.org";
  password_hash = some (codes "old");
  group_ids = 1 ∷ [];
  api_key = "k7";
  disabled_at = none;
  is_invitation_pending = false;
  is_email_verified = true;
}

abbrev bob : Account
bob = record account { id = 8; email = codes "bob@example.org"; api_key = "k8" }

abbrev site : Site
site = record {
  groups = admins ∷ [];
  accounts = account ∷ bob ∷ [];
  sent = [];
  email_configured = false;
  blocked_domains = codes "trash.org" ∷ [];
}

abbrev params : Params
params = record {
  email = none;
  name = none;
  password = some (codes "new");
  old_password = some (codes "old");
  group_ids = none;
}

abbrev renewed : Account
renewed = record account { password_hash = some (codes "new") }

abbrev after : Site
after = record site { accounts = renewed ∷ bob ∷ [] }

updates : update_user same same matches (user ada) 1 site 7 params ≡ ok (renewed, after)
unfolding update_user require_admin_or_owner text_beq
updates = refl

update_user_lem_example : Updated same same matches (user ada) 1 site 7 params renewed after
update_user_lem_example =
    update_user_lem same same matches (user ada) 1 site 7 params renewed after updates

-- A dot behind the domain does not hide it.
blocked : require_allowed_email site (codes "Eve@Trash.org.") ≡ err (abort 400)
unfolding require_allowed_email lower text_beq
blocked = refl

abbrev without_bob : Site
without_bob = record site { accounts = account ∷ record bob { disabled_at = some 9 } ∷ [] }

disables : disable_user same same matches (user ada) 1 site 8 9 ≡ ok without_bob
unfolding disable_user require_permissions has_permissions permissions
disables = refl

own_account : owns (user ada) account.id ≡ true
unfolding owns
own_account = refl

caller_kept_example : Memᴰ account without_bob.accounts
caller_kept_example =
    caller_kept same same matches (user ada) 1 site without_bob 8 9 account (inl disables)
      own_account (Memᴰ.head refl)
