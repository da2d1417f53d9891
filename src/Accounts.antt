-- ===== src/Accounts.antt =====
-- redash/handlers/users.py, with the methods of `User` in redash/models/users.py that it calls: the endpoints that
-- invite, list, change, disable and delete users. An exception before the commit leaves the database as it was. A mail
-- is a value that the endpoint adds to those that were sent.
pub mod Rules
mod Examples
use mathlib.Core.List.{reverse}
use dingolytics_backend.Base.{
  ℕ, String, Bool, true, false, not, ◌&&◌, ◌||◌, Option, none, some, List, [], ◌∷◌, ◌++◌, keep, any,
  all, find, contains, or_else, is_some, ◌==◌, if◌then◌else◌, nat_eq, string_eq,
}
use dingolytics_backend.Base.Result.{
  Result, ok, err, abort, attribute_error, value_error, guard, from_option, ◌>>=◌, ◌>>◌,
}
use dingolytics_backend.Base.Text.{Text, text_eq, codes, lower}
use dingolytics_backend.Users.{Group, builtin_group, Principal, has_permission}
use dingolytics_backend.Access.{
  owns, is_admin_or_owner, require_permissions, require_admin_or_owner, require_permission_or_owner,
}
use dingolytics_backend.Grants.Handlers.{the_one, or_404}

-- A row of the table `users`, with the columns that the endpoints read or set. The time stamps, which a listener of
-- redash/models/mixins.py sets at every write, and the other details are left out.
pub record Account : Type 0 where
  pub id : ℕ
  pub org_id : ℕ
  pub name : Text
  pub email : Text
  pub password_hash : Option Text
  pub group_ids : List ℕ
  pub api_key : String
  pub disabled_at : Option ℕ
  pub is_invitation_pending : Bool
  pub is_email_verified : Bool

pub data Mail : Type 0 where
  invitation password_reset verification : (user_id : ℕ) → Mail

pub record Site : Type 0 where
  pub groups : List Group
  pub accounts : List Account
  pub sent : List Mail
  pub email_configured : Bool
  -- `blacklist` of disposable_email_domains and BLOCKED_DOMAINS
  pub blocked_domains : List Text

-- `User.get_by_id_and_org`
unfoldable pub find_account : Site → (id org : ℕ) → Result Account
unfolding the_one
find_account site id org = the_one (keep (λ a. a.id == id && a.org_id == org) site.accounts)

drop_dots : Text → Text
drop_dots [] = []
drop_dots (c ∷ s) = let rest = drop_dots s in if c == b'.' then rest else c ∷ s

-- `s.rstrip(".")`
unfoldable pub rstrip_dots : Text → Text
unfolding drop_dots
rstrip_dots s = reverse (drop_dots (reverse s))

-- What follows the first `@`.
unfoldable pub after_at : Text → Option Text
after_at [] = none
after_at (c ∷ s) = if c == b'@' then some s else after_at s

-- `require_allowed_email`; without an `@` the two names cannot be unpacked.
unfoldable pub require_allowed_email : Site → Text → Result (Unit {0})
unfolding rstrip_dots after_at
require_allowed_email site email = do
  domain ← from_option (after_at (rstrip_dots (lower email))) value_error
  guard (not (contains site.blocked_domains domain)) (abort 400)

unfoldable pub write_account : Account → List Account → List Account
write_account a [] = []
write_account a (b ∷ accounts) = (if b.id == a.id then a else b) ∷ write_account a accounts

-- The unique index on the organization and the address: another row has both.
unfoldable pub is_taken : List Account → Account → Bool
is_taken accounts a =
    any (λ b. not (b.id == a.id) && b.org_id == a.org_id && b.email == a.email) accounts

-- `invite_user`: a mail, or a link in the response.
unfoldable pub invite : Site → Account → (send_email : Bool) → Bool × Site
invite site a send_email =
    if site.email_configured && send_email
    then (false, record site { sent = site.sent ++ invitation a.id ∷ [] })
    else (true, site)

-- `Organization.default_group`
unfoldable pub default_group : Site → (org : ℕ) → Option Group
default_group site org =
    find (λ g. g.org_id == org && g.name == "default" && g.type == builtin_group) site.groups

-- The items of a body that `project` keeps.
pub record Params : Type 0 where
  pub email : Option Text
  pub name : Option Text
  pub password : Option Text
  pub old_password : Option Text
  pub group_ids : Option (List ℕ)

-- `except NoResultFound: abort(400)` for each group
unfoldable pub in_org : Site → (org : ℕ) → ℕ → Bool
in_org site org id = any (λ g. g.id == id && g.org_id == org) site.groups

-- `bind_email` is what the column type EmailType makes of an address, `hash` and `verify` are those of passlib.
module _ (bind_email : Text → Text) (hash : Text → Text) (verify : Text → Text → Bool) where
  -- `User.verify_password`
  unfoldable pub verify_password : Account → Text → Bool
  verify_password a password = elim a.password_hash [
    | none ↦ false
    | some stored ↦ verify password stored
  ]

  -- The checks of the passwords in a body.
  unfoldable pub check_passwords : Account → Params → Result (Unit {0})
  unfolding verify_password
  check_passwords a params = do
    guard (not (is_some params.password && not (is_some params.old_password))) (abort 403)
    elim params.old_password [ none ↦ ok tt | some old ↦ guard (verify_password a old) (abort 403) ]

  unfoldable pub check_groups : Site → Principal → (org : ℕ) → Option (List ℕ) → Result (Unit {0})
  unfolding in_org
  check_groups site p org none = ok tt
  check_groups site p org (some ids) = do
    guard (has_permission site.groups p "admin") (abort 403)
    guard (all (in_org site org) ids) (abort 400)

  unfoldable pub check_email : Site → Option Text → Result (Unit {0})
  check_email site none = ok tt
  check_email site (some email) = require_allowed_email site email

  unfoldable pub new_groups : Account → Option (List ℕ) → List ℕ
  new_groups a none = a.group_ids
  new_groups a (some []) = a.group_ids
  new_groups a (some (g ∷ ids)) = g ∷ ids

  unfoldable pub new_password : Account → Option Text → Option Text
  new_password a none = a.password_hash
  new_password a (some password) = some (hash password)

  -- `needs_to_verify_email`
  unfoldable pub needs_to_verify_email : Site → Account → Option Text → Bool
  needs_to_verify_email site a none = false
  needs_to_verify_email site a (some email) = not (email == a.email) && site.email_configured

  -- The row as it is written.
  unfoldable pub changed : Site → Account → Params → Account
  unfolding new_groups new_password needs_to_verify_email
  changed site a params = record a {
    name = or_else params.name a.name;
    email = elim params.email [ none ↦ a.email | some email ↦ bind_email email ];
    password_hash = new_password a params.password;
    group_ids = new_groups a params.group_ids;
    is_email_verified =
        if needs_to_verify_email site a params.email then false else a.is_email_verified;
  }

  -- `UserListResource.post`: the new row, and whether the response has the link of the invitation.
  unfoldable pub create_user :
      Principal
      → (org : ℕ) → Site
      → (name email : Text) → (no_invite : Bool) → (new_id : ℕ) → (key : String)
      → Result ((Account × Bool) × Site)
  unfolding default_group is_taken invite
  create_user p org site name email no_invite new_id key =
      require_permissions site.groups p ("admin" ∷ []) false (do
        guard (contains email b'@') (abort 400)
        require_allowed_email site email
        group ← from_option (default_group site org) attribute_error
        let a : Account = record {
          id = new_id;
          org_id = org;
          name = name;
          email = bind_email (lower email);
          password_hash = none;
          group_ids = group.id ∷ [];
          api_key = key;
          disabled_at = none;
          is_invitation_pending = true;
          is_email_verified = true;
        }
        guard (not (is_taken site.accounts a)) (abort 400)
        let (shows_link, site') =
            invite (record site { accounts = site.accounts ++ a ∷ [] }) a (not no_invite)
        ok ((a, shows_link), site'))

  -- `UserInviteResource.post`
  unfoldable pub invite_again : Principal → (org : ℕ) → Site → (user_id : ℕ) → Result (Bool × Site)
  unfolding find_account invite
  invite_again p org site user_id =
      require_permissions site.groups p ("admin" ∷ []) false
        (find_account site user_id org >>= λ a. ok (invite site a true))

  -- `UserResetPasswordResource.post`
  unfoldable pub reset_password : Principal → (org : ℕ) → Site → (user_id : ℕ) → Result Site
  unfolding find_account
  reset_password p org site user_id = require_permissions site.groups p ("admin" ∷ []) false (do
    a ← find_account site user_id org
    guard (not (is_some a.disabled_at)) (abort 404)
    ok (record site { sent = site.sent ++ password_reset a.id ∷ [] }))

  -- `UserRegenerateApiKeyResource.post`
  unfoldable pub regenerate_user_key :
      Principal → (org : ℕ) → Site → (user_id : ℕ) → (key : String) → Result Site
  unfolding find_account write_account
  regenerate_user_key p org site user_id key = do
    a ← find_account site user_id org
    guard (not (is_some a.disabled_at)) (abort 404)
    guard (is_admin_or_owner site.groups p user_id) (abort 403)
    ok (record site { accounts = write_account (record a { api_key = key }) site.accounts })

  -- `UserResource.get`: the row, and whether its key is shown.
  unfoldable pub view_user : Principal → (org : ℕ) → Site → (user_id : ℕ) → Result (Account × Bool)
  unfolding find_account
  view_user p org site user_id = do
    require_permission_or_owner site.groups p "list_users" user_id
    a ← or_404 (find_account site user_id org)
    ok (a, is_admin_or_owner site.groups p user_id)

  -- `UserResource.post`
  unfoldable pub update_user :
      Principal → (org : ℕ) → Site → (user_id : ℕ) → Params → Result (Account × Site)
  unfolding find_account check_passwords check_groups check_email changed is_taken write_account
      needs_to_verify_email
  update_user p org site user_id params = do
    require_admin_or_owner site.groups p user_id
    a ← find_account site user_id org
    check_passwords a params
    check_groups site p org params.group_ids
    check_email site params.email
    let a' = changed site a params
    guard (not (is_taken site.accounts a')) (abort 400)
    ok (
      a',
      record site {
        accounts = write_account a' site.accounts;
        sent =
            if needs_to_verify_email site a params.email
            then site.sent ++ verification a'.id ∷ []
            else site.sent;
      },
    )

  -- `UserResource.delete`
  unfoldable pub delete_user : Principal → (org : ℕ) → Site → (user_id : ℕ) → Result Site
  unfolding find_account owns
  delete_user p org site user_id = require_permissions site.groups p ("admin" ∷ []) false (do
    a ← find_account site user_id org
    guard (not (owns p a.id)) (abort 403)
    guard a.is_invitation_pending (abort 403)
    ok (record site { accounts = keep (λ b. not (b.id == a.id)) site.accounts }))

  -- `UserDisableResource.post`
  unfoldable pub disable_user : Principal → (org : ℕ) → Site → (user_id now : ℕ) → Result Site
  unfolding find_account owns write_account
  disable_user p org site user_id now = require_permissions site.groups p ("admin" ∷ []) false (do
    a ← find_account site user_id org
    guard (not (owns p a.id)) (abort 403)
    ok (record site {
      accounts = write_account (record a { disabled_at = some now }) site.accounts;
    }))

  -- `UserDisableResource.delete`
  unfoldable pub enable_user : Principal → (org : ℕ) → Site → (user_id : ℕ) → Result Site
  unfolding find_account write_account
  enable_user p org site user_id = require_permissions site.groups p ("admin" ∷ []) false (do
    a ← find_account site user_id org
    ok (record site { accounts = write_account (record a { disabled_at = none }) site.accounts }))

-- `get_users`; `like` stands for the database's patterns.
module _ (like : Text → Account → Bool) where
  unfoldable pub get_users :
      Site → (org : ℕ) → (disabled : Bool) → (pending : Option Bool) → (term : Text) → List Account
  get_users site org disabled pending term =
      keep
        (λ a.
          a.org_id == org
          && (if disabled then is_some a.disabled_at else not (is_some a.disabled_at))
          && (elim pending [
            | none ↦ true
            | some b ↦ if b then a.is_invitation_pending else not a.is_invitation_pending
          ])
          && (elim term [ [] ↦ true | c ∷ s ↦ like (c ∷ s) a ]))
        site.accounts
