-- ===== src/Auth/Google.antt =====
-- GoogleAuthService in auth/google-auth.service.ts: which account a Google identity signs into.
-- Google's own answer is outside, and comes as the profile.
use fixitph_backend.Prelude.{
  ℕ, Bool, Option, none, some, ◌∷◌, String, ◌||◌, ◌&&◌, ◌==◌, is_none, get_or, any, if◌then◌else◌,
  find_by, update_by,
}
use fixitph_backend.Schema.{UserRole, UserStatus}
use fixitph_backend.Errors.{
  Failure, forbidden, database, missing_relation, unique_violation, Result, err, account_suspended,
  account_deactivated, google_email_unverified,
}
use fixitph_backend.Auth.Tables.{User, Profile, OAuthAccount, AuthTables, Crypto, Config, Draws}
use fixitph_backend.Auth.Service.{
  RequestMeta, TokenPair, identity_of, find_by_email, update_user, issue_tokens, signed_in,
  user_clash,
}

pub record GoogleProfile : Type 0 where
  pub id : ℕ
  pub email : ℕ
  pub email_verified : Bool
  pub first_name : String
  pub last_name : String

unfoldable pub assert_usable : Option ℕ → UserStatus → Option Failure
assert_usable (some t) status = some (forbidden account_deactivated)
assert_usable none UserStatus.suspended = some (forbidden account_suspended)
assert_usable none UserStatus.deactivated = some (forbidden account_deactivated)
assert_usable none _ = none

-- The same session that a password opens.
unfoldable pub finish :
    Crypto → Config → Draws → RequestMeta → AuthTables → User → AuthTables × Result TokenPair
finish crypto config draws meta s u =
    issue_tokens crypto config draws (identity_of s u) meta none
      (update_user u.id (signed_in (draws.clock 1)) s)

unfoldable pub find_link : ℕ → AuthTables → Option OAuthAccount
find_link subject s = find_by (λ l. l.provider_account_id == subject) s.oauth_accounts

-- A returning Google user: the account of the link, a required relation.
unfoldable pub sign_in_checked :
    Crypto
    → Config
    → Draws
    → RequestMeta
    → AuthTables
    → ℕ
    → OAuthAccount
    → User
    → Option Failure
    → AuthTables × Result TokenPair
sign_in_checked crypto config draws meta s email l u (some e) = (s, err e)
sign_in_checked crypto config draws meta s email l u none =
    finish crypto config draws meta
      (record s {
        oauth_accounts =
            update_by (λ k. k.id == l.id)
              (λ k. record k { last_login_at = some (draws.clock 0); email = email })
              s.oauth_accounts;
      })
      u

unfoldable pub sign_in_linked :
    Crypto
    → Config
    → Draws
    → RequestMeta
    → AuthTables
    → ℕ
    → OAuthAccount
    → Option User
    → AuthTables × Result TokenPair
unfolding sign_in_checked
sign_in_linked crypto config draws meta s email l none = (s, err (database missing_relation))
sign_in_linked crypto config draws meta s email l (some u) =
    sign_in_checked crypto config draws meta s email l u (assert_usable u.deleted_at u.status)

abbrev pub new_link : Draws → GoogleProfile → ℕ → ℕ → OAuthAccount
new_link draws profile email user = record {
  id = draws.link_id;
  user_id = user;
  provider_account_id = profile.id;
  email = email;
  last_login_at = some (draws.clock 0);
}

-- The transaction that links the identity to the account on its address.
unfoldable pub link : Draws → GoogleProfile → ℕ → AuthTables → User → AuthTables
link draws profile email s u = record s {
  oauth_accounts = new_link draws profile email u.id ∷ s.oauth_accounts;
  users =
      update_by (λ v. v.id == u.id)
        (λ v. record v { email_verified_at = some (get_or u.email_verified_at (draws.clock 5)) })
        s.users;
  refresh_tokens =
      update_by (λ t. t.user_id == u.id && is_none t.revoked_at)
        (λ t. record t { revoked_at = some (draws.clock 6) }) s.refresh_tokens;
}

unfoldable pub link_checked :
    Crypto
    → Config
    → Draws
    → GoogleProfile
    → RequestMeta
    → AuthTables
    → ℕ
    → User
    → Option Failure
    → AuthTables × Result TokenPair
link_checked crypto config draws profile meta s email u (some e) = (s, err e)
link_checked crypto config draws profile meta s email u none =
    if any (λ l. l.provider_account_id == profile.id) s.oauth_accounts
    then (s, err (database unique_violation))
    else finish crypto config draws meta (link draws profile email s u) u

unfoldable pub google_user : Draws → ℕ → User
google_user draws email = record {
  id = draws.user_id;
  email = email;
  phone = none;
  password_hash = none;
  role = UserRole.customer;
  status = UserStatus.active;
  email_verified_at = some (draws.clock 5);
  failed_login_count = 0;
  locked_until = none;
  last_login_at = none;
  password_changed_at = none;
  deleted_at = none;
}

abbrev pub google_profile : Draws → GoogleProfile → Profile
google_profile draws profile = record {
  user_id = draws.user_id;
  first_name = profile.first_name;
  last_name = profile.last_name;
  city = none;
  barangay = none;
}

-- Where nobody has the address: a new customer. A closed account keeps its address.
unfoldable pub create_account :
    Crypto
    → Config
    → Draws
    → GoogleProfile
    → RequestMeta
    → ℕ
    → AuthTables
    → AuthTables × Result TokenPair
create_account crypto config draws profile meta email s =
    let u = google_user draws email in
    if any (user_clash u) s.users || any (λ l. l.provider_account_id == profile.id) s.oauth_accounts
    then (s, err (database unique_violation))
    else finish crypto config draws meta
        (record s {
          users = u ∷ s.users;
          profiles = google_profile draws profile ∷ s.profiles;
          oauth_accounts = new_link draws profile email u.id ∷ s.oauth_accounts;
        })
        u

unfoldable pub sign_in_by_email :
    Crypto
    → Config
    → Draws
    → GoogleProfile
    → RequestMeta
    → ℕ
    → AuthTables
    → Option User
    → AuthTables × Result TokenPair
unfolding link_checked
sign_in_by_email crypto config draws profile meta email s none =
    create_account crypto config draws profile meta email s
sign_in_by_email crypto config draws profile meta email s (some u) =
    link_checked crypto config draws profile meta s email u (assert_usable u.deleted_at u.status)

unfoldable pub sign_in_by_subject :
    Crypto
    → Config
    → Draws
    → GoogleProfile
    → RequestMeta
    → ℕ
    → AuthTables
    → Option OAuthAccount
    → AuthTables × Result TokenPair
unfolding sign_in_by_email sign_in_linked
sign_in_by_subject crypto config draws profile meta email s none =
    sign_in_by_email crypto config draws profile meta email s (find_by_email email s)
sign_in_by_subject crypto config draws profile meta email s (some l) =
    sign_in_linked crypto config draws meta s email l (find_by (λ u. u.id == l.user_id) s.users)

unfoldable pub sign_in :
    Crypto
    → Config
    → Draws
    → GoogleProfile
    → RequestMeta
    → AuthTables
    → AuthTables × Result TokenPair
unfolding sign_in_by_subject
sign_in crypto config draws profile meta s =
    if profile.email_verified
    then sign_in_by_subject crypto config draws profile meta (crypto.lower_case profile.email) s
        (find_link profile.id s)
    else (s, err (forbidden google_email_unverified))
