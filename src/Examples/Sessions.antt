-- ===== src/Examples/Sessions.antt =====
-- Logins, refreshes and Google sign-ins, with a toy hash and a toy signature.
use fixitph_backend.Prelude.{
  ℕ, true, false, none, some, List, [], ◌∷◌, ◌==◌, ◌+◌, ◌/◌, ◌&&◌, if◌then◌else◌, ltb, any, all,
  update_by, find_by, ◌≡◌, refl, arith, no_two, update_by,
}
use fixitph_backend.Schema.{UserRole, UserStatus}
use fixitph_backend.Errors.{
  unauthenticated, forbidden, unauthorized, refresh_token_reused, account_locked, Result, ok, err,
}
use fixitph_backend.Transaction.{AuthenticatedUser}
use fixitph_backend.Auth.Tables.{User, RefreshToken, AuthTables, Crypto, Config, Draws}
use fixitph_backend.Auth.Service.{
  RequestMeta, TokenPair, login, claims_for, find_by_email, identity_of, issue_tokens,
  provider_id_of, update_user, new_refresh_token, signed_in,
}
use fixitph_backend.Auth.Refresh.{
  refresh, logout, authenticate, find_refresh_token, replace, is_active, find_live_user,
}
use fixitph_backend.Auth.Google.{GoogleProfile, sign_in, find_link, link, finish, assert_usable}
use fixitph_backend.Auth.Calls.{Call, run, draws_fresh, is_fresh}
use fixitph_backend.Auth.Families.{IsRotating, is_live_in}
use fixitph_backend.Auth.Rotation.{run-IsRotating}
use fixitph_backend.Auth.Reuse.{refresh_once, logout_ends}
use fixitph_backend.Auth.Lockout.{guess_all, is_wrong_guess, login_locks}
use fixitph_backend.Auth.Access.{OpensSigned, IsLoggedIn, login-IsLoggedIn, authenticate-login}
use fixitph_backend.Auth.Continuity.{refresh-login}
use fixitph_backend.Admin.Accounts.{Desk, suspend_user, reinstate_user, suspend_found}
use fixitph_backend.Admin.Suspension.{suspend_ends}
use fixitph_backend.Auth.Linking.{IsLinked, sign_in-IsLinked, sign_in_by_link}

abbrev crypto : Crypto
crypto = record {
  hash = λ salt secret. secret;
  verify = λ h secret. h == secret;
  sha256 = λ t. t;
  lower_case = λ e. e;
  sign = λ now seconds payload. record {
    payload = payload;
    issued_at = now / 1000;
    expires_at = now / 1000 + seconds;
    signature = 7;
  };
  open_token =
      λ now t. if ltb (now / 1000) t.expires_at && t.signature == 7 then some t.payload else none;
}

opens : OpensSigned crypto
unfolding OpensSigned
opens signed now seconds payload h = ground (arith, h)

abbrev config : Config
config = record {
  max_attempts = 3;
  lockout_minutes = 15;
  access_seconds = 900;
  refresh_seconds = 86_400;
}

abbrev draws_at : ℕ → Draws
draws_at now = record {
  clock = λ i. now;
  user_id = now;
  family_id = now;
  session_id = now;
  token_id = now;
  link_id = now;
  salt = 0;
  token = now;
}

abbrev meta : RequestMeta
meta = record { ip = none; user_agent = none }

abbrev ana : User
ana = record {
  id = 20;
  email = 5;
  phone = none;
  password_hash = some 42;
  role = UserRole.customer;
  status = UserStatus.active;
  email_verified_at = none;
  failed_login_count = 1;
  locked_until = none;
  last_login_at = none;
  password_changed_at = none;
  deleted_at = none;
}

abbrev tables : AuthTables
tables = record {
  users = ana ∷ [];
  profiles = [];
  providers = [];
  refresh_tokens = [];
  oauth_accounts = [];
}

abbrev logged_in : AuthTables
logged_in = (login crypto config (draws_at 1000) 5 42 meta tables).0

abbrev pair : TokenPair
pair = record {
  access_token = crypto.sign 1000 900 (
      claims_for (draws_at 1000)
        (record { id = 20; email = 5; role = UserRole.customer; provider_id = none }));
  refresh_token = 1000;
  expires_in = 900;
}

login_passes : (login crypto config (draws_at 1000) 5 42 meta tables).1 ≡ ok pair
unfolding login find_by_email find_by issue_tokens any update_user identity_of provider_id_of
login_passes = refl

login-IsLoggedIn_example : IsLoggedIn crypto config (draws_at 1000) 5 42 meta tables logged_in pair
login-IsLoggedIn_example =
    login-IsLoggedIn crypto config (draws_at 1000) 5 42 meta tables pair login_passes

-- A second later, and after a suspension.
abbrev suspended : AuthTables
suspended = record tables { users = (record ana { status = UserStatus.suspended }) ∷ [] }

authenticate-login_example :
    authenticate crypto 2000 pair.access_token suspended ≡ err (unauthenticated unauthorized)
unfolding find_by_email find_by find_live_user is_active
authenticate-login_example =
    authenticate-login crypto config (draws_at 1000) 5 42 meta tables pair ana opens login_passes
      refl 2000 suspended (record ana { status = UserStatus.suspended }) refl refl

refresh-login_example :
    (refresh crypto config (draws_at 3000) 1000 meta logged_in).1
    ≡ ok (record {
      access_token = crypto.sign 3000 900 (claims_for (draws_at 3000) (identity_of tables ana));
      refresh_token = 3000;
      expires_in = 900;
    })
unfolding find_by_email find_by is_active any login issue_tokens update_user new_refresh_token
refresh-login_example =
    refresh-login crypto config (draws_at 1000) 5 42 meta tables pair ana login_passes refl refl
      refl (draws_at 3000) refl refl

abbrev wrong : List (Draws × ℕ)
wrong = (draws_at 1000, 1) ∷ (draws_at 1001, 2) ∷ []

-- The right password comes too late.
login_locks_example :
    login crypto config (draws_at 3000) 5 42 meta (guess_all crypto config 5 meta wrong tables)
    ≡ (guess_all crypto config 5 meta wrong tables, err (forbidden account_locked))
unfolding all is_wrong_guess find_by_email find_by
login_locks_example =
    login_locks crypto config 5 1000 meta wrong tables ana refl refl refl (draws_at 3000) 42 refl

-- The refresh token of the login, exchanged once.
abbrev first_token : RefreshToken
first_token = record {
  id = 1000;
  user_id = 20;
  token_hash = 1000;
  family_id = 1000;
  replaced_by = none;
  expires_at = 86_401_000;
  revoked_at = none;
  user_agent = none;
  ip_address = none;
}

abbrev renewed : TokenPair
renewed = record {
  access_token = crypto.sign 3000 900 (
      claims_for (draws_at 3000)
        (record { id = 20; email = 5; role = UserRole.customer; provider_id = none }));
  refresh_token = 3000;
  expires_in = 900;
}

abbrev exchanged : AuthTables
exchanged = (refresh crypto config (draws_at 3000) 1000 meta logged_in).0

abbrev replayed : AuthTables × Result TokenPair
replayed = refresh crypto config (draws_at 4000) 1000 meta exchanged

refresh_passes_first : (refresh crypto config (draws_at 3000) 1000 meta logged_in).1 ≡ ok renewed
unfolding refresh find_refresh_token find_by login find_by_email issue_tokens any update_user
    new_refresh_token update_by signed_in identity_of is_active provider_id_of
refresh_passes_first = refl

found_first : find_refresh_token 1000 logged_in ≡ some first_token
unfolding find_refresh_token find_by login find_by_email issue_tokens any update_user
    new_refresh_token identity_of
found_first = refl

refresh_once_example :
    (replayed.1 ≡ err (unauthenticated refresh_token_reused))
    × (any (is_live_in 1000) replayed.0.refresh_tokens ≡ false)
    × ((refresh crypto config (draws_at 5000) 3000 meta replayed.0).1
        ≡ err (unauthenticated refresh_token_reused))
refresh_once_example =
    refresh_once crypto config (draws_at 3000) 1000 meta logged_in renewed first_token
      refresh_passes_first found_first (draws_at 4000) (draws_at 5000) replayed refl

logout_ends_example :
    (any (is_live_in 1000) (logout crypto (draws_at 4000) (some 1000) logged_in).refresh_tokens
      ≡ false)
    × ((refresh crypto config
          (draws_at 5000)
          1000
          meta
          (logout crypto (draws_at 4000) (some 1000) logged_in)).1
        ≡ err (unauthenticated refresh_token_reused))
logout_ends_example =
    logout_ends crypto config (draws_at 4000) 1000 logged_in first_token found_first (draws_at 5000)
      1000 meta first_token found_first refl

abbrev administrator : AuthenticatedUser
administrator = record {
  id = 1;
  email = "admin@example.com";
  role = UserRole.admin;
  provider_id = none;
  session_id = 0;
}

abbrev desk : Desk
desk = record { accounts = logged_in; admin_actions = [] }

abbrev closed : Desk
closed = (suspend_user (λ i. 4000) administrator 20 "spam" desk).0

suspend_passes : (suspend_user (λ i. 4000) administrator 20 "spam" desk).1 ≡ ok UserStatus.suspended
unfolding suspend_user suspend_found find_live_user find_by login find_by_email issue_tokens any
    update_user update_by signed_in
suspend_passes = refl

suspend_ends_example :
    (authenticate crypto 5000 pair.access_token closed.accounts
      ≡ err (unauthenticated unauthorized))
    × ((refresh crypto config (draws_at 5000) 1000 meta closed.accounts).1
        ≡ err (unauthenticated refresh_token_reused))
    × ((refresh crypto config
          (draws_at 5000)
          1000
          meta
          (reinstate_user administrator 20 "appeal" closed).0.accounts).1
        ≡ err (unauthenticated refresh_token_reused))
unfolding claims_for
suspend_ends_example =
    suspend_ends crypto config (λ i. 4000) administrator 20 "spam" desk UserStatus.suspended
      suspend_passes 5000 pair.access_token pair.access_token.payload refl refl (draws_at 5000) 1000
      meta first_token found_first refl closed refl "appeal"

abbrev google : GoogleProfile
google = record {
  id = 77;
  email = 5;
  email_verified = true;
  first_name = "Ana";
  last_name = "Reyes";
}

abbrev calls : List (Draws × Call)
calls =
    (draws_at 1000, Call.login_with 5 42 meta)
    ∷ (draws_at 3000, Call.refresh_with 1000 meta)
    ∷ (draws_at 4000, Call.sign_in_as google meta)
    ∷ (draws_at 5000, Call.logout_with (some 4000))
    ∷ []

none-IsRotating : IsRotating []
unfolding no_two
none-IsRotating = record { digests = refl; families = refl }

calls_fresh : draws_fresh crypto config calls tables ≡ true
unfolding draws_fresh is_fresh any login find_by_email find_by issue_tokens update_user
    new_refresh_token refresh find_refresh_token update_by signed_in identity_of is_active replace
    sign_in find_link assert_usable link finish
calls_fresh = refl

run-IsRotating_example : IsRotating (run crypto config calls tables).refresh_tokens
run-IsRotating_example = run-IsRotating crypto config calls tables calls_fresh none-IsRotating

google_passes : (sign_in crypto config (draws_at 3000) google meta logged_in).1 ≡ ok renewed
unfolding sign_in find_link find_by login find_by_email issue_tokens any update_user update_by
    signed_in assert_usable finish link new_refresh_token identity_of provider_id_of
google_passes = refl

sign_in-IsLinked_example :
    IsLinked crypto config
      (draws_at 3000)
      google
      meta
      logged_in
      (sign_in crypto config (draws_at 3000) google meta logged_in).0
      (record ana { failed_login_count = 0; last_login_at = some 1000 })
      renewed
unfolding find_link find_by login find_by_email issue_tokens any update_user update_by signed_in
sign_in-IsLinked_example =
    sign_in-IsLinked crypto config (draws_at 3000) google meta logged_in renewed
      (record ana { failed_login_count = 0; last_login_at = some 1000 }) google_passes refl refl

abbrev linked : AuthTables
linked = record tables {
  oauth_accounts =
      (record { id = 1; user_id = 20; provider_account_id = 77; email = 5; last_login_at = none })
      ∷ [];
}

google_again : (sign_in crypto config (draws_at 3000) google meta linked).1 ≡ ok renewed
unfolding sign_in find_link find_by assert_usable finish issue_tokens any update_user identity_of
    provider_id_of
google_again = refl

sign_in_by_link_example :
    ((sign_in crypto config (draws_at 3000) (record google { email = 6 }) meta linked).1
      ≡ ok renewed)
    × (renewed.access_token
        ≡ crypto.sign 3000 900 (claims_for (draws_at 3000) (identity_of linked ana)))
unfolding find_link find_by
sign_in_by_link_example =
    sign_in_by_link crypto config (draws_at 3000) google 6 meta linked
      (record { id = 1; user_id = 20; provider_account_id = 77; email = 5; last_login_at = none })
      ana renewed refl refl google_again
