-- ===== src/Auth/Service.antt =====
-- The operations of AuthService in auth/auth.service.ts, and JwtStrategy's check of an access token
-- in auth/strategies/jwt.strategy.ts. Log lines are left out.
use fixitph_backend.Prelude.{
  ℕ, Bool, false, Option, none, some, ◌∷◌, String, ◌+◌, ◌*◌, ◌&&◌, ◌||◌, ◌==◌, holds, is_none,
  get_or, leb, ltb, any, if◌then◌else◌, find_by, update_by,
}
use fixitph_backend.Schema.{UserRole, UserStatus, Provider}
use fixitph_backend.Errors.{
  unauthenticated, forbidden, conflict, database, unique_violation, Result, ok, err,
  invalid_credentials, account_exists, account_locked, account_suspended, account_deactivated,
}
use fixitph_backend.Auth.Tables.{
  User, Profile, RefreshToken, AuthTables, AccessTokenPayload, AccessToken, Crypto, Config, Draws,
}

pub record RequestMeta : Type 0 where
  pub ip : Option String
  pub user_agent : Option String

pub record TokenPair : Type 0 where
  pub access_token : AccessToken
  pub refresh_token : ℕ
  pub expires_in : ℕ

-- Who a session is for.
pub record Identity : Type 0 where
  pub id : ℕ
  pub email : ℕ
  pub role : UserRole
  pub provider_id : Option ℕ

abbrev pub id_of : Option Provider → Option ℕ
id_of none = none
id_of (some p) = some p.id

-- `provider: { select: { id: true } }` and `user.provider?.id ?? null`
unfoldable pub provider_id_of : AuthTables → ℕ → Option ℕ
provider_id_of s user = id_of (find_by (λ p. p.user_id == user) s.providers)

unfoldable pub identity_of : AuthTables → User → Identity
identity_of s u = record {
  id = u.id;
  email = u.email;
  role = u.role;
  provider_id = provider_id_of s u.id;
}

unfoldable pub find_by_email : ℕ → AuthTables → Option User
find_by_email email s = find_by (λ u. u.email == email && is_none u.deleted_at) s.users

unfoldable pub update_user : ℕ → (User → User) → AuthTables → AuthTables
update_user id change s = record s { users = update_by (λ u. u.id == id) change s.users }

unfoldable pub claims_for : Draws → Identity → AccessTokenPayload
claims_for draws user = record {
  sub = user.id;
  email = user.email;
  role = user.role;
  provider_id = user.provider_id;
  sid = some draws.session_id;
  typ = none;
}

-- The row of a new refresh token. `parseDays` divides by the seconds of a day what is multiplied by
-- its milliseconds here.
unfoldable pub new_refresh_token :
    Crypto → Config → Draws → Identity → RequestMeta → ℕ → RefreshToken
new_refresh_token crypto config draws user meta family = record {
  id = draws.token_id;
  user_id = user.id;
  token_hash = crypto.sha256 draws.token;
  family_id = family;
  replaced_by = none;
  expires_at = draws.clock 3 + config.refresh_seconds * 1000;
  revoked_at = none;
  user_agent = meta.user_agent;
  ip_address = meta.ip;
}

-- The digest of a refresh token is unique.
unfoldable pub issue_tokens :
    Crypto
    → Config
    → Draws
    → Identity
    → RequestMeta
    → Option ℕ
    → AuthTables
    → AuthTables × Result TokenPair
issue_tokens crypto config draws user meta family s =
    if any (λ t. t.token_hash == crypto.sha256 draws.token) s.refresh_tokens
    then (s, err (database unique_violation))
    else (
      record s {
        refresh_tokens =
            new_refresh_token crypto config draws user meta (get_or family draws.family_id)
            ∷ s.refresh_tokens;
      },
      ok (record {
        access_token = crypto.sign (draws.clock 2) config.access_seconds (claims_for draws user);
        refresh_token = draws.token;
        expires_in = config.access_seconds;
      }),
    )

-- The fields of RegisterDto; `role` is CUSTOMER or PROVIDER there.
pub record RegisterDto : Type 0 where
  pub email : ℕ
  pub phone : Option ℕ
  pub password : ℕ
  pub first_name : String
  pub last_name : String
  pub city : Option String
  pub barangay : Option String
  pub role : Option UserRole

unfoldable pub new_user : Crypto → Draws → RegisterDto → User
new_user crypto draws dto = record {
  id = draws.user_id;
  email = crypto.lower_case dto.email;
  phone = dto.phone;
  password_hash = some (crypto.hash draws.salt dto.password);
  role = get_or dto.role UserRole.customer;
  status = UserStatus.active;
  email_verified_at = none;
  failed_login_count = 0;
  locked_until = none;
  last_login_at = none;
  password_changed_at = some (draws.clock 0);
  deleted_at = none;
}

-- The unique columns: the address, and the phone number where there is one.
abbrev pub same_phone : Option ℕ → Option ℕ → Bool
same_phone none q = false
same_phone (some n) q = holds q n

unfoldable pub user_clash : User → User → Bool
user_clash u v = u.email == v.email || same_phone u.phone v.phone

abbrev pub new_profile : Draws → RegisterDto → Profile
new_profile draws dto = record {
  user_id = draws.user_id;
  first_name = dto.first_name;
  last_name = dto.last_name;
  city = dto.city;
  barangay = dto.barangay;
}

unfoldable pub register :
    Crypto → Config → Draws → RegisterDto → RequestMeta → AuthTables → AuthTables × Result TokenPair
register crypto config draws dto meta s =
    let u = new_user crypto draws dto in
    if any (user_clash u) s.users
    then (s, err (conflict account_exists))
    else issue_tokens crypto config draws
        (record { id = u.id; email = u.email; role = u.role; provider_id = none }) meta none
        (record s { users = u ∷ s.users; profiles = new_profile draws dto ∷ s.profiles })

-- `lockedUntil && lockedUntil > now`
abbrev pub is_locked : Option ℕ → ℕ → Bool
is_locked none now = false
is_locked (some t) now = ltb now t

-- An account without a password is one that only signs in through Google.
abbrev pub accepts : Crypto → Option ℕ → ℕ → Bool
accepts crypto none password = false
accepts crypto (some h) password = crypto.verify h password

unfoldable pub failed_attempt : Config → Draws → User → User
failed_attempt config draws u =
    let next = u.failed_login_count + 1 in
    record u {
      failed_login_count = next;
      locked_until =
          if leb config.max_attempts next
          then some (draws.clock 1 + config.lockout_minutes * 60_000)
          else none;
    }

unfoldable pub register_failed_attempt : Config → Draws → User → AuthTables → AuthTables
register_failed_attempt config draws u = update_user u.id (λ v. record v {
  failed_login_count = (failed_attempt config draws u).failed_login_count;
  locked_until = (failed_attempt config draws u).locked_until;
})

-- The counter is cleared, and the time is noted.
unfoldable pub signed_in : ℕ → User → User
signed_in now u = record u { failed_login_count = 0; locked_until = none; last_login_at = some now }

unfoldable pub check_status :
    Crypto
    → Config
    → Draws
    → RequestMeta
    → AuthTables
    → User
    → UserStatus
    → AuthTables × Result TokenPair
check_status crypto config draws meta s u UserStatus.suspended =
    (s, err (forbidden account_suspended))
check_status crypto config draws meta s u UserStatus.deactivated =
    (s, err (forbidden account_deactivated))
check_status crypto config draws meta s u _ =
    issue_tokens crypto config draws (identity_of s u) meta none
      (update_user u.id (signed_in (draws.clock 1)) s)

unfoldable pub login_found :
    Crypto
    → Config
    → Draws
    → ℕ
    → RequestMeta
    → AuthTables
    → Option User
    → AuthTables × Result TokenPair
unfolding check_status
login_found crypto config draws password meta s none =
    (s, err (unauthenticated invalid_credentials))
login_found crypto config draws password meta s (some u) =
    if is_locked u.locked_until (draws.clock 0)
    then (s, err (forbidden account_locked))
    else (if accepts crypto u.password_hash password
        then check_status crypto config draws meta s u u.status
        else (register_failed_attempt config draws u s, err (unauthenticated invalid_credentials)))

unfoldable pub login :
    Crypto → Config → Draws → ℕ → ℕ → RequestMeta → AuthTables → AuthTables × Result TokenPair
unfolding login_found
login crypto config draws email password meta s =
    login_found crypto config draws password meta s (find_by_email (crypto.lower_case email) s)
