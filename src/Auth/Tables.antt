-- ===== src/Auth/Tables.antt =====
-- The tables that AuthService and GoogleAuthService read and write (users, profiles,
-- refresh_tokens, oauth_accounts in prisma/schema.prisma), and what the services call from outside.
-- Texts that are only hashed and compared are numbers. Addresses are stored in lower case, so that
-- equality is that of the citext column. None of these tables has row level security.
use fixitph_backend.Prelude.{ℕ, Bool, Option, List, String}
use fixitph_backend.Schema.{UserRole, UserStatus, Provider}

pub record User : Type 0 where
  pub id : ℕ
  pub email : ℕ
  pub phone : Option ℕ
  pub password_hash : Option ℕ
  pub role : UserRole
  pub status : UserStatus
  pub email_verified_at : Option ℕ
  pub failed_login_count : ℕ
  pub locked_until : Option ℕ
  pub last_login_at : Option ℕ
  pub password_changed_at : Option ℕ
  pub deleted_at : Option ℕ

pub record Profile : Type 0 where
  pub user_id : ℕ
  pub first_name : String
  pub last_name : String
  pub city : Option String
  pub barangay : Option String

pub record RefreshToken : Type 0 where
  pub id : ℕ
  pub user_id : ℕ
  pub token_hash : ℕ
  pub family_id : ℕ
  pub replaced_by : Option ℕ
  pub expires_at : ℕ
  pub revoked_at : Option ℕ
  pub user_agent : Option String
  pub ip_address : Option String

-- The link of an account to a Google identity.
pub record OAuthAccount : Type 0 where
  pub id : ℕ
  pub user_id : ℕ
  pub provider_account_id : ℕ
  pub email : ℕ
  pub last_login_at : Option ℕ

-- The newest rows first.
pub record AuthTables : Type 0 where
  pub users : List User
  pub profiles : List Profile
  pub providers : List Provider
  pub refresh_tokens : List RefreshToken
  pub oauth_accounts : List OAuthAccount

-- The claims of an access token. `typ` and a missing `sid` are for the other tokens that are signed
-- with the same secret.
pub record AccessTokenPayload : Type 0 where
  pub sub : ℕ
  pub email : ℕ
  pub role : UserRole
  pub provider_id : Option ℕ
  pub sid : Option ℕ
  pub typ : Option ℕ

-- A JWT, as anyone can read it.
pub record AccessToken : Type 0 where
  pub payload : AccessTokenPayload
  pub issued_at : ℕ
  pub expires_at : ℕ
  pub signature : ℕ

-- argon2, SHA-256, `toLowerCase`, and jsonwebtoken under the service's secret and issuer.
pub record Crypto : Type 0 where
  pub hash : ℕ → ℕ → ℕ  -- argon2's salt and the secret
  pub verify : ℕ → ℕ → Bool  -- of a hash and a secret; false where argon2 rejects
  pub sha256 : ℕ → ℕ
  pub lower_case : ℕ → ℕ
  pub sign : ℕ → ℕ → AccessTokenPayload → AccessToken  -- at a time, for a number of seconds
  pub open_token : ℕ → AccessToken → Option AccessTokenPayload  -- at a time; none where the JWT is refused

-- LOGIN_MAX_ATTEMPTS, LOGIN_LOCKOUT_MINUTES, and the two lifetimes in seconds.
pub record Config : Type 0 where
  pub max_attempts : ℕ
  pub lockout_minutes : ℕ
  pub access_seconds : ℕ
  pub refresh_seconds : ℕ

-- What a call draws from outside: readings of the clock, identifiers, argon2's salt and the bytes of
-- a refresh token.
pub record Draws : Type 0 where
  pub clock : ℕ → ℕ
  pub user_id : ℕ
  pub family_id : ℕ
  pub session_id : ℕ
  pub token_id : ℕ
  pub link_id : ℕ
  pub salt : ℕ
  pub token : ℕ
