-- ===== src/Auth/Refresh.antt =====
-- What AuthService does with the tokens that it has issued: refresh, logout, validateAccessToken
-- and me in auth/auth.service.ts, and JwtStrategy in auth/strategies/jwt.strategy.ts.
use fixitph_backend.Prelude.{
  ℕ, Bool, true, false, Option, none, some, ◌&&◌, ◌||◌, ◌==◌, not, is_none, is_some, leb,
  if◌then◌else◌, find_by, update_by,
}
use fixitph_backend.Schema.{UserStatus, Provider}
use fixitph_backend.Errors.{
  unauthenticated, forbidden, not_found, database, missing_relation, Result, ok, err,
  account_unavailable, invalid_refresh_token, refresh_token_reused, refresh_token_expired,
  unauthorized, user_not_found,
}
use fixitph_backend.Auth.Tables.{
  User, Profile, RefreshToken, AuthTables, AccessTokenPayload, AccessToken, Crypto, Config, Draws,
}
use fixitph_backend.Auth.Service.{RequestMeta, TokenPair, Identity, identity_of, issue_tokens}

unfoldable pub find_refresh_token : ℕ → AuthTables → Option RefreshToken
find_refresh_token hash s = find_by (λ t. t.token_hash == hash) s.refresh_tokens

-- `updateMany({ where: { familyId, revokedAt: null }, data: { revokedAt } })`
unfoldable pub revoke_family : ℕ → ℕ → AuthTables → AuthTables
revoke_family family now s = record s {
  refresh_tokens =
      update_by (λ t. t.family_id == family && is_none t.revoked_at)
        (λ t. record t { revoked_at = some now }) s.refresh_tokens;
}

abbrev pub token_id_of : Option RefreshToken → Option ℕ
token_id_of none = none
token_id_of (some t) = some t.id

unfoldable pub replace : Crypto → Draws → RefreshToken → AuthTables → AuthTables
replace crypto draws r s =
    let replacement = token_id_of (find_refresh_token (crypto.sha256 draws.token) s) in
    record s {
      refresh_tokens =
          update_by (λ t. t.id == r.id)
            (λ t. record t { revoked_at = some (draws.clock 4); replaced_by = replacement })
            s.refresh_tokens;
    }

-- The presented token gives way to the one that was issued.
unfoldable pub rotated :
    Crypto → Draws → RefreshToken → AuthTables × Result TokenPair → AuthTables × Result TokenPair
rotated crypto draws r (s, err e) = (s, err e)
rotated crypto draws r (s, ok tokens) = (replace crypto draws r s, ok tokens)

unfoldable pub is_active : UserStatus → Bool
is_active UserStatus.active = true
is_active _ = false

-- The account of the token: a required relation.
unfoldable pub refresh_for :
    Crypto
    → Config
    → Draws
    → RequestMeta
    → AuthTables
    → RefreshToken
    → Option User
    → AuthTables × Result TokenPair
unfolding rotated
refresh_for crypto config draws meta s r none = (s, err (database missing_relation))
refresh_for crypto config draws meta s r (some u) =
    if is_some u.deleted_at || not (is_active u.status)
    then (s, err (forbidden account_unavailable))
    else rotated crypto draws r
        (issue_tokens crypto config draws (identity_of s u) meta (some r.family_id) s)

unfoldable pub refresh_found :
    Crypto
    → Config
    → Draws
    → RequestMeta
    → AuthTables
    → Option RefreshToken
    → AuthTables × Result TokenPair
unfolding refresh_for
refresh_found crypto config draws meta s none = (s, err (unauthenticated invalid_refresh_token))
refresh_found crypto config draws meta s (some r) =
    if is_some r.revoked_at || is_some r.replaced_by
    then (revoke_family r.family_id (draws.clock 0) s, err (unauthenticated refresh_token_reused))
    else (if leb r.expires_at (draws.clock 0)
        then (s, err (unauthenticated refresh_token_expired))
        else refresh_for crypto config draws meta s r (find_by (λ u. u.id == r.user_id) s.users))

unfoldable pub refresh :
    Crypto → Config → Draws → ℕ → RequestMeta → AuthTables → AuthTables × Result TokenPair
unfolding refresh_found
refresh crypto config draws presented meta s =
    refresh_found crypto config draws meta s (find_refresh_token (crypto.sha256 presented) s)

unfoldable pub logout_found : Draws → AuthTables → Option RefreshToken → AuthTables
logout_found draws s none = s
logout_found draws s (some r) = revoke_family r.family_id (draws.clock 0) s

-- `presented` may be missing.
unfoldable pub logout : Crypto → Draws → Option ℕ → AuthTables → AuthTables
unfolding logout_found
logout crypto draws none s = s
logout crypto draws (some presented) s =
    logout_found draws s (find_refresh_token (crypto.sha256 presented) s)

-- `AuthenticatedUser` of common/types.ts, with its session.
pub record SessionUser : Type 0 where
  pub identity : Identity
  pub session_id : ℕ

unfoldable pub usable : AuthTables → ℕ → Option User → Option SessionUser
usable s sid none = none
usable s sid (some u) =
    if is_active u.status
    then some (record { identity = identity_of s u; session_id = sid })
    else none

unfoldable pub find_live_user : ℕ → AuthTables → Option User
find_live_user id s = find_by (λ u. u.id == id && is_none u.deleted_at) s.users

-- A token with a `typ`, or without a session, is not an access token.
unfoldable pub validate_session :
    AuthTables → AccessTokenPayload → Option ℕ → Option ℕ → Option SessionUser
unfolding usable
validate_session s payload (some typ) sid = none
validate_session s payload none none = none
validate_session s payload none (some sid) = usable s sid (find_live_user payload.sub s)

unfoldable pub validate_access_token : AuthTables → AccessTokenPayload → Option SessionUser
unfolding validate_session
validate_access_token s payload = validate_session s payload payload.typ payload.sid

abbrev pub or_unauthorized : Option SessionUser → Result SessionUser
or_unauthorized none = err (unauthenticated unauthorized)
or_unauthorized (some u) = ok u

unfoldable pub validate_opened : AuthTables → Option AccessTokenPayload → Result SessionUser
unfolding validate_access_token
validate_opened s none = err (unauthenticated unauthorized)
validate_opened s (some payload) = or_unauthorized (validate_access_token s payload)

-- A request that bears an access token: passport-jwt opens it, and `validate` reads the account.
unfoldable pub authenticate : Crypto → ℕ → AccessToken → AuthTables → Result SessionUser
unfolding validate_opened
authenticate crypto now token s = validate_opened s (crypto.open_token now token)

pub record Me : Type 0 where
  pub user : User
  pub profile : Option Profile
  pub provider : Option Provider

unfoldable pub describe : AuthTables → Option User → Result Me
describe s none = err (not_found user_not_found)
describe s (some u) = ok (record {
  user = u;
  profile = find_by (λ p. p.user_id == u.id) s.profiles;
  provider = find_by (λ p. p.user_id == u.id) s.providers;
})

unfoldable pub me : ℕ → AuthTables → Result Me
unfolding describe
me user s = describe s (find_live_user user s)
