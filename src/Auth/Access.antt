-- ===== src/Auth/Access.antt =====
-- The access token of a session.
use fixitph_backend.Prelude.{
  ℕ, true, false, Option, none, some, List, [], ◌∷◌, ◌*◌, find_by, if◌then◌else◌, update_by, ◌≢◌,
  ◌+◌, ◌/◌, ◌==◌, ltb, any, ◌≡◌, refl, sym, ap, ◌∙◌, arith, inl, inr, Bool-cases,
}
use fixitph_backend.Schema.{UserStatus, Provider}
use fixitph_backend.Errors.{unauthenticated, unauthorized, ok, err}
use fixitph_backend.Auth.Tables.{User, AuthTables, AccessTokenPayload, Crypto, Config, Draws}
use fixitph_backend.Auth.Service.{
  RequestMeta, TokenPair, Identity, identity_of, find_by_email, is_locked, accepts, claims_for,
  new_refresh_token, check_status, issue_tokens, login, login_found, signed_in, update_user, id_of,
  provider_id_of,
}
use fixitph_backend.Auth.Refresh.{
  find_live_user, is_active, usable, validate_access_token, validate_session, authenticate,
  validate_opened,
}

-- jsonwebtoken opens what it signed until the token's lifetime is over, both to the second.
unfoldable pub OpensSigned : Crypto → Type 0
OpensSigned crypto =
    (signed now seconds : ℕ) (payload : AccessTokenPayload)
    → ltb (now / 1000) (signed / 1000 + seconds) ≡ true
    → crypto.open_token now (crypto.sign signed seconds payload) ≡ some payload

-- The provider profile of an account: the first row that names it.
unfoldable pub provider_of : ℕ → List Provider → Option ℕ
provider_of user [] = none
provider_of user (p ∷ ps) =
    let rest = provider_of user ps in if p.user_id == user then some p.id else rest

provider_of_lem :
    (user : ℕ) (ps : List Provider)
    → id_of (find_by (λ p. p.user_id == user) ps) ≡ provider_of user ps
unfolding provider_of find_by
provider_of_lem user [] = refl
provider_of_lem user (p ∷ ps) = ground (arith, provider_of_lem user ps)

abbrev tokens_of : Crypto → Config → Draws → User → Option ℕ → TokenPair
tokens_of crypto config draws u provider = record {
  access_token = crypto.sign (draws.clock 2) config.access_seconds (record {
    sub = u.id;
    email = u.email;
    role = u.role;
    provider_id = provider;
    sid = some draws.session_id;
    typ = none;
  });
  refresh_token = draws.token;
  expires_in = config.access_seconds;
}

-- What a login that succeeded was of, and what it left.
pub record IsLoggedIn (crypto : Crypto) (config : Config) (draws : Draws) (email password : ℕ)
    (meta : RequestMeta) (s left : AuthTables) (pair : TokenPair) : Type 0 where
  pub user : User
  pub found : find_by_email (crypto.lower_case email) s ≡ some user
  pub unlocked : is_locked user.locked_until (draws.clock 0) ≡ false
  pub accepted : accepts crypto user.password_hash password ≡ true
  pub not_suspended : user.status ≢ UserStatus.suspended
  pub not_deactivated : user.status ≢ UserStatus.deactivated
  pub leaves : left ≡ record s {
    users =
        update_by
          (λ u. u.id == user.id)
          (λ u. record u {
            failed_login_count = 0;
            locked_until = none;
            last_login_at = some (draws.clock 1);
          })
          s.users;
    refresh_tokens =
        record {
          id = draws.token_id;
          user_id = user.id;
          token_hash = crypto.sha256 draws.token;
          family_id = draws.family_id;
          replaced_by = none;
          expires_at = draws.clock 3 + config.refresh_seconds * 1000;
          revoked_at = none;
          user_agent = meta.user_agent;
          ip_address = meta.ip;
        }
        ∷ s.refresh_tokens;
  }
  pub gives : pair ≡ record {
    access_token = crypto.sign (draws.clock 2) config.access_seconds (record {
      sub = user.id;
      email = user.email;
      role = user.role;
      provider_id = provider_of user.id s.providers;
      sid = some draws.session_id;
      typ = none;
    });
    refresh_token = draws.token;
    expires_in = config.access_seconds;
  }

module _ (crypto : Crypto) (config : Config) (draws : Draws) (email password : ℕ)
    (meta : RequestMeta) (s : AuthTables) (pair : TokenPair) where
  issued :
      (user : Identity) (t : AuthTables)
      → (issue_tokens crypto config draws user meta none t).1 ≡ ok pair
      → ((issue_tokens crypto config draws user meta none t).0 ≡ record t {
        refresh_tokens =
            new_refresh_token crypto config draws user meta draws.family_id ∷ t.refresh_tokens;
      })
        × (pair ≡ record {
          access_token = crypto.sign (draws.clock 2) config.access_seconds (claims_for draws user);
          refresh_token = draws.token;
          expires_in = config.access_seconds;
        })
  unfolding issue_tokens
  issued user t h =
      elim (Bool-cases (any (λ t. t.token_hash == crypto.sha256 draws.token) t.refresh_tokens)) [
        | inl d ↦ absurd (ground (arith, d, h))
        | inr d ↦ (rw d refl, ground (arith, d, h))
      ]

  status_passes :
      (u : User) (status : UserStatus)
      → (check_status crypto config draws meta s u status).1 ≡ ok pair
      → (status ≢ UserStatus.suspended)
        × (status ≢ UserStatus.deactivated)
        × (check_status crypto config draws meta s u status
            ≡ issue_tokens crypto config draws
                (identity_of s u)
                meta
                none
                (update_user u.id (signed_in (draws.clock 1)) s))
  unfolding check_status
  status_passes u UserStatus.suspended h = absurd (ground (arith, h))
  status_passes u UserStatus.deactivated h = absurd (ground (arith, h))
  status_passes u UserStatus.active h = (ground arith, ground arith, refl)
  status_passes u UserStatus.pending_verification h = (ground arith, ground arith, refl)

  found-IsLoggedIn :
      (o : Option User)
      → find_by_email (crypto.lower_case email) s ≡ o
      → (login_found crypto config draws password meta s o).1 ≡ ok pair
      → IsLoggedIn crypto config draws email password meta s
          (login_found crypto config draws password meta s o).0
          pair
  unfolding login_found update_user signed_in new_refresh_token claims_for identity_of
      provider_id_of
  found-IsLoggedIn none f h = absurd (ground (arith, h))
  found-IsLoggedIn (some u) f h = elim (Bool-cases (is_locked u.locked_until (draws.clock 0))) [
    | inl l ↦ absurd (ground (arith, l, h))
    | inr l ↦ elim (Bool-cases (accepts crypto u.password_hash password)) [
      | inr a ↦ absurd (ground (arith, l, a, h))
      | inl a ↦
          let (p, q, e) = status_passes u u.status (ground (arith, l, a, h)) in
          let (leaves, gives) =
            issued (identity_of s u) _ (ap (λ r. r.1) (sym e) ∙ ground (arith, l, a, h)) in
          record {
            user = u;
            found = f;
            unlocked = l;
            accepted = a;
            not_suspended = p;
            not_deactivated = q;
            leaves = rw (l, a, e) leaves;
            gives = gives ∙ ap (tokens_of crypto config draws u) (provider_of_lem u.id s.providers);
          }
    ]
  ]

-- A login that succeeds was of an account that is not closed, locked, suspended or deactivated, on
-- the address in lower case, with a password that argon2 accepts for it. It clears the count of
-- failures and the lock and notes the time, adds one refresh token of a new family, which is
-- unrevoked and expires after the configured time, and gives an access token with the account's
-- identifier, address, role and provider profile. Nothing else in the tables changes.
pub login-IsLoggedIn :
    (crypto : Crypto) (config : Config) (draws : Draws) (email password : ℕ) (meta : RequestMeta)
    (s : AuthTables) (pair : TokenPair)
    → (login crypto config draws email password meta s).1 ≡ ok pair
    → IsLoggedIn crypto config draws email password meta s
        (login crypto config draws email password meta s).0
        pair
unfolding login
login-IsLoggedIn crypto config draws email password meta s pair h =
    found-IsLoggedIn crypto config draws email password meta s pair _ refl h

pub given_tokens :
    (crypto : Crypto) (config : Config) (draws : Draws) (email password : ℕ) (meta : RequestMeta)
    (s left : AuthTables) (pair : TokenPair)
    (k : IsLoggedIn crypto config draws email password meta s left pair)
    → pair ≡ record {
      access_token =
          crypto.sign
            (draws.clock 2)
            config.access_seconds
            (claims_for draws (identity_of s k.user));
      refresh_token = draws.token;
      expires_in = config.access_seconds;
    }
unfolding claims_for identity_of provider_id_of
given_tokens crypto config draws email password meta s left pair k =
    k.gives
    ∙ sym (ap (tokens_of crypto config draws k.user) (provider_of_lem k.user.id s.providers))

-- Where JWTs open until they expire: the access token of a login is taken for the account's holder
-- as long as it lasts, whatever has happened to the tables since, if the account is active; the
-- role and the provider profile are the present ones. If it is not active, the request is refused
-- with 401, though the token has not expired.
pub authenticate-login :
    (crypto : Crypto) (config : Config) (draws : Draws) (email password : ℕ) (meta : RequestMeta)
    (s : AuthTables) (pair : TokenPair) (u : User)
    → OpensSigned crypto
    → (login crypto config draws email password meta s).1 ≡ ok pair
    → find_by_email (crypto.lower_case email) s ≡ some u
    → (now : ℕ) (later : AuthTables) (v : User)
    → ltb (now / 1000) (draws.clock 2 / 1000 + config.access_seconds) ≡ true
    → find_live_user u.id later ≡ some v
    → authenticate crypto now pair.access_token later ≡ (
        if is_active v.status
        then ok (record { identity = identity_of later v; session_id = draws.session_id })
        else err (unauthenticated unauthorized))
unfolding authenticate validate_opened validate_access_token validate_session usable claims_for
    identity_of OpensSigned
authenticate-login crypto config draws email password meta s pair u opens h f now later v e g =
    let k = login-IsLoggedIn crypto config draws email password meta s pair h in
    let same : k.user ≡ u = ground (arith, k.found, f) in
    let opened : crypto.open_token now pair.access_token
        ≡ some (claims_for draws (identity_of s u)) =
      ap (λ (x : TokenPair). crypto.open_token now x.access_token)
        (given_tokens crypto config draws email password meta s _ pair k)
      ∙ opens (draws.clock 2) now config.access_seconds _ e
      ∙ ap (λ x. some (claims_for draws (identity_of s x))) same in
    rw (opened, g)
      (elim (Bool-cases (is_active v.status)) [ inl a ↦ rw a refl | inr a ↦ rw a refl ])
