-- ===== src/PasswordReset/Service.antt =====
-- The operations of PasswordResetService in auth/password-reset.service.ts. Texts that the code
-- only hashes and compares (addresses, codes, tokens, hashes) are numbers. argon2, SHA-256 and the
-- normalisation of addresses are parameters; so is what a call draws from outside.
use fixitph_backend.Prelude.{
  ℕ, Bool, false, Option, none, some, List, ◌∷◌, String, ◌+◌, ◌*◌, ◌&&◌, ◌==◌, is_none, is_some,
  leb, ltb, any, if◌then◌else◌, find_by, update_by,
}
use fixitph_backend.Errors.{
  bad_request, forbidden, database, missing_relation, Result, ok, err, invalid_reset_code,
  reset_code_locked, reset_code_expired, reset_code_already_used, invalid_reset_token,
  password_unchanged,
}

pub record Crypto : Type 0 where
  pub hash : ℕ → ℕ → ℕ  -- argon2's salt and the secret
  pub verify : ℕ → ℕ → Bool  -- of a hash and a secret; false where argon2 rejects
  pub sha256 : ℕ → ℕ
  pub normalise : ℕ → ℕ  -- `email.trim().toLowerCase()`

pub record Config : Type 0 where
  pub code_ttl_minutes : ℕ
  pub max_attempts : ℕ
  pub lockout_minutes : ℕ
  pub is_production : Bool

-- The successive readings of the clock, the row's identifier, argon2's salt, and the random values.
pub record Draws : Type 0 where
  pub clock : ℕ → ℕ
  pub uuid : ℕ
  pub salt : ℕ
  pub code : ℕ
  pub token : ℕ

pub record User : Type 0 where
  pub id : ℕ
  pub email : ℕ
  pub password_hash : Option ℕ
  pub password_changed_at : Option ℕ
  pub failed_login_count : ℕ
  pub locked_until : Option ℕ
  pub deleted_at : Option ℕ

pub record ResetToken : Type 0 where
  pub id : ℕ
  pub user_id : ℕ
  pub code_hash : ℕ
  pub token_hash : Option ℕ
  pub attempt_count : ℕ
  pub locked_until : Option ℕ
  pub expires_at : ℕ
  pub verified_at : Option ℕ
  pub used_at : Option ℕ
  pub requested_ip : Option String

pub record RefreshToken : Type 0 where
  pub id : ℕ
  pub user_id : ℕ
  pub revoked_at : Option ℕ

pub data Mail : Type 0 where
  reset_code : ℕ → ℕ → ℕ → Mail
  password_changed : ℕ → Mail

-- The tables, with the newest rows first, and the mail handed to MailService.
pub record Accounts : Type 0 where
  pub users : List User
  pub tokens : List ResetToken
  pub refresh_tokens : List RefreshToken
  pub outbox : List Mail

abbrev pub minutes : ℕ → ℕ
minutes n = n * 60_000

pub record RequestReply : Type 0 where
  pub code_ttl_minutes : ℕ
  pub dev_code : Option ℕ

unfoldable pub find_user : ℕ → Accounts → Option User
find_user email s = find_by (λ u. u.email == email && is_none u.deleted_at) s.users

-- `updateMany({ where: { userId, usedAt: null }, data: { usedAt } })`
unfoldable pub retire : ℕ → ℕ → List ResetToken → List ResetToken
retire user now =
    update_by (λ t. t.user_id == user && is_none t.used_at) (λ t. record t { used_at = some now })

unfoldable pub new_token : Crypto → Config → Draws → User → Option String → ResetToken
new_token crypto config draws u ip = record {
  id = draws.uuid;
  user_id = u.id;
  code_hash = crypto.hash draws.salt draws.code;
  token_hash = none;
  attempt_count = 0;
  locked_until = none;
  expires_at = draws.clock 0 + minutes config.code_ttl_minutes;
  verified_at = none;
  used_at = none;
  requested_ip = ip;
}

unfoldable pub issue_code :
    Crypto → Config → Draws → Option String → Accounts → Option User → Accounts × RequestReply
issue_code crypto config draws ip s none =
    (s, record { code_ttl_minutes = config.code_ttl_minutes; dev_code = none })
issue_code crypto config draws ip s (some u) = (
  record s {
    tokens = new_token crypto config draws u ip ∷ retire u.id (draws.clock 1) s.tokens;
    outbox = Mail.reset_code u.email draws.code config.code_ttl_minutes ∷ s.outbox;
  },
  record {
    code_ttl_minutes = config.code_ttl_minutes;
    dev_code = if config.is_production then none else some draws.code;
  },
)

unfoldable pub request :
    Crypto → Config → Draws → ℕ → Option String → Accounts → Accounts × RequestReply
unfolding issue_code
request crypto config draws email ip s =
    issue_code crypto config draws ip s (find_user (crypto.normalise email) s)

pub record VerifyResult : Type 0 where
  pub reset_token : ℕ
  pub expires_in_seconds : ℕ

-- `{ user: { email, deletedAt: null }, usedAt: null }`
unfoldable pub pending_for : List User → ℕ → ResetToken → Bool
pending_for users email t =
    is_none t.used_at
    && any (λ u. u.id == t.user_id && u.email == email && is_none u.deleted_at) users

-- `lockedUntil && lockedUntil > now`
abbrev pub is_locked : Option ℕ → ℕ → Bool
is_locked none now = false
is_locked (some t) now = ltb now t

unfoldable pub update_token : ℕ → (ResetToken → ResetToken) → Accounts → Accounts
update_token id change s = record s {
  tokens = update_by (λ t. t.id == id) (λ t. record (change t) { id = id }) s.tokens;
}

-- A wrong code.
unfoldable pub miss : Config → Draws → Accounts → ResetToken → Accounts × Result VerifyResult
miss config draws s t =
    let attempts = t.attempt_count + 1 in
    let locked = leb config.max_attempts attempts in
    (
      update_token t.id
          (λ r. record r {
            attempt_count = attempts;
            locked_until =
                if locked then some (draws.clock 1 + minutes config.lockout_minutes) else none;
          })
          s,
      err (if locked then forbidden reset_code_locked else bad_request invalid_reset_code),
    )

-- The right code: the token that authorises the change.
unfoldable pub issue_token :
    Crypto → Config → Draws → Accounts → ResetToken → Accounts × Result VerifyResult
issue_token crypto config draws s t = (
  update_token t.id
      (λ r. record r {
        token_hash = some (crypto.sha256 draws.token);
        verified_at = some (draws.clock 0);
        attempt_count = 0;
        locked_until = none;
        expires_at = draws.clock 1 + config.code_ttl_minutes * 60 * 1000;
      })
      s,
  ok (record { reset_token = draws.token; expires_in_seconds = config.code_ttl_minutes * 60 }),
)

unfoldable pub check_code :
    Crypto → Config → Draws → ℕ → Accounts → Option ResetToken → Accounts × Result VerifyResult
unfolding miss issue_token
check_code crypto config draws code s none = (s, err (bad_request invalid_reset_code))
check_code crypto config draws code s (some t) =
    if is_locked t.locked_until (draws.clock 0)
    then (s, err (forbidden reset_code_locked))
    else (if leb t.expires_at (draws.clock 0)
        then (s, err (bad_request reset_code_expired))
        else (if is_some t.verified_at
            then (s, err (bad_request reset_code_already_used))
            else (if crypto.verify t.code_hash code
                then issue_token crypto config draws s t
                else miss config draws s t)))

unfoldable pub verify : Crypto → Config → Draws → ℕ → ℕ → Accounts → Accounts × Result VerifyResult
unfolding check_code
verify crypto config draws email code s =
    check_code crypto config draws code s
      (find_by (pending_for s.users (crypto.normalise email)) s.tokens)

-- `tokenHash` is null until the code is verified.
abbrev pub has_hash : ℕ → Option ℕ → Bool
has_hash h none = false
has_hash h (some k) = k == h

unfoldable pub find_token : ℕ → Accounts → Option ResetToken
find_token hash s = find_by (λ t. has_hash hash t.token_hash) s.tokens

abbrev pub same_as_old : Crypto → Option ℕ → ℕ → Bool
same_as_old crypto none password = false
same_as_old crypto (some h) password = crypto.verify h password

-- The three writes of the last transaction, and the notice.
unfoldable pub change_password :
    Crypto → Draws → ℕ → Accounts → ResetToken → User → Accounts × Result (Unit {0})
change_password crypto draws password s t u =
    if same_as_old crypto u.password_hash password
    then (s, err (bad_request password_unchanged))
    else (
      record s {
        tokens =
            update_by (λ r. r.id == t.id) (λ r. record r { used_at = some (draws.clock 1) })
              s.tokens;
        users =
            update_by (λ r. r.id == t.user_id)
              (λ r. record r {
                password_hash = some (crypto.hash draws.salt password);
                password_changed_at = some (draws.clock 2);
                failed_login_count = 0;
                locked_until = none;
              })
              s.users;
        refresh_tokens =
            update_by (λ r. r.user_id == t.user_id && is_none r.revoked_at)
              (λ r. record r { revoked_at = some (draws.clock 3) }) s.refresh_tokens;
        outbox = Mail.password_changed u.email ∷ s.outbox;
      },
      ok tt,
    )

-- The account of the token: a required relation.
unfoldable pub reset_account :
    Crypto → Draws → ℕ → Accounts → ResetToken → Option User → Accounts × Result (Unit {0})
unfolding change_password
reset_account crypto draws password s t none = (s, err (database missing_relation))
reset_account crypto draws password s t (some u) = change_password crypto draws password s t u

unfoldable pub is_spendable : ℕ → ResetToken → Bool
is_spendable now t = is_some t.verified_at && is_none t.used_at && ltb now t.expires_at

unfoldable pub spend_token :
    Crypto → Draws → ℕ → Accounts → Option ResetToken → Accounts × Result (Unit {0})
unfolding reset_account
spend_token crypto draws password s none = (s, err (bad_request invalid_reset_token))
spend_token crypto draws password s (some t) =
    if is_spendable (draws.clock 0) t
    then reset_account crypto draws password s t (find_by (λ u. u.id == t.user_id) s.users)
    else (s, err (bad_request invalid_reset_token))

unfoldable pub reset : Crypto → Draws → ℕ → ℕ → Accounts → Accounts × Result (Unit {0})
unfolding spend_token
reset crypto draws token password s =
    spend_token crypto draws password s (find_token (crypto.sha256 token) s)
