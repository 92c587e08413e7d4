-- ===== src/EmailVerification/Service.antt =====
-- The operations of EmailVerificationService in auth/email-verification.service.ts. As in
-- PasswordReset/Service.antt, texts are numbers, and argon2 is a parameter, as is the lower case of
-- an address. The policies of `email_verification_tokens` give a caller its own rows, which are
-- all that the code asks for.
use fixitph_backend.Prelude.{
  ℕ, Bool, false, Option, none, some, List, ◌∷◌, String, ◌+◌, ◌*◌, ◌&&◌, ◌==◌, not, is_none,
  is_some, leb, ltb, if◌then◌else◌, find_by, update_by,
}
use fixitph_backend.Errors.{
  bad_request, not_found, conflict, Result, ok, err, user_not_found, email_already_verified,
  email_code_too_soon, email_code_not_requested, email_code_locked, email_code_expired,
  email_changed, email_code_invalid,
}

pub record Crypto : Type 0 where
  pub hash : ℕ → ℕ → ℕ
  pub verify : ℕ → ℕ → Bool
  pub lower_case : ℕ → ℕ

pub record Config : Type 0 where
  pub code_ttl_minutes : ℕ
  pub max_attempts : ℕ
  pub lockout_minutes : ℕ
  pub resend_cooldown_seconds : ℕ
  pub is_production : Bool

-- What a call draws from outside; `now` is the database's time, for `created_at`.
pub record Draws : Type 0 where
  pub clock : ℕ → ℕ
  pub now : ℕ
  pub uuid : ℕ
  pub salt : ℕ
  pub code : ℕ

pub record User : Type 0 where
  pub id : ℕ
  pub email : ℕ
  pub email_verified_at : Option ℕ
  pub deleted_at : Option ℕ

pub record EmailVerificationToken : Type 0 where
  pub id : ℕ
  pub user_id : ℕ
  pub email : ℕ
  pub code_hash : ℕ
  pub attempt_count : ℕ
  pub locked_until : Option ℕ
  pub expires_at : ℕ
  pub used_at : Option ℕ
  pub created_at : ℕ
  pub requested_ip : Option String

pub record Mail : Type 0 where
  pub to : ℕ
  pub code : ℕ
  pub ttl_minutes : ℕ

-- The tables, with the newest rows first, and the mail handed to MailService.
pub record Accounts : Type 0 where
  pub users : List User
  pub tokens : List EmailVerificationToken
  pub outbox : List Mail

pub record SendResult : Type 0 where
  pub sent_to : ℕ
  pub code_ttl_minutes : ℕ
  pub dev_code : Option ℕ

unfoldable pub find_account : ℕ → Accounts → Option User
find_account id s = find_by (λ u. u.id == id && is_none u.deleted_at) s.users

-- The newest unused code of the account.
unfoldable pub find_pending : ℕ → Accounts → Option EmailVerificationToken
find_pending id s = find_by (λ t. t.user_id == id && is_none t.used_at) s.tokens

-- `waited < cooldown`, in milliseconds. A row from the future has waited for a negative time.
unfoldable pub is_too_soon : Config → ℕ → Option EmailVerificationToken → Bool
is_too_soon config now none = false
is_too_soon config now (some t) = ltb now (t.created_at + config.resend_cooldown_seconds * 1000)

unfoldable pub send_code :
    Crypto → Config → Draws → Option String → Accounts → User → Accounts × Result SendResult
send_code crypto config draws ip s u = (
  record s {
    tokens =
        (record {
          id = draws.uuid;
          user_id = u.id;
          email = u.email;
          code_hash = crypto.hash draws.salt draws.code;
          attempt_count = 0;
          locked_until = none;
          expires_at = draws.clock 2 + config.code_ttl_minutes * 60_000;
          used_at = none;
          created_at = draws.now;
          requested_ip = ip;
        })
        ∷ update_by (λ t. t.user_id == u.id && is_none t.used_at)
            (λ t. record t { used_at = some (draws.clock 1) }) s.tokens;
    outbox =
        (record { to = u.email; code = draws.code; ttl_minutes = config.code_ttl_minutes })
        ∷ s.outbox;
  },
  ok (record {
    sent_to = u.email;
    code_ttl_minutes = config.code_ttl_minutes;
    dev_code = if config.is_production then none else some draws.code;
  }),
)

unfoldable pub send_to :
    Crypto → Config → Draws → Option String → Accounts → Option User → Accounts × Result SendResult
unfolding send_code find_pending is_too_soon
send_to crypto config draws ip s none = (s, err (not_found user_not_found))
send_to crypto config draws ip s (some u) =
    if is_some u.email_verified_at
    then (s, err (conflict email_already_verified))
    else (if is_too_soon config (draws.clock 0) (find_pending u.id s)
        then (s, err (conflict email_code_too_soon))
        else send_code crypto config draws ip s u)

unfoldable pub send :
    Crypto → Config → Draws → ℕ → Option String → Accounts → Accounts × Result SendResult
unfolding send_to
send crypto config draws user ip s = send_to crypto config draws ip s (find_account user s)

abbrev pub is_locked : Option ℕ → ℕ → Bool
is_locked none now = false
is_locked (some t) now = ltb now t

unfoldable pub miss : Config → Draws → Accounts → EmailVerificationToken → Accounts × Result ℕ
miss config draws s t =
    let attempts = t.attempt_count + 1 in
    let locked = leb config.max_attempts attempts in
    (
      record s {
        tokens =
            update_by (λ r. r.id == t.id)
              (λ r. record r {
                attempt_count = attempts;
                locked_until =
                    if locked
                    then some (draws.clock 2 + config.lockout_minutes * 60_000)
                    else r.locked_until;
              })
              s.tokens;
      },
      err (if locked then conflict email_code_locked else bad_request email_code_invalid),
    )

unfoldable pub mark_verified :
    Draws → Accounts → User → EmailVerificationToken → Accounts × Result ℕ
mark_verified draws s u t = (
  record s {
    tokens =
        update_by (λ r. r.id == t.id) (λ r. record r { used_at = some (draws.clock 2) }) s.tokens;
    users =
        update_by (λ r. r.id == u.id) (λ r. record r { email_verified_at = some (draws.clock 2) })
          s.users;
  },
  ok (draws.clock 2),
)

unfoldable pub check_code :
    Crypto
    → Config
    → Draws
    → ℕ
    → Accounts
    → User
    → Option EmailVerificationToken
    → Accounts × Result ℕ
unfolding miss mark_verified
check_code crypto config draws code s u none = (s, err (bad_request email_code_not_requested))
check_code crypto config draws code s u (some t) =
    if is_locked t.locked_until (draws.clock 0)
    then (s, err (conflict email_code_locked))
    else (if leb t.expires_at (draws.clock 1)
        then (s, err (bad_request email_code_expired))
        else (if not (crypto.lower_case t.email == crypto.lower_case u.email)
            then (s, err (bad_request email_changed))
            else (if crypto.verify t.code_hash code
                then mark_verified draws s u t
                else miss config draws s t)))

-- An account that is verified already keeps its time.
unfoldable pub confirm_unverified :
    Crypto → Config → Draws → ℕ → Accounts → User → Option ℕ → Accounts × Result ℕ
unfolding check_code find_pending
confirm_unverified crypto config draws code s u (some at) = (s, ok at)
confirm_unverified crypto config draws code s u none =
    check_code crypto config draws code s u (find_pending u.id s)

unfoldable pub confirm_account :
    Crypto → Config → Draws → ℕ → Accounts → Option User → Accounts × Result ℕ
unfolding confirm_unverified
confirm_account crypto config draws code s none = (s, err (not_found user_not_found))
confirm_account crypto config draws code s (some u) =
    confirm_unverified crypto config draws code s u u.email_verified_at

unfoldable pub confirm : Crypto → Config → Draws → ℕ → ℕ → Accounts → Accounts × Result ℕ
unfolding confirm_account
confirm crypto config draws user code s =
    confirm_account crypto config draws code s (find_account user s)
