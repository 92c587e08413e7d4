-- ===== src/Examples/Codes.antt =====
-- Reset and verification codes, with a toy hash.
use fixitph_backend.Prelude.{
  ℕ, none, some, List, [], ◌∷◌, ◌==◌, ◌*◌, ◌&&◌, true, false, filter_by, find_by, any, is_none, ltb,
  ◌≡◌, ◌≤◌, arith, refl, ==_refl, all,
}
use fixitph_backend.Errors.{
  bad_request, forbidden, conflict, reset_code_locked, invalid_reset_token, email_code_too_soon,
  Result, ok, err,
}
use fixitph_backend.PasswordReset.Service.{
  Crypto, Config, Draws, User, ResetToken, Accounts, VerifyResult, pending_for, is_locked,
  new_token, find_user, request, verify, reset, find_token, is_spendable,
}
use fixitph_backend.PasswordReset.Lockout.{IsOpen, guess_all, guess_all_locks, is_wrong_guess}
use fixitph_backend.PasswordReset.Flow.{
  request_retires, verify_sound, reset_once, with_password, reset-verify-request,
}
use fixitph_backend.EmailVerification.Service as Email
use fixitph_backend.EmailVerification.Confirmation.{confirm_sound, send_cools}

abbrev crypto : Crypto
crypto = record {
  hash = λ salt secret. secret;
  verify = λ h secret. h == secret;
  sha256 = λ t. t;
  normalise = λ e. e;
}

abbrev config : Config
config = record {
  code_ttl_minutes = 10;
  max_attempts = 3;
  lockout_minutes = 15;
  is_production = true;
}

abbrev draws_at : ℕ → Draws
draws_at now = record { clock = λ i. now; uuid = 1; salt = 0; code = 123_456; token = 777 }

abbrev ana : User
ana = record {
  id = 20;
  email = 5;
  password_hash = some 42;
  password_changed_at = none;
  failed_login_count = 2;
  locked_until = none;
  deleted_at = none;
}

abbrev accounts : Accounts
accounts = record {
  users = ana ∷ [];
  tokens = [];
  refresh_tokens = (record { id = 1; user_id = 20; revoked_at = none }) ∷ [];
  outbox = [];
}

abbrev sent : ResetToken
sent = record {
  id = 1;
  user_id = 20;
  code_hash = 123_456;
  token_hash = none;
  attempt_count = 0;
  locked_until = none;
  expires_at = 601_000;
  verified_at = none;
  used_at = none;
  requested_ip = none;
}

abbrev waiting : Accounts
waiting = record accounts { tokens = sent ∷ [] }

abbrev verified : Accounts
verified = record accounts {
  tokens =
      (record sent { token_hash = some 777; verified_at = some 2000; expires_at = 602_000 }) ∷ [];
}

waiting-IsOpen : IsOpen 5 crypto waiting sent
unfolding find_by pending_for any
waiting-IsOpen = record { found = refl; unlocked = refl; unverified = refl }

abbrev guesses : List (Draws × ℕ)
guesses = (draws_at 2000, 1) ∷ (draws_at 2001, 2) ∷ (draws_at 2002, 3) ∷ []

three : 1 ≤ 3
three = omega arith

-- The right code comes too late.
guess_all_locks_example :
    verify crypto config (draws_at 3000) 5 123_456 (guess_all crypto config 5 guesses waiting)
    ≡ (guess_all crypto config 5 guesses waiting, err (forbidden reset_code_locked))
unfolding all is_wrong_guess
guess_all_locks_example =
    guess_all_locks crypto config 5 2000 guesses waiting sent waiting-IsOpen refl refl three
      (draws_at 3000) 123_456 refl

request_retires_example :
    filter_by
      (λ t. t.user_id == 20 && is_none t.used_at)
      (request crypto config (draws_at 1000) 5 none waiting).0.tokens
    ≡ new_token crypto config (draws_at 1000) ana none ∷ []
unfolding find_user find_by
request_retires_example = request_retires crypto config (draws_at 1000) 5 none waiting ana refl

verify_sound_example :
    (t : ResetToken) × (find_by (pending_for waiting.users 5) waiting.tokens ≡ some t)
    × (is_locked t.locked_until 2000 ≡ false)
    × (ltb 2000 t.expires_at ≡ true)
    × (t.verified_at ≡ none)
    × ((t.code_hash == 123_456) ≡ true)
unfolding verify find_by pending_for any
verify_sound_example =
    verify_sound crypto config (draws_at 2000) 5 123_456 waiting
      (record { reset_token = 777; expires_in_seconds = 600 }) refl

reset_once_example :
    reset crypto (draws_at 4000) 777 44 (reset crypto (draws_at 3000) 777 43 verified).0
    ≡ ((reset crypto (draws_at 3000) 777 43 verified).0, err (bad_request invalid_reset_token))
unfolding reset find_token find_by is_spendable
reset_once_example = reset_once crypto (draws_at 3000) 777 43 verified refl (draws_at 4000) 44

abbrev after_verify : Accounts × Result VerifyResult
after_verify =
    verify crypto config (draws_at 2000) 5 123_456
      (request crypto config (draws_at 1000) 5 none accounts).0

abbrev after_reset : Accounts × Result (Unit {0})
after_reset = reset crypto (draws_at 3000) 777 43 after_verify.0

reset-verify-request_example :
    (after_verify.1 ≡ ok (record { reset_token = 777; expires_in_seconds = 10 * 60 }))
    × (after_reset.1 ≡ ok tt)
    × (find_user 5 after_reset.0 ≡ some (with_password crypto (draws_at 3000) 43 ana))
    × (any (λ x. x.user_id == 20 && is_none x.revoked_at) after_reset.0.refresh_tokens ≡ false)
unfolding find_user find_by
reset-verify-request_example =
    reset-verify-request crypto config (draws_at 1000) (draws_at 2000) (draws_at 3000) 5 none 43
      accounts ana refl refl (λ salt secret. ==_refl secret) refl refl refl after_verify after_reset
      refl refl

abbrev email_crypto : Email.Crypto
email_crypto = record {
  hash = λ salt secret. secret;
  verify = λ h secret. h == secret;
  lower_case = λ e. e;
}

abbrev email_config : Email.Config
email_config = record {
  code_ttl_minutes = 15;
  max_attempts = 5;
  lockout_minutes = 15;
  resend_cooldown_seconds = 60;
  is_production = true;
}

abbrev email_draws : ℕ → Email.Draws
email_draws now = record { clock = λ i. now; now = now; uuid = 1; salt = 0; code = 123_456 }

abbrev cora : Email.User
cora = record { id = 20; email = 5; email_verified_at = none; deleted_at = none }

abbrev code_sent : Email.Accounts
code_sent = record {
  users = cora ∷ [];
  tokens =
      (record {
        id = 1;
        user_id = 20;
        email = 5;
        code_hash = 123_456;
        attempt_count = 0;
        locked_until = none;
        expires_at = 901_000;
        used_at = none;
        created_at = 1000;
        requested_ip = none;
      })
      ∷ [];
  outbox = [];
}

confirm_sound_example :
    (t : Email.EmailVerificationToken) × (Email.find_pending 20 code_sent ≡ some t)
    × (Email.is_locked t.locked_until 2000 ≡ false)
    × (ltb 2000 t.expires_at ≡ true)
    × (t.email ≡ 5)
    × ((t.code_hash == 123_456) ≡ true)
unfolding Email.find_account find_by Email.confirm
confirm_sound_example =
    confirm_sound email_crypto email_config (email_draws 2000) 20 123_456 2000 code_sent cora refl
      refl refl

abbrev code_sent_to : Email.SendResult
code_sent_to = record { sent_to = 5; code_ttl_minutes = 15; dev_code = none }

send_cools_example :
    Email.send email_crypto email_config
      (email_draws 120_000)
      20
      none
      (Email.send email_crypto email_config (email_draws 70_000) 20 none code_sent).0
    ≡ (
      (Email.send email_crypto email_config (email_draws 70_000) 20 none code_sent).0,
      err (conflict email_code_too_soon),
    )
unfolding Email.find_account find_by Email.send
send_cools_example =
    send_cools email_crypto email_config (email_draws 70_000) (email_draws 120_000) 20 none none
      code_sent cora code_sent_to refl refl refl
