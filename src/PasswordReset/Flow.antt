-- ===== src/PasswordReset/Flow.antt =====
-- The three steps of PasswordResetService, each and together.
use fixitph_backend.Prelude.{
  ℕ, true, false, Option, none, some, List, [], ◌∷◌, String, ◌+◌, ◌*◌, ◌&&◌, ◌==◌, is_none, ltb,
  any, filter_by, find_by, update_by, ◌≡◌, refl, ap, ◌∙◌, arith, find_by-update_by, find_by-holds,
  any-find_by, Bool-cases, Option-cases, inl, inr, ==_refl,
}
use fixitph_backend.Errors.{bad_request, invalid_reset_token, Result, ok, err}
use fixitph_backend.PasswordReset.Service.{
  Crypto, Config, Draws, User, ResetToken, RefreshToken, Accounts, VerifyResult, minutes, find_user,
  retire, new_token, issue_code, request, pending_for, is_locked, update_token, miss, issue_token,
  verify, has_hash, find_token, same_as_old, change_password, reset_account, is_spendable,
  spend_token, reset,
}

retired_none :
    (user now : ℕ) (ts : List ResetToken)
    → filter_by (λ t. t.user_id == user && is_none t.used_at) (retire user now ts) ≡ []
unfolding filter_by retire update_by
retired_none user now [] = refl
retired_none user now (t ∷ ts) = ground (arith, retired_none user now ts)

-- Where the address is registered, the new code is the only one of the account that is unused.
pub request_retires :
    (crypto : Crypto) (config : Config) (draws : Draws) (email : ℕ) (ip : Option String)
    (s : Accounts) (u : User)
    → find_user (crypto.normalise email) s ≡ some u
    → filter_by
        (λ t. t.user_id == u.id && is_none t.used_at)
        (request crypto config draws email ip s).0.tokens
      ≡ new_token crypto config draws u ip ∷ []
unfolding request filter_by new_token
request_retires crypto config draws email ip s u f =
    rw f (ground (arith, retired_none u.id (draws.clock 1) s.tokens))

-- A verification that succeeds was of a pending request, neither locked nor expired nor verified
-- before, with a code that argon2 accepts for it.
pub verify_sound :
    (crypto : Crypto) (config : Config) (draws : Draws) (email code : ℕ) (s : Accounts)
    (r : VerifyResult)
    → (verify crypto config draws email code s).1 ≡ ok r
    → (t : ResetToken) × (find_by (pending_for s.users (crypto.normalise email)) s.tokens ≡ some t)
      × (is_locked t.locked_until (draws.clock 0) ≡ false)
      × (ltb (draws.clock 0) t.expires_at ≡ true)
      × (t.verified_at ≡ none)
      × (crypto.verify t.code_hash code ≡ true)
unfolding verify miss issue_token
verify_sound crypto config draws email code s r h =
    elim (Option-cases (find_by (pending_for s.users (crypto.normalise email)) s.tokens)) [
      | inl e ↦ absurd (ground (arith, e, h))
      | inr (t, e) ↦ (
        t,
        e,
        ground (arith, e, h),
        ground (arith, e, h),
        ground (arith, e, h),
        ground (arith, e, h),
      )
    ]

module _ (crypto : Crypto) (draws : Draws) (token password : ℕ) (s : Accounts) where
  -- Once spent, a token is refused.
  spent_refused :
      (t : ResetToken) (u : User)
      → find_token (crypto.sha256 token) s ≡ some t
      → (change_password crypto draws password s t u).1 ≡ ok tt
      → (later : Draws) (other : ℕ)
      → reset crypto later token other (change_password crypto draws password s t u).0
        ≡ ((change_password crypto draws password s t u).0, err (bad_request invalid_reset_token))
  unfolding reset find_token change_password is_spendable
  spent_refused t u f h later other =
      elim (Bool-cases (same_as_old crypto u.password_hash password)) [
        | inl e ↦ absurd (ground (arith, e, h))
        | inr e ↦ rw e (
            rw
              (find_by-update_by (λ (r : ResetToken). has_hash (crypto.sha256 token) r.token_hash)
                (λ r. r.id == t.id) (λ r. record r { used_at = some (draws.clock 1) }) s.tokens t
                (λ r _. refl) f (==_refl t.id))
              (ground arith))
      ]

  spent_refused_account :
      (t : ResetToken) (o : Option User)
      → find_token (crypto.sha256 token) s ≡ some t
      → (reset_account crypto draws password s t o).1 ≡ ok tt
      → (later : Draws) (other : ℕ)
      → reset crypto later token other (reset_account crypto draws password s t o).0
        ≡ ((reset_account crypto draws password s t o).0, err (bad_request invalid_reset_token))
  unfolding reset_account
  spent_refused_account t none f h later other = cc
  spent_refused_account t (some u) f h later other = spent_refused t u f h later other

  spent_refused_found :
      (o : Option ResetToken)
      → find_token (crypto.sha256 token) s ≡ o
      → (spend_token crypto draws password s o).1 ≡ ok tt
      → (later : Draws) (other : ℕ)
      → reset crypto later token other (spend_token crypto draws password s o).0
        ≡ ((spend_token crypto draws password s o).0, err (bad_request invalid_reset_token))
  unfolding spend_token
  spent_refused_found none f h later other = cc
  spent_refused_found (some t) f h later other =
      elim (Bool-cases (is_spendable (draws.clock 0) t)) [
        | inl e ↦ rw e (spent_refused_account t _ f (ground (arith, e, h)) later other)
        | inr e ↦ absurd (ground (arith, e, h))
      ]

-- A reset that succeeds spends its token: whenever and with whatever password it is sent again
-- after that, it is refused with INVALID_RESET_TOKEN, and nothing changes.
pub reset_once :
    (crypto : Crypto) (draws : Draws) (token password : ℕ) (s : Accounts)
    → (reset crypto draws token password s).1 ≡ ok tt
    → (later : Draws) (other : ℕ)
    → reset crypto later token other (reset crypto draws token password s).0
      ≡ ((reset crypto draws token password s).0, err (bad_request invalid_reset_token))
unfolding spend_token reset
reset_once crypto draws token password s h later other =
    spent_refused_found crypto draws token password s _ refl h later other

all_revoked :
    (user now : ℕ) (ts : List RefreshToken)
    → any
        (λ (r : RefreshToken). r.user_id == user && is_none r.revoked_at)
        (update_by
          (λ r. r.user_id == user && is_none r.revoked_at)
          (λ r. record r { revoked_at = some now })
          ts)
      ≡ false
unfolding any update_by
all_revoked user now [] = refl
all_revoked user now (t ∷ ts) = ground (arith, all_revoked user now ts)

module _ (crypto : Crypto) (config : Config) (first second third : Draws) (email : ℕ)
    (ip : Option String) (password : ℕ) (s : Accounts) (u : User)
    (registered : find_user (crypto.normalise email) s ≡ some u)
    (own : find_by (λ x. x.id == u.id) s.users ≡ some u) where
  sent : ResetToken
  sent = new_token crypto config first u ip

  asked : Accounts
  asked = (issue_code crypto config first ip s (some u)).0

  asks : (request crypto config first email ip s).0 ≡ asked
  unfolding request asked
  asks = rw registered refl

  checked : Accounts
  checked = (issue_token crypto config second asked sent).0

  is_own :
      any (λ x. x.id == u.id && x.email == crypto.normalise email && is_none x.deleted_at) s.users
      ≡ true
  unfolding find_user
  is_own = ground (
    arith,
    find_by-holds (λ (x : User). x.email == crypto.normalise email && is_none x.deleted_at) s.users
        u registered,
    any-find_by (λ x. x.id == u.id && x.email == crypto.normalise email && is_none x.deleted_at)
        (λ x. x.email == crypto.normalise email && is_none x.deleted_at) s.users u registered,
  )

  asked_pending :
      find_by (pending_for asked.users (crypto.normalise email)) asked.tokens ≡ some sent
  unfolding asked sent issue_code new_token find_by pending_for
  asked_pending = ground (arith, is_own)

  checks :
      crypto.verify (crypto.hash first.salt first.code) first.code ≡ true
      → ltb (second.clock 0) (first.clock 0 + minutes config.code_ttl_minutes) ≡ true
      → verify crypto config second email first.code asked
        ≡ issue_token crypto config second asked sent
  unfolding verify sent new_token
  checks v e = rw asked_pending (ground (arith, v, e))

  issued : ResetToken
  issued = record sent {
    token_hash = some (crypto.sha256 second.token);
    verified_at = some (second.clock 0);
    attempt_count = 0;
    locked_until = none;
    expires_at = second.clock 1 + config.code_ttl_minutes * 60 * 1000;
  }

  issued_first : find_token (crypto.sha256 second.token) checked ≡ some issued
  unfolding issued checked sent asked issue_token update_token issue_code new_token find_by
      update_by find_token
  issued_first = ground arith

  own_checked : find_by (λ x. x.id == u.id) checked.users ≡ some u
  unfolding checked asked issue_token update_token issue_code
  own_checked = own

  changes :
      ltb (third.clock 0) (second.clock 1 + config.code_ttl_minutes * 60 * 1000) ≡ true
      → reset crypto third second.token password checked
        ≡ change_password crypto third password checked issued u
  unfolding reset is_spendable reset_account issued sent new_token
  changes e = rw issued_first (rw e (rw own_checked refl))

  changed_user :
      same_as_old crypto u.password_hash password ≡ false
      → find_user
          (crypto.normalise email)
          (change_password crypto third password checked issued u).0
        ≡ some (record u {
          password_hash = some (crypto.hash third.salt password);
          password_changed_at = some (third.clock 2);
          failed_login_count = 0;
          locked_until = none;
        })
  unfolding change_password checked asked issue_token update_token issue_code find_user issued sent
      new_token
  changed_user e = rw e (
      find_by-update_by (λ (x : User). x.email == crypto.normalise email && is_none x.deleted_at)
        (λ x. x.id == u.id) _ s.users u (λ x _. refl) registered (==_refl u.id))

  changed_sessions :
      same_as_old crypto u.password_hash password ≡ false
      → any
          (λ (r : RefreshToken). r.user_id == u.id && is_none r.revoked_at)
          (change_password crypto third password checked issued u).0.refresh_tokens
        ≡ false
  unfolding change_password issued sent new_token
  changed_sessions e = rw e (all_revoked u.id (third.clock 3) checked.refresh_tokens)

-- The account after a reset.
unfoldable pub with_password : Crypto → Draws → ℕ → User → User
with_password crypto draws password u = record u {
  password_hash = some (crypto.hash draws.salt password);
  password_changed_at = some (draws.clock 2);
  failed_login_count = 0;
  locked_until = none;
}

-- Where argon2 accepts what it hashed, the address is registered and identifies the account, and
-- the password is a new one: the code that `request` draws, sent before it expires, is given a
-- token; that token, sent before it expires, resets the password; the account then has the new
-- password and no login lockout, and none of its sessions is left unrevoked.
pub reset-verify-request :
    (crypto : Crypto) (config : Config) (first second third : Draws) (email : ℕ)
    (ip : Option String) (password : ℕ) (s : Accounts) (u : User)
    → find_user (crypto.normalise email) s ≡ some u
    → find_by (λ x. x.id == u.id) s.users ≡ some u
    → ((salt secret : ℕ) → crypto.verify (crypto.hash salt secret) secret ≡ true)
    → same_as_old crypto u.password_hash password ≡ false
    → ltb (second.clock 0) (first.clock 0 + minutes config.code_ttl_minutes) ≡ true
    → ltb (third.clock 0) (second.clock 1 + config.code_ttl_minutes * 60 * 1000) ≡ true
    → (v : Accounts × Result VerifyResult) (r : Accounts × Result (Unit {0}))
    → v ≡ verify crypto config second email first.code (request crypto config first email ip s).0
    → r ≡ reset crypto third second.token password v.0
    → (v.1
        ≡ ok (record {
          reset_token = second.token;
          expires_in_seconds = config.code_ttl_minutes * 60;
        }))
      × (r.1 ≡ ok tt)
      × (find_user (crypto.normalise email) r.0 ≡ some (with_password crypto third password u))
      × (any (λ x. x.user_id == u.id && is_none x.revoked_at) r.0.refresh_tokens ≡ false)
unfolding with_password checked issue_token change_password
reset-verify-request crypto config first second third email ip password s u registered own law fresh
      e f v r p q =
    let given : v
        ≡ issue_token crypto config second
            (asked crypto config first second third email ip password s u registered own)
            (sent crypto config first second third email ip password s u registered own) =
      p
      ∙ ap (verify crypto config second email first.code)
          (asks crypto config first second third email ip password s u registered own)
      ∙ checks crypto config first second third email ip password s u registered own (law _ _) e in
    let changed : r
        ≡ change_password crypto third password
            (checked crypto config first second third email ip password s u registered own)
            (issued crypto config first second third email ip password s u registered own) u =
      q
      ∙ ap (λ w. reset crypto third second.token password w.0) given
      ∙ changes crypto config first second third email ip password s u registered own f in
    (
      rw given refl,
      rw changed (rw fresh refl),
      rw changed (
          changed_user crypto config first second third email ip password s u registered own fresh),
      rw changed (
          changed_sessions crypto config first second third email ip password s u registered own
            fresh),
    )
