-- ===== src/EmailVerification/Confirmation.antt =====
-- `confirm` and `send` of EmailVerificationService: what a success was of, and the cooldown.
use fixitph_backend.Prelude.{
  ℕ, true, false, Option, none, some, String, ◌+◌, ◌*◌, ltb, find_by, ◌≡◌, arith, Option-cases,
  Bool-cases, inl, inr,
}
use fixitph_backend.Errors.{conflict, email_code_too_soon, ok, err}
use fixitph_backend.EmailVerification.Service.{
  Crypto, Config, Draws, User, EmailVerificationToken, Accounts, SendResult, find_account,
  find_pending, is_too_soon, is_locked, send_code, send, confirm, miss, mark_verified,
}

-- A confirmation of an address that was not verified succeeds only with a code that argon2 accepts
-- for the newest unused code of the account, which is neither locked nor expired, and which was
-- sent to the address that the account has now.
pub confirm_sound :
    (crypto : Crypto) (config : Config) (draws : Draws) (user code at : ℕ) (s : Accounts) (u : User)
    → find_account user s ≡ some u
    → u.email_verified_at ≡ none
    → (confirm crypto config draws user code s).1 ≡ ok at
    → (t : EmailVerificationToken) × (find_pending u.id s ≡ some t)
      × (is_locked t.locked_until (draws.clock 0) ≡ false)
      × (ltb (draws.clock 1) t.expires_at ≡ true)
      × (crypto.lower_case t.email ≡ crypto.lower_case u.email)
      × (crypto.verify t.code_hash code ≡ true)
unfolding confirm miss mark_verified
confirm_sound crypto config draws user code at s u f n h =
    elim (Option-cases (find_pending u.id s)) [
      | inl e ↦ absurd (ground (arith, f, n, e, h))
      | inr (t, e) ↦ (
        t,
        e,
        ground (arith, f, n, e, h),
        ground (arith, f, n, e, h),
        ground (arith, f, n, e, h),
        ground (arith, f, n, e, h),
      )
    ]

module _ (crypto : Crypto) (config : Config) (draws later : Draws) (user : ℕ)
    (ip again : Option String) (s : Accounts) (u : User)
    (found : find_account user s ≡ some u) where
  -- What follows the sending of a code.
  sent_cools :
      u.email_verified_at ≡ none
      → ltb (later.clock 0) (draws.now + config.resend_cooldown_seconds * 1000) ≡ true
      → send crypto config later user again (send_code crypto config draws ip s u).0
        ≡ ((send_code crypto config draws ip s u).0, err (conflict email_code_too_soon))
  unfolding send send_code find_account find_by find_pending is_too_soon
  sent_cools n l = rw found (ground (arith, n, l))

  sends :
      (r : SendResult)
      → (send crypto config draws user ip s).1 ≡ ok r
      → (send crypto config draws user ip s ≡ send_code crypto config draws ip s u)
        × (u.email_verified_at ≡ none)
  unfolding send
  sends r h = elim (Option-cases u.email_verified_at) [
    | inr (t, e) ↦ absurd (ground (arith, found, e, h))
    | inl e ↦ elim (Bool-cases (is_too_soon config (draws.clock 0) (find_pending u.id s))) [
      | inl k ↦ absurd (ground (arith, found, e, k, h))
      | inr k ↦ (rw (found) (ground (arith, e, k)), e)
    ]
  ]

-- After a code has been sent, another is refused with EMAIL_CODE_TOO_SOON until the cooldown is
-- over, and nothing changes.
pub send_cools :
    (crypto : Crypto) (config : Config) (draws later : Draws) (user : ℕ) (ip again : Option String)
    (s : Accounts) (u : User) (r : SendResult)
    → find_account user s ≡ some u
    → (send crypto config draws user ip s).1 ≡ ok r
    → ltb (later.clock 0) (draws.now + config.resend_cooldown_seconds * 1000) ≡ true
    → send crypto config later user again (send crypto config draws user ip s).0
      ≡ ((send crypto config draws user ip s).0, err (conflict email_code_too_soon))
send_cools crypto config draws later user ip again s u r f h l =
    let sent = sends crypto config draws later user ip again s u f r h in
    rw sent.0 (sent_cools crypto config draws later user ip again s u f sent.1 l)
