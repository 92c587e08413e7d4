-- ===== src/PasswordReset/Lockout.antt =====
-- `verify` of PasswordResetService under wrong guesses.
use fixitph_backend.Prelude.{
  ℕ, Bool, true, false, none, some, List, [], ◌∷◌, ◌+◌, ◌&&◌, ◌==◌, not, leb, ltb, all,
  if◌then◌else◌, find_by, length, ◌≡◌, ◌≤◌, refl, arith, find_by-update_by, &&-eq-true, ==_refl,
}
use fixitph_backend.Errors.{forbidden, reset_code_locked, err}
use fixitph_backend.PasswordReset.Service.{
  Crypto, Config, Draws, ResetToken, Accounts, minutes, pending_for, update_token, miss, verify,
}

-- One guess after another, each with its draws.
unfoldable pub guess_all : Crypto → Config → ℕ → List (Draws × ℕ) → Accounts → Accounts
guess_all crypto config email [] s = s
guess_all crypto config email ((draws, code) ∷ guesses) s =
    guess_all crypto config email guesses (verify crypto config draws email code s).0

-- A wrong code, sent no earlier than `start` and before the code expires.
unfoldable pub is_wrong_guess : Crypto → ℕ → ResetToken → Draws × ℕ → Bool
is_wrong_guess crypto start t (draws, code) =
    leb start (draws.clock 1)
    && ltb (draws.clock 0) t.expires_at
    && not (crypto.verify t.code_hash code)

pub record IsOpen (email : ℕ) (crypto : Crypto) (s : Accounts) (t : ResetToken) : Type 0 where
  pub found : find_by (pending_for s.users (crypto.normalise email)) s.tokens ≡ some t
  pub unlocked : t.locked_until ≡ none
  pub unverified : t.verified_at ≡ none

-- A lock on the pending request that lasts until `start` and the period at least.
pub record IsShut (email : ℕ) (crypto : Crypto) (until : ℕ) (s : Accounts) : Type 0 where
  pub token : ResetToken
  pub found : find_by (pending_for s.users (crypto.normalise email)) s.tokens ≡ some token
  pub lock : ℕ
  pub locked : token.locked_until ≡ some lock
  pub lasts : until ≤ lock

module _ (crypto : Crypto) (config : Config) (email start : ℕ) where
  missed : Draws → ResetToken → ResetToken
  missed draws t = record t {
    attempt_count = t.attempt_count + 1;
    locked_until =
        if leb config.max_attempts (t.attempt_count + 1)
        then some (draws.clock 1 + minutes config.lockout_minutes)
        else none;
  }

  verify_miss :
      (draws : Draws) (code : ℕ) (s : Accounts) (t : ResetToken)
      → IsOpen email crypto s t
      → is_wrong_guess crypto start t (draws, code) ≡ true
      → verify crypto config draws email code s ≡ miss config draws s t
  unfolding verify is_wrong_guess
  verify_miss draws code s t o w = rw o.found (ground (arith, o.unlocked, o.unverified, w))

  after_miss :
      (draws : Draws) (s : Accounts) (t : ResetToken)
      → find_by (pending_for s.users (crypto.normalise email)) s.tokens ≡ some t
      → find_by (pending_for s.users (crypto.normalise email)) (miss config draws s t).0.tokens
        ≡ some (missed draws t)
  unfolding miss update_token missed pending_for
  after_miss draws s t f =
      find_by-update_by _ (λ r. r.id == t.id) _ s.tokens t (λ r _. refl) f (==_refl t.id)

  IsShut-of :
      (draws : Draws) (s : Accounts) (t : ResetToken)
      → find_by (pending_for s.users (crypto.normalise email)) s.tokens ≡ some t
      → leb start (draws.clock 1) ≡ true
      → leb config.max_attempts (t.attempt_count + 1) ≡ true
      → IsShut email crypto (start + minutes config.lockout_minutes) (miss config draws s t).0
  unfolding missed miss update_token
  IsShut-of draws s t f w l = record {
    token = missed draws t;
    found = after_miss draws s t f;
    lock = draws.clock 1 + minutes config.lockout_minutes;
    locked = rw l refl;
    lasts = ground arith;
  }

  IsOpen-of :
      (draws : Draws) (s : Accounts) (t : ResetToken)
      → find_by (pending_for s.users (crypto.normalise email)) s.tokens ≡ some t
      → t.verified_at ≡ none
      → leb config.max_attempts (t.attempt_count + 1) ≡ false
      → IsOpen email crypto (miss config draws s t).0 (missed draws t)
  unfolding missed miss update_token
  IsOpen-of draws s t f v l = record {
    found = after_miss draws s t f;
    unlocked = rw l refl;
    unverified = v;
  }

  guess_starts :
      (draws : Draws) (code : ℕ) (t : ResetToken)
      → is_wrong_guess crypto start t (draws, code) ≡ true
      → leb start (draws.clock 1) ≡ true
  unfolding is_wrong_guess
  guess_starts draws code t w = ground arith

  -- As many wrong guesses as are left shut the request.
  guesses-IsShut :
      (guesses : List (Draws × ℕ)) (s : Accounts) (t : ResetToken)
      → IsOpen email crypto s t
      → all (is_wrong_guess crypto start t) guesses ≡ true
      → t.attempt_count + length guesses ≡ config.max_attempts
      → 1 ≤ length guesses
      → IsShut email crypto
          (start + minutes config.lockout_minutes)
          (guess_all crypto config email guesses s)
  unfolding all guess_all missed is_wrong_guess
  guesses-IsShut [] s t o w n k = absurd (ground arith)
  guesses-IsShut ((draws, code) ∷ []) s t o w n k =
      rw (verify_miss draws code s t o (&&-eq-true _ _ w).0, guess_all)
        (IsShut-of draws s t o.found (guess_starts draws code t (&&-eq-true _ _ w).0)
          (ground arith))
  guesses-IsShut ((draws, code) ∷ g ∷ guesses) s t o w n k =
      rw (verify_miss draws code s t o (&&-eq-true _ _ w).0, guess_all)
        (guesses-IsShut (g ∷ guesses) _ (missed draws t)
          (IsOpen-of draws s t o.found o.unverified (ground arith)) (&&-eq-true _ _ w).1
          (ground arith) (ground arith))

  shut_refuses :
      (until : ℕ) (s : Accounts)
      → IsShut email crypto until s
      → (draws : Draws) (code : ℕ) → ltb (draws.clock 0) until ≡ true
      → verify crypto config draws email code s ≡ (s, err (forbidden reset_code_locked))
  unfolding verify
  shut_refuses until s h draws code b = rw h.found (ground (arith, h.locked, h.lasts))

-- While a request is pending, neither locked nor verified, as many wrong guesses as it has left
-- lock it: up to the lockout period after the guesses began, whatever code is sent, the right one
-- included, is refused with RESET_CODE_LOCKED, and nothing changes.
pub guess_all_locks :
    (crypto : Crypto) (config : Config) (email start : ℕ) (guesses : List (Draws × ℕ))
    (s : Accounts) (t : ResetToken)
    → IsOpen email crypto s t
    → all (is_wrong_guess crypto start t) guesses ≡ true
    → t.attempt_count + length guesses ≡ config.max_attempts
    → 1 ≤ length guesses
    → (draws : Draws) (code : ℕ)
    → ltb (draws.clock 0) (start + minutes config.lockout_minutes) ≡ true
    → verify crypto config draws email code (guess_all crypto config email guesses s)
      ≡ (guess_all crypto config email guesses s, err (forbidden reset_code_locked))
guess_all_locks crypto config email start guesses s t o w n k draws code b =
    shut_refuses crypto config email start _ _
      (guesses-IsShut crypto config email start guesses s t o w n k) draws code b
