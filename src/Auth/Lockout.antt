-- ===== src/Auth/Lockout.antt =====
-- `login` of AuthService under wrong passwords.
use fixitph_backend.Prelude.{
  ℕ, Bool, true, false, none, some, List, [], ◌∷◌, ◌+◌, ◌-◌, ◌*◌, ◌&&◌, ◌==◌, not, leb, ltb, all,
  length, is_none, ◌≡◌, ◌≤◌, refl, arith, find_by-update_by, &&-eq-true, all_mono, ==_refl,
}
use fixitph_backend.Errors.{unauthenticated, forbidden, account_locked, invalid_credentials, err}
use fixitph_backend.Auth.Tables.{User, AuthTables, Crypto, Config, Draws}
use fixitph_backend.Auth.Service.{
  RequestMeta, find_by_email, is_locked, accepts, failed_attempt, register_failed_attempt,
  update_user, login, login_found,
}

-- One guess after another, each with its draws.
unfoldable pub guess_all :
    Crypto → Config → ℕ → RequestMeta → List (Draws × ℕ) → AuthTables → AuthTables
guess_all crypto config email meta [] s = s
guess_all crypto config email meta ((draws, password) ∷ guesses) s =
    guess_all crypto config email meta guesses (login crypto config draws email password meta s).0

-- A wrong password, sent no earlier than `start` and while the account is not locked.
unfoldable pub is_wrong_guess : Crypto → ℕ → User → Draws × ℕ → Bool
is_wrong_guess crypto start u (draws, password) =
    leb start (draws.clock 1)
    && not (is_locked u.locked_until (draws.clock 0))
    && not (accepts crypto u.password_hash password)

-- A lock on the account that lasts until `until` at least.
pub record IsShut (crypto : Crypto) (email until : ℕ) (s : AuthTables) : Type 0 where
  pub user : User
  pub found : find_by_email (crypto.lower_case email) s ≡ some user
  pub lock : ℕ
  pub locked : user.locked_until ≡ some lock
  pub lasts : until ≤ lock

module _ (crypto : Crypto) (config : Config) (email start : ℕ) (meta : RequestMeta) where
  after_guess :
      (draws : Draws) (password : ℕ) (s : AuthTables) (u : User)
      → find_by_email (crypto.lower_case email) s ≡ some u
      → is_wrong_guess crypto start u (draws, password) ≡ true
      → login crypto config draws email password meta s
        ≡ (register_failed_attempt config draws u s, err (unauthenticated invalid_credentials))
  unfolding login login_found is_wrong_guess
  after_guess draws password s u f w = rw f (ground (arith, w))

  counted :
      (draws : Draws) (s : AuthTables) (u : User)
      → find_by_email (crypto.lower_case email) s ≡ some u
      → find_by_email (crypto.lower_case email) (register_failed_attempt config draws u s)
        ≡ some (failed_attempt config draws u)
  unfolding find_by_email register_failed_attempt update_user failed_attempt
  counted draws s u f =
      find_by-update_by (λ (v : User). v.email == crypto.lower_case email && is_none v.deleted_at)
        (λ v. v.id == u.id) _ s.users u (λ v _. refl) f (==_refl u.id)

  guesses-IsShut :
      (guesses : List (Draws × ℕ)) (s : AuthTables) (u : User)
      → find_by_email (crypto.lower_case email) s ≡ some u
      → all (is_wrong_guess crypto start u) guesses ≡ true
      → length guesses ≡ config.max_attempts - (u.failed_login_count + 1) + 1
      → IsShut crypto email
          (start + config.lockout_minutes * 60_000)
          (guess_all crypto config email meta guesses s)
  unfolding all guess_all is_wrong_guess failed_attempt
  guesses-IsShut [] s u f w n = absurd (ground arith)
  guesses-IsShut ((draws, password) ∷ []) s u f w n =
      rw (after_guess draws password s u f (&&-eq-true _ _ w).0, guess_all)
        (record {
          user = failed_attempt config draws u;
          found = counted draws s u f;
          lock = draws.clock 1 + config.lockout_minutes * 60_000;
          locked = ground (arith, n);
          lasts = ground (arith, w);
        })
  guesses-IsShut ((draws, password) ∷ g ∷ guesses) s u f w n =
      rw (after_guess draws password s u f (&&-eq-true _ _ w).0, guess_all)
        (guesses-IsShut (g ∷ guesses) _ (failed_attempt config draws u) (counted draws s u f)
          (all_mono (is_wrong_guess crypto start u)
            (is_wrong_guess crypto start (failed_attempt config draws u)) (g ∷ guesses)
            (λ x h. ground (arith, h, n)) (&&-eq-true _ _ w).1)
          (ground (arith, n)))

-- As many wrong passwords as an account that is not locked has left, and one where it has none,
-- lock it: up to the lockout period after the guesses began, whatever password is sent, the right
-- one included, is refused with ACCOUNT_LOCKED, and nothing changes.
pub login_locks :
    (crypto : Crypto) (config : Config) (email start : ℕ) (meta : RequestMeta)
    (guesses : List (Draws × ℕ)) (s : AuthTables) (u : User)
    → find_by_email (crypto.lower_case email) s ≡ some u
    → all (is_wrong_guess crypto start u) guesses ≡ true
    → length guesses ≡ config.max_attempts - (u.failed_login_count + 1) + 1
    → (draws : Draws) (password : ℕ)
    → ltb (draws.clock 0) (start + config.lockout_minutes * 60_000) ≡ true
    → login crypto config draws email password meta (guess_all crypto config email meta guesses s)
      ≡ (guess_all crypto config email meta guesses s, err (forbidden account_locked))
unfolding login login_found
login_locks crypto config email start meta guesses s u f w n draws password b =
    let shut = guesses-IsShut crypto config email start meta guesses s u f w n in
    rw shut.found (ground (arith, shut.locked, shut.lasts, b))

-- While the account on an address is not locked, a wrong password for it is answered in the same
-- words as any password for an address that is not registered.
pub login_reveals_nothing :
    (crypto : Crypto) (config : Config) (draws : Draws) (email password : ℕ) (meta : RequestMeta)
    (s other : AuthTables) (u : User)
    → find_by_email (crypto.lower_case email) s ≡ some u
    → is_locked u.locked_until (draws.clock 0) ≡ false
    → accepts crypto u.password_hash password ≡ false
    → find_by_email (crypto.lower_case email) other ≡ none
    → (login crypto config draws email password meta s).1
      ≡ (login crypto config draws email password meta other).1
unfolding login login_found
login_reveals_nothing crypto config draws email password meta s other u f l a n =
    rw (f, n) (ground (arith, l, a))
