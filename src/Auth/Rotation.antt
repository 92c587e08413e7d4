-- ===== src/Auth/Rotation.antt =====
-- What the calls of AuthService and GoogleAuthService do to the families of refresh tokens.
use fixitph_backend.Prelude.{
  ℕ, Bool, true, false, Option, none, some, List, [], ◌∷◌, ◌&&◌, ◌||◌, ◌==◌, not, is_none, is_some,
  leb, any, no_two, find_by, update_by, ◌≡◌, refl, arith, inl, inr, Bool-cases, Option-cases,
  any-mono-false, no_two-update_by, if_both, &&-eq-true, any-update_by-false,
}
use fixitph_backend.Schema.{UserStatus}
use fixitph_backend.Errors.{Result}
use fixitph_backend.Auth.Tables.{
  User, RefreshToken, OAuthAccount, AuthTables, Crypto, Config, Draws,
}
use fixitph_backend.Auth.Service.{
  RequestMeta, TokenPair, Identity, RegisterDto, issue_tokens, new_refresh_token, update_user,
  register, check_status, register_failed_attempt, login, login_found, is_locked, accepts,
  user_clash, new_user, find_by_email,
}
use fixitph_backend.Auth.Refresh.{
  refresh, refresh_found, refresh_for, rotated, replace, revoke_family, logout, logout_found,
  find_refresh_token, is_active,
}
use fixitph_backend.Auth.Google.{
  GoogleProfile, sign_in, sign_in_by_subject, sign_in_by_email, sign_in_linked, sign_in_checked,
  link_checked, link, create_account, finish, assert_usable, find_link, google_user,
}
use fixitph_backend.Auth.Calls.{
  Call, register_as, login_with, refresh_with, logout_with, sign_in_as, perform, run, is_fresh,
  draws_fresh,
}
use fixitph_backend.Auth.Families.{both_live, same_digest, is_live_in, IsRotating, any-revoked}

-- An update that revokes, and keeps the digests.
revoke-IsRotating :
    (h : RefreshToken → Bool) (f : RefreshToken → RefreshToken) (ts : List RefreshToken)
    → ((t : RefreshToken) → (f t).token_hash ≡ t.token_hash)
    → ((t : RefreshToken) → is_none (f t).revoked_at ≡ false)
    → IsRotating ts
    → IsRotating (update_by h f ts)
unfolding both_live same_digest
revoke-IsRotating h f ts d r k = record {
  digests =
      no_two-update_by same_digest h f ts (λ t u e. rw (d t) e) (λ t u e. rw (d u) e) k.digests;
  families =
      no_two-update_by both_live h f ts (λ t u e. ground (arith, r t))
        (λ t u e. ground (arith, r u)) k.families;
}

-- A new token beside the unrevoked tokens of other families.
new-IsRotating :
    (new : RefreshToken) (ts : List RefreshToken)
    → any (λ t. t.token_hash == new.token_hash) ts ≡ false
    → any (is_live_in new.family_id) ts ≡ false
    → IsRotating ts
    → IsRotating (new ∷ ts)
unfolding no_two both_live same_digest is_live_in
new-IsRotating new ts d l k = record {
  digests = ground (
    arith,
    k.digests,
    any-mono-false (λ t. t.token_hash == new.token_hash) (same_digest new) ts
        (λ t e. ground (arith, e)) d,
  );
  families = ground (
    arith,
    k.families,
    any-mono-false (is_live_in new.family_id) (both_live new) ts (λ t e. ground (arith, e)) l,
  );
}

module _ (crypto : Crypto) (config : Config) (draws : Draws) where
  issue-IsRotating :
      (user : Identity) (meta : RequestMeta) (s : AuthTables)
      → is_fresh draws s ≡ true
      → IsRotating s.refresh_tokens
      → IsRotating (issue_tokens crypto config draws user meta none s).0.refresh_tokens
  unfolding issue_tokens is_fresh is_live_in new_refresh_token
  issue-IsRotating user meta s f k =
      elim (Bool-cases (any (λ t. t.token_hash == crypto.sha256 draws.token) s.refresh_tokens)) [
        | inl e ↦ rw e k
        | inr e ↦ rw e (
            new-IsRotating _ s.refresh_tokens e
              (any-mono-false (λ t. t.family_id == draws.family_id) (is_live_in draws.family_id)
                s.refresh_tokens (λ t h. (&&-eq-true _ _ h).0) (ground (arith, f)))
              k)
      ]

  register-IsRotating :
      (dto : RegisterDto) (meta : RequestMeta) (s : AuthTables)
      → is_fresh draws s ≡ true
      → IsRotating s.refresh_tokens
      → IsRotating (register crypto config draws dto meta s).0.refresh_tokens
  unfolding register is_fresh
  register-IsRotating dto meta s f k =
      elim (Bool-cases (any (user_clash (new_user crypto draws dto)) s.users)) [
        | inl e ↦ rw e k
        | inr e ↦ rw e (issue-IsRotating _ meta _ f k)
      ]

  status-IsRotating :
      (meta : RequestMeta) (s : AuthTables) (u : User) (status : UserStatus)
      → is_fresh draws s ≡ true
      → IsRotating s.refresh_tokens
      → IsRotating (check_status crypto config draws meta s u status).0.refresh_tokens
  unfolding check_status update_user is_fresh
  status-IsRotating meta s u UserStatus.suspended f k = k
  status-IsRotating meta s u UserStatus.deactivated f k = k
  status-IsRotating meta s u UserStatus.active f k = issue-IsRotating _ meta _ f k
  status-IsRotating meta s u UserStatus.pending_verification f k = issue-IsRotating _ meta _ f k

  login-IsRotating :
      (password : ℕ) (meta : RequestMeta) (s : AuthTables) (o : Option User)
      → is_fresh draws s ≡ true
      → IsRotating s.refresh_tokens
      → IsRotating (login_found crypto config draws password meta s o).0.refresh_tokens
  unfolding login_found register_failed_attempt update_user
  login-IsRotating password meta s none f k = k
  login-IsRotating password meta s (some u) f k =
      elim (Bool-cases (is_locked u.locked_until (draws.clock 0))) [
        | inl e ↦ rw e k
        | inr e ↦ elim (Bool-cases (accepts crypto u.password_hash password)) [
          | inl a ↦ rw (e, a) (status-IsRotating meta s u u.status f k)
          | inr a ↦ rw (e, a) k
        ]
      ]

  -- The presented token is revoked, and the one that replaces it is the family's only one.
  replace-IsRotating :
      (replaced : Option ℕ) (q : RefreshToken → Bool) (r new : RefreshToken)
      (ts : List RefreshToken)
      → find_by q ts ≡ some r
      → r.revoked_at ≡ none
      → new.family_id ≡ r.family_id
      → any (λ t. t.token_hash == new.token_hash) ts ≡ false
      → IsRotating ts
      → IsRotating (
          update_by
            (λ t. t.id == r.id)
            (λ t. record t { revoked_at = some (draws.clock 4); replaced_by = replaced })
            (new ∷ ts))
  unfolding update_by is_live_in
  replace-IsRotating replaced q r new ts f e g d k =
      let h : RefreshToken → Bool = λ t. t.id == r.id in
      let revoke : RefreshToken → RefreshToken =
        λ t. record t { revoked_at = some (draws.clock 4); replaced_by = replaced } in
      let rest : IsRotating (update_by h revoke ts) =
        revoke-IsRotating h revoke ts (λ t. refl) (λ t. refl) k in
      let digest : any (λ t. t.token_hash == new.token_hash) (update_by h revoke ts) ≡ false =
        any-update_by-false _ h revoke ts (λ t _ n. n) d in
      let alone : any (is_live_in new.family_id) (update_by h revoke ts) ≡ false =
        rw g (any-revoked q replaced (draws.clock 4) ts r f e k.families) in
      elim (Bool-cases (new.id == r.id)) [
        | inl i ↦ rw i (new-IsRotating (revoke new) _ digest alone rest)
        | inr i ↦ rw i (new-IsRotating new _ digest alone rest)
      ]

  refresh_for-IsRotating :
      (meta : RequestMeta) (s : AuthTables) (q : RefreshToken → Bool) (r : RefreshToken)
      (o : Option User)
      → find_by q s.refresh_tokens ≡ some r
      → r.revoked_at ≡ none
      → IsRotating s.refresh_tokens
      → IsRotating (refresh_for crypto config draws meta s r o).0.refresh_tokens
  unfolding refresh_for rotated replace issue_tokens new_refresh_token
  refresh_for-IsRotating meta s q r none f e k = k
  refresh_for-IsRotating meta s q r (some u) f e k =
      elim (Bool-cases (is_some u.deleted_at || not (is_active u.status))) [
        | inl a ↦ rw a k
        | inr a ↦
            elim (Bool-cases
              (any (λ t. t.token_hash == crypto.sha256 draws.token) s.refresh_tokens)) [
                | inl d ↦ rw (a, d) k
                | inr d ↦ rw (a, d) (replace-IsRotating _ q r _ s.refresh_tokens f e refl d k)
              ]
      ]

  refresh-IsRotating :
      (meta : RequestMeta) (s : AuthTables) (q : RefreshToken → Bool) (o : Option RefreshToken)
      → find_by q s.refresh_tokens ≡ o
      → IsRotating s.refresh_tokens
      → IsRotating (refresh_found crypto config draws meta s o).0.refresh_tokens
  unfolding refresh_found revoke_family
  refresh-IsRotating meta s q none f k = k
  refresh-IsRotating meta s q (some r) f k =
      elim (Bool-cases (is_some r.revoked_at || is_some r.replaced_by)) [
        | inl a ↦ rw a (revoke-IsRotating _ _ _ (λ t. refl) (λ t. refl) k)
        | inr a ↦ elim (Bool-cases (leb r.expires_at (draws.clock 0))) [
          | inl e ↦ rw (a, e) k
          | inr e ↦ rw (a, e) (refresh_for-IsRotating meta s q r _ f (ground (arith, a)) k)
        ]
      ]

  logout-IsRotating :
      (s : AuthTables) (o : Option RefreshToken)
      → IsRotating s.refresh_tokens
      → IsRotating (logout_found draws s o).refresh_tokens
  unfolding logout_found revoke_family
  logout-IsRotating s none k = k
  logout-IsRotating s (some r) k = revoke-IsRotating _ _ _ (λ t. refl) (λ t. refl) k

  google_finish-IsRotating :
      (meta : RequestMeta) (s : AuthTables) (u : User)
      → is_fresh draws s ≡ true
      → IsRotating s.refresh_tokens
      → IsRotating (finish crypto config draws meta s u).0.refresh_tokens
  unfolding finish update_user is_fresh
  google_finish-IsRotating meta s u f k = issue-IsRotating _ meta _ f k

  linked-IsRotating :
      (meta : RequestMeta) (s : AuthTables) (email : ℕ) (l : OAuthAccount) (o : Option User)
      → is_fresh draws s ≡ true
      → IsRotating s.refresh_tokens
      → IsRotating (sign_in_linked crypto config draws meta s email l o).0.refresh_tokens
  unfolding sign_in_linked sign_in_checked is_fresh
  linked-IsRotating meta s email l none f k = k
  linked-IsRotating meta s email l (some u) f k =
      elim (Option-cases (assert_usable u.deleted_at u.status)) [
        | inl e ↦ rw e (google_finish-IsRotating meta _ u f k)
        | inr (e, h) ↦ rw h k
      ]

  by_email-IsRotating :
      (profile : GoogleProfile) (meta : RequestMeta) (email : ℕ) (s : AuthTables) (o : Option User)
      → is_fresh draws s ≡ true
      → IsRotating s.refresh_tokens
      → IsRotating (sign_in_by_email crypto config draws profile meta email s o).0.refresh_tokens
  unfolding sign_in_by_email create_account link_checked link is_fresh
  by_email-IsRotating profile meta email s none f k =
      elim (Bool-cases (
        any (user_clash (google_user draws email)) s.users
        || any (λ l. l.provider_account_id == profile.id) s.oauth_accounts)) [
          | inl e ↦ rw e k
          | inr e ↦ rw e (google_finish-IsRotating meta _ _ f k)
        ]
  by_email-IsRotating profile meta email s (some u) f k =
      elim (Option-cases (assert_usable u.deleted_at u.status)) [
        | inr (e, h) ↦ rw h k
        | inl e ↦
            elim (Bool-cases (any (λ l. l.provider_account_id == profile.id) s.oauth_accounts)) [
              | inl d ↦ rw (e, d) k
              | inr d ↦
                  rw (e, d)
                    (google_finish-IsRotating meta _ u
                      (ground (
                        arith,
                        any-update_by-false (λ t. t.family_id == draws.family_id)
                            (λ t. t.user_id == u.id && is_none t.revoked_at)
                            (λ t. record t { revoked_at = some (draws.clock 6) }) s.refresh_tokens
                            (λ t _ n. n),
                        f,
                      ))
                      (revoke-IsRotating _ _ _ (λ t. refl) (λ t. refl) k))
            ]
      ]

  subject-IsRotating :
      (profile : GoogleProfile) (meta : RequestMeta) (email : ℕ) (s : AuthTables)
      (o : Option OAuthAccount)
      → is_fresh draws s ≡ true
      → IsRotating s.refresh_tokens
      → IsRotating (sign_in_by_subject crypto config draws profile meta email s o).0.refresh_tokens
  unfolding sign_in_by_subject
  subject-IsRotating profile meta email s none f k =
      by_email-IsRotating profile meta email s (find_by_email email s) f k
  subject-IsRotating profile meta email s (some l) f k =
      linked-IsRotating meta s email l (find_by (λ u. u.id == l.user_id) s.users) f k

  sign_in-IsRotating :
      (profile : GoogleProfile) (meta : RequestMeta) (s : AuthTables)
      → is_fresh draws s ≡ true
      → IsRotating s.refresh_tokens
      → IsRotating (sign_in crypto config draws profile meta s).0.refresh_tokens
  unfolding sign_in
  sign_in-IsRotating profile meta s f k =
      if_both (λ (r : AuthTables × Result TokenPair). IsRotating r.0.refresh_tokens)
        profile.email_verified (subject-IsRotating profile meta _ s (find_link profile.id s) f k) k

  perform-IsRotating :
      (call : Call) (s : AuthTables)
      → is_fresh draws s ≡ true
      → IsRotating s.refresh_tokens
      → IsRotating (perform crypto config draws call s).refresh_tokens
  unfolding perform login refresh logout find_refresh_token
  perform-IsRotating (register_as dto meta) s f k = register-IsRotating dto meta s f k
  perform-IsRotating (login_with email password meta) s f k =
      login-IsRotating password meta s (find_by_email (crypto.lower_case email) s) f k
  perform-IsRotating (refresh_with presented meta) s f k =
      refresh-IsRotating meta s _ (find_refresh_token (crypto.sha256 presented) s) refl k
  perform-IsRotating (logout_with none) s f k = k
  perform-IsRotating (logout_with (some presented)) s f k =
      logout-IsRotating s (find_refresh_token (crypto.sha256 presented) s) k
  perform-IsRotating (sign_in_as profile meta) s f k = sign_in-IsRotating profile meta s f k

-- Where each call draws a family identifier that is not in use, any sequence of registrations,
-- logins, refreshes, logouts and Google sign-ins leaves at most one unrevoked refresh token in each
-- family, and no two tokens with one digest, if it began so.
pub run-IsRotating :
    (crypto : Crypto) (config : Config) (calls : List (Draws × Call)) (s : AuthTables)
    → draws_fresh crypto config calls s ≡ true
    → IsRotating s.refresh_tokens
    → IsRotating (run crypto config calls s).refresh_tokens
unfolding run draws_fresh
run-IsRotating crypto config [] s f k = k
run-IsRotating crypto config ((draws, call) ∷ calls) s f k =
    run-IsRotating crypto config calls _ (&&-eq-true _ _ f).1
      (perform-IsRotating crypto config draws call s (&&-eq-true _ _ f).0 k)
