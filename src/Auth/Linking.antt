-- ===== src/Auth/Linking.antt =====
-- Which account a Google sign-in opens.
use fixitph_backend.Prelude.{
  ℕ, false, Option, none, some, List, [], ◌∷◌, ◌&&◌, ◌==◌, is_none, any, filter_by, find_by,
  update_by, ◌≡◌, refl, sym, ap, ◌∙◌, arith, inl, inr, Bool-cases, if_true, ==_refl,
}
use fixitph_backend.Errors.{Failure, ok}
use fixitph_backend.Auth.Tables.{
  User, RefreshToken, OAuthAccount, AuthTables, Crypto, Config, Draws,
}
use fixitph_backend.Auth.Service.{
  RequestMeta, TokenPair, identity_of, find_by_email, issue_tokens, new_refresh_token, update_user,
  signed_in, claims_for, provider_id_of,
}
use fixitph_backend.Auth.Google.{
  GoogleProfile, sign_in, sign_in_by_subject, sign_in_by_email, sign_in_linked, sign_in_checked,
  link_checked, link, finish, assert_usable, find_link, new_link,
}

none_left :
    (user now : ℕ) (ts : List RefreshToken)
    → filter_by
        (λ t. t.user_id == user && is_none t.revoked_at)
        (update_by
          (λ t. t.user_id == user && is_none t.revoked_at)
          (λ t. record t { revoked_at = some now })
          ts)
      ≡ []
unfolding filter_by update_by
none_left user now [] = refl
none_left user now (t ∷ ts) = ground (arith, none_left user now ts)

none_unverified :
    (user at now : ℕ) (us : List User)
    → any
        (λ u. u.id == user && is_none u.email_verified_at)
        (update_by
          (λ u. u.id == user)
          (signed_in now)
          (update_by (λ u. u.id == user) (λ u. record u { email_verified_at = some at }) us))
      ≡ false
unfolding any update_by signed_in
none_unverified user at now [] = refl
none_unverified user at now (u ∷ us) = ground (arith, none_unverified user at now us)

-- What the first Google sign-in to an existing account leaves.
pub record IsLinked (crypto : Crypto) (config : Config) (draws : Draws) (profile : GoogleProfile)
    (meta : RequestMeta) (s left : AuthTables) (u : User) (pair : TokenPair) : Type 0 where
  pub linked :
      find_link profile.id left
      ≡ some (new_link draws profile (crypto.lower_case profile.email) u.id)
  pub sessions :
      filter_by (λ t. t.user_id == u.id && is_none t.revoked_at) left.refresh_tokens
      ≡ new_refresh_token crypto config draws (identity_of s u) meta draws.family_id ∷ []
  pub verified : any (λ v. v.id == u.id && is_none v.email_verified_at) left.users ≡ false
  pub access :
      pair.access_token
      ≡ crypto.sign (draws.clock 2) config.access_seconds (claims_for draws (identity_of s u))

module _ (crypto : Crypto) (config : Config) (draws : Draws) (profile : GoogleProfile)
    (meta : RequestMeta) (s : AuthTables) (pair : TokenPair) where
  checked-IsLinked :
      (u : User) (o : Option Failure)
      → (link_checked crypto config draws profile meta s (crypto.lower_case profile.email) u o).1
        ≡ ok pair
      → IsLinked crypto config draws profile meta s
          (link_checked crypto config draws profile meta s (crypto.lower_case profile.email) u o).0
          u
          pair
  unfolding link_checked finish issue_tokens link update_user identity_of provider_id_of find_link
      filter_by new_refresh_token find_by
  checked-IsLinked u (some e) h = absurd (ground (arith, h))
  checked-IsLinked u none h =
      elim (Bool-cases (any (λ l. l.provider_account_id == profile.id) s.oauth_accounts)) [
        | inl d ↦ absurd (ground (arith, d, h))
        | inr d ↦
            let revoked =
              update_by (λ (t : RefreshToken). t.user_id == u.id && is_none t.revoked_at)
                (λ t. record t { revoked_at = some (draws.clock 6) }) s.refresh_tokens in
            elim (Bool-cases (any (λ t. t.token_hash == crypto.sha256 draws.token) revoked)) [
              | inl c ↦ absurd (ground (arith, d, c, h))
              | inr c ↦
                  rw (d, c)
                    (record {
                      linked = ground (arith, ==_refl profile.id);
                      sessions =
                          ground
                            (arith, ==_refl u.id, none_left u.id (draws.clock 6) s.refresh_tokens);
                      verified = none_unverified u.id _ _ s.users;
                      access = ground (arith, d, c, h);
                    })
            ]
      ]

sign_in_verified :
    (crypto : Crypto) (config : Config) (draws : Draws) (profile : GoogleProfile)
    (meta : RequestMeta) (s : AuthTables) (pair : TokenPair)
    → (sign_in crypto config draws profile meta s).1 ≡ ok pair
    → sign_in crypto config draws profile meta s
      ≡ sign_in_by_subject crypto config draws profile meta
          (crypto.lower_case profile.email)
          s
          (find_link profile.id s)
unfolding sign_in
sign_in_verified crypto config draws profile meta s pair h =
    elim (Bool-cases profile.email_verified) [
      | inl e ↦ if_true profile.email_verified _ _ e
      | inr e ↦ absurd (ground (arith, e, h))
    ]

-- The first sign-in with a Google identity whose address is an account's, where it succeeds, links
-- the identity to the account, marks the address verified, gives a session for that account, and
-- leaves this session as the only one of the account that is not revoked.
pub sign_in-IsLinked :
    (crypto : Crypto) (config : Config) (draws : Draws) (profile : GoogleProfile)
    (meta : RequestMeta) (s : AuthTables) (pair : TokenPair) (u : User)
    → (sign_in crypto config draws profile meta s).1 ≡ ok pair
    → find_link profile.id s ≡ none
    → find_by_email (crypto.lower_case profile.email) s ≡ some u
    → IsLinked crypto config draws profile meta s
        (sign_in crypto config draws profile meta s).0
        u
        pair
unfolding sign_in_by_subject sign_in_by_email
sign_in-IsLinked crypto config draws profile meta s pair u h n f =
    let passed : sign_in crypto config draws profile meta s
        ≡ link_checked crypto config draws profile meta s (crypto.lower_case profile.email) u
            (assert_usable u.deleted_at u.status) =
      sign_in_verified crypto config draws profile meta s pair h
      ∙ ap (sign_in_by_subject crypto config draws profile meta (crypto.lower_case profile.email) s)
          n
      ∙ ap (sign_in_by_email crypto config draws profile meta (crypto.lower_case profile.email) s)
          f in
    rw passed (
      checked-IsLinked crypto config draws profile meta s pair u _ (ap (λ r. r.1) (sym passed) ∙ h))

-- A Google identity that is linked signs into the account of its link: what is answered does not
-- depend on the address that Google reports, nor on whose account has that address.
pub sign_in_by_link :
    (crypto : Crypto) (config : Config) (draws : Draws) (profile : GoogleProfile) (address : ℕ)
    (meta : RequestMeta) (s : AuthTables) (l : OAuthAccount) (u : User) (pair : TokenPair)
    → find_link profile.id s ≡ some l
    → find_by (λ v. v.id == l.user_id) s.users ≡ some u
    → (sign_in crypto config draws profile meta s).1 ≡ ok pair
    → ((sign_in crypto config draws (record profile { email = address }) meta s).1 ≡ ok pair)
      × (pair.access_token
          ≡ crypto.sign (draws.clock 2) config.access_seconds (claims_for draws (identity_of s u)))
unfolding sign_in sign_in_by_subject sign_in_linked sign_in_checked finish issue_tokens update_user
    identity_of provider_id_of
sign_in_by_link crypto config draws profile address meta s l u pair f a h =
    elim (Bool-cases profile.email_verified) [
      | inr e ↦ absurd (ground (arith, e, h))
      | inl e ↦ (ground (arith, e, f, a, h), ground (arith, e, f, a, h))
    ]
