-- ===== src/Auth/Continuity.antt =====
-- From a login to a refresh.
use fixitph_backend.Prelude.{
  ℕ, true, false, none, some, ◌∷◌, ◌+◌, ◌*◌, ◌&&◌, ◌==◌, leb, ltb, any, is_none, find_by, update_by,
  ◌≡◌, refl, sym, ap, ◌∙◌, arith, find_by-head, find_by-update_by, find_by-holds, ==_refl,
}
use fixitph_backend.Errors.{ok}
use fixitph_backend.Auth.Tables.{User, RefreshToken, AuthTables, Crypto, Config, Draws}
use fixitph_backend.Auth.Service.{
  RequestMeta, TokenPair, identity_of, provider_id_of, find_by_email, claims_for, login, signed_in,
  new_refresh_token, issue_tokens,
}
use fixitph_backend.Auth.Refresh.{
  find_refresh_token, is_active, refresh, refresh_found, refresh_for, rotated,
}
use fixitph_backend.Auth.Access.{login-IsLoggedIn, given_tokens}

refresh_passes :
    (crypto : Crypto) (config : Config) (draws : Draws) (presented : ℕ) (meta : RequestMeta)
    (s : AuthTables) (t : RefreshToken) (u : User)
    → find_refresh_token (crypto.sha256 presented) s ≡ some t
    → t.revoked_at ≡ none
    → t.replaced_by ≡ none
    → leb t.expires_at (draws.clock 0) ≡ false
    → find_by (λ v. v.id == t.user_id) s.users ≡ some u
    → u.deleted_at ≡ none
    → is_active u.status ≡ true
    → any (λ t. t.token_hash == crypto.sha256 draws.token) s.refresh_tokens ≡ false
    → (refresh crypto config draws presented meta s).1
      ≡ ok (record {
        access_token =
            crypto.sign (draws.clock 2) config.access_seconds (claims_for draws (identity_of s u));
        refresh_token = draws.token;
        expires_in = config.access_seconds;
      })
unfolding refresh refresh_found refresh_for rotated issue_tokens
refresh_passes crypto config draws presented meta s t u f r p e o c a d =
    rw (f, r, p, e, o, c, a, d) refl

-- The refresh token of a login can be exchanged: before it expires, while the account is active,
-- and where the new token's digest is a new one, the refresh gives tokens for that account.
pub refresh-login :
    (crypto : Crypto) (config : Config) (draws : Draws) (email password : ℕ) (meta : RequestMeta)
    (s : AuthTables) (pair : TokenPair) (u : User)
    → (login crypto config draws email password meta s).1 ≡ ok pair
    → find_by_email (crypto.lower_case email) s ≡ some u
    → find_by (λ v. v.id == u.id) s.users ≡ some u
    → is_active u.status ≡ true
    → (later : Draws) → ltb (later.clock 0) (draws.clock 3 + config.refresh_seconds * 1000) ≡ true
    → any
        (λ t. t.token_hash == crypto.sha256 later.token)
        (login crypto config draws email password meta s).0.refresh_tokens
      ≡ false
    → (refresh crypto config later pair.refresh_token meta
        (login crypto config draws email password meta s).0).1
      ≡ ok (record {
        access_token =
            crypto.sign (later.clock 2) config.access_seconds (claims_for later (identity_of s u));
        refresh_token = later.token;
        expires_in = config.access_seconds;
      })
unfolding find_refresh_token new_refresh_token identity_of signed_in provider_id_of find_by_email
    claims_for
refresh-login crypto config draws email password meta s pair u h f own a later e d =
    let k = login-IsLoggedIn crypto config draws email password meta s pair h in
    let same : k.user ≡ u = ground (arith, k.found, f) in
    let live =
      find_by-holds (λ (v : User). v.email == crypto.lower_case email && is_none v.deleted_at)
        s.users u f in
    let left = record s {
      users = update_by (λ v. v.id == u.id) (signed_in (draws.clock 1)) s.users;
      refresh_tokens =
          new_refresh_token crypto config draws (identity_of s u) meta draws.family_id
          ∷ s.refresh_tokens;
    } in
    let leaves : (login crypto config draws email password meta s).0 ≡ left =
      k.leaves ∙ rw same refl in
    rw (given_tokens crypto config draws email password meta s _ pair k, leaves)
      (refresh_passes crypto config later draws.token meta left
        (new_refresh_token crypto config draws (identity_of s u) meta draws.family_id)
        (signed_in (draws.clock 1) u)
        (find_by-head (λ t. t.token_hash == crypto.sha256 draws.token) _ _
          (==_refl (crypto.sha256 draws.token)))
        refl refl (ground (arith, e))
        (find_by-update_by (λ (v : User). v.id == u.id) (λ v. v.id == u.id) _ s.users u
          (λ v _. refl) own (==_refl u.id))
        (ground (arith, live)) a
        (ap
            (λ (x : AuthTables).
              any (λ t. t.token_hash == crypto.sha256 later.token) x.refresh_tokens)
            (sym leaves)
          ∙ d))
