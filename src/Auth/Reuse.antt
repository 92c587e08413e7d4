-- ===== src/Auth/Reuse.antt =====
-- The single use of a refresh token, and the end of its family.
use fixitph_backend.Prelude.{
  ℕ, Bool, true, false, Option, none, some, List, [], ◌∷◌, ◌&&◌, ◌||◌, ◌==◌, not, is_none, is_some,
  leb, ltb, any, find_by, update_by, ◌≡◌, refl, sym, ◌∙◌, ap, arith, inl, inr, Bool-cases,
  find_by-head, if◌then◌else◌, find_by-update_by, find_by-holds, any-find_by, ==_refl,
}
use fixitph_backend.Errors.{unauthenticated, refresh_token_reused, Result, ok, err}
use fixitph_backend.Auth.Tables.{User, RefreshToken, AuthTables, Crypto, Config, Draws}
use fixitph_backend.Auth.Service.{
  RequestMeta, TokenPair, identity_of, issue_tokens, new_refresh_token, claims_for,
}
use fixitph_backend.Auth.Refresh.{
  refresh, refresh_found, refresh_for, rotated, replace, revoke_family, logout, logout_found,
  find_refresh_token, is_active, token_id_of,
}
use fixitph_backend.Auth.Families.{is_live_in}

-- What a refresh that succeeded was of, and what it left.
pub record IsRefreshed (crypto : Crypto) (config : Config) (draws : Draws) (presented : ℕ)
    (meta : RequestMeta) (s left : AuthTables) (pair : TokenPair) : Type 0 where
  pub token : RefreshToken
  pub user : User
  pub found : find_refresh_token (crypto.sha256 presented) s ≡ some token
  pub unrevoked : token.revoked_at ≡ none
  pub unreplaced : token.replaced_by ≡ none
  pub unexpired : ltb (draws.clock 0) token.expires_at ≡ true
  pub account : find_by (λ u. u.id == token.user_id) s.users ≡ some user
  pub open_account : user.deleted_at ≡ none
  pub active_account : is_active user.status ≡ true
  pub unused : any (λ t. t.token_hash == crypto.sha256 draws.token) s.refresh_tokens ≡ false
  pub leaves :
      left
      ≡ replace crypto draws token (record s {
        refresh_tokens =
            new_refresh_token crypto config draws (identity_of s user) meta token.family_id
            ∷ s.refresh_tokens;
      })
  pub gives : pair ≡ record {
    access_token =
        crypto.sign (draws.clock 2) config.access_seconds (claims_for draws (identity_of s user));
    refresh_token = draws.token;
    expires_in = config.access_seconds;
  }

module _ (crypto : Crypto) (config : Config) (draws : Draws) (presented : ℕ) (meta : RequestMeta)
    (s : AuthTables) (pair : TokenPair) where
  for-IsRefreshed :
      (t : RefreshToken) (o : Option User)
      → find_refresh_token (crypto.sha256 presented) s ≡ some t
      → is_some t.revoked_at || is_some t.replaced_by ≡ false
      → leb t.expires_at (draws.clock 0) ≡ false
      → find_by (λ u. u.id == t.user_id) s.users ≡ o
      → (refresh_for crypto config draws meta s t o).1 ≡ ok pair
      → IsRefreshed crypto config draws presented meta s
          (refresh_for crypto config draws meta s t o).0
          pair
  unfolding refresh_for rotated issue_tokens
  for-IsRefreshed t none f r e a h = absurd (ground (arith, h))
  for-IsRefreshed t (some u) f r e a h =
      elim (Bool-cases (is_some u.deleted_at || not (is_active u.status))) [
        | inl b ↦ absurd (ground (arith, b, h))
        | inr b ↦
            elim (Bool-cases
              (any (λ t. t.token_hash == crypto.sha256 draws.token) s.refresh_tokens)) [
                | inl d ↦ absurd (ground (arith, b, d, h))
                | inr d ↦ record {
                  token = t;
                  user = u;
                  found = f;
                  unrevoked = ground (arith, r);
                  unreplaced = ground (arith, r);
                  unexpired = ground (arith, e);
                  account = a;
                  open_account = ground (arith, b);
                  active_account = ground (arith, b);
                  unused = d;
                  leaves = rw (b, d) refl;
                  gives = ground (arith, b, d, h);
                }
              ]
      ]

  found-IsRefreshed :
      (o : Option RefreshToken)
      → find_refresh_token (crypto.sha256 presented) s ≡ o
      → (refresh_found crypto config draws meta s o).1 ≡ ok pair
      → IsRefreshed crypto config draws presented meta s
          (refresh_found crypto config draws meta s o).0
          pair
  unfolding refresh_found
  found-IsRefreshed none f h = absurd (ground (arith, h))
  found-IsRefreshed (some t) f h =
      elim (Bool-cases (is_some t.revoked_at || is_some t.replaced_by)) [
        | inl r ↦ absurd (ground (arith, r, h))
        | inr r ↦ elim (Bool-cases (leb t.expires_at (draws.clock 0))) [
          | inl e ↦ absurd (ground (arith, r, e, h))
          | inr e ↦ rw (r, e) (for-IsRefreshed t _ f r e refl (ground (arith, r, e, h)))
        ]
      ]

-- A refresh that succeeds was of a known token that was neither revoked nor replaced nor expired,
-- of an active account that is not closed; it gives an access token with the account's present
-- role and profile, adds one refresh token to the family, and revokes the one presented.
pub refresh-IsRefreshed :
    (crypto : Crypto) (config : Config) (draws : Draws) (presented : ℕ) (meta : RequestMeta)
    (s : AuthTables) (pair : TokenPair)
    → (refresh crypto config draws presented meta s).1 ≡ ok pair
    → IsRefreshed crypto config draws presented meta s
        (refresh crypto config draws presented meta s).0
        pair
unfolding refresh
refresh-IsRefreshed crypto config draws presented meta s pair h =
    found-IsRefreshed crypto config draws presented meta s pair _ refl h

none_live :
    (family now : ℕ) (ts : List RefreshToken)
    → any (is_live_in family) (
        update_by
          (λ t. t.family_id == family && is_none t.revoked_at)
          (λ t. record t { revoked_at = some now })
          ts)
      ≡ false
unfolding any update_by is_live_in
none_live family now [] = refl
none_live family now (t ∷ ts) = ground (arith, none_live family now ts)

pub found_revoked :
    (digest : ℕ) (mine : RefreshToken → Bool) (now : ℕ) (ts : List RefreshToken) (u : RefreshToken)
    → find_by (λ t. t.token_hash == digest) ts ≡ some u
    → mine u ≡ true
    → (t : RefreshToken) × (find_by
          (λ t. t.token_hash == digest)
          (update_by
            (λ t. mine t && is_none t.revoked_at)
            (λ t. record t { revoked_at = some now })
            ts)
        ≡ some t)
      × (is_none t.revoked_at ≡ false)
unfolding find_by update_by
found_revoked digest mine now [] u f e = absurd (ground (arith, f))
found_revoked digest mine now (x ∷ ts) u f e = elim (Bool-cases (x.token_hash == digest)) [
  | inl d ↦ elim (Bool-cases (is_none u.revoked_at)) [
    | inl r ↦ (record u { revoked_at = some now }, ground (arith, d, f, e, r), refl)
    | inr r ↦ (u, ground (arith, d, f, e, r), r)
  ]
  | inr d ↦
      let (t, g, r) = found_revoked digest mine now ts u (ground (arith, d, f)) e in
      (t, ground (arith, d, g), r)
]

-- A token that is presented after it was revoked ends its family.
pub reuse_ends :
    (crypto : Crypto) (config : Config) (draws : Draws) (presented : ℕ) (meta : RequestMeta)
    (s : AuthTables) (t : RefreshToken)
    → find_refresh_token (crypto.sha256 presented) s ≡ some t
    → is_none t.revoked_at ≡ false
    → refresh crypto config draws presented meta s
      ≡ (revoke_family t.family_id (draws.clock 0) s, err (unauthenticated refresh_token_reused))
unfolding refresh refresh_found
reuse_ends crypto config draws presented meta s t f r = rw f (ground (arith, r))

module _ (crypto : Crypto) (config : Config) (draws : Draws) (presented : ℕ) (meta : RequestMeta)
    (s left : AuthTables) (pair : TokenPair)
    (k : IsRefreshed crypto config draws presented meta s left pair) where
  other_digest : (crypto.sha256 draws.token == crypto.sha256 presented) ≡ false
  unfolding find_refresh_token
  other_digest = ground (
    arith,
    k.unused,
    find_by-holds (λ (t : RefreshToken). t.token_hash == crypto.sha256 presented) s.refresh_tokens
        k.token k.found,
    any-find_by (λ (t : RefreshToken). t.token_hash == crypto.sha256 draws.token)
        (λ t. t.token_hash == crypto.sha256 presented) s.refresh_tokens k.token k.found,
  )

  left_revoked :
      (t : RefreshToken) × (find_refresh_token (crypto.sha256 presented) left ≡ some t)
      × (t.family_id ≡ k.token.family_id)
      × (is_none t.revoked_at ≡ false)
  unfolding find_refresh_token replace new_refresh_token find_by
  left_revoked = (
    _,
    ap (find_refresh_token (crypto.sha256 presented)) k.leaves
        ∙ find_by-update_by (λ (t : RefreshToken). t.token_hash == crypto.sha256 presented)
            (λ t. t.id == k.token.id) _ _ k.token (λ t _. refl)
            (ground (arith, other_digest, k.found)) (==_refl k.token.id),
    refl,
    refl,
  )

  -- The digest of the new token, after its family has ended.
  new_revoked :
      (now : ℕ)
      → (t : RefreshToken) × (find_refresh_token
            (crypto.sha256 draws.token)
            (revoke_family k.token.family_id now left)
          ≡ some t)
        × (is_none t.revoked_at ≡ false)
  unfolding find_refresh_token replace new_refresh_token find_by update_by revoke_family
  new_revoked now =
      let new =
        new_refresh_token crypto config draws (identity_of s k.user) meta k.token.family_id in
      let added = record s { refresh_tokens = new ∷ s.refresh_tokens } in
      let replaced = token_id_of (find_refresh_token (crypto.sha256 draws.token) added) in
      let head : RefreshToken =
        if new.id == k.token.id
        then record new { revoked_at = some (draws.clock 4); replaced_by = replaced }
        else new in
      rw k.leaves (
        found_revoked (crypto.sha256 draws.token) (λ t. t.family_id == k.token.family_id) now
          (replace crypto draws k.token added).refresh_tokens head
          (find_by-head (λ t. t.token_hash == crypto.sha256 draws.token) head
            (update_by (λ t. t.id == k.token.id)
              (λ t. record t { revoked_at = some (draws.clock 4); replaced_by = replaced })
              s.refresh_tokens)
            (ground (arith, ==_refl (crypto.sha256 draws.token))))
          (ground (arith, ==_refl k.token.family_id)))

-- A refresh token is single use. After it has been exchanged, presenting it again is refused with
-- REFRESH_TOKEN_REUSED and leaves no unrevoked token in its family; the token that replaced it is
-- then refused in the same way.
pub refresh_once :
    (crypto : Crypto) (config : Config) (draws : Draws) (presented : ℕ) (meta : RequestMeta)
    (s : AuthTables) (pair : TokenPair) (t : RefreshToken)
    → (refresh crypto config draws presented meta s).1 ≡ ok pair
    → find_refresh_token (crypto.sha256 presented) s ≡ some t
    → (later last : Draws) (replay : AuthTables × Result TokenPair)
    → replay
      ≡ refresh crypto config later presented meta (refresh crypto config draws presented meta s).0
    → (replay.1 ≡ err (unauthenticated refresh_token_reused))
      × (any (is_live_in t.family_id) replay.0.refresh_tokens ≡ false)
      × ((refresh crypto config last pair.refresh_token meta replay.0).1
          ≡ err (unauthenticated refresh_token_reused))
unfolding revoke_family
refresh_once crypto config draws presented meta s pair t h f later last replay p =
    let k = refresh-IsRefreshed crypto config draws presented meta s pair h in
    let same : k.token ≡ t = ground (arith, k.found, f) in
    let (r, found, family, revoked) = left_revoked crypto config draws presented meta s _ pair k in
    let (n, after, out) =
      new_revoked crypto config draws presented meta s _ pair k (later.clock 0) in
    let ended : replay ≡ (
      revoke_family k.token.family_id (later.clock 0)
          (refresh crypto config draws presented meta s).0,
      err (unauthenticated refresh_token_reused),
    ) =
      p ∙ reuse_ends crypto config later presented meta _ r found revoked ∙ rw family refl in
    (
      ap (λ w. w.1) ended,
      rw (ended, sym same) (none_live k.token.family_id (later.clock 0) _),
      ap (λ (x : TokenPair). (refresh crypto config last x.refresh_token meta replay.0).1) k.gives
          ∙ ap (λ w. (refresh crypto config last draws.token meta w.0).1) ended
          ∙ ap (λ w. w.1) (reuse_ends crypto config last draws.token meta _ n after out),
    )

-- Logging out with a refresh token leaves no unrevoked token in its family, and whichever token of
-- the family is presented after that is refused with REFRESH_TOKEN_REUSED.
pub logout_ends :
    (crypto : Crypto) (config : Config) (draws : Draws) (presented : ℕ) (s : AuthTables)
    (t : RefreshToken)
    → find_refresh_token (crypto.sha256 presented) s ≡ some t
    → (later : Draws) (other : ℕ) (meta : RequestMeta) (u : RefreshToken)
    → find_refresh_token (crypto.sha256 other) s ≡ some u
    → u.family_id ≡ t.family_id
    → (any (is_live_in t.family_id) (logout crypto draws (some presented) s).refresh_tokens ≡ false)
      × ((refresh crypto config later other meta (logout crypto draws (some presented) s)).1
          ≡ err (unauthenticated refresh_token_reused))
unfolding logout logout_found revoke_family find_refresh_token
logout_ends crypto config draws presented s t f later other meta u g e =
    let (v, found, revoked) =
      found_revoked (crypto.sha256 other) (λ u. u.family_id == t.family_id) (draws.clock 0)
        s.refresh_tokens u g (rw e (==_refl t.family_id)) in
    rw f (
      none_live t.family_id (draws.clock 0) s.refresh_tokens,
      ap (λ w. w.1) (reuse_ends crypto config later other meta _ v found revoked),
    )
