-- ===== src/Admin/Suspension.antt =====
-- The suspension of an account, against the sessions of AuthService.
use fixitph_backend.Prelude.{
  ℕ, false, Option, none, some, List, String, ◌||◌, ◌==◌, not, is_none, find_by, ◌≡◌, inl, inr,
  refl, ◌∙◌, ap, subst, arith, Bool-cases, Option-cases, all-set, find_by-all, ==_iff,
}
use fixitph_backend.Schema.{UserStatus, is_admin_role}
use fixitph_backend.Errors.{ok, err, unauthenticated, unauthorized, refresh_token_reused}
use fixitph_backend.Transaction.{AuthenticatedUser}
use fixitph_backend.Auth.Tables.{
  User, RefreshToken, AuthTables, AccessToken, AccessTokenPayload, Crypto, Config, Draws,
}
use fixitph_backend.Auth.Service.{RequestMeta}
use fixitph_backend.Auth.Refresh.{
  refresh, find_refresh_token, find_live_user, is_active, usable, validate_session,
  validate_access_token, validate_opened, authenticate, or_unauthorized,
}
use fixitph_backend.Auth.Reuse.{found_revoked, reuse_ends}
use fixitph_backend.Admin.Accounts.{
  Desk, suspended, suspend_found, suspend_user, reinstated, reinstate_found, reinstate_user,
}

suspended_leaves :
    (clock : ℕ → ℕ) (admin : AuthenticatedUser) (id : ℕ) (reason : String) (s : Desk)
    (status : UserStatus)
    → (suspend_user clock admin id reason s).1 ≡ ok status
    → (suspend_user clock admin id reason s).0.accounts ≡ suspended clock id s.accounts
unfolding suspend_user suspend_found
suspended_leaves clock admin id reason s status h = elim (Bool-cases (is_admin_role admin.role)) [
  | inr k ↦ absurd (ground (arith, k, h))
  | inl k ↦ elim (Option-cases (find_live_user id s.accounts)) [
    | inl e ↦ absurd (ground (arith, k, e, h))
    | inr (u, e) ↦ elim (Bool-cases (u.id == admin.id)) [
      | inl q ↦ absurd (ground (arith, k, e, q, h))
      | inr q ↦ ground (arith, k, e, q)
    ]
  ]
]

-- No live account of that identifier is active.
inactive :
    (clock : ℕ → ℕ) (id : ℕ) (s : AuthTables) (v : User)
    → find_live_user id (suspended clock id s) ≡ some v
    → is_active v.status ≡ false
unfolding suspended find_live_user is_active
inactive clock id s v e =
    let (named, out) =
      find_by-all _ (λ (u : User). not (u.id == id) || not (is_active u.status)) _ v e
        (all-set _ (λ u. u.id == id) _ s.users (λ x h. ground (arith, h))
          (λ x h. ground (arith, h))) in
    ground (arith, named, out)

session_refused :
    (s : AuthTables) (payload : AccessTokenPayload) (typ sid : Option ℕ)
    → ((v : User) → find_live_user payload.sub s ≡ some v → is_active v.status ≡ false)
    → validate_session s payload typ sid ≡ none
unfolding validate_session usable
session_refused s payload (some typ) sid k = refl
session_refused s payload none none k = refl
session_refused s payload none (some sid) k = elim (Option-cases (find_live_user payload.sub s)) [
  | inl e ↦ ground (arith, e)
  | inr (v, e) ↦ ground (arith, e, k v e)
]

still_revoked :
    (admin : AuthenticatedUser) (id : ℕ) (note : String) (s : Desk)
    → (reinstate_user admin id note s).0.accounts.refresh_tokens ≡ s.accounts.refresh_tokens
unfolding reinstate_user reinstate_found reinstated
still_revoked admin id note s = elim (Bool-cases (is_admin_role admin.role)) [
  | inr k ↦ ground (arith, k)
  | inl k ↦ elim (Option-cases (find_live_user id s.accounts)) [
    | inl e ↦ ground (arith, k, e)
    | inr (u, e) ↦ ground (arith, k, e)
  ]
]

-- Where a token is found revoked, it is refused.
revoked_refused :
    (crypto : Crypto) (config : Config) (draws : Draws) (presented : ℕ) (meta : RequestMeta)
    (s : AuthTables) (ts : List RefreshToken) (t : RefreshToken)
    → s.refresh_tokens ≡ ts
    → find_by (λ x. x.token_hash == crypto.sha256 presented) ts ≡ some t
    → is_none t.revoked_at ≡ false
    → (refresh crypto config draws presented meta s).1 ≡ err (unauthenticated refresh_token_reused)
unfolding find_refresh_token
revoked_refused crypto config draws presented meta s ts t e f r =
    ap (λ w. w.1)
      (reuse_ends crypto config draws presented meta s t
        (ap (find_by (λ x. x.token_hash == crypto.sha256 presented)) e ∙ f) r)

-- A suspension that succeeds ends the sessions of the account. An access token of the account opens
-- nothing any more, each of its refresh tokens is refused with REFRESH_TOKEN_REUSED, and the refresh
-- tokens stay refused when the account is reinstated.
pub suspend_ends :
    (crypto : Crypto) (config : Config) (clock : ℕ → ℕ) (admin : AuthenticatedUser) (id : ℕ)
    (reason : String) (s : Desk) (status : UserStatus)
    → (suspend_user clock admin id reason s).1 ≡ ok status
    → (now : ℕ) (token : AccessToken) (payload : AccessTokenPayload)
    → crypto.open_token now token ≡ some payload
    → payload.sub ≡ id
    → (draws : Draws) (presented : ℕ) (meta : RequestMeta) (t : RefreshToken)
    → find_refresh_token (crypto.sha256 presented) s.accounts ≡ some t
    → t.user_id ≡ id
    → (left : Desk) → left ≡ (suspend_user clock admin id reason s).0
    → (note : String)
    → (authenticate crypto now token left.accounts ≡ err (unauthenticated unauthorized))
      × ((refresh crypto config draws presented meta left.accounts).1
          ≡ err (unauthenticated refresh_token_reused))
      × ((refresh crypto config draws presented meta
            (reinstate_user admin id note left).0.accounts).1
          ≡ err (unauthenticated refresh_token_reused))
unfolding authenticate validate_opened validate_access_token find_refresh_token suspended
suspend_ends crypto config clock admin id reason s status h now token payload o own draws presented
      meta t f mine left p note =
    let closed : left.accounts ≡ suspended clock id s.accounts =
      ap (λ x. x.accounts) p ∙ suspended_leaves clock admin id reason s status h in
    let (v, found, revoked) =
      found_revoked (crypto.sha256 presented) (λ x. x.user_id == id) (clock 0)
        s.accounts.refresh_tokens t f ((==_iff t.user_id id).1 mine) in
    let tokens = ap (λ x. x.refresh_tokens) closed in
    (
      rw (closed, o)
          (ap or_unauthorized (
            session_refused _ payload payload.typ payload.sid (λ u e.
              inactive clock id s.accounts u
                (subst (λ q. find_live_user q (suspended clock id s.accounts) ≡ some u) own e)))),
      revoked_refused crypto config draws presented meta _ _ v tokens found revoked,
      revoked_refused crypto config draws presented meta _ _ v
          (still_revoked admin id note left ∙ tokens) found revoked,
    )
