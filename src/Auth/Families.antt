-- ===== src/Auth/Families.antt =====
-- The rotation families of refresh tokens.
use fixitph_backend.Prelude.{
  ℕ, Bool, true, false, Option, none, some, List, [], ◌∷◌, ◌&&◌, ◌==◌, is_none, any, no_two,
  find_by, update_by, ◌≡◌, arith, any-find_by, any-update_by-false, any-mono-false,
}
use fixitph_backend.Auth.Tables.{RefreshToken}

-- Two unrevoked tokens of one family.
unfoldable pub both_live : RefreshToken → RefreshToken → Bool
both_live t u = t.family_id == u.family_id && is_none t.revoked_at && is_none u.revoked_at

unfoldable pub same_digest : RefreshToken → RefreshToken → Bool
same_digest t u = t.token_hash == u.token_hash

unfoldable pub is_live_in : ℕ → RefreshToken → Bool
is_live_in family t = t.family_id == family && is_none t.revoked_at

pub record IsRotating (ts : List RefreshToken) : Type 0 where
  pub digests : no_two same_digest ts ≡ true
  pub families : no_two both_live ts ≡ true

-- Once the only unrevoked token of a family is revoked, the family has none.
pub any-revoked :
    (q : RefreshToken → Bool) (replaced : Option ℕ) (now : ℕ) (ts : List RefreshToken)
    (r : RefreshToken)
    → find_by q ts ≡ some r
    → r.revoked_at ≡ none
    → no_two both_live ts ≡ true
    → any (is_live_in r.family_id) (
        update_by
          (λ t. t.id == r.id)
          (λ t. record t { revoked_at = some now; replaced_by = replaced })
          ts)
      ≡ false
unfolding find_by any update_by no_two both_live is_live_in
any-revoked q replaced now [] r f e n = cc
any-revoked q replaced now (t ∷ ts) r f e n = ground (
  arith,
  any-revoked q replaced now ts r,
  any-find_by (both_live t) q ts r,
  any-mono-false (both_live t) (is_live_in t.family_id) ts,
  any-update_by-false (is_live_in r.family_id) (λ u. u.id == r.id)
      (λ u. record u { revoked_at = some now; replaced_by = replaced }) ts,
)
