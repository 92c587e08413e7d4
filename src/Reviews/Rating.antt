-- ===== src/Reviews/Rating.antt =====
-- `recomputeRating` of ReviewsService, and its copy in AdminService. Ratings are counted in hundredths
-- of a star.
use fixitph_backend.Prelude.{
  ℕ, Bool, true, List, [], ◌∷◌, ◌+◌, ◌*◌, ◌/◌, ◌%◌, ◌&&◌, ◌==◌, not, ltb, is_none, length,
  filter_by, if◌then◌else◌,
}
use fixitph_backend.Schema.{Review, Db}
use fixitph_backend.Transaction.{Tx, Env, Session, reads, ◌>>=◌}
use fixitph_backend.Database.Policies.{reviews_visible}
use fixitph_backend.Database.Writes.{update_provider}

-- `{ providerId, deletedAt: null, isHidden: false }`
unfoldable pub counts_for : ℕ → Review → Bool
counts_for provider r = r.provider_id == provider && is_none r.deleted_at && not r.is_hidden

-- The rows that the aggregate finds.
unfoldable pub rated : ℕ → Session → Db → List Review
rated provider s d = filter_by (λ r. counts_for provider r && reviews_visible s d r) d.reviews

unfoldable pub total_rating : List Review → ℕ
total_rating [] = 0
total_rating (r ∷ rs) = r.rating + total_rating rs

-- The nearest hundredth of `sum / count`; `up` where it lies halfway.
unfoldable pub nearest : Bool → ℕ → ℕ → ℕ
nearest up sum count =
    let quotient = sum * 100 / count in
    let rest = 2 * (sum * 100 % count) in
    if ltb rest count
    then quotient
    else (if ltb count rest then quotient + 1 else (if up then quotient + 1 else quotient))

-- `(agg._avg.rating ?? 0).toFixed(2)`
unfoldable pub average : Bool → List Review → ℕ
average up [] = 0
average up (r ∷ rs) = nearest up (total_rating (r ∷ rs)) (length (r ∷ rs))

unfoldable pub recompute_rating : Env → ℕ → Tx (Unit {0})
recompute_rating env provider = do
  found ← reads (rated provider)
  update_provider provider (λ p. record p {
    rating_avg = average (env.halves_up (total_rating found) (length found)) found;
    rating_count = length found;
  })

-- The copy leaves the rounding to the column, which is `numeric(3, 2)`: halves go up.
unfoldable pub recompute_provider_rating : ℕ → Tx (Unit {0})
recompute_provider_rating provider = do
  found ← reads (rated provider)
  update_provider provider
      (λ p. record p { rating_avg = average true found; rating_count = length found })
