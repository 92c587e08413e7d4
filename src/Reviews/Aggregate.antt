-- ===== src/Reviews/Aggregate.antt =====
-- A provider's rating against the reviews that count for it.
use fixitph_backend.Prelude.{
  ℕ, Bool, some, List, [], ◌∷◌, ◌+◌, ◌*◌, ◌/◌, ◌%◌, ◌≤◌, ◌<◌, ◌&&◌, ◌==◌, ltb, length, filter_by,
  find_by, update_by, ◌≡◌, refl, sym, ap, subst, ◌∙◌, arith, ◌⊎◌, inl, inr, Bool-cases,
}
use native.Mathlib.Nat.{div-add-mod, mod-lt}
use fixitph_backend.Schema.{Provider, Review, Db}
use fixitph_backend.Transaction.{Session}
use fixitph_backend.Database.Policies.{reviews_visible}
use fixitph_backend.Reviews.Rating.{counts_for, rated, total_rating, nearest, average}

-- The count is exact, and the average is within half a hundredth of the mean.
pub record IsRated (rs : List Review) (p : Provider) : Type 0 where
  pub counted : p.rating_count ≡ length rs
  pub unrated : (p.rating_avg ≡ 0) ⊎ (1 ≤ length rs)
  pub not_low : 2 * (total_rating rs * 100) ≤ 2 * (p.rating_avg * length rs) + length rs
  pub not_high : 2 * (p.rating_avg * length rs) ≤ 2 * (total_rating rs * 100) + length rs

-- A review that counts is visible to everyone, so that the aggregate does not depend on the caller.
rated_all :
    (provider : ℕ) (s : Session) (d : Db) (rs : List Review)
    → filter_by (λ r. counts_for provider r && reviews_visible s d r) rs
      ≡ filter_by (counts_for provider) rs
unfolding filter_by counts_for reviews_visible
rated_all provider s d [] = refl
rated_all provider s d (r ∷ rs) = ground (arith, rated_all provider s d rs)

pub rated_lem :
    (provider : ℕ) (s : Session) (d : Db)
    → rated provider s d ≡ filter_by (counts_for provider) d.reviews
unfolding rated
rated_lem provider s d = rated_all provider s d d.reviews

-- The quotient, or the number after it.
nearest_cases :
    (up : Bool) (sum count : ℕ)
    → ((nearest up sum count ≡ sum * 100 / count) × (2 * (sum * 100 % count) ≤ count))
      ⊎ ((nearest up sum count ≡ sum * 100 / count + 1) × (count ≤ 2 * (sum * 100 % count)))
unfolding nearest
nearest_cases up sum count =
    let rest = 2 * (sum * 100 % count) in
    elim (Bool-cases (ltb rest count)) [
      | inl e ↦ inl (rw e refl, ground (arith, e))
      | inr e ↦ elim (Bool-cases (ltb count rest)) [
        | inl f ↦ inr (rw (e, f) refl, ground (arith, f))
        | inr f ↦ elim (Bool-cases up) [
          | inl g ↦ inr (rw (e, f, g) refl, ground (arith, e))
          | inr g ↦ inl (rw (e, f, g) refl, ground (arith, f))
        ]
      ]
    ]

nearest_bounds :
    (up : Bool) (sum count : ℕ)
    → 0 < count
    → (2 * (sum * 100) ≤ 2 * (nearest up sum count * count) + count)
      × (2 * (nearest up sum count * count) ≤ 2 * (sum * 100) + count)
nearest_bounds up sum count some_count =
    let whole = div-add-mod (sum * 100) count in
    let below = mod-lt (sum * 100) some_count in
    elim (nearest_cases up sum count) [
      | inl (e, l) ↦ rw e (ground (arith, whole, l, below), ground (arith, whole, l, below))
      | inr (e, l) ↦ rw e (ground (arith, whole, l, below), ground (arith, whole, l, below))
    ]

average-IsRated :
    (up : Bool) (rs : List Review) (p : Provider)
    → p.rating_avg ≡ average up rs
    → p.rating_count ≡ length rs
    → IsRated rs p
unfolding average total_rating
average-IsRated up [] p a n = record {
  counted = n;
  unrated = inl a;
  not_low = ground arith;
  not_high = ground arith;
}
average-IsRated up (r ∷ rs) p a n =
    let bounds = nearest_bounds up (total_rating (r ∷ rs)) (length (r ∷ rs)) (ground arith) in
    record {
      counted = n;
      unrated = inr (ground arith);
      not_low = rw a (bounds.0);
      not_high = rw a (bounds.1);
    }

stored :
    (provider a n : ℕ) (ps : List Provider) (q : Provider)
    → find_by
        (λ p. p.id == provider)
        (update_by
          (λ p. p.id == provider)
          (λ p. record p { id = provider; rating_avg = a; rating_count = n })
          ps)
      ≡ some q
    → (q.rating_avg ≡ a) × (q.rating_count ≡ n)
unfolding find_by update_by
stored provider a n [] q f = absurd (ground (arith, f))
stored provider a n (p ∷ ps) q f = ground (arith, stored provider a n ps q)

-- Every provider row with the identifier, against the reviews of the database.
pub record IsRatedIn (provider : ℕ) (d : Db) : Type 0 where
  pub rates :
      (p : Provider)
      → find_by (λ p. p.id == provider) d.providers ≡ some p
      → IsRated (filter_by (counts_for provider) d.reviews) p

-- The profiles after the rating of one is stored.
abbrev pub rerated : ℕ → ℕ → ℕ → List Provider → List Provider
rerated provider rating count =
    update_by (λ p. p.id == provider)
      (λ p. record p { id = provider; rating_avg = rating; rating_count = count })

-- The rating that was just recomputed from what the caller sees.
pub recomputed-IsRatedIn :
    (provider : ℕ) (up : List Review → Bool) (s : Session) (d e : Db)
    → e.providers
      ≡ update_by
          (λ p. p.id == provider)
          (λ p. record p {
            id = provider;
            rating_avg = average (up (rated provider s d)) (rated provider s d);
            rating_count = length (rated provider s d);
          })
          d.providers
    → e.reviews ≡ d.reviews
    → IsRatedIn provider e
recomputed-IsRatedIn provider up s d e ps rs = record {
  rates = λ p f.
      let both =
        stored provider _ _ d.providers p (ap (find_by (λ p. p.id == provider)) (sym ps) ∙ f) in
      rw rs (
        subst (λ l. IsRated l p) (rated_lem provider s d)
          (average-IsRated (up (rated provider s d)) (rated provider s d) p both.0 both.1));
}
