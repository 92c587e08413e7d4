-- ===== src/Admin/Visibility.antt =====
-- `setReviewVisibility` of AdminService, where it succeeds.
use fixitph_backend.Prelude.{ℕ, true, some, ◌==◌, find_by, no_two, ◌≡◌, refl, subst, arith}
use fixitph_backend.Schema.{Review, Db}
use fixitph_backend.Errors.{ok}
use fixitph_backend.Transaction.{Env, AuthenticatedUser, Session, pure}
use fixitph_backend.Transaction.Returns.{
  Returns, Returns-bind, Returns-reads, Returns-or_throw, Returns-throw_if, with_user-Returns,
}
use fixitph_backend.Database.Constraints.{review_clash}
use fixitph_backend.Database.WritesReturn.{Returns-update_provider}
use fixitph_backend.Database.ModerationReturns.{Returns-update_review, Returns-create_admin_action}
use fixitph_backend.Reviews.Rating.{recompute_provider_rating}
use fixitph_backend.Reviews.Aggregate.{IsRatedIn, recomputed-IsRatedIn}
use fixitph_backend.Reviews.Revisions.{same_row}
use fixitph_backend.Admin.Service.{
  ReviewVisibilityDto, audit, set_review_visibility, set_review_visibility_tx,
}
use fixitph_backend.Admin.Outcomes.{admitted_as_admin}

rated_for :
    (r old : Review) (e : Db) → r ≡ old → IsRatedIn r.provider_id e → IsRatedIn old.provider_id e
rated_for r old e same k = subst (λ (x : Review). IsRatedIn x.provider_id e) same k

module _ (env : Env) (admin : AuthenticatedUser) (id : ℕ) (dto : ReviewVisibilityDto) where
  visibility-Returns :
      (s : Session) (d : Db) (old : Review)
      → no_two review_clash d.reviews ≡ true
      → find_by (λ x. x.id == id) d.reviews ≡ some old
      → Returns
          (λ x e. (x.is_hidden ≡ dto.hidden) × IsRatedIn old.provider_id e)
          (set_review_visibility_tx env admin id dto s d)
  unfolding set_review_visibility_tx audit pure recompute_provider_rating
  visibility-Returns s d old u f = Returns-reads _ _ _ _ _ (
      Returns-or_throw _ _ _ _ _ _ λ review g. Returns-throw_if _ _ _ _ _ _ λ changed.
        Returns-bind _ _ _ _ _ (
          Returns-update_review _ _ _ _ _ λ row k.
            let same : review ≡ old = ground (arith, same_row id s d review row u g k, f) in
            Returns-bind _ _ _ _ _ (
              Returns-reads _ _ _ _ _ (
                Returns-update_provider _ _ _ _ _ (
                  Returns-bind _ _ _ _ _ (
                    Returns-create_admin_action _ _ _ _ (
                      refl,
                      rated_for review old _ same
                          (recomputed-IsRatedIn review.provider_id (λ found. true) s _ _ refl refl),
                    )))))))

-- After an administrator hides a review or restores it, its provider's count of reviews is that of
-- the visible reviews, and the average is within half a hundredth of their mean.
pub set_review_visibility-IsRatedIn :
    (env : Env) (admin : AuthenticatedUser) (id : ℕ) (dto : ReviewVisibilityDto) (d e : Db)
    (old r : Review)
    → no_two review_clash d.reviews ≡ true
    → find_by (λ x. x.id == id) d.reviews ≡ some old
    → set_review_visibility env admin id dto d ≡ (e, ok r)
    → (r.is_hidden ≡ dto.hidden) × IsRatedIn old.provider_id e
unfolding set_review_visibility
set_review_visibility-IsRatedIn env admin id dto d e old r u f h =
    with_user-Returns _ _ _ _ _ d e r (visibility-Returns env admin id dto _ d old u f)
      (admitted_as_admin env admin _ _ d e r h).1
