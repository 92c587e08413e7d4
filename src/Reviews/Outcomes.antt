-- ===== src/Reviews/Outcomes.antt =====
-- The operations of ReviewsService, where they succeed.
use fixitph_backend.Prelude.{
  ℕ, true, false, Option, none, some, List, [], ◌∷◌, ◌≤◌, ◌==◌, any, find_by, no_two, ◌≡◌, refl,
  arith, ==_iff, length, any-mono-false,
}
use fixitph_backend.Schema.{NotificationType, Booking, Review, Notification, Db, is_completed}
use fixitph_backend.Errors.{ok}
use fixitph_backend.Transaction.{Env, AuthenticatedUser, Session, pure}
use fixitph_backend.Transaction.Returns.{
  Returns, Returns-bind, Returns-reads, Returns-or_throw, Returns-throw_if, with_user-Returns,
}
use fixitph_backend.Database.Constraints.{booking_clash, review_checks, review_clash}
use fixitph_backend.Database.WritesReturn.{Returns-create_notification, Returns-update_provider}
use fixitph_backend.Database.ModerationReturns.{Returns-create_review}
use fixitph_backend.Bookings.Refinement.{find_booking-live, found_by_id}
use fixitph_backend.Bookings.Service.{provider_user}
use fixitph_backend.Bookings.Owners.{owner_of, found_owner}
use fixitph_backend.Reviews.Rating.{rated, average, total_rating, recompute_rating}
use fixitph_backend.Reviews.Aggregate.{IsRatedIn, rerated, recomputed-IsRatedIn}
use fixitph_backend.Reviews.Service.{
  CreateReviewDto, new_review, notify_reviewed, create, create_tx,
}

owner_of_lem : (id : ℕ) (s : Session) (d : Db) → provider_user id s d ≡ owner_of id d.providers
unfolding provider_user
owner_of_lem id s d = found_owner id d.providers

-- The owner of the profile, where there is one, is told.
abbrev pub reviewed_notice : ℕ → Option ℕ → List Notification → List Notification
reviewed_notice booking none notifications = notifications
reviewed_notice booking (some owner) notifications =
    record { user_id = owner; type = NotificationType.review_received; subject = booking }
    ∷ notifications

-- What a review that was created is of, and what it leaves.
pub record IsReviewed (env : Env) (user : AuthenticatedUser) (dto : CreateReviewDto) (d e : Db)
    : Type 0 where
  pub booking : Booking
  pub found : find_by (λ b. b.id == dto.booking_id) d.bookings ≡ some booking
  pub own : booking.customer_id ≡ user.id
  pub finished : is_completed booking.status ≡ true
  pub only : any (λ r. r.booking_id == dto.booking_id) d.reviews ≡ false
  pub stars : (1 ≤ dto.rating) × (dto.rating ≤ 5)
  -- The new aggregate of the provider.
  pub rating : ℕ
  pub count : ℕ
  pub leaves : e ≡ record d {
    reviews =
        record {
          id = env.uuid 0;
          booking_id = dto.booking_id;
          author_id = user.id;
          provider_id = booking.provider_id;
          rating = dto.rating;
          punctuality_rating = dto.punctuality_rating;
          quality_rating = dto.quality_rating;
          value_rating = dto.value_rating;
          comment = dto.comment;
          edit_history = [];
          provider_response = none;
          provider_responded_at = none;
          is_hidden = false;
          deleted_at = none;
        }
        ∷ d.reviews;
    providers = rerated booking.provider_id rating count d.providers;
    notifications =
        reviewed_notice booking.id (owner_of booking.provider_id d.providers) d.notifications;
  }
  pub rates : IsRatedIn booking.provider_id e

Returns-notify :
    (booking : ℕ) (owner : Option ℕ) (s : Session) (d : Db) (Q : Unit {0} → Db → Type 0)
    → Q tt (record d { notifications = reviewed_notice booking owner d.notifications })
    → Returns Q (notify_reviewed booking owner s d)
unfolding notify_reviewed pure
Returns-notify booking none s d Q h = h
Returns-notify booking (some owner) s d Q h = Returns-create_notification _ _ _ _ h

only_review :
    (r : Review) (rs : List Review)
    → no_two review_clash (r ∷ rs) ≡ true
    → any (λ x. x.booking_id == r.booking_id) rs ≡ false
unfolding no_two review_clash
only_review r rs u =
    any-mono-false (review_clash r) (λ x. x.booking_id == r.booking_id) rs
      (λ x e. ground (arith, e)) (ground (arith, u))

stars_of :
    (env : Env) (user : AuthenticatedUser) (dto : CreateReviewDto) (b : Booking)
    → review_checks (new_review env user dto b) ≡ true
    → (1 ≤ dto.rating) × (dto.rating ≤ 5)
unfolding review_checks new_review
stars_of env user dto b h = (ground (arith, h), ground (arith, h))

module _ (env : Env) (user : AuthenticatedUser) (dto : CreateReviewDto) (d : Db)
    (unique : no_two booking_clash d.bookings ≡ true) where
  create-Returns :
      (s : Session) → Returns (λ r e. IsReviewed env user dto d e) (create_tx env user dto s d)
  unfolding create_tx pure recompute_rating new_review
  create-Returns s = Returns-reads _ _ _ _ _ (
      Returns-or_throw _ _ _ _ _ _ λ booking f. Returns-reads _ _ _ _ _ (
        Returns-reads _ _ _ _ _ (
          Returns-throw_if _ _ _ _ _ _ λ own. Returns-throw_if _ _ _ _ _ _ λ finished.
            Returns-throw_if _ _ _ _ _ _ λ fresh. Returns-bind _ _ _ _ _ (
              Returns-create_review _ _ _ _ λ checks alone. Returns-bind _ _ _ _ _ (
                Returns-reads _ _ _ _ _ (
                  Returns-update_provider _ _ _ _ _ (
                    Returns-bind _ _ _ _ _ (
                      Returns-notify _ _ _ _ _ (
                        let counted =
                          rated booking.provider_id s
                            (record d { reviews = new_review env user dto booking ∷ d.reviews }) in
                        record {
                          booking = booking;
                          found =
                              found_by_id dto.booking_id s d booking unique
                                (find_booking-live dto.booking_id s d booking unique f);
                          own = (==_iff booking.customer_id user.id).0 (ground (arith, own));
                          finished = ground (arith, finished);
                          only = only_review (new_review env user dto booking) d.reviews alone;
                          stars = stars_of env user dto booking checks;
                          rating =
                              average (env.halves_up (total_rating counted) (length counted))
                                counted;
                          count = length counted;
                          leaves = rw (owner_of_lem booking.provider_id s d) refl;
                          rates =
                              recomputed-IsRatedIn booking.provider_id
                                (λ found. env.halves_up (total_rating found) (length found)) s
                                (record d { reviews = new_review env user dto booking ∷ d.reviews })
                                _ refl refl;
                        })))))))))

-- Where no two bookings clash, a review that is created is the customer's, of a completed booking
-- of theirs that had none, with one to five stars. It adds the review with the ratings and the
-- comment that were given, shown and without a response or a history, tells the owner of the
-- provider's profile, and changes that provider's rating alone: its count is that of the visible
-- reviews, and its average is within half a hundredth of their mean. Nothing else in the database
-- changes.
pub create-IsReviewed :
    (env : Env) (user : AuthenticatedUser) (dto : CreateReviewDto) (d e : Db) (r : Review)
    → no_two booking_clash d.bookings ≡ true
    → create env user dto d ≡ (e, ok r)
    → IsReviewed env user dto d e
unfolding create
create-IsReviewed env user dto d e r u h =
    with_user-Returns _ _ _ _ _ d e r (create-Returns env user dto d u _) h
