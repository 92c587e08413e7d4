-- ===== src/Reviews/Service.antt =====
-- The operations of ReviewsService in reviews/reviews.service.ts. The list that is public only reads.
-- The cache is left out.
use fixitph_backend.Prelude.{
  ℕ, Bool, false, Option, none, some, [], ◌∷◌, ◌++◌, String, ◌&&◌, ◌||◌, ◌==◌, not, holds, is_none,
  is_some, get_or, or_keep, same_text, find_by, any,
}
use fixitph_backend.Schema.{
  Booking, Review, ReviewSnapshot, Report, ReportReason, ReportStatus, ReportTargetType,
  NotificationType, Db, is_admin_role, is_completed, is_review_target,
}
use fixitph_backend.Errors.{
  Result, not_found, forbidden, conflict, bad_request, booking_not_found, not_booking_customer,
  booking_not_completed, review_already_exists, review_not_found, not_review_provider,
  not_review_author, no_changes, already_reported,
}
use fixitph_backend.Transaction.{
  Tx, Env, Session, AuthenticatedUser, to_auth_context, pure, throw_if, or_throw, when, reads,
  ◌>>=◌, ◌>>◌, with_user,
}
use fixitph_backend.Database.Policies.{reviews_visible}
use fixitph_backend.Database.Writes.{create_notification}
use fixitph_backend.Database.Moderation.{create_review, update_review, create_report}
use fixitph_backend.Bookings.Service.{find_live_booking, provider_user}
use fixitph_backend.Reviews.Rating.{recompute_rating}

pub record CreateReviewDto : Type 0 where
  pub booking_id : ℕ
  pub rating : ℕ
  pub punctuality_rating : Option ℕ
  pub quality_rating : Option ℕ
  pub value_rating : Option ℕ
  pub comment : Option String

-- `review: { select: { id: true } }` of a booking.
unfoldable pub has_review : ℕ → Session → Db → Bool
has_review booking s d = any (λ r. r.booking_id == booking && reviews_visible s d r) d.reviews

unfoldable pub new_review : Env → AuthenticatedUser → CreateReviewDto → Booking → Review
new_review env user dto booking = record {
  id = env.uuid 0;
  booking_id = dto.booking_id;
  author_id = user.id;
  provider_id = booking.provider_id;
  rating = dto.rating;
  punctuality_rating = dto.punctuality_rating;
  quality_rating = dto.quality_rating;
  value_rating = dto.value_rating;
  comment = dto.comment;
  edit_history = [];
  provider_response = none;
  provider_responded_at = none;
  is_hidden = false;
  deleted_at = none;
}

unfoldable pub notify_reviewed : ℕ → Option ℕ → Tx (Unit {0})
notify_reviewed booking none = pure tt
notify_reviewed booking (some owner) =
    create_notification
      (record { user_id = owner; type = NotificationType.review_received; subject = booking })

unfoldable pub create_tx : Env → AuthenticatedUser → CreateReviewDto → Tx Review
create_tx env user dto = do
  row ← reads (find_live_booking dto.booking_id)
  booking ← or_throw (not_found booking_not_found) row
  reviewed ← reads (has_review dto.booking_id)
  owner ← reads (provider_user booking.provider_id)
  throw_if (not (booking.customer_id == user.id)) (forbidden not_booking_customer)
  throw_if (not (is_completed booking.status)) (conflict booking_not_completed)
  throw_if reviewed (conflict review_already_exists)
  review ← create_review (new_review env user dto booking)
  recompute_rating env booking.provider_id
  notify_reviewed booking.id owner
  pure review

unfoldable pub create : Env → AuthenticatedUser → CreateReviewDto → Db → Db × Result Review
create env user dto = with_user (to_auth_context user) none env.now (create_tx env user dto)

pub record UpdateReviewDto : Type 0 where
  pub rating : Option ℕ
  pub punctuality_rating : Option ℕ
  pub quality_rating : Option ℕ
  pub value_rating : Option ℕ
  pub comment : Option String
  pub provider_response : Option String

unfoldable pub find_live_review : ℕ → Session → Db → Option Review
find_live_review id s d =
    find_by (λ r. r.id == id && is_none r.deleted_at && reviews_visible s d r) d.reviews

-- `dto.x !== undefined && dto.x !== existing.x`
abbrev pub changes : Option ℕ → Option ℕ → Bool
changes none old = false
changes (some new) old = not (holds old new)

abbrev pub changes_text : Option String → Option String → Bool
changes_text none old = false
changes_text (some new) old = not (same_text (some new) old)

unfoldable pub changes_content : UpdateReviewDto → Review → Bool
changes_content dto r =
    changes dto.rating (some r.rating)
    || changes_text dto.comment r.comment
    || changes dto.punctuality_rating r.punctuality_rating
    || changes dto.quality_rating r.quality_rating
    || changes dto.value_rating r.value_rating

unfoldable pub snapshot : Env → Review → ReviewSnapshot
snapshot env r = record {
  rating = r.rating;
  punctuality_rating = r.punctuality_rating;
  quality_rating = r.quality_rating;
  value_rating = r.value_rating;
  comment = r.comment;
  edited_at = env.clock 0;
}

-- The history is that of the row that was read, and so is the snapshot.
unfoldable pub edited : Env → UpdateReviewDto → Review → Review → Review
edited env dto existing r = record r {
  rating = get_or dto.rating r.rating;
  punctuality_rating = or_keep dto.punctuality_rating r.punctuality_rating;
  quality_rating = or_keep dto.quality_rating r.quality_rating;
  value_rating = or_keep dto.value_rating r.value_rating;
  comment = or_keep dto.comment r.comment;
  edit_history = existing.edit_history ++ (snapshot env existing ∷ []);
}

unfoldable pub edit : Env → AuthenticatedUser → ℕ → UpdateReviewDto → Review → Tx Review
edit env user id dto existing = do
  throw_if (not (existing.author_id == user.id) && not (is_admin_role user.role))
      (forbidden not_review_author)
  throw_if (not (changes_content dto existing)) (bad_request no_changes)
  review ← update_review id (edited env dto existing)
  when (is_some dto.rating) (recompute_rating env existing.provider_id)
  pure review

unfoldable pub respond : Env → AuthenticatedUser → ℕ → String → Review → Tx Review
respond env user id response existing = do
  throw_if (not (holds user.provider_id existing.provider_id) && not (is_admin_role user.role))
      (forbidden not_review_provider)
  update_review id (λ r. record r {
    provider_response = some response;
    provider_responded_at = some (env.clock 0);
  })

unfoldable pub edit_or_respond :
    Env → AuthenticatedUser → ℕ → UpdateReviewDto → Review → Option String → Tx Review
edit_or_respond env user id dto existing none = edit env user id dto existing
edit_or_respond env user id dto existing (some response) = respond env user id response existing

unfoldable pub update_tx : Env → AuthenticatedUser → ℕ → UpdateReviewDto → Tx Review
update_tx env user id dto = do
  row ← reads (find_live_review id)
  existing ← or_throw (not_found review_not_found) row
  edit_or_respond env user id dto existing dto.provider_response

unfoldable pub update : Env → AuthenticatedUser → ℕ → UpdateReviewDto → Db → Db × Result Review
update env user id dto = with_user (to_auth_context user) none env.now (update_tx env user id dto)

pub record ReportReviewDto : Type 0 where
  pub reason : ReportReason
  pub details : Option String

unfoldable pub report_tx : Env → AuthenticatedUser → ℕ → ReportReviewDto → Tx Report
report_tx env user id dto = do
  row ← reads (find_live_review id)
  review ← or_throw (not_found review_not_found) row
  reported ← reads (λ s d.
      any (λ r. r.reporter_id == user.id && is_review_target r.target_type && r.target_id == id)
        d.reports)
  throw_if reported (conflict already_reported)
  create_report (record {
    id = env.uuid 0;
    reporter_id = user.id;
    target_type = ReportTargetType.review;
    target_id = id;
    reason = dto.reason;
    details = dto.details;
    status = ReportStatus.opened;
    resolved_by_id = none;
    resolved_at = none;
    resolution_notes = none;
  })

unfoldable pub report : Env → AuthenticatedUser → ℕ → ReportReviewDto → Db → Db × Result Report
report env user id dto = with_user (to_auth_context user) none env.now (report_tx env user id dto)
