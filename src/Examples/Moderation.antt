-- ===== src/Examples/Moderation.antt =====
-- Reviews, and an administrator's rulings.
use fixitph_backend.Prelude.{
  none, some, [], ◌∷◌, true, false, ◌≡◌, refl, find_by, any, no_two, update_by, filter_by,
}
use fixitph_backend.Schema.{
  UserRole, BookingStatus, Dispute, DisputeStatus, Review, ReportReason, ReportStatus,
  ReportTargetType, Db, same_status,
}
use fixitph_backend.Errors.{ok}
use fixitph_backend.Transaction.{AuthenticatedUser, with_user, ◌>>=◌, to_auth_context, pure, when}
use fixitph_backend.Database.Policies.{
  is_admin, current_provider_id, bookings_visible, reviews_visible, reviews_insert, reviews_update,
}
use fixitph_backend.Database.Constraints.{
  booking_checks, booking_clash, review_checks, review_clash, dispute_checks, dispute_clash,
}
use fixitph_backend.Database.Writes.{
  admitted, status_change, find_booking, store_booking, update_booking, create_notification,
  update_provider,
}
use fixitph_backend.Database.Moderation.{
  create_review, find_editable_review, store_review, update_review, guard_update, same_content,
  find_dispute, store_dispute, update_dispute, update_report, find_report, create_admin_action,
}
use fixitph_backend.Bookings.Service.{find_live_booking, provider_user}
use fixitph_backend.Reviews.Rating.{rated, counts_for, recompute_rating, recompute_provider_rating}
use fixitph_backend.Reviews.Service.{
  CreateReviewDto, UpdateReviewDto, create, create_tx, has_review, new_review, notify_reviewed,
  update, update_tx, edit, edited, edit_or_respond, snapshot, changes_content, find_live_review,
}
use fixitph_backend.Reviews.Outcomes.{IsReviewed, create-IsReviewed}
use fixitph_backend.Reviews.Revisions.{IsRevised, update-IsRevised}
use fixitph_backend.Reviews.Aggregate.{IsRatedIn}
use fixitph_backend.Admin.Service.{
  Ruling, ResolveDisputeDto, ReviewVisibilityDto, ResolveReportDto, as_admin, audit, ruled,
  close_booking, rule_on, resolve_dispute, resolve_dispute_tx, set_review_visibility,
  set_review_visibility_tx, hide_reported, resolve_report, resolve_report_tx,
}
use fixitph_backend.Admin.Outcomes.{IsResolved, resolve_dispute-IsResolved}
use fixitph_backend.Admin.Visibility.{set_review_visibility-IsRatedIn}
use fixitph_backend.Examples.World.{
  env_at, ana, ben_profile, booked, booking_with, working_history, entry,
}

abbrev ada : AuthenticatedUser
ada = record {
  id = 99;
  email = "ada@example.com";
  role = UserRole.admin;
  provider_id = none;
  session_id = 9;
}

abbrev finished : Db
finished =
    booked (booking_with BookingStatus.completed)
      (entry (some BookingStatus.in_progress) BookingStatus.completed ∷ working_history)

abbrev praise : CreateReviewDto
praise = record {
  booking_id = 300;
  rating = 4;
  punctuality_rating = some 5;
  quality_rating = none;
  value_rating = none;
  comment = some "On time.";
}

abbrev praised : Review
praised = record {
  id = 400;
  booking_id = 300;
  author_id = 20;
  provider_id = 1;
  rating = 4;
  punctuality_rating = some 5;
  quality_rating = none;
  value_rating = none;
  comment = some "On time.";
  edit_history = [];
  provider_response = none;
  provider_responded_at = none;
  is_hidden = false;
  deleted_at = none;
}

creates :
    create (env_at 7000 400) ana praise finished
    ≡ ((create (env_at 7000 400) ana praise finished).0, ok praised)
unfolding create with_user ◌>>=◌ to_auth_context create_tx find_live_booking bookings_visible
    has_review provider_user create_review reviews_insert review_checks review_clash admitted no_two
    any find_by new_review recompute_rating rated counts_for reviews_visible filter_by
    update_provider update_by notify_reviewed create_notification pure is_admin current_provider_id
creates = refl

create-IsReviewed_example :
    IsReviewed
      (env_at 7000 400)
      ana
      praise
      finished
      (create (env_at 7000 400) ana praise finished).0
unfolding no_two any
create-IsReviewed_example =
    create-IsReviewed (env_at 7000 400) ana praise finished
      (create (env_at 7000 400) ana praise finished).0 praised refl creates

abbrev reviewed : Db
reviewed = record finished {
  reviews = praised ∷ [];
  providers = (record ben_profile { rating_avg = 400; rating_count = 1 }) ∷ [];
}

abbrev correction : UpdateReviewDto
correction = record {
  rating = some 2;
  punctuality_rating = none;
  quality_rating = none;
  value_rating = none;
  comment = some "It leaks again.";
  provider_response = none;
}

abbrev corrected : Review
corrected = record praised {
  rating = 2;
  comment = some "It leaks again.";
  edit_history =
      (record {
        rating = 4;
        punctuality_rating = some 5;
        quality_rating = none;
        value_rating = none;
        comment = some "On time.";
        edited_at = 8000;
      })
      ∷ [];
}

corrects :
    update (env_at 8000 0) ana 400 correction reviewed
    ≡ ((update (env_at 8000 0) ana 400 correction reviewed).0, ok corrected)
unfolding update with_user ◌>>=◌ to_auth_context update_tx edit_or_respond edit edited snapshot
    changes_content find_live_review find_editable_review update_review store_review guard_update
    same_content reviews_visible reviews_update review_checks review_clash admitted no_two any
    find_by when recompute_rating rated counts_for filter_by update_provider update_by pure is_admin
    current_provider_id
corrects = refl

update-IsRevised_example :
    IsRevised
      (env_at 8000 0)
      ana
      400
      correction
      reviewed
      (update (env_at 8000 0) ana 400 correction reviewed).0
      corrected
unfolding no_two any
update-IsRevised_example =
    update-IsRevised (env_at 8000 0) ana 400 correction reviewed
      (update (env_at 8000 0) ana 400 correction reviewed).0 corrected refl corrects

abbrev hiding : ReviewVisibilityDto
hiding = record { hidden = true; reason = "Abusive language." }

hides : set_review_visibility (env_at 9000 0) ada 400 hiding reviewed ≡ (
  (set_review_visibility (env_at 9000 0) ada 400 hiding reviewed).0,
  ok (record praised { is_hidden = true }),
)
unfolding set_review_visibility set_review_visibility_tx as_admin with_user ◌>>=◌ to_auth_context
    find_live_review find_editable_review update_review store_review guard_update reviews_visible
    reviews_update review_checks review_clash admitted no_two any find_by recompute_provider_rating
    rated counts_for filter_by update_provider update_by pure is_admin audit create_admin_action
hides = refl

set_review_visibility-IsRatedIn_example :
    (true ≡ true) × IsRatedIn 1 (set_review_visibility (env_at 9000 0) ada 400 hiding reviewed).0
unfolding no_two any find_by
set_review_visibility-IsRatedIn_example =
    set_review_visibility-IsRatedIn (env_at 9000 0) ada 400 hiding reviewed
      (set_review_visibility (env_at 9000 0) ada 400 hiding reviewed).0 praised
      (record praised { is_hidden = true }) refl refl hides

-- Hiding a review with a report leaves the rating as it was, over no visible review.
abbrev reported : Db
reported = record reviewed {
  reports =
      (record {
        id = 500;
        reporter_id = 10;
        target_type = ReportTargetType.review;
        target_id = 400;
        reason = ReportReason.fake_review;
        details = none;
        status = ReportStatus.opened;
        resolved_by_id = none;
        resolved_at = none;
        resolution_notes = none;
      })
      ∷ [];
}

abbrev takedown : ResolveReportDto
takedown = record { status = none; notes = "It is fake."; hide_review = true }

report_leaves_rating :
    (resolve_report (env_at 9000 0) ada 500 takedown reported).0.providers
    ≡ (record ben_profile { rating_avg = 400; rating_count = 1 }) ∷ []
unfolding resolve_report resolve_report_tx as_admin with_user ◌>>=◌ to_auth_context find_report
    update_report hide_reported find_editable_review update_review store_review guard_update
    reviews_update review_checks review_clash admitted no_two any find_by when update_by pure
    is_admin audit create_admin_action
report_leaves_rating = refl

abbrev complaint : Dispute
complaint = record {
  id = 600;
  booking_id = 300;
  raised_by_id = 20;
  reason = "It leaks.";
  details = "The tap drips again.";
  status = DisputeStatus.opened;
  resolution = none;
  refund_amount = none;
  resolved_by_id = none;
  resolved_at = none;
}

abbrev disputed : Db
disputed = record (booked (booking_with BookingStatus.disputed) working_history) {
  disputes = complaint ∷ [];
}

abbrev refunding : ResolveDisputeDto
refunding = record {
  status = Ruling.refund;
  resolution = "The work was not done.";
  refund_amount = some 50_000;
}

abbrev refunded : Dispute
refunded = record complaint {
  status = DisputeStatus.resolved_refund;
  resolution = some "The work was not done.";
  refund_amount = some 50_000;
  resolved_by_id = some 99;
  resolved_at = some 9000;
}

refunds :
    resolve_dispute (env_at 9000 0) ada 600 refunding disputed
    ≡ ((resolve_dispute (env_at 9000 0) ada 600 refunding disputed).0, ok refunded)
unfolding resolve_dispute resolve_dispute_tx rule_on close_booking ruled as_admin with_user ◌>>=◌
    to_auth_context find_dispute update_dispute store_dispute dispute_checks dispute_clash
    find_booking update_booking store_booking status_change bookings_visible booking_checks
    booking_clash same_status admitted no_two any find_by when update_by pure is_admin audit
    create_notification create_admin_action
refunds = refl

resolve_dispute-IsResolved_example :
    IsResolved
      (env_at 9000 0)
      ada
      600
      refunding
      disputed
      (resolve_dispute (env_at 9000 0) ada 600 refunding disputed).0
      refunded
unfolding no_two any
resolve_dispute-IsResolved_example =
    resolve_dispute-IsResolved (env_at 9000 0) ada 600 refunding disputed
      (resolve_dispute (env_at 9000 0) ada 600 refunding disputed).0 refunded refl refunds
