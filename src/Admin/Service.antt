-- ===== src/Admin/Service.antt =====
-- `resolveDispute`, `resolveReport` and `setReviewVisibility` of AdminService in
-- admin/admin.service.ts, behind RolesGuard, which admits administrators alone to the controller.
-- The addresses of the audit trail and the cache are left out.
use fixitph_backend.Prelude.{
  ℕ, Bool, true, false, Option, none, some, String, ◌&&◌, get_or, same_flag, if◌then◌else◌,
}
use Prim.Native.String.{◌++◌}
use fixitph_backend.Schema.{
  Booking, BookingStatus, Dispute, DisputeStatus, Review, ReportStatus, AdminActionType,
  NotificationType, Db, is_admin_role, is_review_target, same_status,
}
use fixitph_backend.Errors.{
  Result, err, forbidden, not_found, conflict, database, missing_relation, insufficient_role,
  dispute_not_found, report_not_found, review_not_found, review_visibility_unchanged,
}
use fixitph_backend.Transaction.{
  Tx, Env, AuthenticatedUser, to_auth_context, pure, throw_if, or_throw, when, reads, ◌>>=◌, ◌>>◌,
  with_user,
}
use fixitph_backend.Database.Writes.{find_booking, update_booking, create_notification}
use fixitph_backend.Database.Moderation.{
  find_dispute, update_dispute, update_review, find_report, update_report, create_admin_action,
}
use fixitph_backend.Reviews.Rating.{recompute_provider_rating}
use fixitph_backend.Reviews.Service.{find_live_review}

-- `@Roles(UserRole.ADMIN)` on the controller, and `withUser`.
unfoldable pub as_admin :
    {A : Type 0} → Env → AuthenticatedUser → Option String → Tx A → Db → Db × Result A
as_admin env admin reason m d =
    if is_admin_role admin.role
    then with_user (to_auth_context admin) reason env.now m d
    else (d, err (forbidden insufficient_role))

unfoldable pub audit : AuthenticatedUser → AdminActionType → ℕ → Option String → Tx (Unit {0})
audit admin type target reason =
    create_admin_action
      (record { admin_id = admin.id; action_type = type; target_id = target; reason = reason })

-- The three statuses that ResolveDisputeDto takes.
pub data Ruling : Type 0 where
  refund partial_refund no_action : Ruling

abbrev pub ruling_status : Ruling → DisputeStatus
ruling_status Ruling.refund = DisputeStatus.resolved_refund
ruling_status Ruling.partial_refund = DisputeStatus.resolved_partial_refund
ruling_status Ruling.no_action = DisputeStatus.resolved_no_action

pub record ResolveDisputeDto : Type 0 where
  pub status : Ruling
  pub resolution : String
  pub refund_amount : Option ℕ

-- The booking after the ruling.
unfoldable pub ruled : Env → AuthenticatedUser → ResolveDisputeDto → Ruling → Booking → Booking
ruled env admin dto Ruling.refund b = record b {
  status = BookingStatus.cancelled_by_provider;
  cancelled_at = some (env.clock 1);
  cancelled_by_id = some admin.id;
  cancellation_reason = some dto.resolution;
}
ruled env admin dto _ b = record b {
  status = BookingStatus.completed;
  completed_at = some (env.clock 1);
}

unfoldable pub close_booking :
    Env → AuthenticatedUser → ResolveDisputeDto → ℕ → BookingStatus → Tx (Unit {0})
close_booking env admin dto id status =
    when (same_status status BookingStatus.disputed)
      (do _ ← update_booking id (ruled env admin dto dto.status); pure tt)

-- The writes of the ruling, once the dispute and its booking are known.
unfoldable pub rule_on : Env → AuthenticatedUser → ℕ → ResolveDisputeDto → ℕ → Booking → Tx Dispute
rule_on env admin id dto booking_id booking = do
  after ← update_dispute id (λ x. record x {
    status = ruling_status dto.status;
    resolution = some dto.resolution;
    refund_amount = dto.refund_amount;
    resolved_by_id = some admin.id;
    resolved_at = some (env.clock 0);
  })
  close_booking env admin dto booking_id booking.status
  create_notification (record {
    user_id = booking.customer_id;
    type = NotificationType.dispute_update;
    subject = id;
  })
  audit admin AdminActionType.dispute_resolve id (some dto.resolution)
  pure after

unfoldable pub resolve_dispute_tx : Env → AuthenticatedUser → ℕ → ResolveDisputeDto → Tx Dispute
resolve_dispute_tx env admin id dto = do
  row ← reads (λ s d. find_dispute id d)
  before ← or_throw (not_found dispute_not_found) row
  related ← reads (find_booking before.booking_id)
  booking ← or_throw (database missing_relation) related
  rule_on env admin id dto before.booking_id booking

unfoldable pub resolve_dispute :
    Env → AuthenticatedUser → ℕ → ResolveDisputeDto → Db → Db × Result Dispute
resolve_dispute env admin id dto =
    as_admin env admin (some ("dispute resolved by admin: " ++ dto.resolution))
      (resolve_dispute_tx env admin id dto)

pub record ReviewVisibilityDto : Type 0 where
  pub hidden : Bool
  pub reason : String

abbrev shown : Bool → String
shown true = "hidden: "
shown false = "restored: "

unfoldable pub set_review_visibility_tx :
    Env → AuthenticatedUser → ℕ → ReviewVisibilityDto → Tx Review
set_review_visibility_tx env admin id dto = do
  row ← reads (find_live_review id)
  review ← or_throw (not_found review_not_found) row
  throw_if (same_flag review.is_hidden dto.hidden) (conflict review_visibility_unchanged)
  updated ← update_review id (λ r. record r { is_hidden = dto.hidden })
  recompute_provider_rating review.provider_id
  audit admin AdminActionType.review_takedown id (some (shown dto.hidden ++ dto.reason))
  pure updated

unfoldable pub set_review_visibility :
    Env → AuthenticatedUser → ℕ → ReviewVisibilityDto → Db → Db × Result Review
set_review_visibility env admin id dto =
    as_admin env admin none (set_review_visibility_tx env admin id dto)

pub record ResolveReportDto : Type 0 where
  pub status : Option ReportStatus
  pub notes : String
  pub hide_review : Bool

-- The review of the report, hidden as part of the same decision.
unfoldable pub hide_reported : AuthenticatedUser → ℕ → String → Tx (Unit {0})
hide_reported admin review notes = do
  _ ← update_review review (λ r. record r { is_hidden = true })
  audit admin AdminActionType.review_takedown review (some notes)

unfoldable pub resolve_report_tx : Env → AuthenticatedUser → ℕ → ResolveReportDto → Tx (Unit {0})
resolve_report_tx env admin id dto = do
  row ← reads (λ s d. find_report id d)
  before ← or_throw (not_found report_not_found) row
  update_report id (λ r. record r {
    status = get_or dto.status ReportStatus.resolved;
    resolution_notes = some dto.notes;
    resolved_by_id = some admin.id;
    resolved_at = some (env.clock 0);
  })
  when (dto.hide_review && is_review_target before.target_type)
      (hide_reported admin before.target_id dto.notes)
  audit admin AdminActionType.report_resolve id (some dto.notes)

unfoldable pub resolve_report :
    Env → AuthenticatedUser → ℕ → ResolveReportDto → Db → Db × Result (Unit {0})
resolve_report env admin id dto = as_admin env admin none (resolve_report_tx env admin id dto)
