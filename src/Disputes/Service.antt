-- ===== src/Disputes/Service.antt =====
-- The operations of DisputesService in disputes/disputes.module.ts.
use fixitph_backend.Prelude.{
  ℕ, Bool, true, false, none, some, String, ◌&&◌, ◌||◌, ◌==◌, not, any, holds,
}
use Prim.Native.String.{◌++◌}
use fixitph_backend.Schema.{BookingStatus, Booking, Dispute, DisputeStatus, Db, is_admin_role}
use fixitph_backend.Schema.BookingStatus.{
  in_progress, completed, no_show_customer, no_show_provider, disputed,
}
use fixitph_backend.Errors.{
  not_found, forbidden, conflict, Result, booking_not_found, not_a_party, booking_not_disputable,
  dispute_already_open,
}
use fixitph_backend.Transaction.{
  Tx, Env, AuthenticatedUser, to_auth_context, pure, throw_if, or_throw, when, reads, ◌>>=◌, ◌>>◌,
  with_user,
}
use fixitph_backend.Database.Constraints.{is_unresolved}
use fixitph_backend.Database.Writes.{update_booking, create_dispute}
use fixitph_backend.Bookings.Service.{find_live_booking}

pub record CreateDisputeDto : Type 0 where
  pub booking_id : ℕ
  pub reason : String
  pub details : String

unfoldable pub is_party : AuthenticatedUser → Booking → Bool
is_party user b = b.customer_id == user.id || holds user.provider_id b.provider_id

abbrev pub is_disputable : BookingStatus → Bool
is_disputable in_progress = true
is_disputable completed = true
is_disputable no_show_customer = true
is_disputable no_show_provider = true
is_disputable _ = false

abbrev pub is_no_show : BookingStatus → Bool
is_no_show no_show_customer = true
is_no_show no_show_provider = true
is_no_show _ = false

-- The booking of a no-show keeps its status.
unfoldable pub mark_disputed : ℕ → BookingStatus → Tx (Unit {0})
mark_disputed id status =
    when (not (is_no_show status))
      (do _ ← update_booking id (λ b. record b { status = disputed }); pure tt)

-- The transaction once the booking is known to be disputable by this caller.
unfoldable pub file_dispute : Env → AuthenticatedUser → CreateDisputeDto → Booking → Tx Dispute
file_dispute env user dto booking = do
  unresolved ←
      reads (λ s d. any (λ x. x.booking_id == dto.booking_id && is_unresolved x.status) d.disputes)
  throw_if unresolved (conflict dispute_already_open)
  dispute ← create_dispute (record {
    id = env.uuid 0;
    booking_id = dto.booking_id;
    raised_by_id = user.id;
    reason = dto.reason;
    details = dto.details;
    status = DisputeStatus.opened;
    resolution = none;
    refund_amount = none;
    resolved_by_id = none;
    resolved_at = none;
  })
  mark_disputed dto.booking_id booking.status
  pure dispute

unfoldable pub create_tx : Env → AuthenticatedUser → CreateDisputeDto → Tx Dispute
create_tx env user dto = do
  row ← reads (find_live_booking dto.booking_id)
  booking ← or_throw (not_found booking_not_found) row
  throw_if (not (is_party user booking) && not (is_admin_role user.role)) (forbidden not_a_party)
  throw_if (not (is_disputable booking.status)) (conflict booking_not_disputable)
  file_dispute env user dto booking

unfoldable pub create : Env → AuthenticatedUser → CreateDisputeDto → Db → Db × Result Dispute
create env user dto =
    with_user (to_auth_context user) (some ("dispute raised: " ++ dto.reason)) env.now
      (create_tx env user dto)
