-- ===== src/Platform/Calls.antt =====
-- Every call of the modelled marketplace services that writes, and a history of calls, each with its caller and its
-- draws from outside. A call runs in one transaction, so the calls of a history follow one
-- another.
use fixitph_backend.Prelude.{ℕ, Option, String, List, [], ◌∷◌}
use fixitph_backend.Schema.{Db, RequestStatus}
use fixitph_backend.Transaction.{Env, AuthenticatedUser}
use fixitph_backend.Bookings.Service.{UpdateBookingDto, CompleteBookingDto}
use fixitph_backend.Bookings.Service as Bookings
use fixitph_backend.Quotes.Service.{CreateQuoteDto, UpdateQuoteDto, AcceptQuoteDto}
use fixitph_backend.Quotes.Service as Quotes
use fixitph_backend.Requests.Service.{CreateRequestDto}
use fixitph_backend.Requests.Service as Requests
use fixitph_backend.Disputes.Service.{CreateDisputeDto}
use fixitph_backend.Disputes.Service as Disputes
use fixitph_backend.Reviews.Service.{CreateReviewDto, UpdateReviewDto, ReportReviewDto}
use fixitph_backend.Reviews.Service as Reviews
use fixitph_backend.Admin.Service.{ResolveDisputeDto, ReviewVisibilityDto, ResolveReportDto}
use fixitph_backend.Admin.Service as Admin

pub data Call : Type 0 where
  create_request : CreateRequestDto → Call
  update_request_status : ℕ → RequestStatus → Call
  create_quote : CreateQuoteDto → Call
  update_quote : ℕ → UpdateQuoteDto → Call
  accept_quote : ℕ → AcceptQuoteDto → Call
  reject_quote : ℕ → Option String → Call
  create_booking : ℕ → ℕ → Call
  update_booking : ℕ → UpdateBookingDto → Call
  confirm_booking : ℕ → Call
  start_booking : ℕ → Call
  cancel_booking : ℕ → String → Call
  complete_booking : ℕ → CompleteBookingDto → Call
  create_dispute : CreateDisputeDto → Call
  create_review : CreateReviewDto → Call
  update_review : ℕ → UpdateReviewDto → Call
  report_review : ℕ → ReportReviewDto → Call
  resolve_dispute : ℕ → ResolveDisputeDto → Call
  set_review_visibility : ℕ → ReviewVisibilityDto → Call
  resolve_report : ℕ → ResolveReportDto → Call

unfoldable pub perform : Env → AuthenticatedUser → Call → Db → Db
perform env user (create_request dto) d = (Requests.create env user dto d).0
perform env user (update_request_status id s) d = (Requests.update_status env user id s d).0
perform env user (create_quote dto) d = (Quotes.create env user dto d).0
perform env user (update_quote id dto) d = (Quotes.update env user id dto d).0
perform env user (accept_quote id dto) d = (Quotes.accept env user id dto d).0
perform env user (reject_quote id reason) d = (Quotes.reject env user id reason d).0
perform env user (create_booking id start) d = (Bookings.create env user id start d).0
perform env user (update_booking id dto) d = (Bookings.update env user id dto d).0
perform env user (confirm_booking id) d = (Bookings.confirm env user id d).0
perform env user (start_booking id) d = (Bookings.start env user id d).0
perform env user (cancel_booking id reason) d = (Bookings.cancel env user id reason d).0
perform env user (complete_booking id dto) d = (Bookings.complete env user id dto d).0
perform env user (create_dispute dto) d = (Disputes.create env user dto d).0
perform env user (create_review dto) d = (Reviews.create env user dto d).0
perform env user (update_review id dto) d = (Reviews.update env user id dto d).0
perform env user (report_review id dto) d = (Reviews.report env user id dto d).0
perform env user (resolve_dispute id dto) d = (Admin.resolve_dispute env user id dto d).0
perform env user (set_review_visibility id dto) d =
    (Admin.set_review_visibility env user id dto d).0
perform env user (resolve_report id dto) d = (Admin.resolve_report env user id dto d).0

unfoldable pub run : List (Env × AuthenticatedUser × Call) → Db → Db
run [] d = d
run ((env, user, call) ∷ calls) d = run calls (perform env user call d)
