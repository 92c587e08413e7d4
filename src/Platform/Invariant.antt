-- ===== src/Platform/Invariant.antt =====
-- Calls of the services that share the database, and the consistency of the database.
use fixitph_backend.Prelude.{List, [], ◌∷◌}
use fixitph_backend.Schema.{Db}
use fixitph_backend.Transaction.{Env, AuthenticatedUser}
use fixitph_backend.Database.Consistency.{IsConsistent}
use fixitph_backend.Bookings.Consistency as Bookings
use fixitph_backend.Quotes.Consistency as Quotes
use fixitph_backend.Requests.Consistency as Requests
use fixitph_backend.Disputes.Consistency as Disputes
use fixitph_backend.Reviews.Consistency as Reviews
use fixitph_backend.Admin.Consistency as Admin
use fixitph_backend.Platform.Calls.{
  Call, create_request, update_request_status, create_quote, update_quote, accept_quote,
  reject_quote, create_booking, update_booking, confirm_booking, start_booking, cancel_booking,
  complete_booking, create_dispute, create_review, update_review, report_review, resolve_dispute,
  set_review_visibility, resolve_report, perform, run,
}

pub perform_keeps :
    (env : Env) (user : AuthenticatedUser) (call : Call) (d : Db)
    → IsConsistent d
    → IsConsistent (perform env user call d)
unfolding perform
perform_keeps env user (create_request dto) d c = Requests.create_keeps env user d c dto
perform_keeps env user (update_request_status id s) d c =
    Requests.update_status_keeps env user d c id s
perform_keeps env user (create_quote dto) d c = Quotes.create_keeps env user d c dto
perform_keeps env user (update_quote id dto) d c = Quotes.update_keeps env user d c id dto
perform_keeps env user (accept_quote id dto) d c = Quotes.accept_keeps env user d c id dto
perform_keeps env user (reject_quote id reason) d c = Quotes.reject_keeps env user d c id reason
perform_keeps env user (create_booking id start) d c = Bookings.create_keeps env user id d c start
perform_keeps env user (update_booking id dto) d c = Bookings.update_keeps env user id d c dto
perform_keeps env user (confirm_booking id) d c = Bookings.confirm_keeps env user id d c
perform_keeps env user (start_booking id) d c = Bookings.start_keeps env user id d c
perform_keeps env user (cancel_booking id reason) d c = Bookings.cancel_keeps env user id d c reason
perform_keeps env user (complete_booking id dto) d c = Bookings.complete_keeps env user id d c dto
perform_keeps env user (create_dispute dto) d c = Disputes.create_keeps env user d c dto
perform_keeps env user (create_review dto) d c = Reviews.create_keeps env user d c dto
perform_keeps env user (update_review id dto) d c = Reviews.update_keeps env user d c id dto
perform_keeps env user (report_review id dto) d c = Reviews.report_keeps env user d c id dto
perform_keeps env user (resolve_dispute id dto) d c =
    Admin.resolve_dispute_keeps env user d c id dto
perform_keeps env user (set_review_visibility id dto) d c =
    Admin.set_review_visibility_keeps env user d c id dto
perform_keeps env user (resolve_report id dto) d c = Admin.resolve_report_keeps env user d c id dto

-- Whatever calls of these services are made, in whatever order, by whatever callers, a consistent
-- database stays consistent: every booking and quote meets the CHECK constraints; no two rows break
-- a unique index, so no request has two accepted quotes, no provider two live quotes on one request
-- or two active bookings at one start, and no booking two open disputes or two reviews; and the
-- status history of every booking is an unbroken chain from its creation to its present status.
pub run_keeps :
    (calls : List (Env × AuthenticatedUser × Call)) (d : Db)
    → IsConsistent d
    → IsConsistent (run calls d)
unfolding run
run_keeps [] d c = c
run_keeps ((env, user, call) ∷ calls) d c =
    run_keeps calls (perform env user call d) (perform_keeps env user call d c)
