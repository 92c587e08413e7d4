-- ===== src/Platform/Refinement.antt =====
-- Calls of the services that share the database against the lifecycle relation of Bookings/Spec.antt.
use fixitph_backend.Prelude.{List, [], ◌∷◌, refl}
use fixitph_backend.Schema.{Db}
use fixitph_backend.Transaction.{Env, AuthenticatedUser}
use fixitph_backend.Database.Consistency.{IsConsistent}
use fixitph_backend.Bookings.Spec.{view, Step, Steps}
use fixitph_backend.Bookings.Implements as Bookings
use fixitph_backend.Bookings.Rescheduling as Rescheduling
use fixitph_backend.Quotes.Steps as Quotes
use fixitph_backend.Requests.Steps as Requests
use fixitph_backend.Disputes.Steps as Disputes
use fixitph_backend.Reviews.Steps as Reviews
use fixitph_backend.Admin.Steps as Admin
use fixitph_backend.Platform.Calls.{
  Call, create_request, update_request_status, create_quote, update_quote, accept_quote,
  reject_quote, create_booking, update_booking, confirm_booking, start_booking, cancel_booking,
  complete_booking, create_dispute, create_review, update_review, report_review, resolve_dispute,
  set_review_visibility, resolve_report, perform, run,
}
use fixitph_backend.Platform.Invariant.{perform_keeps}

pub perform_steps :
    (env : Env) (user : AuthenticatedUser) (call : Call) (d : Db)
    → IsConsistent d
    → Step user (view d) (view (perform env user call d))
unfolding perform
perform_steps env user (create_request dto) d c = Requests.create_steps env user d dto
perform_steps env user (update_request_status id s) d c =
    Requests.update_status_steps env user d id s
perform_steps env user (create_quote dto) d c = Quotes.create_steps env user d dto
perform_steps env user (update_quote id dto) d c = Quotes.update_steps env user d id dto
perform_steps env user (accept_quote id dto) d c = Quotes.accept_steps env user d id dto
perform_steps env user (reject_quote id reason) d c = Quotes.reject_steps env user d id reason
perform_steps env user (create_booking id start) d c = Bookings.create_steps env user id start d
perform_steps env user (update_booking id dto) d c =
    Rescheduling.update_steps env user id d c.bookings_unique dto
perform_steps env user (confirm_booking id) d c =
    Bookings.confirm_steps env user id d c.bookings_unique
perform_steps env user (start_booking id) d c = Bookings.start_steps env user id d c.bookings_unique
perform_steps env user (cancel_booking id reason) d c =
    Bookings.cancel_steps env user id d c.bookings_unique reason
perform_steps env user (complete_booking id dto) d c =
    Bookings.complete_steps env user id d c.bookings_unique dto
perform_steps env user (create_dispute dto) d c =
    Disputes.create_steps env user d c.bookings_unique dto
perform_steps env user (create_review dto) d c = Reviews.create_steps env user d dto
perform_steps env user (update_review id dto) d c = Reviews.update_steps env user d id dto
perform_steps env user (report_review id dto) d c = Reviews.report_steps env user d id dto
perform_steps env user (resolve_dispute id dto) d c =
    Admin.resolve_dispute_steps env user d c.bookings_unique id dto
perform_steps env user (set_review_visibility id dto) d c =
    Admin.set_review_visibility_steps env user d id dto
perform_steps env user (resolve_report id dto) d c = Admin.resolve_report_steps env user d id dto

-- Who makes each call.
abbrev pub callers : List (Env × AuthenticatedUser × Call) → List AuthenticatedUser
callers [] = []
callers ((env, user, call) ∷ calls) = user ∷ callers calls

-- From a consistent database, whatever calls of these services are made by whatever callers, each
-- call takes the bookings and their status history one step of the lifecycle relation, and takes it
-- as its own caller: nothing, a creation as pending by the customer of the booking or an
-- administrator, an edge open to the part that this caller plays in the booking, a dispute over
-- begun work by a party to it or an administrator, or a rescheduling by one who has a part in the
-- booking, which leaves status and history alone. An entry that such a step adds to the history
-- names this caller.
pub run-Steps :
    (calls : List (Env × AuthenticatedUser × Call)) (d : Db)
    → IsConsistent d
    → Steps (callers calls) (view d) (view (run calls d))
unfolding run Steps
run-Steps [] d c = refl
run-Steps ((env, user, call) ∷ calls) d c = (
  view (perform env user call d),
  perform_steps env user call d c,
  run-Steps calls (perform env user call d) (perform_keeps env user call d c),
)
