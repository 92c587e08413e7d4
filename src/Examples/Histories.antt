-- ===== src/Examples/Histories.antt =====
-- A job from its request to its completion, as a history of calls.
use fixitph_backend.Database.Constraints.{booking_checks, quote_checks}
use fixitph_backend.Prelude.{some, List, [], ◌∷◌, true, all, find_by, ◌==◌, ◌≡◌, refl, no_two, any}
use fixitph_backend.Schema.{Booking, BookingStatus, Db, same_status}
use fixitph_backend.Transaction.{Env, AuthenticatedUser}
use fixitph_backend.Database.Consistency.{IsConsistent, chained, refers, latest, tracks}
use fixitph_backend.Bookings.Spec.{view, Steps}
use fixitph_backend.Bookings.Promises.{is_legal, is_edge}
use fixitph_backend.Bookings.Releases.{release_earned}
use fixitph_backend.Bookings.Permanence.{HasParties, is_final}
use fixitph_backend.Platform.{
  Call, create_request, create_quote, accept_quote, confirm_booking, start_booking,
  complete_booking, cancel_booking, run,
}
use fixitph_backend.Platform.Invariant.{run_keeps}
use fixitph_backend.Platform.Refinement.{callers, run-Steps}
use fixitph_backend.Platform.Promises.{
  run-is_legal, run-release_earned, run-is_final, run-HasParties,
}
use fixitph_backend.Examples.World.{
  env_at, ana, ben, eve, seed, post, offer, acceptance, booked, booking_with, pending_history,
  entry, report,
}

abbrev job : List (Env × AuthenticatedUser × Call)
job =
    (env_at 1000 100, ana, create_request post)
    ∷ (env_at 2000 200, ben, create_quote offer)
    ∷ (env_at 3000 300, ana, accept_quote 200 acceptance)
    ∷ (env_at 4000 0, ben, confirm_booking 300)
    ∷ (env_at 5000 0, ben, start_booking 300)
    ∷ (env_at 6000 0, ben, complete_booking 300 report)
    ∷ []

abbrev rest : List (Env × AuthenticatedUser × Call)
rest =
    (env_at 4000 0, ben, confirm_booking 300)
    ∷ (env_at 5000 0, ben, start_booking 300)
    ∷ (env_at 6000 0, eve, cancel_booking 300 "not mine")
    ∷ []

abbrev waiting : Db
waiting = booked (booking_with BookingStatus.pending_confirmation) pending_history

abbrev called_off : Booking
called_off = record (booking_with BookingStatus.cancelled_by_customer) {
  cancelled_at = some 3500;
  cancelled_by_id = some 20;
}

abbrev over : Db
over = booked called_off (
    entry (some BookingStatus.pending_confirmation) BookingStatus.cancelled_by_customer
    ∷ pending_history)

seed-IsConsistent : IsConsistent seed
unfolding all no_two chained
seed-IsConsistent = record {
  bookings_checked = refl;
  bookings_unique = refl;
  quotes_checked = refl;
  quotes_unique = refl;
  requests_unique = refl;
  disputes_unique = refl;
  reviews_unique = refl;
  history_faithful = record { tracked = refl; linked = refl; owned = refl };
}

waiting-IsConsistent : IsConsistent waiting
unfolding all booking_checks no_two any quote_checks tracks latest find_by same_status chained
    refers
waiting-IsConsistent = record {
  bookings_checked = refl;
  bookings_unique = refl;
  quotes_checked = refl;
  quotes_unique = refl;
  requests_unique = refl;
  disputes_unique = refl;
  reviews_unique = refl;
  history_faithful = record { tracked = refl; linked = refl; owned = refl };
}

over-IsConsistent : IsConsistent over
unfolding all booking_checks no_two any quote_checks tracks latest find_by same_status chained
    refers
over-IsConsistent = record {
  bookings_checked = refl;
  bookings_unique = refl;
  quotes_checked = refl;
  quotes_unique = refl;
  requests_unique = refl;
  disputes_unique = refl;
  reviews_unique = refl;
  history_faithful = record { tracked = refl; linked = refl; owned = refl };
}

run_keeps_example : IsConsistent (run job seed)
run_keeps_example = run_keeps job seed seed-IsConsistent

run-Steps_example : Steps (callers job) (view seed) (view (run job seed))
run-Steps_example = run-Steps job seed seed-IsConsistent

run-is_legal_example : all is_legal (run rest waiting).history ≡ true
unfolding all is_legal is_edge same_status
run-is_legal_example = run-is_legal rest waiting waiting-IsConsistent refl

run-release_earned_example :
    all (release_earned (run rest waiting).history) (run rest waiting).bookings ≡ true
unfolding all release_earned
run-release_earned_example = run-release_earned rest waiting waiting-IsConsistent refl

run-is_final_example : find_by (λ b. b.id == 300) (run rest over).bookings ≡ some called_off
unfolding find_by is_final
run-is_final_example = run-is_final rest over over-IsConsistent 300 called_off refl refl

run-HasParties_example :
    (y : Booking) × (find_by (λ b. b.id == 300) (run rest waiting).bookings ≡ some y)
    × HasParties 20 1 200 y
unfolding find_by
run-HasParties_example =
    run-HasParties rest waiting waiting-IsConsistent 300
      (booking_with BookingStatus.pending_confirmation) refl
