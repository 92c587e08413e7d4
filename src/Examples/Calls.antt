-- ===== src/Examples/Calls.antt =====
-- Single calls: a quote is sent and accepted, its booking moved and completed.
use fixitph_backend.Bookings.Lifecycle.{transitions, assert_transition}
use fixitph_backend.Database.Writes.{
  find_booking, store_booking, update_booking, create_booking, find_quote, store_quote,
  update_quote, update_quotes, create_quote, find_request, store_request, update_request, admitted,
  update_provider, create_notification, status_change,
}
use fixitph_backend.Database.Constraints.{
  booking_checks, booking_clash, quote_checks, quote_clash, request_checks, request_clash,
}
use fixitph_backend.Database.Policies.{
  current_provider_id, is_admin, bookings_visible, owns_service_request, provider_has_quoted,
  bookings_insert, history_visible, requests_visible, quotes_visible, quotes_insert, in_open_feed,
}
use fixitph_backend.Prelude.{
  ◌==◌, ℕ, none, some, List, [], ◌∷◌, find_by, ◌≡◌, ◌≢◌, refl, ◌+◌, all, no_two, any, filter_by,
  update_by,
}
use fixitph_backend.Schema.{
  Booking, BookingStatus, BookingStatusHistory, RequestStatus, ServiceRequest, Db, same_status,
}
use fixitph_backend.Errors.{not_found, booking_not_found, ok, err}
use fixitph_backend.Transaction.{Session, to_auth_context, truthy, with_user, ◌>>=◌, pure}
use fixitph_backend.Bookings.Service.{actor_for}
use fixitph_backend.Bookings.Service as Bookings
use fixitph_backend.Bookings.Access.{is_outsider_refused, actor_for_found, is_outsider, profile_of}
use fixitph_backend.Bookings.Effects.{update_keeps_length}
use fixitph_backend.Bookings.Completion.{IsCompleted, complete-IsCompleted}
use fixitph_backend.Quotes.Service.{new_quote, accepted_booking, accept}
use fixitph_backend.Quotes.Service as Quotes
use fixitph_backend.Quotes.Acceptance.{IsAccepted, session, accept-IsAccepted}
use fixitph_backend.Quotes.Vetting.{IsVetted, create-IsVetted}
use fixitph_backend.Requests.Service as Requests
use fixitph_backend.Requests.Lifecycle as Requests_Lifecycle
use fixitph_backend.Requests.Service.{update_status, distinct_providers}
use fixitph_backend.Requests.Effects.{IsMoved, update_status-IsMoved, update_status-IsTold}
use fixitph_backend.Requests.Notices.{IsTold}
use fixitph_backend.Examples.World.{
  env_at, ana, ben, eve, ben_profile, offer, acceptance, posted, quoted, booked, booking_with,
  request_with, pending_history, working_history, later, report, entry,
}

-- The quote on the posted request is accepted, and the request is booked.
accepts : accept (env_at 3000 300) ana 200 acceptance quoted ≡ (
  (accept (env_at 3000 300) ana 200 acceptance quoted).0,
  ok (booking_with BookingStatus.pending_confirmation),
)
unfolding with_user ◌>>=◌ to_auth_context pure find_booking store_booking update_booking
    create_booking find_quote store_quote update_quote update_quotes create_quote find_request
    store_request update_request admitted update_provider create_notification status_change is_admin
    current_provider_id owns_service_request provider_has_quoted bookings_visible bookings_insert
    history_visible requests_visible quotes_visible quotes_insert in_open_feed booking_checks
    booking_clash quote_checks quote_clash request_checks request_clash find_by any all filter_by
    update_by no_two same_status Quotes.check_provider Quotes.check_addressed Quotes.check_request
    Quotes.new_quote Quotes.note_quoted Quotes.create_tx Quotes.create_checked Quotes.create_as
    Quotes.create Quotes.find_provider Quotes.load_for_customer Quotes.is_sibling
    Quotes.accepted_booking Quotes.accept_writes Quotes.accept_tx Quotes.accept
accepts = refl

accept-IsAccepted_example :
    IsAccepted
      (env_at 3000 300)
      ana
      acceptance
      (session (env_at 3000 300) ana (some "quote accepted by customer"))
      200
      quoted
      (accept (env_at 3000 300) ana 200 acceptance quoted).0
      (booking_with BookingStatus.pending_confirmation)
unfolding no_two any
accept-IsAccepted_example =
    accept-IsAccepted (env_at 3000 300) ana 200 acceptance quoted
      (accept (env_at 3000 300) ana 200 acceptance quoted).0
      (booking_with BookingStatus.pending_confirmation) refl accepts

sends : Quotes.create (env_at 2000 200) ben offer posted ≡ (
  (Quotes.create (env_at 2000 200) ben offer posted).0,
  ok (new_quote (env_at 2000 200) 1 offer),
)
unfolding with_user ◌>>=◌ to_auth_context pure find_booking store_booking update_booking
    create_booking find_quote store_quote update_quote update_quotes create_quote find_request
    store_request update_request admitted update_provider create_notification status_change is_admin
    current_provider_id owns_service_request provider_has_quoted bookings_visible bookings_insert
    history_visible requests_visible quotes_visible quotes_insert in_open_feed booking_checks
    booking_clash quote_checks quote_clash request_checks request_clash find_by any all filter_by
    update_by no_two same_status Quotes.check_provider Quotes.check_addressed Quotes.check_request
    Quotes.new_quote Quotes.note_quoted Quotes.create_tx Quotes.create_checked Quotes.create_as
    Quotes.create Quotes.find_provider Quotes.load_for_customer Quotes.is_sibling
    Quotes.accepted_booking Quotes.accept_writes Quotes.accept_tx Quotes.accept
sends = refl

abbrev withdrawn_post : Db
withdrawn_post = record quoted { requests = request_with RequestStatus.cancelled ∷ [] }

-- A pending quote on a cancelled request is accepted all the same, and the request is then booked.
accepts_on_cancelled :
    (accept (env_at 3000 300) ana 200 acceptance withdrawn_post).0.requests
    ≡ request_with RequestStatus.booked ∷ []
unfolding with_user ◌>>=◌ to_auth_context pure find_booking store_booking update_booking
    create_booking find_quote store_quote update_quote update_quotes create_quote find_request
    store_request update_request admitted update_provider create_notification status_change is_admin
    current_provider_id owns_service_request provider_has_quoted bookings_visible bookings_insert
    history_visible requests_visible quotes_visible quotes_insert in_open_feed booking_checks
    booking_clash quote_checks quote_clash request_checks request_clash find_by any all filter_by
    update_by no_two same_status Quotes.check_provider Quotes.check_addressed Quotes.check_request
    Quotes.new_quote Quotes.note_quoted Quotes.create_tx Quotes.create_checked Quotes.create_as
    Quotes.create Quotes.find_provider Quotes.load_for_customer Quotes.is_sibling
    Quotes.accepted_booking Quotes.accept_writes Quotes.accept_tx Quotes.accept
accepts_on_cancelled = refl

create-IsVetted_example :
    IsVetted (env_at 2000 200) ben offer posted (new_quote (env_at 2000 200) 1 offer)
create-IsVetted_example =
    create-IsVetted (env_at 2000 200) ben offer posted
      (Quotes.create (env_at 2000 200) ben offer posted).0 (new_quote (env_at 2000 200) 1 offer)
      sends

abbrev waiting : Db
waiting = booked (booking_with BookingStatus.pending_confirmation) pending_history

abbrev working : Db
working = booked (booking_with BookingStatus.in_progress) working_history

is_outsider_refused_example :
    (Bookings.update (env_at 4000 0) eve 300 later waiting
      ≡ (waiting, err (not_found booking_not_found)))
    × (Bookings.confirm (env_at 4000 0) eve 300 waiting
        ≡ (waiting, err (not_found booking_not_found)))
    × (Bookings.start (env_at 4000 0) eve 300 waiting
        ≡ (waiting, err (not_found booking_not_found)))
    × (Bookings.cancel (env_at 4000 0) eve 300 "changed my mind" waiting
        ≡ (waiting, err (not_found booking_not_found)))
    × (Bookings.complete (env_at 4000 0) eve 300 report waiting
        ≡ (waiting, err (not_found booking_not_found)))
unfolding is_outsider all profile_of current_provider_id find_by to_auth_context
is_outsider_refused_example =
    is_outsider_refused (env_at 4000 0) eve 300 waiting refl later "changed my mind" report

abbrev ben_session : Session
ben_session = record { context = to_auth_context ben; status_change_reason = none; now = 4000 }

actor_for_found_example : actor_for ben (booking_with BookingStatus.pending_confirmation) ≢ none
unfolding current_provider_id find_by to_auth_context bookings_visible is_admin
actor_for_found_example =
    actor_for_found ben (booking_with BookingStatus.pending_confirmation) ben_session waiting refl
      refl refl

abbrev moved : Booking
moved = record (booking_with BookingStatus.pending_confirmation) {
  scheduled_start = 9000;
  scheduled_end = some 3_609_000;
}

moves :
    Bookings.update (env_at 4000 0) ana 300 later waiting
    ≡ ((Bookings.update (env_at 4000 0) ana 300 later waiting).0, ok moved)
unfolding with_user ◌>>=◌ to_auth_context pure find_booking store_booking update_booking
    create_booking find_quote store_quote update_quote update_quotes create_quote find_request
    store_request update_request admitted update_provider create_notification status_change is_admin
    current_provider_id owns_service_request provider_has_quoted bookings_visible bookings_insert
    history_visible requests_visible quotes_visible quotes_insert in_open_feed booking_checks
    booking_clash quote_checks quote_clash request_checks request_clash find_by any all filter_by
    update_by no_two same_status Bookings.load_for_actor Bookings.find_live_booking
    Bookings.actor_for Bookings.provider_user Bookings.update_tx Bookings.update Bookings.reschedule
    Bookings.complete_tx Bookings.complete Bookings.history_of transitions assert_transition
moves = refl

update_keeps_length_example :
    (n : ℕ) × (find_by
        (λ x. x.id == 300)
        (Bookings.update (env_at 4000 0) ana 300 later waiting).0.bookings
      ≡ some moved)
    × (moved.scheduled_start ≡ 9000)
    × (moved.scheduled_end ≡ some (9000 + n))
    × ((booking_with BookingStatus.pending_confirmation).scheduled_start + n ≡ 3_605_000)
unfolding no_two any all booking_checks find_by
update_keeps_length_example =
    update_keeps_length (env_at 4000 0) ana 300 9000 3_605_000 later waiting
      (Bookings.update (env_at 4000 0) ana 300 later waiting).0
      (booking_with BookingStatus.pending_confirmation) moved refl refl refl refl refl refl moves

abbrev finished : Booking
finished = record (booking_with BookingStatus.completed) {
  total_amount = 45_000;
  completed_at = some 6000;
  actual_end = some 6000;
}

abbrev record_of_work : List BookingStatusHistory
record_of_work =
    entry none BookingStatus.pending_confirmation
    ∷ entry (some BookingStatus.pending_confirmation) BookingStatus.confirmed
    ∷ entry (some BookingStatus.confirmed) BookingStatus.in_progress
    ∷ (record (entry (some BookingStatus.in_progress) BookingStatus.completed) {
      changed_by_id = some 10;
      reason = some "work completed";
    })
    ∷ []

completes :
    Bookings.complete (env_at 6000 0) ben 300 report working
    ≡ ((Bookings.complete (env_at 6000 0) ben 300 report working).0, ok (finished, record_of_work))
unfolding with_user ◌>>=◌ to_auth_context pure find_booking store_booking update_booking
    create_booking find_quote store_quote update_quote update_quotes create_quote find_request
    store_request update_request admitted update_provider create_notification status_change is_admin
    current_provider_id owns_service_request provider_has_quoted bookings_visible bookings_insert
    history_visible requests_visible quotes_visible quotes_insert in_open_feed booking_checks
    booking_clash quote_checks quote_clash request_checks request_clash find_by any all filter_by
    update_by no_two same_status Bookings.load_for_actor Bookings.find_live_booking
    Bookings.actor_for Bookings.provider_user Bookings.update_tx Bookings.update Bookings.reschedule
    Bookings.complete_tx Bookings.complete Bookings.history_of transitions assert_transition
completes = refl

complete-IsCompleted_example :
    IsCompleted report 300 6000
      (record {
        context = to_auth_context ben;
        status_change_reason = truthy (some "work completed");
        now = 6000;
      })
      (booking_with BookingStatus.in_progress)
      finished
      ben_profile
      working
      (Bookings.complete (env_at 6000 0) ben 300 report working).0
unfolding no_two any find_by
complete-IsCompleted_example =
    complete-IsCompleted (env_at 6000 0) ben 300 report working
      (Bookings.complete (env_at 6000 0) ben 300 report working).0
      (booking_with BookingStatus.in_progress) ben_profile (finished, record_of_work) refl refl refl
      completes

abbrev dropped : ServiceRequest
dropped = record (request_with RequestStatus.cancelled) { closed_at = some 4000 }

drops :
    update_status (env_at 4000 0) ana 100 RequestStatus.cancelled quoted
    ≡ ((update_status (env_at 4000 0) ana 100 RequestStatus.cancelled quoted).0, ok dropped)
unfolding with_user ◌>>=◌ to_auth_context pure find_request store_request update_request admitted
    create_notification is_admin current_provider_id owns_service_request provider_has_quoted
    requests_visible quotes_visible request_checks request_clash find_by any all filter_by update_by
    no_two Requests.update_status Requests.update_status_tx Requests.actor_for
    Requests.distinct_providers Requests.quoted_providers Requests.notify_provider
    Requests.notify_quoted Requests_Lifecycle.transitions Requests_Lifecycle.assert_transition
drops = refl

update_status-IsMoved_example :
    IsMoved ana 100 RequestStatus.cancelled 4000
      (record { context = to_auth_context ana; status_change_reason = none; now = 4000 })
      quoted
      dropped
      (update_status (env_at 4000 0) ana 100 RequestStatus.cancelled quoted).0
update_status-IsMoved_example =
    update_status-IsMoved (env_at 4000 0) ana 100 RequestStatus.cancelled quoted
      (update_status (env_at 4000 0) ana 100 RequestStatus.cancelled quoted).0 dropped drops

update_status-IsTold_example :
    IsTold 100 RequestStatus.cancelled
      (record { context = to_auth_context ana; status_change_reason = none; now = 4000 })
      quoted
      (update_status (env_at 4000 0) ana 100 RequestStatus.cancelled quoted).0
update_status-IsTold_example =
    update_status-IsTold (env_at 4000 0) ana 100 RequestStatus.cancelled quoted
      (update_status (env_at 4000 0) ana 100 RequestStatus.cancelled quoted).0 dropped drops
