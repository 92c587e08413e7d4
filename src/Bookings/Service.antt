-- ===== src/Bookings/Service.antt =====
-- The operations of BookingsService in bookings/bookings.service.ts.
use fixitph_backend.Prelude.{
  ℕ, Bool, true, false, Option, none, some, List, String, ◌+◌, ◌-◌, ◌&&◌, ◌==◌, not, is_none,
  is_past, get_or, if◌then◌else◌, find_by, filter_by,
}
use mathlib.Core.List.{reverse}
use fixitph_backend.Schema.{
  BookingStatus, Booking, BookingStatusHistory, Provider, NotificationType, PaymentMethod,
  PaymentStatus, Db, is_admin_role,
}
use fixitph_backend.Schema.BookingStatus.{
  pending_confirmation, confirmed, in_progress, completed, cancelled_by_customer,
  cancelled_by_provider,
}
use fixitph_backend.Errors.{
  not_found, forbidden, conflict, bad_request, database, missing_relation, record_not_found, Result,
  err, booking_not_found, not_a_party, booking_not_reschedulable, schedule_in_past,
  schedule_ends_before_it_starts, use_quote_accept, quote_not_found,
}
use fixitph_backend.Transaction.{
  Tx, Session, Env, AuthenticatedUser, to_auth_context, pure, throw_if, or_throw, reads, ◌>>=◌,
  ◌>>◌, with_user,
}
use fixitph_backend.Database.Policies.{bookings_visible, history_visible, holds_both}
use fixitph_backend.Database.Writes.{
  find_booking, update_booking, create_booking, find_quote, find_request, update_provider,
  create_notification,
}
use fixitph_backend.Bookings.Lifecycle.{Actor, customer, provider, admin, assert_transition}

pub record Loaded : Type 0 where
  pub id : ℕ
  pub status : BookingStatus
  pub customer_id : ℕ
  pub provider_id : ℕ
  pub provider_user_id : Option ℕ
  pub actor : Actor

-- `tx.booking.findFirst({ where: { id, deletedAt: null } })`
unfoldable pub find_live_booking : ℕ → Session → Db → Option Booking
find_live_booking id s d =
    find_by (λ b. b.id == id && is_none b.deleted_at && bookings_visible s d b) d.bookings

-- `none` where the source throws.
unfoldable pub actor_for : AuthenticatedUser → Booking → Option Actor
actor_for user b =
    if is_admin_role user.role
    then some admin
    else (if b.customer_id == user.id
        then some customer
        else (if holds_both user.provider_id (some b.provider_id) then some provider else none))

abbrev pub user_id_of : Option Provider → Option ℕ
user_id_of none = none
user_id_of (some p) = some p.user_id

unfoldable pub provider_user : ℕ → Session → Db → Option ℕ
provider_user id s d = user_id_of (find_by (λ p. p.id == id) d.providers)

unfoldable pub load_for_actor : ℕ → AuthenticatedUser → Tx Loaded
load_for_actor id user = do
  row ← reads (find_live_booking id)
  booking ← or_throw (not_found booking_not_found) row
  actor ← or_throw (forbidden not_a_party) (actor_for user booking)
  owner ← reads (provider_user booking.provider_id)
  pure (record {
    id = booking.id;
    status = booking.status;
    customer_id = booking.customer_id;
    provider_id = booking.provider_id;
    provider_user_id = owner;
    actor = actor;
  })

abbrev pub is_reschedulable : BookingStatus → Bool
is_reschedulable pending_confirmation = true
is_reschedulable confirmed = true
is_reschedulable _ = false

pub record UpdateBookingDto : Type 0 where
  pub scheduled_start : Option ℕ
  pub scheduled_end : Option ℕ
  pub payment_method : Option PaymentMethod

-- The end that belongs to a new start: the given one, or the old one moved along with the start.
-- Where both ends are times of the same booking, `nextStart + (end - start)` is not negative.
abbrev pub next_end : Option ℕ → Option ℕ → ℕ → Option ℕ → Option ℕ
next_end start (some e) old_start old_end = some e
next_end none none old_start old_end = old_end
next_end (some t) none old_start none = none
next_end (some t) none old_start (some e) = some (t + e - old_start)

unfoldable pub reschedule : UpdateBookingDto → Booking → Booking
reschedule dto b = record b {
  scheduled_start = get_or dto.scheduled_start b.scheduled_start;
  scheduled_end = next_end dto.scheduled_start dto.scheduled_end b.scheduled_start b.scheduled_end;
  payment_method = get_or dto.payment_method b.payment_method;
}

unfoldable pub update_tx : Env → AuthenticatedUser → ℕ → UpdateBookingDto → Tx Booking
update_tx env user id dto = do
  booking ← load_for_actor id user
  throw_if (not (is_reschedulable booking.status)) (conflict booking_not_reschedulable)
  throw_if (is_past dto.scheduled_start (env.clock 0)) (bad_request schedule_in_past)
  row ← reads (find_booking id)
  current ← or_throw (database record_not_found) row
  let moved = reschedule dto current
  throw_if (is_past moved.scheduled_end moved.scheduled_start)
      (bad_request schedule_ends_before_it_starts)
  update_booking id (λ b. record b {
    scheduled_start = get_or dto.scheduled_start b.scheduled_start;
    scheduled_end = moved.scheduled_end;
    payment_method = get_or dto.payment_method b.payment_method;
  })

unfoldable pub confirm_tx : Env → AuthenticatedUser → ℕ → Tx Booking
confirm_tx env user id = do
  booking ← load_for_actor id user
  assert_transition booking.status confirmed booking.actor
  updated ←
      update_booking id
        (λ b. record b { status = confirmed; contact_released_at = some (env.clock 0) })
  create_notification (record {
    user_id = booking.customer_id;
    type = NotificationType.booking_confirmed;
    subject = id;
  })
  pure updated

unfoldable pub start_tx : Env → AuthenticatedUser → ℕ → Tx Booking
start_tx env user id = do
  booking ← load_for_actor id user
  assert_transition booking.status in_progress booking.actor
  updated ←
      update_booking id (λ b. record b { status = in_progress; actual_start = some (env.clock 0) })
  pure updated

-- The status that a cancellation by this actor leads to.
abbrev pub cancel_target : Actor → BookingStatus
cancel_target provider = cancelled_by_provider
cancel_target _ = cancelled_by_customer

abbrev pub cancel_notify : Loaded → Option ℕ
cancel_notify b = notified b.actor
  where
    notified : Actor → Option ℕ
    notified provider = some b.customer_id
    notified _ = b.provider_user_id

unfoldable pub notify_cancelled : ℕ → Option ℕ → Tx (Unit {0})
notify_cancelled id none = pure tt
notify_cancelled id (some user) =
    create_notification
      (record { user_id = user; type = NotificationType.booking_cancelled; subject = id })

unfoldable pub cancel_tx : Env → AuthenticatedUser → ℕ → String → Tx Booking
cancel_tx env user id reason = do
  booking ← load_for_actor id user
  assert_transition booking.status (cancel_target booking.actor) booking.actor
  updated ← update_booking id (λ b. record b {
    status = cancel_target booking.actor;
    cancellation_reason = some reason;
    cancelled_by_id = some user.id;
    cancelled_at = some (env.clock 0);
  })
  notify_cancelled id (cancel_notify booking)
  pure updated

pub record CompleteBookingDto : Type 0 where
  pub final_amount : Option ℕ
  pub payment_status : Option PaymentStatus
  pub notes : Option String

-- `bookingStatusHistory.findMany`, oldest first.
unfoldable pub history_of : ℕ → Session → Db → List BookingStatusHistory
history_of id s d =
    reverse (filter_by (λ e. e.booking_id == id && history_visible s d e.booking_id) d.history)

unfoldable pub complete_tx :
    Env → AuthenticatedUser → ℕ → CompleteBookingDto → Tx (Booking × List BookingStatusHistory)
complete_tx env user id dto = do
  booking ← load_for_actor id user
  assert_transition booking.status completed booking.actor
  updated ← update_booking id (λ b. record b {
    status = completed;
    completed_at = some (env.clock 0);
    actual_end = some (env.clock 0);
    total_amount = get_or dto.final_amount b.total_amount;
    payment_status = get_or dto.payment_status b.payment_status;
  })
  update_provider booking.provider_id
      (λ p. record p { completed_jobs_count = p.completed_jobs_count + 1 })
  create_notification (record {
    user_id = booking.customer_id;
    type = NotificationType.booking_completed;
    subject = id;
  })
  history ← reads (history_of id)
  pure (updated, history)

unfoldable pub create_tx : Env → ℕ → ℕ → Tx Booking
create_tx env quote_id scheduled_start = do
  row ← reads (find_quote quote_id)
  quote ← or_throw (not_found quote_not_found) row
  relation ← reads (find_request quote.service_request_id)
  request ← or_throw (database missing_relation) relation
  create_booking (record {
    id = env.uuid 0;
    quote_id = quote.id;
    service_request_id = quote.service_request_id;
    customer_id = request.customer_id;
    provider_id = quote.provider_id;
    service_id = request.service_id;
    scheduled_start = scheduled_start;
    scheduled_end = none;
    actual_start = none;
    actual_end = none;
    status = pending_confirmation;
    total_amount = quote.amount;
    payment_method = PaymentMethod.cash;
    payment_status = PaymentStatus.unpaid;
    contact_released_at = none;
    cancellation_reason = none;
    cancelled_by_id = none;
    cancelled_at = none;
    completed_at = none;
    deleted_at = none;
  })

unfoldable pub update : Env → AuthenticatedUser → ℕ → UpdateBookingDto → Db → Db × Result Booking
update env user id dto = with_user (to_auth_context user) none env.now (update_tx env user id dto)

unfoldable pub confirm : Env → AuthenticatedUser → ℕ → Db → Db × Result Booking
confirm env user id =
    with_user (to_auth_context user) (some "confirmed by provider") env.now (confirm_tx env user id)

unfoldable pub start : Env → AuthenticatedUser → ℕ → Db → Db × Result Booking
start env user id =
    with_user (to_auth_context user) (some "work started") env.now (start_tx env user id)

unfoldable pub cancel : Env → AuthenticatedUser → ℕ → String → Db → Db × Result Booking
cancel env user id reason =
    with_user (to_auth_context user) (some reason) env.now (cancel_tx env user id reason)

unfoldable pub complete :
    Env
    → AuthenticatedUser
    → ℕ
    → CompleteBookingDto
    → Db
    → Db × Result (Booking × List BookingStatusHistory)
complete env user id dto =
    with_user (to_auth_context user) (some (get_or dto.notes "work completed")) env.now
      (complete_tx env user id dto)

unfoldable pub create : Env → AuthenticatedUser → ℕ → ℕ → Db → Db × Result Booking
create env user quote_id scheduled_start d =
    if is_admin_role user.role
    then with_user (to_auth_context user) none env.now (create_tx env quote_id scheduled_start) d
    else (d, err (forbidden use_quote_accept))
