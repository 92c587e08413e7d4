-- ===== src/Quotes/Service.antt =====
-- The operations of QuotesService in quotes/quotes.service.ts.
use fixitph_backend.Prelude.{
  ℕ, Bool, Option, none, some, String, ◌+◌, ◌*◌, ◌&&◌, ◌==◌, not, is_none, is_some, is_past, leb,
  any, get_or, holds, if◌then◌else◌, find_by,
}
use fixitph_backend.Schema.{
  QuoteStatus, RequestStatus, BookingStatus, Provider, Quote, ServiceRequest, Booking,
  NotificationType, PaymentMethod, PaymentStatus, Db, is_admin_role, is_approved, is_pending,
  is_live_quote, takes_quotes, is_opened,
}
use fixitph_backend.Errors.{
  not_found, forbidden, conflict, bad_request, database, missing_relation, Result, ok, err,
  no_provider_profile, provider_not_found, provider_suspended, provider_not_verified,
  request_not_for_you, request_not_open, request_expired, request_not_found, quote_already_sent,
  quote_not_found, not_quote_owner, quote_not_pending, not_request_owner, quote_expired,
  schedule_in_past,
}
use fixitph_backend.Transaction.{
  Tx, Session, Env, AuthenticatedUser, to_auth_context, anonymous, pure, throw_if, or_throw, when,
  reads, ◌>>=◌, ◌>>◌, with_user,
}
use fixitph_backend.Database.Policies.{quotes_visible, in_open_feed}
use fixitph_backend.Database.Writes.{
  find_quote, update_quote, update_quotes, create_quote, find_request, update_request,
  create_booking, create_notification,
}

pub record CreateQuoteDto : Type 0 where
  pub service_request_id : ℕ
  pub amount : ℕ
  pub labor_cost : Option ℕ
  pub parts_cost : Option ℕ
  pub breakdown : Option String
  pub notes : Option String
  pub estimated_duration_minutes : Option ℕ
  pub valid_until : Option ℕ

-- `prisma.provider.findFirst({ where: { id, deletedAt: null } })`; `providers` is under no policy.
unfoldable pub find_provider : ℕ → Session → Db → Option Provider
find_provider id s d = find_by (λ p. p.id == id && is_none p.deleted_at) d.providers

-- The reads before the transaction, which decide whether the account may quote at all.
unfoldable pub check_provider : ℕ → Tx (Unit {0})
check_provider provider_id = do
  row ← reads (find_provider provider_id)
  provider ← or_throw (not_found provider_not_found) row
  throw_if (is_some provider.suspended_at) (forbidden provider_suspended)
  throw_if (not (is_approved provider.verification_status)) (forbidden provider_not_verified)

unfoldable pub check_addressed : Env → ℕ → ServiceRequest → Tx (Unit {0})
check_addressed env provider_id r = do
  throw_if (is_some r.provider_id && not (holds r.provider_id provider_id))
      (forbidden request_not_for_you)
  throw_if (not (takes_quotes r.status)) (conflict request_not_open)
  throw_if (is_past r.expires_at (env.clock 0)) (conflict request_expired)

-- A request that the caller cannot see has to be in the feed.
unfoldable pub check_request : Env → ℕ → ℕ → Option ServiceRequest → Tx (Unit {0})
check_request env provider_id request_id (some r) = check_addressed env provider_id r
check_request env provider_id request_id none = do
  in_feed ← reads (λ s d. any (λ r. r.id == request_id && in_open_feed s r) d.requests)
  throw_if (not in_feed) (not_found request_not_found)

abbrev week : ℕ
week = 7 * 86_400_000

unfoldable pub new_quote : Env → ℕ → CreateQuoteDto → Quote
new_quote env provider_id dto = record {
  id = env.uuid 0;
  service_request_id = dto.service_request_id;
  provider_id = provider_id;
  amount = dto.amount;
  labor_cost = dto.labor_cost;
  parts_cost = dto.parts_cost;
  breakdown = dto.breakdown;
  notes = dto.notes;
  estimated_duration_minutes = dto.estimated_duration_minutes;
  valid_until = some (get_or dto.valid_until (env.clock 1 + week));
  status = QuoteStatus.pending;
  responded_at = none;
}

-- `if (request) …` after the insert: the status of an open request, and the customer's notice.
unfoldable pub note_quoted : ℕ → ℕ → Option ServiceRequest → Tx (Unit {0})
note_quoted quote_id request_id none = pure tt
note_quoted quote_id request_id (some r) = do
  when (is_opened r.status)
      (do _ ← update_request request_id (λ r. record r { status = RequestStatus.quoted }); pure tt)
  create_notification (record {
    user_id = r.customer_id;
    type = NotificationType.quote_received;
    subject = quote_id;
  })

unfoldable pub create_tx : Env → ℕ → CreateQuoteDto → Tx Quote
create_tx env provider_id dto = do
  addressed ← reads (find_request dto.service_request_id)
  check_request env provider_id dto.service_request_id addressed
  existing ← reads (λ s d.
      any
        (λ q.
          q.service_request_id == dto.service_request_id
          && q.provider_id == provider_id
          && is_live_quote q.status
          && quotes_visible s d q)
        d.quotes)
  throw_if existing (conflict quote_already_sent)
  quote ← create_quote (new_quote env provider_id dto)
  request ← reads (find_request dto.service_request_id)
  note_quoted quote.id dto.service_request_id request
  pure quote

pub record UpdateQuoteDto : Type 0 where
  pub amount : Option ℕ
  pub labor_cost : Option ℕ
  pub parts_cost : Option ℕ
  pub notes : Option String
  pub estimated_duration_minutes : Option ℕ
  pub valid_until : Option ℕ
  pub withdraws : Bool  -- `status === WITHDRAWN`, the only status that the DTO admits

-- A nullable column that the data sets only where the DTO has a value.
abbrev keep_or : {A : Type 0} → Option A → Option A → Option A
keep_or none old = old
keep_or (some a) old = some a

unfoldable pub revise : Env → UpdateQuoteDto → Quote → Quote
revise env dto q = record q {
  amount = get_or dto.amount q.amount;
  labor_cost = keep_or dto.labor_cost q.labor_cost;
  parts_cost = keep_or dto.parts_cost q.parts_cost;
  notes = keep_or dto.notes q.notes;
  estimated_duration_minutes = keep_or dto.estimated_duration_minutes q.estimated_duration_minutes;
  valid_until = keep_or dto.valid_until q.valid_until;
  status = if dto.withdraws then QuoteStatus.withdrawn else q.status;
  responded_at = if dto.withdraws then some (env.clock 0) else q.responded_at;
}

unfoldable pub update_tx : Env → AuthenticatedUser → ℕ → UpdateQuoteDto → Tx Quote
update_tx env user id dto = do
  row ← reads (find_quote id)
  quote ← or_throw (not_found quote_not_found) row
  throw_if (not (is_admin_role user.role) && not (holds user.provider_id quote.provider_id))
      (forbidden not_quote_owner)
  throw_if (not (is_pending quote.status)) (conflict quote_not_pending)
  update_quote id (revise env dto)

pub record AcceptQuoteDto : Type 0 where
  pub scheduled_start : ℕ
  pub payment_method : PaymentMethod

-- `minutes ? start + minutes * 60_000 : null`, where 0 minutes count as none.
abbrev pub estimated_end : ℕ → Option ℕ → Option ℕ
estimated_end start none = none
estimated_end start (some minutes) = if minutes == 0 then none else some (start + minutes * 60_000)

-- The booking that an accepted quote becomes.
unfoldable pub accepted_booking : Env → AcceptQuoteDto → Quote → ServiceRequest → Booking
accepted_booking env dto q r = record {
  id = env.uuid 0;
  quote_id = q.id;
  service_request_id = q.service_request_id;
  customer_id = r.customer_id;
  provider_id = q.provider_id;
  service_id = r.service_id;
  scheduled_start = dto.scheduled_start;
  scheduled_end = estimated_end dto.scheduled_start q.estimated_duration_minutes;
  actual_start = none;
  actual_end = none;
  status = BookingStatus.pending_confirmation;
  total_amount = q.amount;
  payment_method = dto.payment_method;
  payment_status = PaymentStatus.unpaid;
  contact_released_at = none;
  cancellation_reason = none;
  cancelled_by_id = none;
  cancelled_at = none;
  completed_at = none;
  deleted_at = none;
}

-- The quote and the request that it answers, for the customer who posted the request.
unfoldable pub load_for_customer : AuthenticatedUser → ℕ → Tx (Quote × ServiceRequest)
load_for_customer user id = do
  row ← reads (find_quote id)
  quote ← or_throw (not_found quote_not_found) row
  relation ← reads (find_request quote.service_request_id)
  request ← or_throw (database missing_relation) relation
  throw_if (not (is_admin_role user.role) && not (request.customer_id == user.id))
      (forbidden not_request_owner)
  throw_if (not (is_pending quote.status)) (conflict quote_not_pending)
  pure (quote, request)

-- Every other live quote on the request.
unfoldable pub is_sibling : Quote → Quote → Bool
is_sibling q s =
    s.service_request_id == q.service_request_id && not (s.id == q.id) && is_pending s.status

-- The writes of an acceptance, in the order of the source.
unfoldable pub accept_writes :
    Env → AuthenticatedUser → AcceptQuoteDto → Quote → ServiceRequest → Tx Booking
accept_writes env user dto quote request = do
  _ ←
      update_quote quote.id
        (λ q. record q { status = QuoteStatus.accepted; responded_at = some (env.clock 2) })
  update_quotes (is_sibling quote)
      (λ q. record q { status = QuoteStatus.rejected; responded_at = some (env.clock 3) })
  booking ← create_booking (accepted_booking env dto quote request)
  _ ← update_request quote.service_request_id (λ r. record r { status = RequestStatus.booked })
  create_notification
      (record { user_id = user.id; type = NotificationType.quote_accepted; subject = booking.id })
  pure booking

unfoldable pub accept_tx : Env → AuthenticatedUser → ℕ → AcceptQuoteDto → Tx Booking
accept_tx env user id dto = do
  (quote, request) ← load_for_customer user id
  throw_if (is_past quote.valid_until (env.clock 0)) (conflict quote_expired)
  throw_if (leb dto.scheduled_start (env.clock 1)) (bad_request schedule_in_past)
  accept_writes env user dto quote request

-- `notes: reason ? reason : undefined`
abbrev truthy_or : Option String → Option String → Option String
truthy_or none old = old
truthy_or (some String.[]) old = old
truthy_or (some (String.◌∷◌ c s)) old = some (String.◌∷◌ c s)

unfoldable pub reject_tx : Env → AuthenticatedUser → ℕ → Option String → Tx Quote
reject_tx env user id reason = do
  _ ← load_for_customer user id
  update_quote id (λ q. record q {
    status = QuoteStatus.rejected;
    responded_at = some (env.clock 0);
    notes = truthy_or reason q.notes;
  })

-- The transaction of `create`, once the reads before it have passed.
unfoldable pub create_checked :
    Env → AuthenticatedUser → ℕ → CreateQuoteDto → Db → Result (Unit {0}) → Db × Result Quote
create_checked env user provider_id dto d (err e) = (d, err e)
create_checked env user provider_id dto d (ok u) =
    with_user (to_auth_context user) none env.now (create_tx env provider_id dto) d

unfoldable pub create_as :
    Env → AuthenticatedUser → Option ℕ → CreateQuoteDto → Db → Db × Result Quote
unfolding create_checked
create_as env user none dto d = (d, err (forbidden no_provider_profile))
create_as env user (some provider_id) dto d =
    create_checked env user provider_id dto d
      (with_user anonymous none env.now (check_provider provider_id) d).1

unfoldable pub create : Env → AuthenticatedUser → CreateQuoteDto → Db → Db × Result Quote
unfolding create_as
create env user dto d = create_as env user user.provider_id dto d

unfoldable pub find_one : Env → AuthenticatedUser → ℕ → Db → Db × Result Quote
find_one env user id =
    with_user (to_auth_context user) none env.now
      (do row ← reads (find_quote id); or_throw (not_found quote_not_found) row)

unfoldable pub update : Env → AuthenticatedUser → ℕ → UpdateQuoteDto → Db → Db × Result Quote
update env user id dto = with_user (to_auth_context user) none env.now (update_tx env user id dto)

unfoldable pub accept : Env → AuthenticatedUser → ℕ → AcceptQuoteDto → Db → Db × Result Booking
accept env user id dto =
    with_user (to_auth_context user) (some "quote accepted by customer") env.now
      (accept_tx env user id dto)

unfoldable pub reject : Env → AuthenticatedUser → ℕ → Option String → Db → Db × Result Quote
reject env user id reason =
    with_user (to_auth_context user) none env.now (reject_tx env user id reason)
