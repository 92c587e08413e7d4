-- ===== src/Examples/World.antt =====
-- One provider, one customer, and the databases along one job.
use fixitph_backend.Prelude.{ℕ, Option, none, some, List, [], ◌∷◌, true}
use fixitph_backend.Schema.{
  UserRole, Provider, ServiceRequest, RequestStatus, RequestUrgency, Quote, QuoteStatus, Booking,
  BookingStatus, BookingStatusHistory, VerificationStatus, PaymentMethod, PaymentStatus, Db,
}
use fixitph_backend.Transaction.{Env, AuthenticatedUser}
use fixitph_backend.Bookings.Service.{UpdateBookingDto, CompleteBookingDto}
use fixitph_backend.Quotes.Service.{CreateQuoteDto, AcceptQuoteDto}
use fixitph_backend.Requests.Service.{CreateRequestDto}

-- The time of a call, and the identifier of the row that it inserts.
abbrev pub env_at : ℕ → ℕ → Env
env_at now id = record {
  now = now;
  clock = λ i. now;
  uuid = λ i. id;
  halves_up = λ sum count. true;
}

abbrev pub ana : AuthenticatedUser
ana = record {
  id = 20;
  email = "ana@example.com";
  role = UserRole.customer;
  provider_id = none;
  session_id = 1;
}

abbrev pub ben : AuthenticatedUser
ben = record {
  id = 10;
  email = "ben@example.com";
  role = UserRole.provider;
  provider_id = some 1;
  session_id = 2;
}

-- Someone else.
abbrev pub eve : AuthenticatedUser
eve = record {
  id = 30;
  email = "eve@example.com";
  role = UserRole.customer;
  provider_id = none;
  session_id = 3;
}

abbrev pub ben_profile : Provider
ben_profile = record {
  id = 1;
  user_id = 10;
  verification_status = VerificationStatus.approved;
  is_accepting_bookings = true;
  rating_avg = 0;
  rating_count = 0;
  completed_jobs_count = 4;
  suspended_at = none;
  deleted_at = none;
}

abbrev pub seed : Db
seed = record {
  providers = ben_profile ∷ [];
  categories = (record { id = 1; is_active = true }) ∷ [];
  services = [];
  requests = [];
  quotes = [];
  bookings = [];
  history = [];
  disputes = [];
  notifications = [];
  reviews = [];
  reports = [];
  admin_actions = [];
}

abbrev pub post : CreateRequestDto
post = record {
  provider_id = none;
  service_id = none;
  category_id = 1;
  title = "Leaking tap";
  description = "The kitchen tap drips.";
  budget_min = none;
  budget_max = none;
  urgency = RequestUrgency.flexible;
  preferred_at = none;
  city = "Cebu";
  barangay = none;
  address_line1 = none;
  latitude = none;
  longitude = none;
}

abbrev pub offer : CreateQuoteDto
offer = record {
  service_request_id = 100;
  amount = 50_000;
  labor_cost = none;
  parts_cost = none;
  breakdown = none;
  notes = none;
  estimated_duration_minutes = some 60;
  valid_until = none;
}

abbrev pub acceptance : AcceptQuoteDto
acceptance = record { scheduled_start = 5000; payment_method = PaymentMethod.cash }

abbrev pub request_with : RequestStatus → ServiceRequest
request_with status = record {
  id = 100;
  customer_id = 20;
  provider_id = none;
  service_id = none;
  category_id = 1;
  title = "Leaking tap";
  description = "The kitchen tap drips.";
  budget_min = none;
  budget_max = none;
  urgency = RequestUrgency.flexible;
  preferred_at = none;
  city = "Cebu";
  barangay = none;
  address_line1 = none;
  latitude = none;
  longitude = none;
  status = status;
  expires_at = some 1_209_601_000;
  closed_at = none;
}

abbrev pub quote_with : QuoteStatus → Option ℕ → Quote
quote_with status at = record {
  id = 200;
  service_request_id = 100;
  provider_id = 1;
  amount = 50_000;
  labor_cost = none;
  parts_cost = none;
  breakdown = none;
  notes = none;
  estimated_duration_minutes = some 60;
  valid_until = some 604_802_000;
  status = status;
  responded_at = at;
}

abbrev pub posted : Db
posted = record seed { requests = request_with RequestStatus.opened ∷ [] }

abbrev pub quoted : Db
quoted = record seed {
  requests = request_with RequestStatus.quoted ∷ [];
  quotes = quote_with QuoteStatus.pending none ∷ [];
}

abbrev pub booking_with : BookingStatus → Booking
booking_with status = record {
  id = 300;
  quote_id = 200;
  service_request_id = 100;
  customer_id = 20;
  provider_id = 1;
  service_id = none;
  scheduled_start = 5000;
  scheduled_end = some 3_605_000;
  actual_start = none;
  actual_end = none;
  status = status;
  total_amount = 50_000;
  payment_method = PaymentMethod.cash;
  payment_status = PaymentStatus.unpaid;
  contact_released_at = none;
  cancellation_reason = none;
  cancelled_by_id = none;
  cancelled_at = none;
  completed_at = none;
  deleted_at = none;
}

abbrev pub entry : Option BookingStatus → BookingStatus → BookingStatusHistory
entry from to = record {
  booking_id = 300;
  from_status = from;
  to_status = to;
  changed_by_id = some 20;
  reason = none;
}

-- With one booking, and its status history.
abbrev pub booked : Booking → List BookingStatusHistory → Db
booked b history = record seed {
  requests = request_with RequestStatus.booked ∷ [];
  quotes = quote_with QuoteStatus.accepted (some 3000) ∷ [];
  bookings = b ∷ [];
  history = history;
}

abbrev pub pending_history : List BookingStatusHistory
pending_history = entry none BookingStatus.pending_confirmation ∷ []

abbrev pub working_history : List BookingStatusHistory
working_history =
    entry (some BookingStatus.confirmed) BookingStatus.in_progress
    ∷ entry (some BookingStatus.pending_confirmation) BookingStatus.confirmed
    ∷ pending_history

abbrev pub later : UpdateBookingDto
later = record { scheduled_start = some 9000; scheduled_end = none; payment_method = none }

abbrev pub report : CompleteBookingDto
report = record { final_amount = some 45_000; payment_status = none; notes = none }
