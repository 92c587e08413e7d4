-- ===== src/Database/Policies.antt =====
-- The functions of the schema `app`, and the row level security policies of
-- prisma/migrations/20260101000200_security.
use fixitph_backend.Prelude.{
  ℕ, Bool, false, Option, none, some, ◌&&◌, ◌||◌, ◌==◌, holds, is_none, is_past, not, find_by, any,
}
use fixitph_backend.Schema.{
  UserRole, is_admin_role, Provider, ServiceRequest, Quote, Booking, Review, Db, takes_quotes,
}
use fixitph_backend.Transaction.{Session}

abbrev role_is_admin : Option UserRole → Bool
role_is_admin none = false
role_is_admin (some r) = is_admin_role r

unfoldable pub is_admin : Session → Bool
is_admin s = role_is_admin s.role

abbrev provider_id_of : Option Provider → Option ℕ
provider_id_of none = none
provider_id_of (some p) = some p.id

unfoldable pub current_provider_id : Session → Db → Option ℕ
current_provider_id s d =
    provider_id_of (find_by (λ p. holds s.user_id p.user_id && is_none p.deleted_at) d.providers)

unfoldable pub owns_service_request : Session → Db → ℕ → Bool
owns_service_request s d request =
    any (λ r. r.id == request && holds s.user_id r.customer_id) d.requests

unfoldable pub provider_has_quoted : Session → Db → ℕ → Bool
provider_has_quoted s d request =
    any (λ q. q.service_request_id == request && holds (current_provider_id s d) q.provider_id)
      d.quotes

-- `bookings_select` and `bookings_update`
unfoldable pub bookings_visible : Session → Db → Booking → Bool
bookings_visible s d b =
    is_admin s || holds s.user_id b.customer_id || holds (current_provider_id s d) b.provider_id

unfoldable pub bookings_insert : Session → Booking → Bool
bookings_insert s b = is_admin s || holds s.user_id b.customer_id

-- `booking_status_history_select`
unfoldable pub history_visible : Session → Db → ℕ → Bool
history_visible s d booking =
    is_admin s
    || any
        (λ b.
          b.id == booking
          && (holds s.user_id b.customer_id || holds (current_provider_id s d) b.provider_id))
        d.bookings

-- Two nullable columns that are equal and not null.
abbrev pub holds_both : Option ℕ → Option ℕ → Bool
holds_both none o = false
holds_both (some p) o = holds o p

-- `service_requests_select` and `service_requests_update`
unfoldable pub requests_visible : Session → Db → ServiceRequest → Bool
requests_visible s d r =
    is_admin s
    || holds s.user_id r.customer_id
    || holds_both r.provider_id (current_provider_id s d)
    || provider_has_quoted s d r.id

unfoldable pub requests_insert : Session → ServiceRequest → Bool
requests_insert s r = is_admin s || holds s.user_id r.customer_id

-- `quotes_select` and `quotes_update`
unfoldable pub quotes_visible : Session → Db → Quote → Bool
quotes_visible s d q =
    is_admin s
    || holds (current_provider_id s d) q.provider_id
    || owns_service_request s d q.service_request_id

unfoldable pub quotes_insert : Session → Db → Quote → Bool
quotes_insert s d q = is_admin s || holds (current_provider_id s d) q.provider_id

-- `reviews_select`
unfoldable pub reviews_visible : Session → Db → Review → Bool
reviews_visible s d r =
    is_admin s
    || holds s.user_id r.author_id
    || holds (current_provider_id s d) r.provider_id
    || (is_none r.deleted_at && not r.is_hidden)

unfoldable pub reviews_insert : Session → Review → Bool
reviews_insert s r = is_admin s || holds s.user_id r.author_id

unfoldable pub reviews_update : Session → Db → Review → Bool
reviews_update s d r =
    is_admin s || holds s.user_id r.author_id || holds (current_provider_id s d) r.provider_id

-- The WHERE clause of the view `open_service_request_feed`.
unfoldable pub in_open_feed : Session → ServiceRequest → Bool
in_open_feed s r =
    is_none r.provider_id && takes_quotes r.status && not (is_past r.expires_at s.now)
