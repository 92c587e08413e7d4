-- ===== src/Requests/Service.antt =====
-- The operations of RequestsService in requests/requests.service.ts.
use fixitph_backend.Prelude.{
  ℕ, Bool, true, false, Option, none, some, List, [], ◌∷◌, String, ◌+◌, ◌*◌, ◌&&◌, ◌==◌, not,
  is_none, is_some, holds, any, if◌then◌else◌, find_by, filter_by,
}
use fixitph_backend.Schema.{
  RequestStatus, RequestUrgency, Provider, ServiceRequest, Quote, NotificationType, Db,
  is_admin_role, is_approved,
}
use fixitph_backend.Schema.RequestStatus.{cancelled, closed}
use fixitph_backend.Errors.{
  not_found, forbidden, conflict, bad_request, Result, ok, err, category_not_found,
  provider_not_found, provider_unavailable, provider_not_accepting, service_not_found,
  service_provider_mismatch, request_not_found, not_a_party,
}
use fixitph_backend.Transaction.{
  Tx, Session, Env, AuthenticatedUser, to_auth_context, anonymous, pure, throw_if, or_throw, when,
  reads, ◌>>=◌, ◌>>◌, with_user,
}
use fixitph_backend.Database.Policies.{quotes_visible, holds_both}
use fixitph_backend.Database.Writes.{
  find_request, update_request, create_request, create_notification,
}
use fixitph_backend.Bookings.Lifecycle.{Actor, customer, provider, admin}
use fixitph_backend.Bookings.Service.{user_id_of}
use fixitph_backend.Requests.Lifecycle.{assert_transition}

pub record CreateRequestDto : Type 0 where
  pub provider_id : Option ℕ
  pub service_id : Option ℕ
  pub category_id : ℕ
  pub title : String
  pub description : String
  pub budget_min : Option ℕ
  pub budget_max : Option ℕ
  pub urgency : RequestUrgency
  pub preferred_at : Option ℕ
  pub city : String
  pub barangay : Option String
  pub address_line1 : Option String
  pub latitude : Option String
  pub longitude : Option String

unfoldable pub check_category : ℕ → Tx (Unit {0})
check_category id = do
  known ← reads (λ s d. any (λ c. c.id == id && c.is_active) d.categories)
  throw_if (not known) (bad_request category_not_found)

-- Business rule 2: verified, not suspended, and open for work.
unfoldable pub check_provider : Option ℕ → Tx (Unit {0})
check_provider none = pure tt
check_provider (some id) = do
  row ← reads (λ s d. find_by (λ p. p.id == id && is_none p.deleted_at) d.providers)
  found ← or_throw (bad_request provider_not_found) row
  throw_if (is_some found.suspended_at) (forbidden provider_unavailable)
  throw_if (not (is_approved found.verification_status)) (forbidden provider_unavailable)
  throw_if (not found.is_accepting_bookings) (conflict provider_not_accepting)

unfoldable pub check_service : Option ℕ → Option ℕ → Tx (Unit {0})
check_service none provider_id = pure tt
check_service (some id) provider_id = do
  row ← reads (λ s d. find_by (λ v. v.id == id && is_none v.deleted_at && v.is_active) d.services)
  service ← or_throw (bad_request service_not_found) row
  throw_if (is_some provider_id && not (holds provider_id service.provider_id))
      (bad_request service_provider_mismatch)

unfoldable pub check_create : CreateRequestDto → Tx (Unit {0})
check_create dto = do
  check_category dto.category_id
  check_provider dto.provider_id
  check_service dto.service_id dto.provider_id

abbrev two_weeks : ℕ
two_weeks = 14 * 86_400_000

unfoldable pub new_request : Env → AuthenticatedUser → CreateRequestDto → ServiceRequest
new_request env user dto = record {
  id = env.uuid 0;
  customer_id = user.id;
  provider_id = dto.provider_id;
  service_id = dto.service_id;
  category_id = dto.category_id;
  title = dto.title;
  description = dto.description;
  budget_min = dto.budget_min;
  budget_max = dto.budget_max;
  urgency = dto.urgency;
  preferred_at = dto.preferred_at;
  city = dto.city;
  barangay = dto.barangay;
  address_line1 = dto.address_line1;
  latitude = dto.latitude;
  longitude = dto.longitude;
  status = RequestStatus.opened;
  expires_at = some (env.clock 0 + two_weeks);
  closed_at = none;
}

unfoldable pub create : Env → AuthenticatedUser → CreateRequestDto → Db → Db × Result ServiceRequest
create env user dto d = elim (with_user anonymous none env.now (check_create dto) d).1 [
  | err e ↦ (d, err e)
  | ok u ↦
      with_user (to_auth_context user) none env.now (create_request (new_request env user dto)) d
]

-- `none` where the source throws. Any provider who can see the request acts as its provider.
unfoldable pub actor_for : AuthenticatedUser → ServiceRequest → Option Actor
actor_for user r =
    if is_admin_role user.role
    then some admin
    else (if r.customer_id == user.id
        then some customer
        else (if holds_both user.provider_id r.provider_id
            then some provider
            else (if is_some user.provider_id then some provider else none)))

-- `CANCELLED` or `CLOSED`
abbrev pub ends : RequestStatus → Bool
ends cancelled = true
ends closed = true
ends _ = false

-- `distinct: ['providerId']`: one quote for each provider.
unfoldable pub distinct_providers : List Quote → List ℕ
distinct_providers [] = []
distinct_providers (q ∷ quotes) =
    let rest = distinct_providers quotes in
    if any (λ p. p == q.provider_id) rest then rest else q.provider_id ∷ rest

unfoldable pub quoted_providers : ℕ → Session → Db → List ℕ
quoted_providers id s d =
    distinct_providers
      (filter_by (λ q. q.service_request_id == id && quotes_visible s d q) d.quotes)

unfoldable pub notify_provider : ℕ → Option ℕ → Tx (Unit {0})
notify_provider id none = pure tt
notify_provider id (some user) =
    create_notification (record { user_id = user; type = NotificationType.system; subject = id })

-- The loop over the quotes found.
unfoldable pub notify_quoted : ℕ → List ℕ → Tx (Unit {0})
notify_quoted id [] = pure tt
notify_quoted id (p ∷ providers) = do
  owner ← reads (λ s d. user_id_of (find_by (λ (r : Provider). r.id == p) d.providers))
  notify_provider id owner
  notify_quoted id providers

unfoldable pub update_status_tx : Env → AuthenticatedUser → ℕ → RequestStatus → Tx ServiceRequest
update_status_tx env user id status = do
  row ← reads (find_request id)
  current ← or_throw (not_found request_not_found) row
  actor ← or_throw (forbidden not_a_party) (actor_for user current)
  assert_transition current.status status actor
  updated ← update_request id (λ r. record r {
    status = status;
    closed_at = if ends status then some (env.clock 0) else r.closed_at;
  })
  providers ← reads (quoted_providers id)
  when (ends status) (notify_quoted id providers)
  pure updated

unfoldable pub update_status :
    Env → AuthenticatedUser → ℕ → RequestStatus → Db → Db × Result ServiceRequest
update_status env user id status =
    with_user (to_auth_context user) none env.now (update_status_tx env user id status)

unfoldable pub find_one : Env → AuthenticatedUser → ℕ → Db → Db × Result ServiceRequest
find_one env user id =
    with_user (to_auth_context user) none env.now
      (do row ← reads (find_request id); or_throw (not_found request_not_found) row)
