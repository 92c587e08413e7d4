-- ===== src/Requests/Lifecycle.antt =====
-- `TRANSITIONS` of requests/requests.service.ts, and the check that `updateStatus` makes by it.
use fixitph_backend.Prelude.{Option, none, some, List, [], ◌∷◌, not}
use fixitph_backend.Schema.{RequestStatus}
use fixitph_backend.Schema.RequestStatus.{
  draft, opened, quoted, accepted, booked, cancelled, expired, closed,
}
use fixitph_backend.Errors.{
  conflict, forbidden, invalid_status_transition, not_allowed_to_transition,
}
use fixitph_backend.Transaction.{Tx, throw_if, or_throw, ◌>>=◌}
use fixitph_backend.Bookings.Lifecycle.{Actor, customer, provider, admin, includes}

unfoldable pub transitions : RequestStatus → RequestStatus → Option (List Actor)
transitions draft opened = some (customer ∷ admin ∷ [])
transitions draft cancelled = some (customer ∷ admin ∷ [])
transitions opened quoted = some (provider ∷ admin ∷ [])
transitions opened cancelled = some (customer ∷ admin ∷ [])
transitions opened expired = some (admin ∷ [])
transitions quoted accepted = some (customer ∷ admin ∷ [])
transitions quoted cancelled = some (customer ∷ admin ∷ [])
transitions quoted expired = some (admin ∷ [])
transitions accepted booked = some (customer ∷ admin ∷ [])
transitions accepted cancelled = some (customer ∷ admin ∷ [])
transitions booked closed = some (customer ∷ provider ∷ admin ∷ [])
transitions _ _ = none

unfoldable pub assert_transition : RequestStatus → RequestStatus → Actor → Tx (Unit {0})
assert_transition from to actor = do
  allowed ← or_throw (conflict invalid_status_transition) (transitions from to)
  throw_if (not (includes allowed actor)) (forbidden not_allowed_to_transition)
