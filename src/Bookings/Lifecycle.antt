-- ===== src/Bookings/Lifecycle.antt =====
-- `Actor`, `TRANSITIONS` and `assertTransition` of bookings/bookings.service.ts.
use fixitph_backend.Prelude.{Bool, true, false, Option, none, some, List, [], ◌∷◌, ◌||◌, not}
use fixitph_backend.Schema.{BookingStatus}
use fixitph_backend.Schema.BookingStatus.{
  pending_confirmation, confirmed, in_progress, completed, cancelled_by_customer,
  cancelled_by_provider, no_show_customer, no_show_provider, disputed,
}
use fixitph_backend.Errors.{
  conflict, forbidden, invalid_status_transition, not_allowed_to_transition,
}
use fixitph_backend.Transaction.{Tx, throw_if, or_throw, ◌>>=◌}

pub data Actor : Type 0 where
  customer provider admin : Actor

abbrev pub same_actor : Actor → Actor → Bool
same_actor customer customer = true
same_actor provider provider = true
same_actor admin admin = true
same_actor _ _ = false

abbrev pub includes : List Actor → Actor → Bool
includes [] a = false
includes (x ∷ xs) a = same_actor x a || includes xs a

-- `TRANSITIONS[from][to]`; `none` is `undefined`.
unfoldable pub transitions : BookingStatus → BookingStatus → Option (List Actor)
transitions pending_confirmation confirmed = some (provider ∷ admin ∷ [])
transitions pending_confirmation cancelled_by_customer = some (customer ∷ admin ∷ [])
transitions pending_confirmation cancelled_by_provider = some (provider ∷ admin ∷ [])
transitions confirmed in_progress = some (provider ∷ admin ∷ [])
transitions confirmed cancelled_by_customer = some (customer ∷ admin ∷ [])
transitions confirmed cancelled_by_provider = some (provider ∷ admin ∷ [])
transitions confirmed no_show_customer = some (provider ∷ admin ∷ [])
transitions confirmed no_show_provider = some (customer ∷ admin ∷ [])
transitions in_progress completed = some (provider ∷ admin ∷ [])
transitions in_progress disputed = some (customer ∷ provider ∷ admin ∷ [])
transitions completed disputed = some (customer ∷ admin ∷ [])
transitions disputed completed = some (admin ∷ [])
transitions disputed cancelled_by_customer = some (admin ∷ [])
transitions disputed cancelled_by_provider = some (admin ∷ [])
transitions _ _ = none

unfoldable pub assert_transition : BookingStatus → BookingStatus → Actor → Tx (Unit {0})
assert_transition from to actor = do
  allowed ← or_throw (conflict invalid_status_transition) (transitions from to)
  throw_if (not (includes allowed actor)) (forbidden not_allowed_to_transition)
