-- ===== src/Bookings/Spec.antt =====
-- What a call may do to the bookings: the lifecycle as a step relation on the bookings and their
-- status history, with no sessions, policies, reads or other tables.
use fixitph_backend.Prelude.{
  Bool, true, false, none, some, List, [], ◌∷◌, ◌==◌, ◌||◌, holds, find_by, any, update_by, ◌≡◌,
  ◌⊎◌,
}
use fixitph_backend.Schema.{Booking, BookingStatusHistory, Db, is_admin_role}
use fixitph_backend.Schema.BookingStatus.{
  pending_confirmation, confirmed, in_progress, completed, disputed,
}
use fixitph_backend.Transaction.{AuthenticatedUser, Session, to_auth_context}
use fixitph_backend.Database.Constraints.{booking_clash}
use fixitph_backend.Database.Writes.{status_change}
use fixitph_backend.Bookings.Lifecycle.{Actor, includes, transitions}
use fixitph_backend.Bookings.Service.{actor_for, is_reschedulable}

pub record View : Type 0 where
  pub bookings : List Booking
  pub history : List BookingStatusHistory

abbrev pub view : Db → View
view d = record { bookings = d.bookings; history = d.history }

-- The booking that is replaced, and what no call changes of it.
pub record Replaces (v : View) (old b : Booking) : Type 0 where
  pub held : find_by (λ r. r.id == b.id) v.bookings ≡ some old
  pub same_id : b.id ≡ old.id
  pub same_quote : b.quote_id ≡ old.quote_id
  pub same_customer : b.customer_id ≡ old.customer_id
  pub same_provider : b.provider_id ≡ old.provider_id

abbrev pub replaced : Booking → List Booking → List Booking
replaced b = update_by (λ r. r.id == b.id) (λ _. b)

-- The session of a call by this user.
abbrev pub IsOf : AuthenticatedUser → Session → Type 0
IsOf user s = s.context ≡ to_auth_context user

abbrev pub may_create : AuthenticatedUser → Booking → Bool
may_create user b = b.customer_id == user.id || is_admin_role user.role

abbrev pub may_dispute : AuthenticatedUser → Booking → Bool
may_dispute user b =
    b.customer_id == user.id || holds user.provider_id b.provider_id || is_admin_role user.role

pub data Step (user : AuthenticatedUser) (v : View) : View → Type 0 where
  stay : Step user v v
  -- A new booking, made by its customer or an administrator, waits for the provider's confirmation.
  create :
      (s : Session) (b : Booking)
      → IsOf user s
      → may_create user b ≡ true
      → b.status ≡ pending_confirmation
      → b.contact_released_at ≡ none
      → any (booking_clash b) v.bookings ≡ false
      → Step user v
          (record { bookings = b ∷ v.bookings; history = status_change s b none v.history })
  -- An edge of the lifecycle, taken by an actor to whom it is open. Only the confirmation touches
  -- the release of the customer's contact.
  move :
      (s : Session) (old b : Booking) (actor : Actor) (allowed : List Actor)
      → IsOf user s
      → Replaces v old b
      → actor_for user old ≡ some actor
      → transitions old.status b.status ≡ some allowed
      → includes allowed actor ≡ true
      → (b.contact_released_at ≡ old.contact_released_at) ⊎ (b.status ≡ confirmed)
      → Step user v (record {
        bookings = replaced b v.bookings;
        history = status_change s b (some old.status) v.history;
      })
  -- A dispute over work that has begun, raised by one of its parties or an administrator.
  dispute :
      (s : Session) (old b : Booking)
      → IsOf user s
      → Replaces v old b
      → may_dispute user old ≡ true
      → (old.status ≡ in_progress) ⊎ (old.status ≡ completed)
      → b.status ≡ disputed
      → b.contact_released_at ≡ old.contact_released_at
      → Step user v (record {
        bookings = replaced b v.bookings;
        history = status_change s b (some old.status) v.history;
      })
  -- A new schedule by one who has a part in the booking; it leaves the status and the history alone.
  reschedule :
      (old b : Booking) (actor : Actor)
      → Replaces v old b
      → actor_for user old ≡ some actor
      → is_reschedulable old.status ≡ true
      → b.status ≡ old.status
      → b.contact_released_at ≡ old.contact_released_at
      → Step user v (record { bookings = replaced b v.bookings; history = v.history })

-- One step by each of these users, in their order.
unfoldable pub Steps : List AuthenticatedUser → View → View → Type 0
Steps [] v w = v ≡ w
Steps (user ∷ users) v w = (u : View) × Step user v u × Steps users u w
