-- ===== src/Bookings/Loading.antt =====
-- `loadForActor` and `assertTransition` of BookingsService, where they succeed.
use fixitph_backend.Prelude.{ℕ, true, Option, some, List, ◌==◌, find_by, no_two, ◌≡◌, arith}
use fixitph_backend.Schema.{Booking, BookingStatus, Db}
use fixitph_backend.Transaction.{AuthenticatedUser, Session, pure}
use fixitph_backend.Transaction.Returns.{
  Returns, Returns-reads, Returns-or_throw, Returns-throw_if_last,
}
use fixitph_backend.Database.Constraints.{booking_clash}
use fixitph_backend.Database.Writes.{find_booking}
use fixitph_backend.Bookings.Lifecycle.{Actor, transitions, includes, assert_transition}
use fixitph_backend.Bookings.Refinement.{find_booking-live, found_by_id}
use fixitph_backend.Bookings.Service.{Loaded, load_for_actor, find_live_booking, actor_for}

module _ (user : AuthenticatedUser) (id : ℕ) (s : Session) (d : Db) where
  pub Returns-load :
      (Q : Loaded → Db → Type 0)
      → ((b : Booking) (a : Actor) (owner : Option ℕ)
          → find_live_booking id s d ≡ some b
          → actor_for user b ≡ some a
          → Q
              (record {
                id = b.id;
                status = b.status;
                customer_id = b.customer_id;
                provider_id = b.provider_id;
                provider_user_id = owner;
                actor = a;
              })
              d)
      → Returns Q (load_for_actor id user s d)
  unfolding load_for_actor pure
  Returns-load Q h = Returns-reads _ _ _ _ _ (
      Returns-or_throw _ _ _ _ _ _
        λ b e. Returns-or_throw _ _ _ _ _ _ λ a f. Returns-reads _ _ _ _ _ (h b a _ e f))

  pub Returns-assert :
      (from to : BookingStatus) (a : Actor) (Q : Unit {0} → Db → Type 0)
      → ((allowed : List Actor)
          → transitions from to ≡ some allowed
          → includes allowed a ≡ true
          → Q tt d)
      → Returns Q (assert_transition from to a s d)
  unfolding assert_transition
  Returns-assert from to a Q h =
      Returns-or_throw _ _ _ _ _ _
        λ allowed e. Returns-throw_if_last _ _ _ _ _ λ i. h allowed e (ground (arith, i))

module _ (user : AuthenticatedUser) (id : ℕ) (d : Db) (old : Booking)
    (unique : no_two booking_clash d.bookings ≡ true)
    (held : find_by (λ x. x.id == id) d.bookings ≡ some old) (s : Session) where
  pub found_old : (b : Booking) → find_booking id s d ≡ some b → b ≡ old
  found_old b f = ground (arith, found_by_id id s d b unique, held)

  pub live_old : (b : Booking) → find_live_booking id s d ≡ some b → b ≡ old
  live_old b f = found_old b (find_booking-live id s d b unique f)
