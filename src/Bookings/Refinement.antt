-- ===== src/Bookings/Refinement.antt =====
-- The pattern of the operations of BookingsService that move a booking: load, check, write, notify.
use fixitph_backend.Prelude.{
  ℕ, true, false, some, List, ◌==◌, find_by, no_two, ◌≡◌, sym, ◌⊎◌, inl, inr, arith, Option-cases,
  Bool-cases, find_by-widen,
}
use fixitph_backend.Schema.{Booking, BookingStatus, Db, same_status}
use fixitph_backend.Transaction.{AuthenticatedUser, Session, Tx, ◌>>=◌, ◌>>◌, continue}
use fixitph_backend.Transaction.Keeps.{Leaves, Leaves-continue}
use fixitph_backend.Database.Constraints.{booking_clash}
use fixitph_backend.Database.Writes.{find_booking, store_booking, update_booking}
use fixitph_backend.Database.WritesKeep.{Leaves-admitted, found_id}
use fixitph_backend.Bookings.Lifecycle.{Actor, includes, transitions, assert_transition}
use fixitph_backend.Bookings.Service.{Loaded, find_live_booking, actor_for, load_for_actor}
use fixitph_backend.Bookings.OtherTables.{IsSilent}
use fixitph_backend.Bookings.Spec.{view, Step, move, Replaces, IsOf}

pub transitions_change :
    (from to : BookingStatus) (allowed : List Actor)
    → transitions from to ≡ some allowed
    → same_status from to ≡ false
unfolding transitions same_status
transitions_change from to allowed h = ground arith

-- Primary keys are unique, so all the searches for a booking by its identifier agree.
pub find_booking-live :
    (id : ℕ) (s : Session) (d : Db) (b : Booking)
    → no_two booking_clash d.bookings ≡ true
    → find_live_booking id s d ≡ some b
    → find_booking id s d ≡ some b
unfolding find_booking find_live_booking booking_clash
find_booking-live id s d b u h =
    find_by-widen booking_clash _ _ d.bookings b (λ y k. ground arith) (λ y z k l. ground arith) u h

pub found_by_id :
    (id : ℕ) (s : Session) (d : Db) (b : Booking)
    → no_two booking_clash d.bookings ≡ true
    → find_booking id s d ≡ some b
    → find_by (λ r. r.id == id) d.bookings ≡ some b
unfolding find_booking booking_clash
found_by_id id s d b u h =
    find_by-widen booking_clash _ _ d.bookings b (λ y k. ground arith) (λ y z k l. ground arith) u h

-- The shape of the operations that move a booking along an edge of the lifecycle.
unfoldable pub transition :
    {A : Type 0}
    → AuthenticatedUser
    → ℕ
    → (Actor → BookingStatus)
    → (Loaded → Booking → Booking)
    → (Loaded → Booking → Tx A)
    → Tx A
transition user id target change rest = do
  l ← load_for_actor id user
  assert_transition l.status (target l.actor) l.actor
  updated ← update_booking id (change l)
  rest l updated

-- What such an operation writes to the booking.
pub record Moves (target : Actor → BookingStatus) (change : Loaded → Booking → Booking)
    : Type 0 where
  pub status : (l : Loaded) (b : Booking) → (change l b).status ≡ target l.actor
  pub quote : (l : Loaded) (b : Booking) → (change l b).quote_id ≡ b.quote_id
  pub customer : (l : Loaded) (b : Booking) → (change l b).customer_id ≡ b.customer_id
  pub provider : (l : Loaded) (b : Booking) → (change l b).provider_id ≡ b.provider_id
  pub contact :
      (l : Loaded) (b : Booking)
      → ((change l b).contact_released_at ≡ b.contact_released_at)
        ⊎ (target l.actor ≡ BookingStatus.confirmed)

module _ (user : AuthenticatedUser) (s : Session) (of : IsOf user s) (d : Db)
    (unique : no_two booking_clash d.bookings ≡ true) where
  move_stores :
      (old b : Booking) (actor : Actor) (allowed : List Actor)
      → Replaces (view d) old b
      → actor_for user old ≡ some actor
      → transitions old.status b.status ≡ some allowed
      → includes allowed actor ≡ true
      → (b.contact_released_at ≡ old.contact_released_at) ⊎ (b.status ≡ BookingStatus.confirmed)
      → Leaves (λ e. Step user (view d) (view e)) (store_booking s d old b)
  unfolding store_booking
  move_stores old b actor allowed r a t i c =
      rw (transitions_change old.status b.status allowed t) (
        Leaves-admitted (λ e. Step user (view d) (view e)) _ _ _ _ _
          λ _ _. move s old b actor allowed of r a t i c)

  -- The update of an operation that moves the booking.
  pub move_updates :
      (id : ℕ) (old : Booking) (change : Booking → Booking) (actor : Actor) (allowed : List Actor)
      → find_booking id s d ≡ some old
      → (change old).quote_id ≡ old.quote_id
      → (change old).customer_id ≡ old.customer_id
      → (change old).provider_id ≡ old.provider_id
      → actor_for user old ≡ some actor
      → transitions old.status (change old).status ≡ some allowed
      → includes allowed actor ≡ true
      → ((change old).contact_released_at ≡ old.contact_released_at)
        ⊎ ((change old).status ≡ BookingStatus.confirmed)
      → Leaves (λ e. Step user (view d) (view e)) (update_booking id change s d)
  unfolding update_booking
  move_updates id old change actor allowed f q c p a t i k =
      rw (f, update_booking)
        (move_stores old (record (change old) { id = id }) actor allowed
          (record {
            held = found_by_id id s d old unique f;
            same_id = sym (found_id id s d old f);
            same_quote = q;
            same_customer = c;
            same_provider = p;
          })
          a t i k)

  module _ {A : Type 0} (id : ℕ) (target : Actor → BookingStatus)
      (change : Loaded → Booking → Booking) (moves : Moves target change)
      (rest : Loaded → Booking → Tx A)
      (quiet : (l : Loaded) (b : Booking) → IsSilent (rest l b)) where
    moved_then_rest :
        (l : Loaded) (b : Booking) (allowed : List Actor)
        → find_live_booking id s d ≡ some b
        → actor_for user b ≡ some l.actor
        → transitions b.status (target l.actor) ≡ some allowed
        → includes allowed l.actor ≡ true
        → Leaves
            (λ e. Step user (view d) (view e))
            (continue (rest l) s (update_booking id (change l) s d))
    moved_then_rest l b allowed e f g i =
        Leaves-continue {P = λ e. Step user (view d) (view e)} (rest l) s _
          (λ c. (quiet l c).keeps (Step user (view d)))
          (move_updates id b (change l) l.actor allowed (find_booking-live id s d b unique e)
            (moves.quote l b) (moves.customer l b) (moves.provider l b) f (rw (moves.status l b) g)
            i (rw (moves.status l b) (moves.contact l b)))

    pub transition_steps :
        Leaves (λ e. Step user (view d) (view e)) (transition user id target change rest s d)
    unfolding transition load_for_actor assert_transition ◌>>=◌
    transition_steps = elim (Option-cases (find_live_booking id s d)) [
      | inl e ↦ rw (e, ◌>>=◌) tt
      | inr (b, e) ↦ elim (Option-cases (actor_for user b)) [
        | inl f ↦ rw (e, f, ◌>>=◌) tt
        | inr (a, f) ↦
            rw (e, f, ◌>>=◌)
              (elim (Option-cases (transitions b.status (target a))) [
                | inl g ↦ rw (g, ◌>>=◌) tt
                | inr (allowed, g) ↦
                    rw (g, ◌>>=◌)
                      (elim (Bool-cases (includes allowed a)) [
                        | inl i ↦ rw (i, ◌>>=◌) (moved_then_rest _ b allowed e f g i)
                        | inr i ↦ rw (i, ◌>>=◌) tt
                      ])
              ])
      ]
    ]
