-- ===== src/Bookings/Stepping.antt =====
-- Rules for transactions against the lifecycle relation of Bookings/Spec.antt.
use fixitph_backend.Prelude.{
  ℕ, Option, String, true, false, ◌∷◌, ◌≡◌, refl, sym, ap, subst, ◌∙◌, ◌⊎◌, inl, inr, none, some,
  no_two, arith, find_by, ◌==◌, Option-cases,
}
use mathlib.Core.Option.{some-injective}
use fixitph_backend.Schema.{Booking, BookingStatus, Db, same_status}
use fixitph_backend.Transaction.{AuthenticatedUser, to_auth_context, Session, Tx, ◌>>=◌, with_user}
use fixitph_backend.Transaction.Keeps.{Leaves, Leaves-continue, with_user-leaves}
use fixitph_backend.Errors.{Result, ok, err}
use fixitph_backend.Database.Constraints.{booking_clash}
use fixitph_backend.Database.Writes.{
  create_booking, find_booking, update_booking, store_booking, status_change,
}
use fixitph_backend.Database.WritesKeep.{Leaves-admitted, found_id}
use fixitph_backend.Bookings.Spec.{View, view, Step, IsOf, may_create, may_dispute}
use fixitph_backend.Bookings.OtherTables.{IsSilent}
use fixitph_backend.Bookings.Refinement.{found_by_id}

-- From the view `v`, whatever the other tables hold.
pub record TakesStep {A : Type 0} (user : AuthenticatedUser) (v : View) (m : Tx A) : Type 0 where
  pub at :
      (s : Session) (d : Db) → IsOf user s → view d ≡ v → Leaves (λ e. Step user v (view e)) (m s d)

abbrev pub HasBegun : Booking → Type 0
HasBegun b = (b.status ≡ BookingStatus.in_progress) ⊎ (b.status ≡ BookingStatus.completed)

begun_not_disputed :
    (a : BookingStatus)
    → (a ≡ BookingStatus.in_progress) ⊎ (a ≡ BookingStatus.completed)
    → same_status a BookingStatus.disputed ≡ false
unfolding same_status
begun_not_disputed a h = ground arith

module _ (user : AuthenticatedUser) (v : View) where
  pub TakesStep-silent : {A : Type 0} (m : Tx A) → IsSilent m → TakesStep user v m
  TakesStep-silent m k = record {
    at = λ s d _ e. (k.keeps (Step user v)).at s d (subst (Step user v) (sym e) Step.stay);
  }

  pub TakesStep-then_silent :
      {A B : Type 0} (m : Tx A) (f : A → Tx B)
      → TakesStep user v m
      → ((a : A) → IsSilent (f a))
      → TakesStep user v (m >>= f)
  unfolding ◌>>=◌
  TakesStep-then_silent m f k q = record {
    at = λ s d of e.
        Leaves-continue {P = λ e. Step user v (view e)} f s (m s d) (λ a. (q a).keeps (Step user v))
          (k.at s d of e);
  }

  continue_step :
      {A B : Type 0} (f : A → Tx B) (s : Session) (r : Result (A × Db))
      → IsOf user s
      → ((a : A) → TakesStep user v (f a))
      → Leaves (λ e. view e ≡ v) r
      → Leaves (λ e. Step user v (view e)) (fixitph_backend.Transaction.continue f s r)
  continue_step f s (ok (a, d)) of k h = (k a).at s d of h
  continue_step f s (err e) of k h = tt

  pub TakesStep-after_silent :
      {A B : Type 0} (m : Tx A) (f : A → Tx B)
      → IsSilent m
      → ((a : A) → TakesStep user v (f a))
      → TakesStep user v (m >>= f)
  unfolding ◌>>=◌
  TakesStep-after_silent m f q k = record {
    at = λ s d of e. continue_step f s (m s d) of k ((q.keeps (λ w. w ≡ v)).at s d e);
  }

  pub create_booking-TakesStep :
      (b : Booking)
      → may_create user b ≡ true
      → b.status ≡ BookingStatus.pending_confirmation
      → b.contact_released_at ≡ none
      → TakesStep user v (create_booking b)
  unfolding create_booking no_two
  create_booking-TakesStep b m p c = record {
    at = λ s d of e.
        Leaves-admitted (λ x. Step user v (view x)) _ _ _ _ _
          λ _ unique.
            subst
              (λ w.
                Step user w (record {
                  bookings = b ∷ d.bookings;
                  history = status_change s b none d.history;
                }))
              e (Step.create s b of m p c (ground (arith, unique)));
  }

  dispute_stores :
      (s : Session) (of : IsOf user s) (d : Db) (id : ℕ) (old : Booking)
      → no_two booking_clash d.bookings ≡ true
      → find_booking id s d ≡ some old
      → may_dispute user old ≡ true
      → HasBegun old
      → Leaves
          (λ e. Step user (view d) (view e))
          (update_booking id (λ b. record b { status = BookingStatus.disputed }) s d)
  unfolding update_booking store_booking
  dispute_stores s of d id old u f m h =
      rw (f, update_booking)
        (rw (begun_not_disputed old.status h) (
          Leaves-admitted (λ e. Step user (view d) (view e)) _ _ _ _ _
            λ _ _.
              Step.dispute s old (record old { id = id; status = BookingStatus.disputed }) of
                (record {
                  held = found_by_id id s d old u f;
                  same_id = sym (found_id id s d old f);
                  same_quote = refl;
                  same_customer = refl;
                  same_provider = refl;
                })
                m h refl refl))

  -- The booking that the transaction read is the one that it updates.
  pub found-TakesStep :
      (id : ℕ) (b : Booking) (change : Booking → Booking)
      → no_two booking_clash v.bookings ≡ true
      → find_by (λ r. r.id == id) v.bookings ≡ some b
      → ((s : Session)
          → IsOf user s
          → (d : Db) → no_two booking_clash d.bookings ≡ true
          → find_booking id s d ≡ some b
          → Leaves (λ e. Step user (view d) (view e)) (update_booking id change s d))
      → TakesStep user v (update_booking id change)
  unfolding update_booking
  found-TakesStep id b change u f k = record {
    at = λ s d of e. elim (Option-cases (find_booking id s d)) [
      | inl n ↦ rw (n, update_booking) tt
      | inr (old, n) ↦
          let ud : no_two booking_clash d.bookings ≡ true =
            subst (λ w. no_two booking_clash w.bookings ≡ true) (sym e) u in
          let fd : find_by (λ r. r.id == id) d.bookings ≡ some b =
            subst (λ w. find_by (λ r. r.id == id) w.bookings ≡ some b) (sym e) f in
          let same : b ≡ old = some-injective b old (sym fd ∙ found_by_id id s d old ud n) in
          subst (λ w. Leaves (λ x. Step user w (view x)) (update_booking id change s d)) e
            (k s of d ud (n ∙ ap some (sym same)))
    ];
  }

  pub dispute-TakesStep :
      (id : ℕ) (b : Booking)
      → no_two booking_clash v.bookings ≡ true
      → find_by (λ r. r.id == id) v.bookings ≡ some b
      → may_dispute user b ≡ true
      → HasBegun b
      → TakesStep user v (update_booking id (λ b. record b { status = BookingStatus.disputed }))
  dispute-TakesStep id b u f m h =
      found-TakesStep id b _ u f (λ s of d ud n. dispute_stores s of d id b ud n m h)

-- `withUser` around a transaction that takes a step.
pub with_user-steps :
    {A : Type 0} (user : AuthenticatedUser) (reason : Option String) (now : ℕ) (m : Tx A) (d : Db)
    → TakesStep user (view d) m
    → Step user (view d) (view (with_user (to_auth_context user) reason now m d).0)
with_user-steps user reason now m d k =
    with_user-leaves (λ e. Step user (view d) (view e)) (to_auth_context user) reason now m d
      Step.stay λ s of. k.at s d of refl
