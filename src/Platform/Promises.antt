-- ===== src/Platform/Promises.antt =====
-- Calls of the services that share the database, over any history: the status history and single bookings.
use fixitph_backend.Prelude.{ℕ, true, some, List, ◌==◌, find_by, all, ◌≡◌, refl, sym}
use fixitph_backend.Schema.{Booking, Db}
use fixitph_backend.Transaction.{Env, AuthenticatedUser}
use fixitph_backend.Database.Consistency.{IsConsistent}
use fixitph_backend.Bookings.Spec.{View, view, Step}
use fixitph_backend.Bookings.Promises.{Steps-keeps, is_legal, IsLawful, step-IsLawful}
use fixitph_backend.Bookings.Releases.{release_earned, IsReleaseEarned, step-IsReleaseEarned}
use fixitph_backend.Bookings.Permanence.{
  Holds, booking_at, step-Holds, step_frozen, is_final, HasParties, replaced-HasParties,
}
use fixitph_backend.Platform.Calls.{Call, run}
use fixitph_backend.Platform.Refinement.{callers, run-Steps}

module _ (calls : List (Env × AuthenticatedUser × Call)) (d : Db) (c : IsConsistent d) where
  run-keeps_view :
      (P : View → Type 0)
      → ((user : AuthenticatedUser) (v w : View) → Step user v w → P v → P w)
      → P (view d)
      → P (view (run calls d))
  run-keeps_view P k h = Steps-keeps P k (callers calls) _ _ (run-Steps calls d c) h

  -- From a consistent database whose status history is lawful, any calls of these services by any callers leave it
  -- lawful: every entry is the creation of a pending booking, or goes along an edge of
  -- TRANSITIONS.
  pub run-is_legal : all is_legal d.history ≡ true → all is_legal (run calls d).history ≡ true
  unfolding IsLawful
  run-is_legal h = run-keeps_view IsLawful step-IsLawful h

  -- From a consistent database in which every booking with a released contact has a confirmation
  -- in its history, any calls of these services by any callers leave it so: no call releases the contact of a
  -- customer whose booking was never confirmed.
  pub run-release_earned :
      all (release_earned d.history) d.bookings ≡ true
      → all (release_earned (run calls d).history) (run calls d).bookings ≡ true
  unfolding IsReleaseEarned
  run-release_earned h = run-keeps_view IsReleaseEarned step-IsReleaseEarned h

  frozen_of : (x : Booking) (id : ℕ) (v : View) → Holds (λ b. b ≡ x) id v → booking_at id v ≡ some x
  frozen_of x id v h = rw (sym h.has) h.at

  -- From a consistent database, a booking that is cancelled or marked a no-show is the same, in
  -- every field, after any calls of these services by any callers.
  pub run-is_final :
      (id : ℕ) (x : Booking)
      → find_by (λ b. b.id == id) d.bookings ≡ some x
      → is_final x.status ≡ true
      → find_by (λ b. b.id == id) (run calls d).bookings ≡ some x
  unfolding booking_at
  run-is_final id x f e = frozen_of x id _ (
      run-keeps_view (Holds (λ b. b ≡ x) id) (step_frozen x e id)
        (record { booking = x; at = f; has = refl }))

  -- From a consistent database, a booking is there after any calls of these services by any callers, with the same
  -- customer, the same provider and the same quote.
  pub run-HasParties :
      (id : ℕ) (x : Booking)
      → find_by (λ b. b.id == id) d.bookings ≡ some x
      → (y : Booking) × (find_by (λ b. b.id == id) (run calls d).bookings ≡ some y)
        × HasParties x.customer_id x.provider_id x.quote_id y
  unfolding booking_at
  run-HasParties id x f =
      let h : Holds (HasParties x.customer_id x.provider_id x.quote_id) id (view (run calls d)) =
        run-keeps_view (Holds (HasParties x.customer_id x.provider_id x.quote_id) id)
          (step-Holds _ id (replaced-HasParties x.customer_id x.provider_id x.quote_id))
          (record {
            booking = x;
            at = f;
            has = record { same_customer = refl; same_provider = refl; same_quote = refl };
          }) in
      (h.booking, h.at, h.has)
