-- ===== src/Bookings/Rescheduling.antt =====
-- `update` of BookingsService against the lifecycle relation of Bookings/Spec.antt.
use fixitph_backend.Prelude.{
  ℕ, true, some, ◌≡◌, refl, sym, inl, inr, no_two, is_past, Option-cases, Bool-cases,
}
use fixitph_backend.Schema.{Booking, BookingStatus, Db, same_status}
use fixitph_backend.Transaction.{Env, AuthenticatedUser, Session, ◌>>=◌}
use fixitph_backend.Transaction.Keeps.{Leaves, with_user-leaves}
use fixitph_backend.Database.Constraints.{booking_clash}
use fixitph_backend.Database.History.{same_status_refl}
use fixitph_backend.Database.Writes.{find_booking, store_booking, update_booking}
use fixitph_backend.Database.WritesKeep.{Leaves-admitted, found_id}
use fixitph_backend.Bookings.Lifecycle.{Actor}
use fixitph_backend.Bookings.Service.{
  UpdateBookingDto, find_live_booking, actor_for, load_for_actor, is_reschedulable, reschedule,
  update_tx, update,
}
use fixitph_backend.Bookings.Spec.{view, Step}
use fixitph_backend.Bookings.Refinement.{find_booking-live, found_by_id}

same_status_of : (a b : BookingStatus) → b ≡ a → same_status a b ≡ true
same_status_of a b e = rw e (same_status_refl a)

module _ (user : AuthenticatedUser) (s : Session) (d : Db)
    (unique : no_two booking_clash d.bookings ≡ true) where
  -- The write of a change that keeps the status, the parties and the released contact.
  reschedule_stores :
      (id : ℕ) (old : Booking) (change : Booking → Booking)
      → find_booking id s d ≡ some old
      → (actor : Actor) → actor_for user old ≡ some actor
      → is_reschedulable old.status ≡ true
      → (change old).status ≡ old.status
      → (change old).quote_id ≡ old.quote_id
      → (change old).customer_id ≡ old.customer_id
      → (change old).provider_id ≡ old.provider_id
      → (change old).contact_released_at ≡ old.contact_released_at
      → Leaves (λ e. Step user (view d) (view e)) (update_booking id change s d)
  unfolding update_booking store_booking
  reschedule_stores id old change f actor a r st q c p k =
      rw (f, update_booking)
        (rw (same_status_of old.status (change old).status st) (
          Leaves-admitted (λ e. Step user (view d) (view e)) _ _ _ _ _
            λ _ _.
              Step.reschedule old (record (change old) { id = id }) actor
                (record {
                  held = found_by_id id s d old unique f;
                  same_id = sym (found_id id s d old f);
                  same_quote = q;
                  same_customer = c;
                  same_provider = p;
                })
                a r st k))

  update_tx_steps :
      (env : Env) (id : ℕ) (dto : UpdateBookingDto)
      → Leaves (λ e. Step user (view d) (view e)) (update_tx env user id dto s d)
  unfolding update_tx load_for_actor ◌>>=◌
  update_tx_steps env id dto = elim (Option-cases (find_live_booking id s d)) [
    | inl e ↦ rw (e, ◌>>=◌) tt
    | inr (b, e) ↦ elim (Option-cases (actor_for user b)) [
      | inl f ↦ rw (e, f, ◌>>=◌) tt
      | inr (a, f) ↦
          rw (e, f, ◌>>=◌)
            (elim (Bool-cases (is_reschedulable b.status)) [
              | inr r ↦ rw (r, ◌>>=◌) tt
              | inl r ↦
                  rw (r, ◌>>=◌)
                    (elim (Bool-cases (is_past dto.scheduled_start (env.clock 0))) [
                      | inl p ↦ rw (p, ◌>>=◌) tt
                      | inr p ↦
                          rw (p, ◌>>=◌)
                            (rw (find_booking-live id s d b unique e, ◌>>=◌)
                              (elim (Bool-cases (
                                is_past (reschedule dto b).scheduled_end
                                  (reschedule dto b).scheduled_start)) [
                                    | inl l ↦ rw (l, ◌>>=◌) tt
                                    | inr l ↦
                                        rw (l, ◌>>=◌)
                                          (reschedule_stores id b _
                                            (find_booking-live id s d b unique e) a f r refl refl
                                            refl refl refl)
                                  ]))
                    ])
            ])
    ]
  ]

pub update_steps :
    (env : Env) (user : AuthenticatedUser) (id : ℕ) (d : Db)
    → no_two booking_clash d.bookings ≡ true
    → (dto : UpdateBookingDto) → Step user (view d) (view (update env user id dto d).0)
unfolding update
update_steps env user id d unique dto =
    with_user-leaves (λ e. Step user (view d) (view e)) _ _ _ (update_tx env user id dto) d
      Step.stay λ s _. update_tx_steps user s d unique env id dto
