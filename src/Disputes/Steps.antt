-- ===== src/Disputes/Steps.antt =====
-- `create` of DisputesService against the lifecycle relation of Bookings/Spec.antt.
use fixitph_backend.Prelude.{
  ℕ, true, false, some, not, ◌&&◌, ◌==◌, ◌≡◌, refl, inl, inr, no_two, arith, Option-cases,
  Bool-cases, find_by,
}
use fixitph_backend.Schema.{Booking, Db, is_admin_role}
use fixitph_backend.Transaction.{Env, AuthenticatedUser, Session, when, ◌>>=◌}
use fixitph_backend.Transaction.Keeps.{Leaves, with_user-leaves}
use fixitph_backend.Database.Constraints.{booking_clash}
use fixitph_backend.Bookings.Service.{find_live_booking}
use fixitph_backend.Bookings.Spec.{View, view, Step, IsOf, may_dispute}
use fixitph_backend.Bookings.OtherTables.{silent}
use fixitph_backend.Bookings.Refinement.{find_booking-live, found_by_id}
use fixitph_backend.Bookings.Stepping.{
  TakesStep, TakesStep-silent, TakesStep-after_silent, TakesStep-then_silent, HasBegun,
  dispute-TakesStep,
}
use fixitph_backend.Disputes.Service.{
  CreateDisputeDto, is_party, is_disputable, is_no_show, mark_disputed, file_dispute, create_tx,
  create,
}

-- A disputable booking that is no no-show has begun.
disputable_begun :
    (b : Booking) → is_disputable b.status ≡ true → is_no_show b.status ≡ false → HasBegun b
disputable_begun b h k = ground arith

mark_disputed-TakesStep :
    (user : AuthenticatedUser) (v : View) (id : ℕ) (b : Booking)
    → no_two booking_clash v.bookings ≡ true
    → find_by (λ r. r.id == id) v.bookings ≡ some b
    → may_dispute user b ≡ true
    → is_disputable b.status ≡ true
    → TakesStep user v (mark_disputed id b.status)
unfolding mark_disputed when
mark_disputed-TakesStep user v id b u f m h = elim (Bool-cases (is_no_show b.status)) [
  | inl e ↦ rw (e, when) (TakesStep-silent user v _ (search silent))
  | inr e ↦
      rw (e, when)
        (TakesStep-then_silent user v _ _
          (dispute-TakesStep user v id b u f m (disputable_begun b h e)) (λ _. search silent))
]

file_dispute-TakesStep :
    (user : AuthenticatedUser) (v : View) (env : Env) (dto : CreateDisputeDto) (b : Booking)
    → no_two booking_clash v.bookings ≡ true
    → find_by (λ r. r.id == dto.booking_id) v.bookings ≡ some b
    → may_dispute user b ≡ true
    → is_disputable b.status ≡ true
    → TakesStep user v (file_dispute env user dto b)
unfolding file_dispute
file_dispute-TakesStep user v env dto b u f m h =
    TakesStep-after_silent user v _ _ (search silent) λ unresolved.
      TakesStep-after_silent user v _ _ (search silent) λ _.
        TakesStep-after_silent user v _ _ (search silent) λ dispute.
          TakesStep-then_silent user v _ _ (mark_disputed-TakesStep user v dto.booking_id b u f m h)
            (λ _. search silent)

party_may :
    (user : AuthenticatedUser) (b : Booking)
    → (not (is_party user b) && not (is_admin_role user.role)) ≡ false
    → may_dispute user b ≡ true
unfolding is_party
party_may user b h = ground (arith, h)

create_tx_steps :
    (env : Env) (user : AuthenticatedUser) (dto : CreateDisputeDto) (s : Session) (of : IsOf user s)
    (d : Db)
    → no_two booking_clash d.bookings ≡ true
    → Leaves (λ e. Step user (view d) (view e)) (create_tx env user dto s d)
unfolding create_tx ◌>>=◌
create_tx_steps env user dto s of d u = elim (Option-cases (find_live_booking dto.booking_id s d)) [
  | inl e ↦ rw (e, ◌>>=◌) tt
  | inr (b, e) ↦
      rw (e, ◌>>=◌)
        (elim (Bool-cases (not (is_party user b) && not (is_admin_role user.role))) [
          | inl p ↦ rw (p, ◌>>=◌) tt
          | inr p ↦
              rw (p, ◌>>=◌)
                (elim (Bool-cases (is_disputable b.status)) [
                  | inr i ↦ rw (i, ◌>>=◌) tt
                  | inl i ↦
                      rw (i, ◌>>=◌)
                        ((file_dispute-TakesStep user (view d) env dto b u
                            (found_by_id _ s d b u (find_booking-live _ s d b u e))
                            (party_may user b p) i).at
                          s d of refl)
                ])
        ])
]

pub create_steps :
    (env : Env) (user : AuthenticatedUser) (d : Db)
    → no_two booking_clash d.bookings ≡ true
    → (dto : CreateDisputeDto) → Step user (view d) (view (create env user dto d).0)
unfolding create
create_steps env user d u dto =
    with_user-leaves (λ e. Step user (view d) (view e)) _ _ _ (create_tx env user dto) d Step.stay
      λ s of. create_tx_steps env user dto s of d u
