-- ===== src/Admin/Steps.antt =====
-- The rulings of AdminService against the lifecycle relation of Bookings/Spec.antt.
use fixitph_backend.Prelude.{
  ℕ, String, Option, true, some, [], ◌∷◌, ◌==◌, ◌≡◌, refl, arith, inl, inr, no_two, find_by,
  Bool-cases, Option-cases,
}
use fixitph_backend.Schema.{Booking, BookingStatus, Db, AdminActionType, is_admin_role, same_status}
use fixitph_backend.Transaction.{Env, AuthenticatedUser, Session, when, ◌>>=◌}
use fixitph_backend.Transaction.Keeps.{Leaves, with_user-leaves}
use fixitph_backend.Database.Constraints.{booking_clash}
use fixitph_backend.Database.Writes.{find_booking, update_booking}
use fixitph_backend.Database.Moderation.{find_dispute}
use fixitph_backend.Bookings.Lifecycle.{Actor, transitions}
use fixitph_backend.Bookings.Service.{actor_for}
use fixitph_backend.Bookings.Spec.{View, view, Step, IsOf}
use fixitph_backend.Bookings.OtherTables.{IsSilent}
use fixitph_backend.Bookings.Moderated.{silent_moderation}
use fixitph_backend.Bookings.Refinement.{found_by_id, move_updates}
use fixitph_backend.Bookings.Stepping.{
  TakesStep, TakesStep-silent, TakesStep-after_silent, TakesStep-then_silent, found-TakesStep,
  with_user-steps,
}
use fixitph_backend.Reviews.Rating.{recompute_provider_rating}
use fixitph_backend.Admin.Consistency.{as_admin-leaves}
use fixitph_backend.Admin.Service.{
  Ruling, ResolveDisputeDto, ReviewVisibilityDto, ResolveReportDto, audit, ruled, close_booking,
  resolve_dispute, resolve_dispute_tx, rule_on, set_review_visibility, set_review_visibility_tx,
  hide_reported, resolve_report, resolve_report_tx,
}

-- A ruling takes one of the two edges that are open to an administrator alone.
ruled_stores :
    (env : Env) (admin : AuthenticatedUser) (dto : ResolveDisputeDto) (r : Ruling) (s : Session)
    (of : IsOf admin s) (d : Db) (id : ℕ) (b : Booking)
    → is_admin_role admin.role ≡ true
    → same_status b.status BookingStatus.disputed ≡ true
    → no_two booking_clash d.bookings ≡ true
    → find_booking id s d ≡ some b
    → Leaves (λ e. Step admin (view d) (view e)) (update_booking id (ruled env admin dto r) s d)
unfolding ruled actor_for transitions same_status
ruled_stores env admin dto Ruling.refund s of d id b a k u f =
    move_updates admin s of d u id b (ruled env admin dto Ruling.refund) Actor.admin
      (Actor.admin ∷ []) f refl refl refl (ground (arith, a)) (ground (arith, k)) refl (inl refl)
ruled_stores env admin dto Ruling.partial_refund s of d id b a k u f =
    move_updates admin s of d u id b (ruled env admin dto Ruling.partial_refund) Actor.admin
      (Actor.admin ∷ []) f refl refl refl (ground (arith, a)) (ground (arith, k)) refl (inl refl)
ruled_stores env admin dto Ruling.no_action s of d id b a k u f =
    move_updates admin s of d u id b (ruled env admin dto Ruling.no_action) Actor.admin
      (Actor.admin ∷ []) f refl refl refl (ground (arith, a)) (ground (arith, k)) refl (inl refl)

module _ (env : Env) (admin : AuthenticatedUser) where
  close_booking-TakesStep :
      (v : View) (dto : ResolveDisputeDto) (id : ℕ) (b : Booking)
      → is_admin_role admin.role ≡ true
      → no_two booking_clash v.bookings ≡ true
      → find_by (λ r. r.id == id) v.bookings ≡ some b
      → TakesStep admin v (close_booking env admin dto id b.status)
  unfolding close_booking when
  close_booking-TakesStep v dto id b a u f =
      elim (Bool-cases (same_status b.status BookingStatus.disputed)) [
        | inr e ↦ rw (e, when) (TakesStep-silent admin v _ (search silent_moderation))
        | inl e ↦
            rw (e, when)
              (TakesStep-then_silent admin v _ _
                (found-TakesStep admin v id b _ u f
                  (λ s of d. ruled_stores env admin dto dto.status s of d id b a e))
                (λ _. search silent_moderation))
      ]

  audit-IsSilent :
      (type : AdminActionType) (target : ℕ) (reason : Option String)
      → IsSilent (audit admin type target reason)
  unfolding audit
  audit-IsSilent type target reason = search silent_moderation

  rule_on-TakesStep :
      (v : View) (id : ℕ) (dto : ResolveDisputeDto) (booking : ℕ) (b : Booking)
      → is_admin_role admin.role ≡ true
      → no_two booking_clash v.bookings ≡ true
      → find_by (λ r. r.id == booking) v.bookings ≡ some b
      → TakesStep admin v (rule_on env admin id dto booking b)
  unfolding rule_on
  rule_on-TakesStep v id dto booking b a u f =
      TakesStep-after_silent admin v _ _ (search silent_moderation) λ after.
        TakesStep-then_silent admin v _ _ (close_booking-TakesStep v dto booking b a u f)
          λ _. search (silent_moderation, audit-IsSilent) depth 20

  visibility_tx-IsSilent :
      (id : ℕ) (dto : ReviewVisibilityDto) → IsSilent (set_review_visibility_tx env admin id dto)
  unfolding set_review_visibility_tx recompute_provider_rating
  visibility_tx-IsSilent id dto = search (silent_moderation, audit-IsSilent) depth 40

  resolve_report_tx-IsSilent :
      (id : ℕ) (dto : ResolveReportDto) → IsSilent (resolve_report_tx env admin id dto)
  unfolding resolve_report_tx hide_reported
  resolve_report_tx-IsSilent id dto = search (silent_moderation, audit-IsSilent) depth 40

  resolve_dispute_tx_steps :
      (id : ℕ) (dto : ResolveDisputeDto) (s : Session) (of : IsOf admin s) (d : Db)
      → is_admin_role admin.role ≡ true
      → no_two booking_clash d.bookings ≡ true
      → Leaves (λ e. Step admin (view d) (view e)) (resolve_dispute_tx env admin id dto s d)
  unfolding resolve_dispute_tx ◌>>=◌
  resolve_dispute_tx_steps id dto s of d a u = elim (Option-cases (find_dispute id d)) [
    | inl e ↦ rw (e, ◌>>=◌) tt
    | inr (x, e) ↦ elim (Option-cases (find_booking x.booking_id s d)) [
      | inl f ↦ rw (e, f, ◌>>=◌) tt
      | inr (b, f) ↦
          rw (e, f, ◌>>=◌)
            ((rule_on-TakesStep (view d) id dto x.booking_id b a u
                (found_by_id x.booking_id s d b u f)).at
              s d of refl)
    ]
  ]

  module _ (d : Db) where
    pub resolve_dispute_steps :
        no_two booking_clash d.bookings ≡ true
        → (id : ℕ) (dto : ResolveDisputeDto)
        → Step admin (view d) (view (resolve_dispute env admin id dto d).0)
    unfolding resolve_dispute
    resolve_dispute_steps u id dto =
        as_admin-leaves (λ e. Step admin (view d) (view e)) env admin _ _ d Step.stay
          λ a.
            with_user-leaves (λ e. Step admin (view d) (view e)) _ _ _ _ d Step.stay
              λ s of. resolve_dispute_tx_steps id dto s of d a u

    pub set_review_visibility_steps :
        (id : ℕ) (dto : ReviewVisibilityDto)
        → Step admin (view d) (view (set_review_visibility env admin id dto d).0)
    unfolding set_review_visibility
    set_review_visibility_steps id dto =
        as_admin-leaves (λ e. Step admin (view d) (view e)) env admin _ _ d Step.stay
          λ _.
            with_user-steps admin _ _ _ d
              (TakesStep-silent admin (view d) _ (visibility_tx-IsSilent id dto))

    pub resolve_report_steps :
        (id : ℕ) (dto : ResolveReportDto)
        → Step admin (view d) (view (resolve_report env admin id dto d).0)
    unfolding resolve_report
    resolve_report_steps id dto =
        as_admin-leaves (λ e. Step admin (view d) (view e)) env admin _ _ d Step.stay
          λ _.
            with_user-steps admin _ _ _ d
              (TakesStep-silent admin (view d) _ (resolve_report_tx-IsSilent id dto))
