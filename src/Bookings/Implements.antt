-- ===== src/Bookings/Implements.antt =====
-- The operations of BookingsService against the lifecycle relation of Bookings/Spec.antt.
use fixitph_backend.Prelude.{
  ℕ, arith, Option, none, some, String, ◌≡◌, refl, inl, inr, no_two, true, Bool-cases,
}
use fixitph_backend.Schema.{BookingStatus, Db, is_admin_role}
use fixitph_backend.Transaction.{Env, AuthenticatedUser}
use fixitph_backend.Transaction.Keeps.{with_user-leaves}
use fixitph_backend.Database.Constraints.{booking_clash}
use fixitph_backend.Bookings.Service.{
  CompleteBookingDto, confirm_tx, start_tx, create_tx, create, cancel_tx, complete_tx, confirm,
  start, cancel, complete, cancel_target, notify_cancelled,
}
use fixitph_backend.Bookings.Spec.{View, view, Step, stay}
use fixitph_backend.Bookings.OtherTables.{IsSilent, silent}
use fixitph_backend.Bookings.Stepping.{
  TakesStep, TakesStep-after_silent, create_booking-TakesStep, with_user-steps,
}
use fixitph_backend.Bookings.Refinement.{transition, transition_steps}

notify_cancelled-IsSilent : (id : ℕ) (user : Option ℕ) → IsSilent (notify_cancelled id user)
unfolding notify_cancelled
notify_cancelled-IsSilent id none = search silent
notify_cancelled-IsSilent id (some u) = search silent

module _ (env : Env) (user : AuthenticatedUser) (id : ℕ) (d : Db)
    (unique : no_two booking_clash d.bookings ≡ true) where
  pub confirm_steps : Step user (view d) (view (confirm env user id d).0)
  unfolding confirm confirm_tx transition
  confirm_steps =
      with_user-leaves (λ e. Step user (view d) (view e)) _ _ _ (confirm_tx env user id) d stay
        λ s of.
          transition_steps user s of d unique id (λ a. BookingStatus.confirmed) _
            (record {
              status = λ l b. refl;
              quote = λ l b. refl;
              customer = λ l b. refl;
              provider = λ l b. refl;
              contact = λ l b. inr refl;
            })
            _ (λ l b. search silent)

  pub start_steps : Step user (view d) (view (start env user id d).0)
  unfolding start start_tx transition
  start_steps =
      with_user-leaves (λ e. Step user (view d) (view e)) _ _ _ (start_tx env user id) d stay
        λ s of.
          transition_steps user s of d unique id (λ a. BookingStatus.in_progress) _
            (record {
              status = λ l b. refl;
              quote = λ l b. refl;
              customer = λ l b. refl;
              provider = λ l b. refl;
              contact = λ l b. inl refl;
            })
            _ (λ l b. search silent)

  pub cancel_steps : (reason : String) → Step user (view d) (view (cancel env user id reason d).0)
  unfolding cancel cancel_tx transition
  cancel_steps reason =
      with_user-leaves (λ e. Step user (view d) (view e)) _ _ _ (cancel_tx env user id reason) d
        stay
        λ s of.
          transition_steps user s of d unique id cancel_target _
            (record {
              status = λ l b. refl;
              quote = λ l b. refl;
              customer = λ l b. refl;
              provider = λ l b. refl;
              contact = λ l b. inl refl;
            })
            _ (λ l b. search (silent, notify_cancelled-IsSilent))

  pub complete_steps :
      (dto : CompleteBookingDto) → Step user (view d) (view (complete env user id dto d).0)
  unfolding complete complete_tx transition
  complete_steps dto =
      with_user-leaves (λ e. Step user (view d) (view e)) _ _ _ (complete_tx env user id dto) d stay
        λ s of.
          transition_steps user s of d unique id (λ a. BookingStatus.completed) _
            (record {
              status = λ l b. refl;
              quote = λ l b. refl;
              customer = λ l b. refl;
              provider = λ l b. refl;
              contact = λ l b. inl refl;
            })
            _ (λ l b. search silent depth 8)

create_tx_steps :
    (user : AuthenticatedUser) (v : View) (env : Env) (quote at : ℕ)
    → is_admin_role user.role ≡ true
    → TakesStep user v (create_tx env quote at)
unfolding create_tx
create_tx_steps user v env quote at a = TakesStep-after_silent user v _ _ (search silent) λ row.
    TakesStep-after_silent user v _ _ (search silent) λ q.
      TakesStep-after_silent user v _ _ (search silent) λ relation.
        TakesStep-after_silent user v _ _ (search silent)
          λ r. create_booking-TakesStep user v _ (ground (arith, a)) refl refl

pub create_steps :
    (env : Env) (user : AuthenticatedUser) (quote at : ℕ) (d : Db)
    → Step user (view d) (view (create env user quote at d).0)
unfolding create
create_steps env user quote at d = elim (Bool-cases (is_admin_role user.role)) [
  | inl e ↦
      rw (e, create) (with_user-steps user _ _ _ d (create_tx_steps user (view d) env quote at e))
  | inr e ↦ rw (e, create) Step.stay
]
