-- ===== src/Bookings/Consistency.antt =====
-- The operations of BookingsService and the consistency of the database.
use fixitph_backend.Prelude.{ℕ, Option, none, some, String, Bool-cases, inl, inr}
use fixitph_backend.Schema.{Db, is_admin_role, BookingStatus}
use fixitph_backend.Transaction.{Env, AuthenticatedUser}
use fixitph_backend.Transaction.Keeps.{Keeps, with_user-keeps}
use fixitph_backend.Database.Consistency.{IsConsistent}
use fixitph_backend.Database.WritesKeep.{writes_keep}
use fixitph_backend.Bookings.Lifecycle.{Actor, assert_transition}
use fixitph_backend.Bookings.Service.{
  UpdateBookingDto, CompleteBookingDto, load_for_actor, notify_cancelled, update_tx, confirm_tx,
  start_tx, cancel_tx, complete_tx, create_tx, update, confirm, start, cancel, complete, create,
}

assert_transition-Keeps :
    (from to : BookingStatus) (actor : Actor) → Keeps IsConsistent (assert_transition from to actor)
unfolding assert_transition
assert_transition-Keeps from to actor = search writes_keep

load_for_actor-Keeps :
    (id : ℕ) (user : AuthenticatedUser) → Keeps IsConsistent (load_for_actor id user)
unfolding load_for_actor
load_for_actor-Keeps id user = search writes_keep depth 12

notify_cancelled-Keeps : (id : ℕ) (user : Option ℕ) → Keeps IsConsistent (notify_cancelled id user)
unfolding notify_cancelled
notify_cancelled-Keeps id none = search writes_keep
notify_cancelled-Keeps id (some u) = search writes_keep

ruleset helpers_keep =
    (writes_keep, assert_transition-Keeps, load_for_actor-Keeps, notify_cancelled-Keeps)

update_tx-Keeps :
    (env : Env) (user : AuthenticatedUser) (id : ℕ) (dto : UpdateBookingDto)
    → Keeps IsConsistent (update_tx env user id dto)
unfolding update_tx
update_tx-Keeps env user id dto = search helpers_keep depth 14

complete_tx-Keeps :
    (env : Env) (user : AuthenticatedUser) (id : ℕ) (dto : CompleteBookingDto)
    → Keeps IsConsistent (complete_tx env user id dto)
unfolding complete_tx
complete_tx-Keeps env user id dto = search helpers_keep depth 14

confirm_tx-Keeps :
    (env : Env) (user : AuthenticatedUser) (id : ℕ) → Keeps IsConsistent (confirm_tx env user id)
unfolding confirm_tx
confirm_tx-Keeps env user id = search helpers_keep depth 12

start_tx-Keeps :
    (env : Env) (user : AuthenticatedUser) (id : ℕ) → Keeps IsConsistent (start_tx env user id)
unfolding start_tx
start_tx-Keeps env user id = search helpers_keep depth 12

cancel_tx-Keeps :
    (env : Env) (user : AuthenticatedUser) (id : ℕ) (reason : String)
    → Keeps IsConsistent (cancel_tx env user id reason)
unfolding cancel_tx
cancel_tx-Keeps env user id reason = search helpers_keep depth 12

create_tx-Keeps : (env : Env) (quote at : ℕ) → Keeps IsConsistent (create_tx env quote at)
unfolding create_tx
create_tx-Keeps env quote at = search helpers_keep depth 12

module _ (env : Env) (user : AuthenticatedUser) (id : ℕ) (d : Db) (c : IsConsistent d) where
  pub update_keeps : (dto : UpdateBookingDto) → IsConsistent (update env user id dto d).0
  unfolding update
  update_keeps dto = with_user-keeps _ _ _ _ d (update_tx-Keeps env user id dto) c

  pub confirm_keeps : IsConsistent (confirm env user id d).0
  unfolding confirm
  confirm_keeps = with_user-keeps _ _ _ _ d (confirm_tx-Keeps env user id) c

  pub start_keeps : IsConsistent (start env user id d).0
  unfolding start
  start_keeps = with_user-keeps _ _ _ _ d (start_tx-Keeps env user id) c

  pub cancel_keeps : (reason : String) → IsConsistent (cancel env user id reason d).0
  unfolding cancel
  cancel_keeps reason = with_user-keeps _ _ _ _ d (cancel_tx-Keeps env user id reason) c

  pub complete_keeps : (dto : CompleteBookingDto) → IsConsistent (complete env user id dto d).0
  unfolding complete
  complete_keeps dto = with_user-keeps _ _ _ _ d (complete_tx-Keeps env user id dto) c

  pub create_keeps : (at : ℕ) → IsConsistent (create env user id at d).0
  unfolding create
  create_keeps at = elim (Bool-cases (is_admin_role user.role)) [
    | inl e ↦ rw (create, e) (with_user-keeps _ _ _ _ d (create_tx-Keeps env id at) c)
    | inr e ↦ rw (create, e) c
  ]
