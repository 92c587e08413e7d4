-- ===== src/Requests/Consistency.antt =====
-- The operations of RequestsService and the consistency of the database.
use fixitph_backend.Prelude.{ℕ, Option, none, some, List, [], ◌∷◌}
use fixitph_backend.Schema.{Db, ServiceRequest, RequestStatus}
use fixitph_backend.Errors.{Result, ok, err}
use fixitph_backend.Transaction.{Env, AuthenticatedUser, to_auth_context, with_user}
use fixitph_backend.Transaction.Keeps.{Keeps, Keeps-bind, Keeps-reads, with_user-keeps}
use fixitph_backend.Database.Consistency.{IsConsistent}
use fixitph_backend.Database.Writes.{create_request}
use fixitph_backend.Database.WritesKeep.{writes_keep, create_request-Keeps}
use fixitph_backend.Bookings.Lifecycle.{Actor}
use fixitph_backend.Requests.Lifecycle.{assert_transition}
use fixitph_backend.Requests.Service.{
  CreateRequestDto, new_request, notify_provider, notify_quoted, update_status_tx, create,
  update_status,
}

assert_transition-Keeps :
    (from to : RequestStatus) (actor : Actor) → Keeps IsConsistent (assert_transition from to actor)
unfolding assert_transition
assert_transition-Keeps from to actor = search writes_keep

notify_provider-Keeps : (id : ℕ) (user : Option ℕ) → Keeps IsConsistent (notify_provider id user)
unfolding notify_provider
notify_provider-Keeps id none = search writes_keep
notify_provider-Keeps id (some u) = search writes_keep

notify_quoted-Keeps :
    (id : ℕ) (providers : List ℕ) → Keeps IsConsistent (notify_quoted id providers)
unfolding notify_quoted
notify_quoted-Keeps id [] = search writes_keep
notify_quoted-Keeps id (p ∷ providers) =
    Keeps-bind _ _ (Keeps-reads _) λ owner.
      Keeps-bind _ _ (notify_provider-Keeps id owner) (λ _. notify_quoted-Keeps id providers)

update_status_tx-Keeps :
    (env : Env) (user : AuthenticatedUser) (id : ℕ) (status : RequestStatus)
    → Keeps IsConsistent (update_status_tx env user id status)
unfolding update_status_tx
update_status_tx-Keeps env user id status =
    search (writes_keep, assert_transition-Keeps, notify_quoted-Keeps) depth 16

module _ (env : Env) (user : AuthenticatedUser) (d : Db) (c : IsConsistent d) where
  checked_create :
      (dto : CreateRequestDto) (r : Result (Unit {0}))
      → IsConsistent
          (elim r as (λ _. Db × Result ServiceRequest) [
            | err e ↦ (d, err e)
            | ok u ↦
                with_user
                  (to_auth_context user)
                  none
                  env.now
                  (create_request (new_request env user dto))
                  d
          ]).0
  checked_create dto (err e) = c
  checked_create dto (ok u) =
      with_user-keeps _ _ _ _ d (create_request-Keeps (new_request env user dto)) c

  pub create_keeps : (dto : CreateRequestDto) → IsConsistent (create env user dto d).0
  unfolding create
  create_keeps dto = checked_create dto _

  pub update_status_keeps :
      (id : ℕ) (status : RequestStatus) → IsConsistent (update_status env user id status d).0
  unfolding update_status
  update_status_keeps id status =
      with_user-keeps _ _ _ _ d (update_status_tx-Keeps env user id status) c
