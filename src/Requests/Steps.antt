-- ===== src/Requests/Steps.antt =====
-- The operations of RequestsService against the lifecycle relation of Bookings/Spec.antt.
use fixitph_backend.Prelude.{ℕ, Option, none, some, List, [], ◌∷◌}
use fixitph_backend.Schema.{Db, ServiceRequest, RequestStatus}
use fixitph_backend.Errors.{Result, ok, err}
use fixitph_backend.Transaction.{Env, AuthenticatedUser, to_auth_context, with_user}
use fixitph_backend.Database.Writes.{create_request}
use fixitph_backend.Bookings.Lifecycle.{Actor}
use fixitph_backend.Bookings.Spec.{view, Step}
use fixitph_backend.Bookings.OtherTables.{
  IsSilent, IsSilent-bind, IsSilent-reads, create_request-IsSilent, silent,
}
use fixitph_backend.Bookings.Stepping.{TakesStep-silent, with_user-steps}
use fixitph_backend.Requests.Lifecycle.{assert_transition}
use fixitph_backend.Requests.Service.{
  CreateRequestDto, new_request, notify_provider, notify_quoted, update_status_tx, create,
  update_status,
}

assert_transition-IsSilent :
    (from to : RequestStatus) (actor : Actor) → IsSilent (assert_transition from to actor)
unfolding assert_transition
assert_transition-IsSilent from to actor = search silent

notify_provider-IsSilent : (id : ℕ) (user : Option ℕ) → IsSilent (notify_provider id user)
unfolding notify_provider
notify_provider-IsSilent id none = search silent
notify_provider-IsSilent id (some u) = search silent

notify_quoted-IsSilent : (id : ℕ) (providers : List ℕ) → IsSilent (notify_quoted id providers)
unfolding notify_quoted
notify_quoted-IsSilent id [] = search silent
notify_quoted-IsSilent id (p ∷ providers) = IsSilent-bind _ _ (IsSilent-reads _) λ owner.
    IsSilent-bind _ _ (notify_provider-IsSilent id owner) (λ _. notify_quoted-IsSilent id providers)

update_status_tx-IsSilent :
    (env : Env) (user : AuthenticatedUser) (id : ℕ) (status : RequestStatus)
    → IsSilent (update_status_tx env user id status)
unfolding update_status_tx
update_status_tx-IsSilent env user id status =
    search (silent, assert_transition-IsSilent, notify_quoted-IsSilent) depth 16

module _ (env : Env) (user : AuthenticatedUser) (d : Db) where
  checked_create :
      (dto : CreateRequestDto) (r : Result (Unit {0}))
      → Step user (view d) (
          view
            (elim r as (λ _. Db × Result ServiceRequest) [
              | err e ↦ (d, err e)
              | ok u ↦
                  with_user
                    (to_auth_context user)
                    none
                    env.now
                    (create_request (new_request env user dto))
                    d
            ]).0)
  checked_create dto (err e) = Step.stay
  checked_create dto (ok u) =
      with_user-steps user _ _ _ d (TakesStep-silent user _ _ (create_request-IsSilent _))

  pub create_steps : (dto : CreateRequestDto) → Step user (view d) (view (create env user dto d).0)
  unfolding create
  create_steps dto = checked_create dto _

  pub update_status_steps :
      (id : ℕ) (status : RequestStatus)
      → Step user (view d) (view (update_status env user id status d).0)
  unfolding update_status
  update_status_steps id status =
      with_user-steps user _ _ _ d
        (TakesStep-silent user _ _ (update_status_tx-IsSilent env user id status))
