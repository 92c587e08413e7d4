-- ===== src/Requests/Effects.antt =====
-- `updateStatus` of RequestsService, where it succeeds.
use fixitph_backend.Prelude.{
  ℕ, true, Option, none, some, List, ◌==◌, if◌then◌else◌, find_by-holds, update_by, ◌≡◌, refl, sym,
  ==_iff, arith,
}
use fixitph_backend.Schema.{ServiceRequest, RequestStatus, Db}
use fixitph_backend.Errors.{ok}
use fixitph_backend.Transaction.{Env, AuthenticatedUser, Session, to_auth_context, pure}
use fixitph_backend.Transaction.Returns.{
  Returns, Returns-bind, Returns-reads, Returns-or_throw, Returns-throw_if_last, with_user-Returns,
}
use fixitph_backend.Database.Writes.{find_request}
use fixitph_backend.Database.WritesReturn.{Returns-update_request}
use fixitph_backend.Database.Policies.{quotes_visible, owns_service_request, current_provider_id}
use fixitph_backend.Bookings.Lifecycle.{Actor, includes}
use fixitph_backend.Requests.Lifecycle.{transitions, assert_transition}
use fixitph_backend.Requests.Notices.{IsTold, Returns-when_ends, told_of, told_once}
use fixitph_backend.Requests.Service.{
  actor_for, ends, quoted_providers, update_status_tx, update_status,
}

-- When a request that moves to this status was closed.
abbrev pub closing_time : RequestStatus → ℕ → Option ℕ → Option ℕ
closing_time RequestStatus.cancelled now old = some now
closing_time RequestStatus.closed now old = some now
closing_time _ now old = old

closing_time_lem :
    (status : RequestStatus) (now : ℕ) (old : Option ℕ)
    → (if ends status then some now else old) ≡ closing_time status now old
closing_time_lem status now old = ground arith

-- The request `r` and the database `e` after `user` moved the request `id` to `status` at the time
-- `now`; the notices are those of IsTold.
pub record IsMoved (user : AuthenticatedUser) (id : ℕ) (status : RequestStatus) (now : ℕ)
    (s : Session) (d : Db) (r : ServiceRequest) (e : Db) : Type 0 where
  pub old : ServiceRequest
  pub actor : Actor
  pub allowed : List Actor
  pub found : find_request id s d ≡ some old
  pub acts_as : actor_for user old ≡ some actor
  pub is_edge : transitions old.status status ≡ some allowed
  pub is_open : includes allowed actor ≡ true
  pub becomes :
      r ≡ record old { status = status; closed_at = closing_time status now old.closed_at }
  pub leaves : e ≡ record d {
    requests = update_by (λ x. x.id == id) (λ _. r) d.requests;
    notifications = e.notifications;
  }

module _ (env : Env) (user : AuthenticatedUser) (id : ℕ) (status : RequestStatus) (s : Session)
    (d : Db) where
  moved_row :
      (row : ServiceRequest)
      → find_request id s d ≡ some row
      → record row {
        id = id;
        status = status;
        closed_at = if ends status then some (env.clock 0) else row.closed_at;
      }
        ≡ record row {
          status = status;
          closed_at = closing_time status (env.clock 0) row.closed_at;
        }
  unfolding find_request
  moved_row row k =
      let own : (row.id == id) ≡ true = ground (arith, find_by-holds _ d.requests row k) in
      rw (sym ((==_iff row.id id).0 own), closing_time_lem status (env.clock 0) row.closed_at) refl

  update_status-Returns :
      Returns
        (λ r e. IsMoved user id status (env.clock 0) s d r e × IsTold id status s d e)
        (update_status_tx env user id status s d)
  unfolding update_status_tx pure assert_transition quotes_visible owns_service_request
      current_provider_id
  update_status-Returns = Returns-reads _ _ _ _ _ (
      Returns-or_throw _ _ _ _ _ _ λ old f. Returns-or_throw _ _ _ _ _ _ λ actor g.
        Returns-bind _ _ _ _ _ (
          Returns-or_throw _ _ _ _ _ _ λ allowed h. Returns-throw_if_last _ _ _ _ _ λ i.
            Returns-bind _ _ _ _ _ (
              Returns-update_request _ _ _ _ _ λ row k. Returns-reads _ _ _ _ _ (
                Returns-bind _ _ _ _ _ (
                  Returns-when_ends _ _ _ _ _ _ (
                    let d1 = record d {
                      requests =
                          update_by (λ r. r.id == id)
                            (λ _. record row {
                              id = id;
                              status = status;
                              closed_at = if ends status then some (env.clock 0) else row.closed_at;
                            })
                            d.requests;
                    } in
                    (
                      record {
                        old = row;
                        actor = actor;
                        allowed = allowed;
                        found = k;
                        acts_as = ground (arith, f, k, g);
                        is_edge = ground (arith, f, k, h);
                        is_open = ground (arith, i);
                        becomes = moved_row row k;
                        leaves = refl;
                      },
                      record {
                        quoters = quoted_providers id s d1;
                        once = told_once id s d d1;
                        quoted = told_of id s d d1 refl;
                        tells = refl;
                      },
                    )))))))

-- A change of a request's status that succeeds was along an edge of the requests' TRANSITIONS,
-- open to the part that the caller plays in it. It stores the request with the status asked for,
-- closed at the time of the call where it ends, by cancellation or closing, and otherwise as it
-- was. Beside the notices nothing else in the database changes.
pub update_status-IsMoved :
    (env : Env) (user : AuthenticatedUser) (id : ℕ) (status : RequestStatus) (d e : Db)
    (r : ServiceRequest)
    → update_status env user id status d ≡ (e, ok r)
    → IsMoved user id status
        (env.clock 0)
        (record { context = to_auth_context user; status_change_reason = none; now = env.now })
        d
        r
        e
unfolding update_status
update_status-IsMoved env user id status d e r h =
    (with_user-Returns _ _ _ _ _ d e r (update_status-Returns env user id status _ d) h).0

-- A change of a request's status that succeeds sends a notice about the request to the account
-- behind each provider profile that has quoted on it, as far as the caller may see the quotes, one
-- notice for a profile however often it quoted, where the request is cancelled or closed; on any
-- other status nobody is told.
pub update_status-IsTold :
    (env : Env) (user : AuthenticatedUser) (id : ℕ) (status : RequestStatus) (d e : Db)
    (r : ServiceRequest)
    → update_status env user id status d ≡ (e, ok r)
    → IsTold id status
        (record { context = to_auth_context user; status_change_reason = none; now = env.now })
        d
        e
unfolding update_status
update_status-IsTold env user id status d e r h =
    (with_user-Returns _ _ _ _ _ d e r (update_status-Returns env user id status _ d) h).1
