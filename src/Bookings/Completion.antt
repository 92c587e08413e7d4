-- ===== src/Bookings/Completion.antt =====
-- `complete` of BookingsService, where it succeeds.
use fixitph_backend.Prelude.{
  ℕ, true, some, List, ◌+◌, ◌==◌, get_or, find_by, update_by, no_two, ◌≡◌, refl, sym, ◌∙◌, arith,
  find_by-update_by, find_by-holds, ==_iff, ap, subst, ◌⊎◌, ◌∷◌,
}
use fixitph_backend.Schema.{
  Booking, BookingStatus, BookingStatusHistory, NotificationType, Provider, Db,
}
use fixitph_backend.Errors.{ok}
use fixitph_backend.Transaction.{Env, AuthenticatedUser, Session, to_auth_context, truthy, pure}
use fixitph_backend.Transaction.Returns.{Returns, Returns-bind, Returns-reads, with_user-Returns}
use fixitph_backend.Database.Constraints.{booking_clash}
use fixitph_backend.Database.Writes.{status_change}
use fixitph_backend.Database.WritesReturn.{
  Returns-change_booking, Returns-create_notification, Returns-update_provider,
}
use fixitph_backend.Bookings.Lifecycle.{Actor, transitions}
use fixitph_backend.Bookings.Service.{CompleteBookingDto, complete_tx, complete}
use fixitph_backend.Bookings.Refinement.{transitions_change}
use fixitph_backend.Bookings.Loading.{Returns-load, Returns-assert, found_old, live_old}

-- The provider after a completion.
abbrev pub counted : Provider → Provider
counted p = record p { completed_jobs_count = p.completed_jobs_count + 1 }

-- The booking `b` and the database `e` after the completion of `old`, which the provider `p` did.
pub record IsCompleted (dto : CompleteBookingDto) (id now : ℕ) (s : Session) (old b : Booking)
    (p : Provider) (d e : Db) : Type 0 where
  pub was_open : (old.status ≡ BookingStatus.in_progress) ⊎ (old.status ≡ BookingStatus.disputed)
  pub becomes : b ≡ record old {
    status = BookingStatus.completed;
    completed_at = some now;
    actual_end = some now;
    total_amount = get_or dto.final_amount old.total_amount;
    payment_status = get_or dto.payment_status old.payment_status;
  }
  pub leaves : e ≡ record d {
    bookings = update_by (λ x. x.id == id) (λ _. b) d.bookings;
    history =
        record {
          booking_id = id;
          from_status = some old.status;
          to_status = BookingStatus.completed;
          changed_by_id = s.user_id;
          reason = s.status_change_reason;
        }
        ∷ d.history;
    providers =
        update_by
          (λ x. x.id == old.provider_id)
          (λ x. record (counted x) { id = old.provider_id })
          d.providers;
    notifications =
        record {
          user_id = old.customer_id;
          type = NotificationType.booking_completed;
          subject = id;
        }
        ∷ d.notifications;
  }
  pub counts : find_by (λ x. x.id == old.provider_id) e.providers ≡ some (counted p)

to_completed :
    (from : BookingStatus) (allowed : List Actor)
    → transitions from BookingStatus.completed ≡ some allowed
    → (from ≡ BookingStatus.in_progress) ⊎ (from ≡ BookingStatus.disputed)
unfolding transitions
to_completed from allowed e = ground arith

module _ (user : AuthenticatedUser) (id : ℕ) (d : Db) (old : Booking) (p : Provider)
    (unique : no_two booking_clash d.bookings ≡ true)
    (held : find_by (λ x. x.id == id) d.bookings ≡ some old)
    (owner : find_by (λ x. x.id == old.provider_id) d.providers ≡ some p) (s : Session) where
  counts_one :
      (ps : List Provider)
      → find_by (λ x. x.id == old.provider_id) ps ≡ some p
      → find_by
          (λ x. x.id == old.provider_id)
          (update_by
            (λ x. x.id == old.provider_id)
            (λ x. record (counted x) { id = old.provider_id })
            ps)
        ≡ some (counted p)
  counts_one ps f =
      find_by-update_by _ _ _ ps p (λ x e. ground arith) f (find_by-holds _ ps p f)
      ∙ ap (λ n. some (record (counted p) { id = n }))
          (sym ((==_iff p.id old.provider_id).0 (find_by-holds _ ps p f)))

  complete-Returns :
      (env : Env) (dto : CompleteBookingDto)
      → Returns
          (λ r e. IsCompleted dto id (env.clock 0) s old r.0 p d e)
          (complete_tx env user id dto s d)
  unfolding complete_tx pure status_change
  complete-Returns env dto = Returns-bind _ _ _ _ _ (
      Returns-load _ _ _ _ _ λ b a w e f. Returns-bind _ _ _ _ _ (
        Returns-assert user id _ _ _ _ _ _ λ allowed t i. Returns-bind _ _ _ _ _ (
          Returns-change_booking _ _ _ _ _ λ row k _. Returns-bind _ _ _ _ _ (
            Returns-update_provider _ _ _ _ _ (
              Returns-bind _ _ _ _ _ (
                Returns-create_notification _ _ _ _ (
                  Returns-reads _ _ _ _ _ (
                    let q = live_old user id d old unique held s b e in
                    let r = found_old user id d old unique held s row k in
                    let edge =
                      subst (λ x. transitions x.status BookingStatus.completed ≡ some allowed) q
                        t in
                    let own = (==_iff old.id id).0 (find_by-holds _ d.bookings old held) in
                    record {
                      was_open = to_completed old.status allowed edge;
                      becomes = rw (r, sym own) refl;
                      leaves = rw (q, r) (rw (transitions_change old.status _ allowed edge) refl);
                      counts = rw q (counts_one d.providers owner);
                    }))))))))

-- Where no two bookings clash, a completion that succeeds was of work in progress, or of a disputed
-- booking. It stores the booking completed at the time of the call, with the final amount and the
-- payment status where they are given, and otherwise as it was; it records the change in the status
-- history, tells the customer, and adds one to the provider's completed jobs. Nothing else in the
-- database changes. It counts for a disputed booking too, so a booking that was completed, disputed
-- and completed again is counted twice.
pub complete-IsCompleted :
    (env : Env) (user : AuthenticatedUser) (id : ℕ) (dto : CompleteBookingDto) (d e : Db)
    (old : Booking) (p : Provider) (r : Booking × List BookingStatusHistory)
    → no_two booking_clash d.bookings ≡ true
    → find_by (λ x. x.id == id) d.bookings ≡ some old
    → find_by (λ x. x.id == old.provider_id) d.providers ≡ some p
    → complete env user id dto d ≡ (e, ok r)
    → IsCompleted dto id
        (env.clock 0)
        (record {
          context = to_auth_context user;
          status_change_reason = truthy (some (get_or dto.notes "work completed"));
          now = env.now;
        })
        old
        r.0
        p
        d
        e
unfolding complete
complete-IsCompleted env user id dto d e old p r u f o h =
    with_user-Returns _ _ _ _ _ d e r (complete-Returns user id d old p u f o _ env dto) h
