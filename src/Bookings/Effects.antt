-- ===== src/Bookings/Effects.antt =====
-- `update` of BookingsService, where it succeeds.
use fixitph_backend.Prelude.{
  ℕ, true, false, none, some, ◌+◌, ◌-◌, ◌==◌, is_past, get_or, all, find_by, no_two, ◌≡◌, refl, sym,
  ◌∙◌, arith, ap, update_by, find_by-all, find_by-holds, find_by-update_by, ==_iff,
}
use fixitph_backend.Schema.{Booking, Db}
use fixitph_backend.Errors.{ok}
use fixitph_backend.Transaction.{Env, AuthenticatedUser, Session}
use fixitph_backend.Transaction.Returns.{
  Returns, Returns-bind, Returns-reads, Returns-or_throw, Returns-throw_if, with_user-Returns,
}
use fixitph_backend.Database.Constraints.{booking_checks, booking_clash}
use fixitph_backend.Database.History.{same_status_refl}
use fixitph_backend.Database.WritesReturn.{Returns-change_booking}
use fixitph_backend.Bookings.Service.{
  UpdateBookingDto, is_reschedulable, next_end, reschedule, update_tx, update,
}
use fixitph_backend.Bookings.Loading.{Returns-load, found_old, live_old}

-- The booking `b` and the database `e` after a rescheduling of `old` at the time `now`.
pub record IsRescheduled (dto : UpdateBookingDto) (id now : ℕ) (old b : Booking) (d e : Db)
    : Type 0 where
  pub was_open : is_reschedulable old.status ≡ true
  pub in_future : is_past dto.scheduled_start now ≡ false
  pub ends_after_start : is_past b.scheduled_end b.scheduled_start ≡ false
  pub becomes : b ≡ record old {
    scheduled_start = get_or dto.scheduled_start old.scheduled_start;
    scheduled_end =
        next_end dto.scheduled_start dto.scheduled_end old.scheduled_start old.scheduled_end;
    payment_method = get_or dto.payment_method old.payment_method;
  }
  pub leaves : e ≡ record d { bookings = update_by (λ x. x.id == id) (λ _. b) d.bookings }

module _ (user : AuthenticatedUser) (id : ℕ) (d : Db) (old : Booking)
    (unique : no_two booking_clash d.bookings ≡ true)
    (held : find_by (λ x. x.id == id) d.bookings ≡ some old) (s : Session) where
  update-Returns :
      (env : Env) (dto : UpdateBookingDto)
      → Returns
          (λ b e. IsRescheduled dto id (env.clock 0) old b d e)
          (update_tx env user id dto s d)
  unfolding update_tx reschedule
  update-Returns env dto = Returns-bind _ _ _ _ _ (
      Returns-load _ _ _ _ _ λ b a owner e f. Returns-throw_if _ _ _ _ _ _ λ ready.
        Returns-throw_if _ _ _ _ _ _ λ future. Returns-reads _ _ _ _ _ (
          Returns-or_throw _ _ _ _ _ _ λ current g. Returns-throw_if _ _ _ _ _ _ λ later.
            Returns-change_booking _ _ _ _ _ λ row k _.
              let p = live_old user id d old unique held s b e in
              let q = found_old user id d old unique held s current g in
              let r = found_old user id d old unique held s row k in
              let own = (==_iff old.id id).0 (find_by-holds _ d.bookings old held) in
              record {
                was_open = rw (sym p) (ground (arith, ready));
                in_future = future;
                ends_after_start = rw (r ∙ sym q) later;
                becomes = rw (q, r, sym own) refl;
                leaves = rw (same_status_refl row.status) refl;
              }))

pub update-IsRescheduled :
    (env : Env) (user : AuthenticatedUser) (id : ℕ) (dto : UpdateBookingDto) (d e : Db)
    (old b : Booking)
    → no_two booking_clash d.bookings ≡ true
    → find_by (λ x. x.id == id) d.bookings ≡ some old
    → update env user id dto d ≡ (e, ok b)
    → IsRescheduled dto id (env.clock 0) old b d e
unfolding update
update-IsRescheduled env user id dto d e old b u f h =
    with_user-Returns _ _ _ _ _ d e b (update-Returns user id d old u f _ env dto) h

-- Where no two bookings clash and each satisfies the table's CHECK constraints, a rescheduling to a
-- new start alone keeps the length of a booking that has an end: the booking that the database
-- holds afterwards starts when it was asked to, and lasts as long as before.
pub update_keeps_length :
    (env : Env) (user : AuthenticatedUser) (id start end : ℕ) (dto : UpdateBookingDto) (d e : Db)
    (old b : Booking)
    → no_two booking_clash d.bookings ≡ true
    → all booking_checks d.bookings ≡ true
    → find_by (λ x. x.id == id) d.bookings ≡ some old
    → old.scheduled_end ≡ some end
    → dto.scheduled_start ≡ some start
    → dto.scheduled_end ≡ none
    → update env user id dto d ≡ (e, ok b)
    → (n : ℕ) × (find_by (λ x. x.id == id) e.bookings ≡ some b)
      × (b.scheduled_start ≡ start)
      × (b.scheduled_end ≡ some (start + n))
      × (old.scheduled_start + n ≡ end)
unfolding booking_checks
update_keeps_length env user id start end dto d e old b u c f g p q h =
    let r = update-IsRescheduled env user id dto d e old b u f h in
    let c = find_by-all _ booking_checks d.bookings old f c in
    let own : (b.id == id) ≡ true = rw r.becomes (find_by-holds _ d.bookings old f) in
    (
      end - old.scheduled_start,
      ap (λ x. find_by (λ (y : Booking). y.id == id) x.bookings) r.leaves
          ∙ find_by-update_by _ _ (λ _. b) d.bookings old (λ y k. own ∙ sym k) f
              (find_by-holds _ d.bookings old f),
      ap (λ x. x.scheduled_start) r.becomes ∙ ground (arith, p),
      ap (λ x. x.scheduled_end) r.becomes ∙ ground (arith, p, q, g, c.1),
      ground (arith, g, c.1),
    )
