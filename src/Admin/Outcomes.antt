-- ===== src/Admin/Outcomes.antt =====
-- The rulings of AdminService, where they succeed.
use fixitph_backend.Prelude.{
  ℕ, true, false, Option, some, String, List, ◌∷◌, ◌==◌, find_by, update_by, no_two, ◌≡◌, refl, sym,
  ap, subst, ◌∙◌, arith, inl, inr, Bool-cases, if_true,
}
use fixitph_backend.Schema.{
  Booking, BookingStatus, BookingStatusHistory, Dispute, AdminActionType, NotificationType, Db,
  is_admin_role, same_status,
}
use fixitph_backend.Errors.{ok}
use fixitph_backend.Transaction.{
  Tx, Env, AuthenticatedUser, Session, to_auth_context, with_user, pure, when,
}
use fixitph_backend.Transaction.Returns.{
  Returns, Returns-bind, Returns-reads, Returns-or_throw, with_user-Returns,
}
use fixitph_backend.Database.Policies.{bookings_visible, current_provider_id}
use fixitph_backend.Database.Constraints.{booking_clash}
use fixitph_backend.Database.Writes.{find_booking}
use fixitph_backend.Database.Moderation.{find_dispute}
use fixitph_backend.Database.WritesReturn.{Returns-update_booking, Returns-create_notification}
use fixitph_backend.Database.ModerationReturns.{Returns-update_dispute, Returns-create_admin_action}
use fixitph_backend.Database.WritesKeep.{found_id}
use fixitph_backend.Bookings.Refinement.{found_by_id}
use fixitph_backend.Admin.Service.{
  Ruling, ResolveDisputeDto, as_admin, audit, ruling_status, ruled, close_booking, rule_on,
  resolve_dispute, resolve_dispute_tx,
}

pub admitted_as_admin :
    {A : Type 0} (env : Env) (admin : AuthenticatedUser) (reason : Option String) (m : Tx A)
    (d e : Db) (a : A)
    → as_admin env admin reason m d ≡ (e, ok a)
    → (is_admin_role admin.role ≡ true)
      × (with_user (to_auth_context admin) reason env.now m d ≡ (e, ok a))
unfolding as_admin
admitted_as_admin env admin reason m d e a h = elim (Bool-cases (is_admin_role admin.role)) [
  | inl k ↦ (k, sym (if_true _ _ _ k) ∙ h)
  | inr k ↦ absurd (ground (arith, k, h))
]

-- Where a ruling leaves a disputed booking.
unfoldable pub closing_status : Ruling → BookingStatus
closing_status Ruling.refund = BookingStatus.cancelled_by_provider
closing_status Ruling.partial_refund = BookingStatus.completed
closing_status Ruling.no_action = BookingStatus.completed

-- What a ruling leaves of the bookings, where it finds the booking `b`.
pub data Closing (dto : ResolveDisputeDto) (b : Booking) (d e : Db) : Type 0 where
  left :
      same_status b.status BookingStatus.disputed ≡ false
      → e.bookings ≡ d.bookings
      → Closing dto b d e
  closed :
      (c : Booking)
      → same_status b.status BookingStatus.disputed ≡ true
      → c.status ≡ closing_status dto.status
      → c.customer_id ≡ b.customer_id
      → c.total_amount ≡ b.total_amount
      → e.bookings ≡ update_by (λ x. x.id == b.id) (λ _. c) d.bookings
      → Closing dto b d e

pub record IsResolved (env : Env) (admin : AuthenticatedUser) (id : ℕ) (dto : ResolveDisputeDto)
    (d e : Db) (x : Dispute) : Type 0 where
  pub by_admin : is_admin_role admin.role ≡ true
  pub old : Dispute
  pub found : find_by (λ y. y.id == id) d.disputes ≡ some old
  pub booking : Booking
  pub related : find_by (λ b. b.id == old.booking_id) d.bookings ≡ some booking
  pub settled : x.status ≡ ruling_status dto.status
  pub explained : x.resolution ≡ some dto.resolution
  pub same_booking : x.booking_id ≡ old.booking_id
  pub stores : e.disputes ≡ update_by (λ y. y.id == id) (λ _. x) d.disputes
  pub closing : Closing dto booking d e
  pub tells :
      e.notifications
      ≡ record {
        user_id = booking.customer_id;
        type = NotificationType.dispute_update;
        subject = id;
      }
        ∷ d.notifications
  pub audits :
      e.admin_actions
      ≡ record {
        admin_id = admin.id;
        action_type = AdminActionType.dispute_resolve;
        target_id = id;
        reason = some dto.resolution;
      }
        ∷ d.admin_actions

module _ (env : Env) (admin : AuthenticatedUser) (dto : ResolveDisputeDto) where
  ruled_lem :
      (r : Ruling) (b : Booking)
      → ((ruled env admin dto r b).status ≡ closing_status r)
        × ((ruled env admin dto r b).customer_id ≡ b.customer_id)
        × ((ruled env admin dto r b).total_amount ≡ b.total_amount)
  unfolding ruled closing_status
  ruled_lem Ruling.refund b = (refl, refl, refl)
  ruled_lem Ruling.partial_refund b = (refl, refl, refl)
  ruled_lem Ruling.no_action b = (refl, refl, refl)

  closes :
      (s : Session) (d : Db) (id : ℕ) (b : Booking) (history : List BookingStatusHistory)
      → find_booking id s d ≡ some b
      → same_status b.status BookingStatus.disputed ≡ true
      → Closing dto b d (record d {
        bookings =
            update_by
              (λ r. r.id == id)
              (λ _. record (ruled env admin dto dto.status b) { id = id })
              d.bookings;
        history = history;
      })
  closes s d id b history f k =
      let (status, customer, amount) = ruled_lem dto.status b in
      Closing.closed (record (ruled env admin dto dto.status b) { id = id }) k status customer
        amount
        (ap
          (λ i.
            update_by (λ (r : Booking). r.id == i)
              (λ _. record (ruled env admin dto dto.status b) { id = id }) d.bookings)
          (sym (found_id id s d b f)))

  Returns-close :
      (id : ℕ) (b : Booking) (s : Session) (d : Db) (Q : Unit {0} → Db → Type 0)
      → find_booking id s d ≡ some b
      → ((bookings : List Booking) (history : List BookingStatusHistory)
          → Closing dto b d (record d { bookings = bookings; history = history })
          → Q tt (record d { bookings = bookings; history = history }))
      → Returns Q (close_booking env admin dto id b.status s d)
  unfolding close_booking when pure
  Returns-close id b s d Q f h = elim (Bool-cases (same_status b.status BookingStatus.disputed)) [
    | inr k ↦ rw k (h d.bookings d.history (Closing.left k refl))
    | inl k ↦ rw k (
        Returns-bind _ _ _ _ _ (
          Returns-update_booking _ _ _ _ _ λ old history g _.
            let same : old ≡ b = ground (arith, f, g) in
            h _ history (
              subst
                (λ c. Closing dto b d (record d {
                  bookings =
                      update_by (λ r. r.id == id)
                        (λ _. record (ruled env admin dto dto.status c) { id = id }) d.bookings;
                  history = history;
                }))
                (sym same) (closes s d id b history f k))))
  ]

find_same :
    (id : ℕ) (s : Session) (d : Db) (disputes : List Dispute) (b : Booking)
    → find_booking id s d ≡ some b
    → find_booking id s (record d { disputes = disputes }) ≡ some b
unfolding find_booking bookings_visible current_provider_id
find_same id s d disputes b f = f

same_dispute :
    (id : ℕ) (d : Db) (before old : Dispute)
    → find_dispute id d ≡ some before
    → find_dispute id d ≡ some old
    → old ≡ before
same_dispute id d before old f k = ground (arith, f, k)

-- The other tables do not matter.
same-Closing :
    (dto : ResolveDisputeDto) (b : Booking) (d e x y : Db)
    → d.bookings ≡ x.bookings
    → e.bookings ≡ y.bookings
    → Closing dto b d e
    → Closing dto b x y
same-Closing dto b d e x y p q (left k same) = left k (sym q ∙ same ∙ p)
same-Closing dto b d e x y p q (closed c k status customer amount same) =
    closed c k status customer amount (sym q ∙ same ∙ ap (update_by (λ r. r.id == b.id) (λ _. c)) p)

module _ (env : Env) (admin : AuthenticatedUser) (id : ℕ) (dto : ResolveDisputeDto) (d : Db)
    (unique : no_two booking_clash d.bookings ≡ true) (role : is_admin_role admin.role ≡ true) where
  resolved :
      (before : Dispute) (booking : Booking) (old : Dispute) (e : Db)
      → find_by (λ y. y.id == id) d.disputes ≡ some before
      → find_by (λ b. b.id == before.booking_id) d.bookings ≡ some booking
      → old ≡ before
      → Closing dto booking d e
      → e.disputes
        ≡ update_by
            (λ y. y.id == id)
            (λ _. record old {
              id = id;
              status = ruling_status dto.status;
              resolution = some dto.resolution;
              refund_amount = dto.refund_amount;
              resolved_by_id = some admin.id;
              resolved_at = some (env.clock 0);
            })
            d.disputes
      → e.notifications
        ≡ record {
          user_id = booking.customer_id;
          type = NotificationType.dispute_update;
          subject = id;
        }
          ∷ d.notifications
      → e.admin_actions
        ≡ record {
          admin_id = admin.id;
          action_type = AdminActionType.dispute_resolve;
          target_id = id;
          reason = some dto.resolution;
        }
          ∷ d.admin_actions
      → IsResolved env admin id dto d e (record old {
        id = id;
        status = ruling_status dto.status;
        resolution = some dto.resolution;
        refund_amount = dto.refund_amount;
        resolved_by_id = some admin.id;
        resolved_at = some (env.clock 0);
      })
  resolved before booking old e f g same closing stores tells audits = record {
    by_admin = role;
    old = before;
    found = f;
    booking = booking;
    related = g;
    settled = refl;
    explained = refl;
    same_booking = ap (λ y. y.booking_id) same;
    stores = stores;
    closing = closing;
    tells = tells;
    audits = audits;
  }

  resolve_dispute-Returns :
      (s : Session)
      → Returns (λ x e. IsResolved env admin id dto d e x) (resolve_dispute_tx env admin id dto s d)
  unfolding resolve_dispute_tx rule_on audit pure find_dispute
  resolve_dispute-Returns s = Returns-reads _ _ _ _ _ (
      Returns-or_throw _ _ _ _ _ _ λ before f. Returns-reads _ _ _ _ _ (
        Returns-or_throw _ _ _ _ _ _ λ booking g. Returns-bind _ _ _ _ _ (
          Returns-update_dispute _ _ _ _ _ λ old k. Returns-bind _ _ _ _ _ (
            Returns-close env admin dto before.booking_id booking s _ _
              (find_same before.booking_id s d _ booking g)
              λ bookings history closing. Returns-bind _ _ _ _ _ (
                Returns-create_notification _ _ _ _ (
                  Returns-bind _ _ _ _ _ (
                    Returns-create_admin_action _ _ _ _ (
                      resolved before booking old _ f
                        (found_by_id before.booking_id s d booking unique g)
                        (same_dispute id d before old f k)
                        (same-Closing dto booking _ _ d _ refl refl closing) refl refl refl))))))))

-- A ruling that succeeds is an administrator's. It leaves the dispute resolved as it says; a booking
-- that is disputed is cancelled for the provider if the ruling is a refund, and completed if it is
-- not, with its customer and its amount as before, and no other booking is touched; any other booking
-- is left alone. The customer is told, and the audit trail has one entry more.
pub resolve_dispute-IsResolved :
    (env : Env) (admin : AuthenticatedUser) (id : ℕ) (dto : ResolveDisputeDto) (d e : Db)
    (x : Dispute)
    → no_two booking_clash d.bookings ≡ true
    → resolve_dispute env admin id dto d ≡ (e, ok x)
    → IsResolved env admin id dto d e x
unfolding resolve_dispute
resolve_dispute-IsResolved env admin id dto d e x u h =
    let (role, k) = admitted_as_admin env admin _ _ d e x h in
    with_user-Returns _ _ _ _ _ d e x (resolve_dispute-Returns env admin id dto d u role _) k
