-- ===== src/Database/Writes.antt =====
-- Prisma's reads and writes of the tables, under the policies, the constraints and the trigger
-- `record_booking_status_change`. The primary key is never part of the data of an update.
use fixitph_backend.Prelude.{
  ℕ, Bool, true, Option, none, some, List, ◌∷◌, ◌&&◌, ◌||◌, ◌==◌, not, if◌then◌else◌, find_by, any,
  all, update_by, no_two,
}
use fixitph_backend.Schema.{
  Provider, ServiceRequest, Quote, Booking, BookingStatus, BookingStatusHistory, Dispute,
  Notification, Db, same_status,
}
use fixitph_backend.Errors.{
  database, record_not_found, unique_violation, policy_violation, check_violation, Result, ok, err,
}
use fixitph_backend.Transaction.{Session, Tx}
use fixitph_backend.Database.Policies.{
  bookings_visible, bookings_insert, quotes_visible, quotes_insert, requests_visible,
  requests_insert,
}
use fixitph_backend.Database.Constraints.{
  booking_checks, booking_clash, quote_checks, quote_clash, request_checks, request_clash,
  dispute_clash,
}

-- The order in which Postgres rejects a row: policy, CHECK constraints, unique indexes.
unfoldable pub admitted : {A : Type 0} → Bool → Bool → Bool → A → Result A
admitted permitted checked unique a =
    if permitted
    then (if checked
        then (if unique then ok a else err (database unique_violation))
        else err (database check_violation))
    else err (database policy_violation)

-- The row that the trigger writes; nothing for an update that leaves the status as it was.
unfoldable pub status_change :
    Session → Booking → Option BookingStatus → List BookingStatusHistory → List BookingStatusHistory
status_change s b from history =
    record {
      booking_id = b.id;
      from_status = from;
      to_status = b.status;
      changed_by_id = s.user_id;
      reason = s.status_change_reason;
    }
    ∷ history

unfoldable pub find_booking : ℕ → Session → Db → Option Booking
find_booking id s d = find_by (λ b. b.id == id && bookings_visible s d b) d.bookings

abbrev replace_booking : Booking → List Booking → List Booking
replace_booking b = update_by (λ r. r.id == b.id) (λ _. b)

unfoldable pub store_booking : Session → Db → Booking → Booking → Result (Booking × Db)
store_booking s d old b =
    let bookings = replace_booking b d.bookings in
    admitted (bookings_visible s d b) (booking_checks b) (no_two booking_clash bookings) (
      b,
      record d {
        bookings = bookings;
        history =
            if same_status old.status b.status
            then d.history
            else status_change s b (some old.status) d.history;
      },
    )

unfoldable pub update_booking : ℕ → (Booking → Booking) → Tx Booking
update_booking id change s d = elim (find_booking id s d) [
  | none ↦ err (database record_not_found)
  | some b ↦ store_booking s d b (record (change b) { id = id })
]

unfoldable pub create_booking : Booking → Tx Booking
create_booking b s d =
    admitted (bookings_insert s b) (booking_checks b) (no_two booking_clash (b ∷ d.bookings))
      (b, record d { bookings = b ∷ d.bookings; history = status_change s b none d.history })

unfoldable pub find_quote : ℕ → Session → Db → Option Quote
find_quote id s d = find_by (λ q. q.id == id && quotes_visible s d q) d.quotes

unfoldable pub store_quote : Session → Db → Quote → Result (Quote × Db)
store_quote s d q =
    let quotes = update_by (λ r. r.id == q.id) (λ _. q) d.quotes in
    admitted (quotes_visible s d q) (quote_checks q) (no_two quote_clash quotes)
      (q, record d { quotes = quotes })

unfoldable pub update_quote : ℕ → (Quote → Quote) → Tx Quote
update_quote id change s d = elim (find_quote id s d) [
  | none ↦ err (database record_not_found)
  | some q ↦ store_quote s d (record (change q) { id = id })
]

-- `updateMany`: every visible row that meets the condition.
unfoldable pub update_quotes : (Quote → Bool) → (Quote → Quote) → Tx (Unit {0})
update_quotes meets change s d =
    let hit = λ (q : Quote). quotes_visible s d q && meets q in
    let changed = λ (q : Quote). record (change q) { id = q.id } in
    let quotes = update_by hit changed d.quotes in
    admitted (all (λ q. not (hit q) || quotes_visible s d (changed q)) d.quotes)
      (all (λ q. not (hit q) || quote_checks (changed q)) d.quotes) (no_two quote_clash quotes)
      (tt, record d { quotes = quotes })

unfoldable pub create_quote : Quote → Tx Quote
create_quote q s d =
    admitted (quotes_insert s d q) (quote_checks q) (no_two quote_clash (q ∷ d.quotes))
      (q, record d { quotes = q ∷ d.quotes })

unfoldable pub find_request : ℕ → Session → Db → Option ServiceRequest
find_request id s d = find_by (λ r. r.id == id && requests_visible s d r) d.requests

unfoldable pub store_request : Session → Db → ServiceRequest → Result (ServiceRequest × Db)
store_request s d r =
    let requests = update_by (λ q. q.id == r.id) (λ _. r) d.requests in
    admitted (requests_visible s d r) (request_checks r) (no_two request_clash requests)
      (r, record d { requests = requests })

unfoldable pub update_request : ℕ → (ServiceRequest → ServiceRequest) → Tx ServiceRequest
update_request id change s d = elim (find_request id s d) [
  | none ↦ err (database record_not_found)
  | some r ↦ store_request s d (record (change r) { id = id })
]

unfoldable pub create_request : ServiceRequest → Tx ServiceRequest
create_request r s d =
    admitted (requests_insert s r) (request_checks r) (no_two request_clash (r ∷ d.requests))
      (r, record d { requests = r ∷ d.requests })

-- `disputes` and the tables below are under no policy.
unfoldable pub create_dispute : Dispute → Tx Dispute
create_dispute x s d =
    admitted true true (no_two dispute_clash (x ∷ d.disputes))
      (x, record d { disputes = x ∷ d.disputes })

unfoldable pub update_provider : ℕ → (Provider → Provider) → Tx (Unit {0})
update_provider id change s d =
    if any (λ p. p.id == id) d.providers
    then ok (
      tt,
      record d {
        providers = update_by (λ p. p.id == id) (λ p. record (change p) { id = id }) d.providers;
      },
    )
    else err (database record_not_found)

unfoldable pub create_notification : Notification → Tx (Unit {0})
create_notification n s d = ok (tt, record d { notifications = n ∷ d.notifications })
