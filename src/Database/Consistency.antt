-- ===== src/Database/Consistency.antt =====
-- The consistency of the database, as it is between two writes.
use fixitph_backend.Prelude.{
  ℕ, Bool, true, false, Option, none, some, List, [], ◌∷◌, ◌&&◌, ◌==◌, is_none, find_by, any, all,
  no_two, ◌≡◌,
}
use fixitph_backend.Schema.{Booking, BookingStatus, BookingStatusHistory, Db, same_status}
use fixitph_backend.Database.Constraints.{
  booking_checks, booking_clash, quote_checks, quote_clash, request_clash, dispute_clash,
  review_clash,
}

-- The latest entry of a booking in the status history.
unfoldable pub latest : ℕ → List BookingStatusHistory → Option BookingStatusHistory
latest id = find_by λ e. e.booking_id == id

abbrev pub ends_in : BookingStatus → Option BookingStatusHistory → Bool
ends_in status none = false
ends_in status (some e) = same_status e.to_status status

-- An entry starts where the one before it ended, and the first starts from nothing.
abbrev pub follows : Option BookingStatus → Option BookingStatusHistory → Bool
follows none e = is_none e
follows (some from) e = ends_in from e

unfoldable pub chained : List BookingStatusHistory → Bool
chained [] = true
chained (e ∷ history) = follows e.from_status (latest e.booking_id history) && chained history

unfoldable pub tracks : List BookingStatusHistory → Booking → Bool
tracks history b = ends_in b.status (latest b.id history)

unfoldable pub refers : List Booking → BookingStatusHistory → Bool
refers bookings e = any (λ b. b.id == e.booking_id) bookings

pub record HistoryIsFaithful (bookings : List Booking) (history : List BookingStatusHistory)
    : Type 0 where
  pub tracked : all (tracks history) bookings ≡ true
  pub linked : chained history ≡ true
  pub owned : all (refers bookings) history ≡ true

pub record IsConsistent (d : Db) : Type 0 where
  pub bookings_checked : all booking_checks d.bookings ≡ true
  pub bookings_unique : no_two booking_clash d.bookings ≡ true
  pub quotes_checked : all quote_checks d.quotes ≡ true
  pub quotes_unique : no_two quote_clash d.quotes ≡ true
  pub requests_unique : no_two request_clash d.requests ≡ true
  pub disputes_unique : no_two dispute_clash d.disputes ≡ true
  pub reviews_unique : no_two review_clash d.reviews ≡ true
  pub history_faithful : HistoryIsFaithful d.bookings d.history
