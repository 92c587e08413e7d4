-- ===== src/Database/WritesReturn.antt =====
-- Prisma's writes, where they succeed.
use fixitph_backend.Prelude.{
  ℕ, Bool, true, false, none, some, List, ◌∷◌, ◌&&◌, ◌==◌, update_by, ◌≡◌, refl, Option-cases,
  Bool-cases, any, inl, inr, if◌then◌else◌,
}
use fixitph_backend.Schema.{ServiceRequest, Provider, Quote, Booking, Notification, Db, same_status}
use fixitph_backend.Transaction.{Session}
use fixitph_backend.Transaction.Returns.{Returns}
use fixitph_backend.Database.Policies.{quotes_visible}
use fixitph_backend.Database.Constraints.{booking_checks}
use fixitph_backend.Database.Writes.{
  find_booking, store_booking, update_booking, create_booking, find_quote, store_quote,
  update_quote, update_quotes, find_request, store_request, update_request, admitted, status_change,
  create_notification, update_provider, create_quote,
}

module _ {A : Type 0} (Q : A → Db → Type 0) where
  pub Returns-admitted :
      (permitted checked unique : Bool) (a : A) (d : Db)
      → (checked ≡ true → Q a d)
      → Returns Q (admitted permitted checked unique (a, d))
  unfolding admitted
  Returns-admitted true true true a d h = h refl
  Returns-admitted true true false a d h = tt
  Returns-admitted true false u a d h = tt
  Returns-admitted false c u a d h = tt

module _ (id : ℕ) (s : Session) (d : Db) where
  pub Returns-change_booking :
      (change : Booking → Booking) (Q : Booking → Db → Type 0)
      → ((old : Booking)
          → find_booking id s d ≡ some old
          → booking_checks (record (change old) { id = id }) ≡ true
          → Q
              (record (change old) { id = id })
              (record d {
                bookings =
                    update_by (λ r. r.id == id) (λ _. record (change old) { id = id }) d.bookings;
                history =
                    if same_status old.status (change old).status
                    then d.history
                    else status_change s
                        (record (change old) { id = id })
                        (some old.status)
                        d.history;
              }))
      → Returns Q (update_booking id change s d)
  unfolding update_booking store_booking
  Returns-change_booking change Q h = elim (Option-cases (find_booking id s d)) [
    | inl e ↦ rw (e, update_booking) tt
    | inr (old, e) ↦ rw (e, update_booking) (Returns-admitted Q _ _ _ _ _ λ c. h old e c)
  ]

  -- The same, where the status history does not matter.
  pub Returns-update_booking :
      (change : Booking → Booking) (Q : Booking → Db → Type 0)
      → ((old : Booking) (history : List _)
          → find_booking id s d ≡ some old
          → booking_checks (record (change old) { id = id }) ≡ true
          → Q
              (record (change old) { id = id })
              (record d {
                bookings =
                    update_by (λ r. r.id == id) (λ _. record (change old) { id = id }) d.bookings;
                history = history;
              }))
      → Returns Q (update_booking id change s d)
  Returns-update_booking change Q h = Returns-change_booking change Q λ old f c. h old _ f c

  pub Returns-update_quote :
      (change : Quote → Quote) (Q : Quote → Db → Type 0)
      → ((old : Quote)
          → find_quote id s d ≡ some old
          → Q
              (record (change old) { id = id })
              (record d {
                quotes =
                    update_by (λ r. r.id == id) (λ _. record (change old) { id = id }) d.quotes;
              }))
      → Returns Q (update_quote id change s d)
  unfolding update_quote store_quote
  Returns-update_quote change Q h = elim (Option-cases (find_quote id s d)) [
    | inl e ↦ rw (e, update_quote) tt
    | inr (old, e) ↦ rw (e, update_quote) (Returns-admitted Q _ _ _ _ _ λ _. h old e)
  ]

  pub Returns-update_request :
      (change : ServiceRequest → ServiceRequest) (Q : ServiceRequest → Db → Type 0)
      → ((old : ServiceRequest)
          → find_request id s d ≡ some old
          → Q
              (record (change old) { id = id })
              (record d {
                requests =
                    update_by (λ r. r.id == id) (λ _. record (change old) { id = id }) d.requests;
              }))
      → Returns Q (update_request id change s d)
  unfolding update_request store_request
  Returns-update_request change Q h = elim (Option-cases (find_request id s d)) [
    | inl e ↦ rw (e, update_request) tt
    | inr (old, e) ↦ rw (e, update_request) (Returns-admitted Q _ _ _ _ _ λ _. h old e)
  ]

pub Returns-update_quotes :
    (meets : Quote → Bool) (change : Quote → Quote) (s : Session) (d : Db)
    (Q : Unit {0} → Db → Type 0)
    → Q tt (record d {
      quotes =
          update_by
            (λ q. quotes_visible s d q && meets q)
            (λ q. record (change q) { id = q.id })
            d.quotes;
    })
    → Returns Q (update_quotes meets change s d)
unfolding update_quotes
Returns-update_quotes meets change s d Q h = Returns-admitted Q _ _ _ _ _ λ _. h

pub Returns-create_booking :
    (b : Booking) (s : Session) (d : Db) (Q : Booking → Db → Type 0)
    → Q b (record d { bookings = b ∷ d.bookings; history = status_change s b none d.history })
    → Returns Q (create_booking b s d)
unfolding create_booking
Returns-create_booking b s d Q h = Returns-admitted Q _ _ _ _ _ λ _. h

pub Returns-create_notification :
    (n : Notification) (s : Session) (d : Db) (Q : Unit {0} → Db → Type 0)
    → Q tt (record d { notifications = n ∷ d.notifications })
    → Returns Q (create_notification n s d)
unfolding create_notification
Returns-create_notification n s d Q h = h

pub Returns-update_provider :
    (id : ℕ) (change : Provider → Provider) (s : Session) (d : Db) (Q : Unit {0} → Db → Type 0)
    → Q tt (record d {
      providers = update_by (λ p. p.id == id) (λ p. record (change p) { id = id }) d.providers;
    })
    → Returns Q (update_provider id change s d)
unfolding update_provider
Returns-update_provider id change s d Q h = elim (Bool-cases (any (λ p. p.id == id) d.providers)) [
  | inl e ↦ rw e h
  | inr e ↦ rw e tt
]

pub Returns-create_quote :
    (q : Quote) (s : Session) (d : Db) (Q : Quote → Db → Type 0)
    → Q q (record d { quotes = q ∷ d.quotes })
    → Returns Q (create_quote q s d)
unfolding create_quote
Returns-create_quote q s d Q h = Returns-admitted Q _ _ _ _ _ λ _. h
