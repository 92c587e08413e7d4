-- ===== src/Database/WritesKeep.antt =====
-- Prisma's writes and the consistency of the database.
use fixitph_backend.Prelude.{
  ℕ, Bool, true, false, some, List, [], ◌∷◌, ◌||◌, ◌==◌, not, if◌then◌else◌, any, all, update_by,
  no_two, ◌≡◌, refl, arith, all-update_by, find_by-holds, Option-cases, Bool-cases, inl, inr,
  &&-intro,
}
use fixitph_backend.Schema.{
  Provider, ServiceRequest, Quote, Booking, Dispute, Notification, Db, same_status,
}
use fixitph_backend.Transaction.{Session}
use fixitph_backend.Transaction.Keeps.{Keeps, Leaves, keeps_rules}
use fixitph_backend.Database.Constraints.{booking_checks, quote_checks, quote_clash, request_clash}
use fixitph_backend.Database.Writes.{
  find_booking, store_booking, update_booking, create_booking, find_quote, store_quote,
  update_quote, update_quotes, create_quote, find_request, store_request, update_request, admitted,
  create_request, create_dispute, update_provider, create_notification, status_change,
}
use fixitph_backend.Database.Consistency.{IsConsistent, HistoryIsFaithful}
use fixitph_backend.Database.History.{update_same, update_changed, create_faithful}

store_faithful :
    (s : Session) (d : Db) (old b : Booking)
    → find_booking b.id s d ≡ some old
    → old.id ≡ b.id
    → HistoryIsFaithful d.bookings d.history
    → HistoryIsFaithful (update_by (λ r. r.id == b.id) (λ _. b) d.bookings) (
        if same_status old.status b.status
        then d.history
        else status_change s b (some old.status) d.history)
unfolding find_booking
store_faithful s d old b found e f = elim (Bool-cases (same_status old.status b.status)) [
  | inl k ↦ rw k (update_same d.bookings d.history f old b _ found e k)
  | inr k ↦ rw k (update_changed d.bookings d.history f old b _ found e s)
]

pub Leaves-admitted :
    {A : Type 0} (P : Db → Type 0) (permitted checked unique : Bool) (a : A) (d : Db)
    → (checked ≡ true → unique ≡ true → P d)
    → Leaves P (admitted permitted checked unique (a, d))
unfolding admitted
Leaves-admitted P true true true a d h = h refl refl
Leaves-admitted P true true false a d h = tt
Leaves-admitted P true false u a d h = tt
Leaves-admitted P false c u a d h = tt

store_booking_keeps :
    (s : Session) (d : Db) (old b : Booking)
    → find_booking b.id s d ≡ some old
    → old.id ≡ b.id
    → IsConsistent d
    → Leaves IsConsistent (store_booking s d old b)
unfolding store_booking
store_booking_keeps s d old b found e c = Leaves-admitted IsConsistent _ _ _ _ _ λ checks unique.
    record {
      bookings_checked =
          all-update_by booking_checks _ _ d.bookings (λ x _ _. checks) c.bookings_checked;
      bookings_unique = unique;
      quotes_checked = c.quotes_checked;
      quotes_unique = c.quotes_unique;
      requests_unique = c.requests_unique;
      disputes_unique = c.disputes_unique;
      reviews_unique = c.reviews_unique;
      history_faithful = store_faithful s d old b found e c.history_faithful;
    }

pub found_id :
    (id : ℕ) (s : Session) (d : Db) (b : Booking) → find_booking id s d ≡ some b → b.id ≡ id
unfolding find_booking
found_id id s d b e = ground (arith, find_by-holds _ d.bookings b e)

pub update_booking-Keeps :
    (id : ℕ) (change : Booking → Booking) → Keeps IsConsistent (update_booking id change)
unfolding update_booking
update_booking-Keeps id change = record {
  at = λ s d c. elim (Option-cases (find_booking id s d)) [
    | inl e ↦ rw (e, update_booking) tt
    | inr (b, e) ↦
        rw (e, update_booking)
          (store_booking_keeps s d b (record (change b) { id = id }) e (found_id id s d b e) c)
  ];
}

pub create_booking-Keeps : (b : Booking) → Keeps IsConsistent (create_booking b)
unfolding create_booking all no_two
create_booking-Keeps b = record {
  at = λ s d c. Leaves-admitted IsConsistent _ _ _ _ _ λ checks unique. record {
    bookings_checked = &&-intro checks c.bookings_checked;
    bookings_unique = unique;
    quotes_checked = c.quotes_checked;
    quotes_unique = c.quotes_unique;
    requests_unique = c.requests_unique;
    disputes_unique = c.disputes_unique;
    reviews_unique = c.reviews_unique;
    history_faithful =
        create_faithful d.bookings d.history c.history_faithful b (ground (arith, unique)) s;
  };
}

with_quotes :
    (d : Db) (quotes : List Quote)
    → IsConsistent d
    → all quote_checks quotes ≡ true
    → no_two quote_clash quotes ≡ true
    → IsConsistent (record d { quotes = quotes })
with_quotes d quotes c checks unique = record {
  bookings_checked = c.bookings_checked;
  bookings_unique = c.bookings_unique;
  quotes_checked = checks;
  quotes_unique = unique;
  requests_unique = c.requests_unique;
  disputes_unique = c.disputes_unique;
  reviews_unique = c.reviews_unique;
  history_faithful = c.history_faithful;
}

store_quote_keeps :
    (s : Session) (d : Db) (q : Quote) → IsConsistent d → Leaves IsConsistent (store_quote s d q)
unfolding store_quote
store_quote_keeps s d q c = Leaves-admitted IsConsistent _ _ _ _ _ λ checks unique.
    with_quotes d _ c (all-update_by quote_checks _ _ d.quotes (λ x _ _. checks) c.quotes_checked)
      unique

pub update_quote-Keeps :
    (id : ℕ) (change : Quote → Quote) → Keeps IsConsistent (update_quote id change)
unfolding update_quote
update_quote-Keeps id change = record {
  at = λ s d c. elim (Option-cases (find_quote id s d)) [
    | inl e ↦ rw (e, update_quote) tt
    | inr (q, e) ↦ rw (e, update_quote) (store_quote_keeps s d (record (change q) { id = id }) c)
  ];
}

pub create_quote-Keeps : (q : Quote) → Keeps IsConsistent (create_quote q)
unfolding create_quote all
create_quote-Keeps q = record {
  at = λ s d c.
      Leaves-admitted IsConsistent _ _ _ _ _
        λ checks unique. with_quotes d _ c (&&-intro checks c.quotes_checked) unique;
}

-- The rows that the update hits meet the constraints afterwards, and the others did before.
checked_after :
    (hit : Quote → Bool) (change : Quote → Quote) (quotes : List Quote)
    → all (λ q. not (hit q) || quote_checks (change q)) quotes ≡ true
    → all quote_checks quotes ≡ true
    → all quote_checks (update_by hit change quotes) ≡ true
unfolding all update_by
checked_after hit change [] h c = refl
checked_after hit change (q ∷ quotes) h c = ground (arith, checked_after hit change quotes)

pub update_quotes-Keeps :
    (meets : Quote → Bool) (change : Quote → Quote)
    → Keeps IsConsistent (update_quotes meets change)
unfolding update_quotes
update_quotes-Keeps meets change = record {
  at = λ s d c. Leaves-admitted IsConsistent _ _ _ _ _ λ checks unique.
      with_quotes d _ c (checked_after _ _ d.quotes checks c.quotes_checked) unique;
}

with_requests :
    (d : Db) (requests : List ServiceRequest)
    → IsConsistent d
    → no_two request_clash requests ≡ true
    → IsConsistent (record d { requests = requests })
with_requests d requests c unique = record {
  bookings_checked = c.bookings_checked;
  bookings_unique = c.bookings_unique;
  quotes_checked = c.quotes_checked;
  quotes_unique = c.quotes_unique;
  requests_unique = unique;
  disputes_unique = c.disputes_unique;
  reviews_unique = c.reviews_unique;
  history_faithful = c.history_faithful;
}

store_request_keeps :
    (s : Session) (d : Db) (r : ServiceRequest)
    → IsConsistent d
    → Leaves IsConsistent (store_request s d r)
unfolding store_request
store_request_keeps s d r c =
    Leaves-admitted IsConsistent _ _ _ _ _ λ checks unique. with_requests d _ c unique

pub update_request-Keeps :
    (id : ℕ) (change : ServiceRequest → ServiceRequest)
    → Keeps IsConsistent (update_request id change)
unfolding update_request
update_request-Keeps id change = record {
  at = λ s d c. elim (Option-cases (find_request id s d)) [
    | inl e ↦ rw (e, update_request) tt
    | inr (r, e) ↦
        rw (e, update_request) (store_request_keeps s d (record (change r) { id = id }) c)
  ];
}

pub create_request-Keeps : (r : ServiceRequest) → Keeps IsConsistent (create_request r)
unfolding create_request
create_request-Keeps r = record {
  at = λ s d c. Leaves-admitted IsConsistent _ _ _ _ _ λ checks unique. with_requests d _ c unique;
}

pub create_dispute-Keeps : (x : Dispute) → Keeps IsConsistent (create_dispute x)
unfolding create_dispute
create_dispute-Keeps x = record {
  at = λ s d c. Leaves-admitted IsConsistent true true _ _ _ λ checks unique. record {
    bookings_checked = c.bookings_checked;
    bookings_unique = c.bookings_unique;
    quotes_checked = c.quotes_checked;
    quotes_unique = c.quotes_unique;
    requests_unique = c.requests_unique;
    disputes_unique = unique;
    reviews_unique = c.reviews_unique;
    history_faithful = c.history_faithful;
  };
}

with_providers :
    (d : Db) (providers : List Provider)
    → IsConsistent d
    → IsConsistent (record d { providers = providers })
with_providers d providers c = assumption

pub update_provider-Keeps :
    (id : ℕ) (change : Provider → Provider) → Keeps IsConsistent (update_provider id change)
unfolding update_provider
update_provider-Keeps id change = record {
  at = λ s d c. elim (Bool-cases (any (λ p. p.id == id) d.providers)) [
    | inl e ↦ rw (e, update_provider) (with_providers d _ c)
    | inr e ↦ rw (e, update_provider) tt
  ];
}

pub create_notification-Keeps : (n : Notification) → Keeps IsConsistent (create_notification n)
unfolding create_notification
create_notification-Keeps n = record { at = λ s d c. assumption }

pub ruleset writes_keep = (
  keeps_rules, update_booking-Keeps, create_booking-Keeps, update_quote-Keeps, update_quotes-Keeps,
  create_quote-Keeps, update_request-Keeps, create_request-Keeps, create_dispute-Keeps,
  update_provider-Keeps, create_notification-Keeps,
)
