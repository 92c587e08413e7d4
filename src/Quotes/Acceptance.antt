-- ===== src/Quotes/Acceptance.antt =====
-- `accept` of QuotesService, where it succeeds.
use fixitph_backend.Prelude.{
  ℕ, zero, suc, String, Bool, true, false, Option, none, some, List, [], ◌∷◌, ◌+◌, ◌*◌, ◌&&◌, ◌||◌,
  ◌==◌, is_past, leb, any, map, update_by, no_two, find_by, if◌then◌else◌, ◌≡◌, refl, sym, subst,
  arith, find_by-holds, find_by-widen, any-find_by, ==_iff,
}
use fixitph_backend.Schema.{
  Quote, QuoteStatus, RequestStatus, ServiceRequest, Booking, BookingStatus, PaymentStatus,
  NotificationType, Db, is_pending, is_admin_role,
}
use fixitph_backend.Errors.{ok}
use fixitph_backend.Transaction.{pure, Env, AuthenticatedUser, Session, to_auth_context}
use fixitph_backend.Transaction.Returns.{
  Returns, Returns-bind, Returns-reads, Returns-or_throw, Returns-throw_if, with_user-Returns,
}
use fixitph_backend.Database.Policies.{
  requests_visible, quotes_visible, owns_service_request, is_admin,
}
use fixitph_backend.Database.Constraints.{request_clash}
use fixitph_backend.Database.Writes.{find_quote, find_request, status_change}
use fixitph_backend.Database.WritesReturn.{
  Returns-create_notification, Returns-update_quote, Returns-update_quotes, Returns-create_booking,
  Returns-update_request,
}
use fixitph_backend.Quotes.Service.{
  AcceptQuoteDto, load_for_customer, is_sibling, estimated_end, accepted_booking, accept_writes,
  accept_tx, accept,
}

-- The end of work that starts then and is estimated to take so many minutes; 0 minutes count as none.
abbrev pub expected_end : ℕ → Option ℕ → Option ℕ
expected_end start none = none
expected_end start (some zero) = none
expected_end start (some (suc minutes)) = some (start + suc minutes * 60_000)

expected_end_lem :
    (start : ℕ) (minutes : Option ℕ) → estimated_end start minutes ≡ expected_end start minutes
expected_end_lem start none = refl
expected_end_lem start (some zero) = refl
expected_end_lem start (some (suc minutes)) = ground arith

-- What an acceptance of the quote `q` makes of a quote: itself accepted, every other pending quote on
-- the same request rejected, and any other quote as it was.
unfoldable pub decided : Env → Quote → Quote → Quote
decided env q x =
    if x.id == q.id
    then record q { status = QuoteStatus.accepted; responded_at = some (env.clock 2) }
    else (if x.service_request_id == q.service_request_id && is_pending x.status
        then record x { status = QuoteStatus.rejected; responded_at = some (env.clock 3) }
        else x)

-- The database `e` after the quote `q` on the request `r` has become the booking `b`.
pub record IsAccepted (env : Env) (user : AuthenticatedUser) (dto : AcceptQuoteDto) (s : Session)
    (id : ℕ) (d e : Db) (b : Booking) : Type 0 where
  pub quote : Quote
  pub request : ServiceRequest
  pub quote_found : find_quote id s d ≡ some quote
  pub request_found : find_request quote.service_request_id s d ≡ some request
  pub authorised : (is_admin_role user.role || request.customer_id == user.id) ≡ true
  pub was_pending : is_pending quote.status ≡ true
  pub in_time : is_past quote.valid_until (env.clock 0) ≡ false
  pub in_future : leb dto.scheduled_start (env.clock 1) ≡ false
  pub becomes : b ≡ record {
    id = env.uuid 0;
    quote_id = quote.id;
    service_request_id = quote.service_request_id;
    customer_id = request.customer_id;
    provider_id = quote.provider_id;
    service_id = request.service_id;
    scheduled_start = dto.scheduled_start;
    scheduled_end = expected_end dto.scheduled_start quote.estimated_duration_minutes;
    actual_start = none;
    actual_end = none;
    status = BookingStatus.pending_confirmation;
    total_amount = quote.amount;
    payment_method = dto.payment_method;
    payment_status = PaymentStatus.unpaid;
    contact_released_at = none;
    cancellation_reason = none;
    cancelled_by_id = none;
    cancelled_at = none;
    completed_at = none;
    deleted_at = none;
  }
  pub leaves : e ≡ record d {
    bookings = b ∷ d.bookings;
    history =
        record {
          booking_id = b.id;
          from_status = none;
          to_status = BookingStatus.pending_confirmation;
          changed_by_id = s.user_id;
          reason = s.status_change_reason;
        }
        ∷ d.history;
    quotes = map (decided env quote) d.quotes;
    requests =
        update_by
          (λ x. x.id == quote.service_request_id)
          (λ _. record request { status = RequestStatus.booked })
          d.requests;
    notifications =
        record { user_id = user.id; type = NotificationType.quote_accepted; subject = b.id }
        ∷ d.notifications;
  }
  -- No quote on the request is left to be accepted.
  pub settled :
      any (λ x. x.service_request_id == quote.service_request_id && is_pending x.status) e.quotes
      ≡ false

module _ (env : Env) (user : AuthenticatedUser) (reason : Option String) where
  unfoldable pub session : Session
  session = record { context = to_auth_context user; status_change_reason = reason; now = env.now }

  sees_all :
      (d : Db) (q : Quote) (r : ServiceRequest)
      → find_request q.service_request_id session d ≡ some r
      → (is_admin_role user.role || r.customer_id == user.id) ≡ true
      → (quotes : List Quote) (x : Quote) → (x.service_request_id == q.service_request_id) ≡ true
      → quotes_visible session (record d { quotes = quotes }) x ≡ true
  unfolding session quotes_visible find_request owns_service_request is_admin to_auth_context
  sees_all d q r f a quotes x e = ground (
    arith,
    find_by-holds _ d.requests r f,
    any-find_by (λ y. y.id == x.service_request_id && y.customer_id == user.id) _ d.requests r f,
  )

  decides :
      (q : Quote) (visible : Quote → Bool)
      → ((x : Quote) → (x.service_request_id == q.service_request_id) ≡ true → visible x ≡ true)
      → (quotes : List Quote)
      → update_by
          (λ x. visible x && is_sibling q x)
          (λ x. record x { status = QuoteStatus.rejected; responded_at = some (env.clock 3) })
          (update_by
            (λ x. x.id == q.id)
            (λ _. record q { status = QuoteStatus.accepted; responded_at = some (env.clock 2) })
            quotes)
        ≡ map (decided env q) quotes
  unfolding is_sibling decided update_by
  decides q visible v [] = refl
  decides q visible v (x ∷ quotes) = ground (arith, v x, decides q visible v quotes)

  settles :
      (q : Quote) (quotes : List Quote)
      → any
          (λ x. x.service_request_id == q.service_request_id && is_pending x.status)
          (map (decided env q) quotes)
        ≡ false
  unfolding decided any
  settles q [] = refl
  settles q (x ∷ quotes) = ground (arith, settles q quotes)

  -- The request that the acceptance books is the one that it read.
  same_request :
      (d e : Db) (id : ℕ) (r asked : ServiceRequest)
      → e.requests ≡ d.requests
      → no_two request_clash d.requests ≡ true
      → find_request id session d ≡ some r
      → find_request id session e ≡ some asked
      → (asked ≡ r) × (r.id ≡ id)
  unfolding find_request request_clash
  same_request d e id r asked same u f g =
      let one =
        find_by-widen request_clash _ (λ x. x.id == id) d.requests r (λ y k. ground (arith, k))
          (λ y z k l. ground (arith, k, l)) u f in
      let other =
        find_by-widen request_clash (λ x. x.id == id && requests_visible session e x)
          (λ x. x.id == id) d.requests asked (λ y k. ground (arith, k))
          (λ y z k l. ground (arith, k, l)) u
          (subst
            (λ (rs : List ServiceRequest).
              find_by (λ x. x.id == id && requests_visible session e x) rs ≡ some asked)
            same g) in
      (
        ground (arith, one, other),
        (==_iff r.id id).0 (find_by-holds (λ (x : ServiceRequest). x.id == id) d.requests r one),
      )

  -- The rows of an acceptance, from its writes.
  accepts :
      (dto : AcceptQuoteDto) (d : Db) (q : Quote) (r : ServiceRequest) (id : ℕ)
      → no_two request_clash d.requests ≡ true
      → find_quote id session d ≡ some q
      → q.id ≡ id
      → find_request q.service_request_id session d ≡ some r
      → (is_admin_role user.role || r.customer_id == user.id) ≡ true
      → is_pending q.status ≡ true
      → is_past q.valid_until (env.clock 0) ≡ false
      → leb dto.scheduled_start (env.clock 1) ≡ false
      → Returns
          (λ b e. IsAccepted env user dto session id d e b)
          (accept_writes env user dto q r session d)
  unfolding accept_writes pure accepted_booking status_change
  accepts dto d q r id u f i g a p v l = Returns-bind _ _ _ _ _ (
      Returns-update_quote _ _ _ _ _ λ old k. Returns-bind _ _ _ _ _ (
        Returns-update_quotes _ _ _ _ _ (
          Returns-bind _ _ _ _ _ (
            Returns-create_booking _ _ _ _ (
              Returns-bind _ _ _ _ _ (
                Returns-update_request _ _ _ _ _ λ asked m. Returns-bind _ _ _ _ _ (
                  Returns-create_notification _ _ _ _ (
                    let same : old ≡ q = ground (arith, f, i, k) in
                    let (read, own) = same_request d _ q.service_request_id r asked refl u g m in
                    let first =
                      update_by (λ (x : Quote). x.id == q.id)
                        (λ _. record q {
                          status = QuoteStatus.accepted;
                          responded_at = some (env.clock 2);
                        })
                        d.quotes in
                    let all_decided =
                      decides q (λ x. quotes_visible session (record d { quotes = first }) x)
                        (sees_all d q r g a first) d.quotes in
                    record {
                      quote = q;
                      request = r;
                      quote_found = f;
                      request_found = g;
                      authorised = a;
                      was_pending = p;
                      in_time = v;
                      in_future = l;
                      becomes =
                          rw (expected_end_lem dto.scheduled_start q.estimated_duration_minutes)
                            refl;
                      leaves = rw (same, read, all_decided, sym own) refl;
                      settled = rw (same, all_decided) (settles q d.quotes);
                    }))))))))

  quote_id : (d : Db) (q : Quote) (id : ℕ) → find_quote id session d ≡ some q → q.id ≡ id
  unfolding find_quote
  quote_id d q id f = ground (arith, find_by-holds _ d.quotes q f)

  accept-Returns :
      (dto : AcceptQuoteDto) (d : Db) (id : ℕ)
      → no_two request_clash d.requests ≡ true
      → Returns
          (λ b e. IsAccepted env user dto session id d e b)
          (accept_tx env user id dto session d)
  unfolding accept_tx load_for_customer pure
  accept-Returns dto d id u = Returns-bind _ _ _ _ _ (
      Returns-reads _ _ _ _ _ (
        Returns-or_throw _ _ _ _ _ _ λ q f. Returns-reads _ _ _ _ _ (
          Returns-or_throw _ _ _ _ _ _ λ r g. Returns-throw_if _ _ _ _ _ _ λ a.
            Returns-throw_if _ _ _ _ _ _ λ p. Returns-throw_if _ _ _ _ _ _ λ v.
              Returns-throw_if _ _ _ _ _ _ λ l.
                accepts dto d q r id u f (quote_id d q id f) g (ground arith) (ground arith) v l)))

-- Where no two requests share an identifier, an acceptance that succeeds was of a pending quote,
-- before its deadline and for a start in the future, by the customer who posted the request or an
-- administrator. It puts a booking with the terms of the quote before the others and enters it in
-- the status history as pending; it leaves the quote accepted, every other pending quote on the
-- request rejected and every other quote as it was, so that no quote on the request is pending, and
-- the request booked; and it tells the caller. Nothing else in the database changes.
pub accept-IsAccepted :
    (env : Env) (user : AuthenticatedUser) (id : ℕ) (dto : AcceptQuoteDto) (d e : Db) (b : Booking)
    → no_two request_clash d.requests ≡ true
    → accept env user id dto d ≡ (e, ok b)
    → IsAccepted env user dto (session env user (some "quote accepted by customer")) id d e b
unfolding accept session
accept-IsAccepted env user id dto d e b u h =
    with_user-Returns _ _ _ _ _ d e b
      (accept-Returns env user (some "quote accepted by customer") dto d id u) h
