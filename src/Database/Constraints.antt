-- ===== src/Database/Constraints.antt =====
-- The CHECK constraints and the unique indexes of prisma/migrations.
use fixitph_backend.Prelude.{
  ℕ, Bool, true, false, Option, none, some, ◌&&◌, ◌||◌, ◌==◌, ltb, leb, not, is_none, is_some,
}
use fixitph_backend.Schema.{
  Quote, Booking, ServiceRequest, Dispute, DisputeStatus, Review, Report, same_target, is_pending,
  is_accepted, is_live_quote, holds_slot, is_cancelled, is_completed, is_pending_confirmation,
}

-- `a IS NULL OR a > b`
abbrev after : Option ℕ → ℕ → Bool
after none b = true
after (some a) b = ltb b a

-- `a IS NULL OR b IS NULL OR a <= b`
abbrev ordered : Option ℕ → Option ℕ → Bool
ordered none b = true
ordered (some a) none = true
ordered (some a) (some b) = leb a b

unfoldable pub booking_checks : Booking → Bool
booking_checks b =
    after b.scheduled_end b.scheduled_start
    && ordered b.actual_start b.actual_end
    && (is_none b.contact_released_at || not (is_pending_confirmation b.status))
    && (not (is_cancelled b.status) || (is_some b.cancelled_at && is_some b.cancelled_by_id))
    && (not (is_completed b.status) || is_some b.completed_at)

-- The primary key, `bookings_quote_id_key` and `bookings_provider_slot_unique`.
unfoldable pub booking_clash : Booking → Booking → Bool
booking_clash a b =
    a.id == b.id
    || a.quote_id == b.quote_id
    || (a.provider_id == b.provider_id
        && a.scheduled_start == b.scheduled_start
        && is_none a.deleted_at
        && is_none b.deleted_at
        && holds_slot a.status
        && holds_slot b.status)

-- `a IS NULL OR a > 0`
abbrev positive : Option ℕ → Bool
positive none = true
positive (some n) = ltb 0 n

unfoldable pub quote_checks : Quote → Bool
quote_checks q =
    ltb 0 q.amount
    && positive q.estimated_duration_minutes
    && (is_pending q.status || is_some q.responded_at)

-- The primary key, `quotes_one_live_per_provider_per_request` and `quotes_one_accepted_per_request`.
unfoldable pub quote_clash : Quote → Quote → Bool
quote_clash a b =
    a.id == b.id
    || (a.service_request_id == b.service_request_id
        && ((a.provider_id == b.provider_id && is_live_quote a.status && is_live_quote b.status)
            || (is_accepted a.status && is_accepted b.status)))

-- The ranges of the coordinates are left out: an address is stored and never computed with.
unfoldable pub request_checks : ServiceRequest → Bool
request_checks r = ordered r.budget_min r.budget_max

unfoldable pub request_clash : ServiceRequest → ServiceRequest → Bool
request_clash a b = a.id == b.id

abbrev is_resolved : DisputeStatus → Bool
is_resolved DisputeStatus.resolved_refund = true
is_resolved DisputeStatus.resolved_partial_refund = true
is_resolved DisputeStatus.resolved_no_action = true
is_resolved _ = false

-- `status IN ('OPEN', 'UNDER_REVIEW', 'AWAITING_CUSTOMER', 'AWAITING_PROVIDER', 'ESCALATED')`
abbrev pub is_unresolved : DisputeStatus → Bool
is_unresolved DisputeStatus.resolved_refund = false
is_unresolved DisputeStatus.resolved_partial_refund = false
is_unresolved DisputeStatus.resolved_no_action = false
is_unresolved DisputeStatus.closed = false
is_unresolved _ = true

-- `disputes_resolution_fields_consistent`; amounts are not negative.
unfoldable pub dispute_checks : Dispute → Bool
dispute_checks x =
    not (is_resolved x.status)
    || (is_some x.resolved_at && is_some x.resolved_by_id && is_some x.resolution)

-- The primary key and `disputes_one_open_per_booking`.
unfoldable pub dispute_clash : Dispute → Dispute → Bool
dispute_clash a b =
    a.id == b.id
    || (a.booking_id == b.booking_id && is_unresolved a.status && is_unresolved b.status)

abbrev star_rating : ℕ → Bool
star_rating n = leb 1 n && leb n 5

abbrev star_rating? : Option ℕ → Bool
star_rating? none = true
star_rating? (some n) = star_rating n

unfoldable pub review_checks : Review → Bool
review_checks r =
    star_rating r.rating
    && star_rating? r.punctuality_rating
    && star_rating? r.quality_rating
    && star_rating? r.value_rating
    && (is_none r.provider_response || is_some r.provider_responded_at)

-- The primary key and `reviews_booking_id_key`.
unfoldable pub review_clash : Review → Review → Bool
review_clash a b = a.id == b.id || a.booking_id == b.booking_id

-- The primary key and `reports_reporter_target_key`.
unfoldable pub report_clash : Report → Report → Bool
report_clash a b =
    a.id == b.id
    || (a.reporter_id == b.reporter_id
        && same_target a.target_type b.target_type
        && a.target_id == b.target_id)
