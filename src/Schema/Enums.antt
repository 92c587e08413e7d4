-- ===== src/Schema/Enums.antt =====
-- The enums of prisma/schema.prisma, and equality of their values.
use fixitph_backend.Prelude.{ℕ, Bool, true, false, ◌==◌}

pub data UserRole : Type 0 where
  customer provider admin : UserRole

pub data UserStatus : Type 0 where
  pending_verification active suspended deactivated : UserStatus

pub data VerificationStatus : Type 0 where
  unverified pending approved rejected expired : VerificationStatus

-- `OPEN` is `opened` here, since `open` is a reserved word.
pub data RequestStatus : Type 0 where
  draft opened quoted accepted booked cancelled expired closed : RequestStatus

pub data RequestUrgency : Type 0 where
  flexible within_week within_48h emergency : RequestUrgency

pub data QuoteStatus : Type 0 where
  pending accepted rejected withdrawn expired : QuoteStatus

pub data BookingStatus : Type 0 where
  pending_confirmation confirmed in_progress completed : BookingStatus
  cancelled_by_customer cancelled_by_provider : BookingStatus
  no_show_customer no_show_provider disputed : BookingStatus

pub data PaymentMethod : Type 0 where
  cash gcash maya bank_transfer : PaymentMethod

pub data PaymentStatus : Type 0 where
  unpaid partially_paid paid refunded : PaymentStatus

pub data DisputeStatus : Type 0 where
  opened under_review awaiting_customer awaiting_provider escalated : DisputeStatus
  resolved_refund resolved_partial_refund resolved_no_action closed : DisputeStatus

pub data NotificationType : Type 0 where
  quote_received quote_accepted : NotificationType
  booking_confirmed booking_cancelled booking_completed : NotificationType
  review_received dispute_update system : NotificationType

pub data ReportTargetType : Type 0 where
  user provider service review message booking : ReportTargetType

pub data ReportReason : Type 0 where
  spam fraud inappropriate_content harassment no_show poor_workmanship fake_review : ReportReason
  off_platform_payment other : ReportReason

pub data ReportStatus : Type 0 where
  opened under_review resolved dismissed : ReportStatus

pub data AdminActionType : Type 0 where
  provider_verification_approve provider_verification_reject : AdminActionType
  document_approve document_reject user_suspend user_reinstate : AdminActionType
  service_takedown review_takedown booking_status_override : AdminActionType
  dispute_resolve report_resolve category_mutate setting_update : AdminActionType

abbrev pub same_target : ReportTargetType → ReportTargetType → Bool
same_target ReportTargetType.user ReportTargetType.user = true
same_target ReportTargetType.provider ReportTargetType.provider = true
same_target ReportTargetType.service ReportTargetType.service = true
same_target ReportTargetType.review ReportTargetType.review = true
same_target ReportTargetType.message ReportTargetType.message = true
same_target ReportTargetType.booking ReportTargetType.booking = true
same_target _ _ = false

abbrev pub is_review_target : ReportTargetType → Bool
is_review_target ReportTargetType.review = true
is_review_target _ = false

abbrev pub is_admin_role : UserRole → Bool
is_admin_role UserRole.admin = true
is_admin_role _ = false

abbrev pub is_approved : VerificationStatus → Bool
is_approved VerificationStatus.approved = true
is_approved _ = false

abbrev pub is_pending : QuoteStatus → Bool
is_pending QuoteStatus.pending = true
is_pending _ = false

abbrev pub is_accepted : QuoteStatus → Bool
is_accepted QuoteStatus.accepted = true
is_accepted _ = false

-- `status IN ('PENDING', 'ACCEPTED')`
abbrev pub is_live_quote : QuoteStatus → Bool
is_live_quote QuoteStatus.pending = true
is_live_quote QuoteStatus.accepted = true
is_live_quote _ = false

-- `OPEN` or `QUOTED`
abbrev pub takes_quotes : RequestStatus → Bool
takes_quotes RequestStatus.opened = true
takes_quotes RequestStatus.quoted = true
takes_quotes _ = false

abbrev pub is_booked : RequestStatus → Bool
is_booked RequestStatus.booked = true
is_booked _ = false

abbrev pub is_opened : RequestStatus → Bool
is_opened RequestStatus.opened = true
is_opened _ = false

abbrev pub is_completed : BookingStatus → Bool
is_completed BookingStatus.completed = true
is_completed _ = false

-- `status IN ('PENDING_CONFIRMATION', 'CONFIRMED', 'IN_PROGRESS')`
abbrev pub holds_slot : BookingStatus → Bool
holds_slot BookingStatus.pending_confirmation = true
holds_slot BookingStatus.confirmed = true
holds_slot BookingStatus.in_progress = true
holds_slot _ = false

abbrev pub is_cancelled : BookingStatus → Bool
is_cancelled BookingStatus.cancelled_by_customer = true
is_cancelled BookingStatus.cancelled_by_provider = true
is_cancelled _ = false

abbrev pub is_pending_confirmation : BookingStatus → Bool
is_pending_confirmation BookingStatus.pending_confirmation = true
is_pending_confirmation _ = false

-- The place of a status in its enum, by which two statuses are compared.
abbrev pub ordinal : BookingStatus → ℕ
ordinal BookingStatus.pending_confirmation = 0
ordinal BookingStatus.confirmed = 1
ordinal BookingStatus.in_progress = 2
ordinal BookingStatus.completed = 3
ordinal BookingStatus.cancelled_by_customer = 4
ordinal BookingStatus.cancelled_by_provider = 5
ordinal BookingStatus.no_show_customer = 6
ordinal BookingStatus.no_show_provider = 7
ordinal BookingStatus.disputed = 8

unfoldable pub same_status : BookingStatus → BookingStatus → Bool
same_status s t = ordinal s == ordinal t
