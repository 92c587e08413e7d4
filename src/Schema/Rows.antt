-- ===== src/Schema/Rows.antt =====
-- The rows of the tables, and the database that the marketplace services share. Identifiers are
-- numbers, times are milliseconds since the epoch, and amounts are centavos. The timestamps that the
-- database fills in are left out.
use fixitph_backend.Prelude.{ℕ, Bool, Option, List, String}
use fixitph_backend.Schema.Enums.{
  VerificationStatus, RequestStatus, RequestUrgency, QuoteStatus, BookingStatus, PaymentMethod,
  PaymentStatus, DisputeStatus, NotificationType, ReportTargetType, ReportReason, ReportStatus,
  AdminActionType,
}

pub record Provider : Type 0 where
  pub id : ℕ
  pub user_id : ℕ
  pub verification_status : VerificationStatus
  pub is_accepting_bookings : Bool
  pub rating_avg : ℕ  -- hundredths
  pub rating_count : ℕ
  pub completed_jobs_count : ℕ
  pub suspended_at : Option ℕ
  pub deleted_at : Option ℕ

pub record Category : Type 0 where
  pub id : ℕ
  pub is_active : Bool

pub record Service : Type 0 where
  pub id : ℕ
  pub provider_id : ℕ
  pub is_active : Bool  -- `status = 'ACTIVE'`
  pub deleted_at : Option ℕ

pub record ServiceRequest : Type 0 where
  pub id : ℕ
  pub customer_id : ℕ
  pub provider_id : Option ℕ
  pub service_id : Option ℕ
  pub category_id : ℕ
  pub title : String
  pub description : String
  pub budget_min : Option ℕ
  pub budget_max : Option ℕ
  pub urgency : RequestUrgency
  pub preferred_at : Option ℕ
  pub city : String
  pub barangay : Option String
  pub address_line1 : Option String
  pub latitude : Option String  -- decimals, as they are written
  pub longitude : Option String
  pub status : RequestStatus
  pub expires_at : Option ℕ
  pub closed_at : Option ℕ

pub record Quote : Type 0 where
  pub id : ℕ
  pub service_request_id : ℕ
  pub provider_id : ℕ
  pub amount : ℕ
  pub labor_cost : Option ℕ
  pub parts_cost : Option ℕ
  pub breakdown : Option String
  pub notes : Option String
  pub estimated_duration_minutes : Option ℕ
  pub valid_until : Option ℕ
  pub status : QuoteStatus
  pub responded_at : Option ℕ

pub record Booking : Type 0 where
  pub id : ℕ
  pub quote_id : ℕ
  pub service_request_id : ℕ
  pub customer_id : ℕ
  pub provider_id : ℕ
  pub service_id : Option ℕ
  pub scheduled_start : ℕ
  pub scheduled_end : Option ℕ
  pub actual_start : Option ℕ
  pub actual_end : Option ℕ
  pub status : BookingStatus
  pub total_amount : ℕ
  pub payment_method : PaymentMethod
  pub payment_status : PaymentStatus
  pub contact_released_at : Option ℕ
  pub cancellation_reason : Option String
  pub cancelled_by_id : Option ℕ
  pub cancelled_at : Option ℕ
  pub completed_at : Option ℕ
  pub deleted_at : Option ℕ

pub record BookingStatusHistory : Type 0 where
  pub booking_id : ℕ
  pub from_status : Option BookingStatus
  pub to_status : BookingStatus
  pub changed_by_id : Option ℕ
  pub reason : Option String

pub record Dispute : Type 0 where
  pub id : ℕ
  pub booking_id : ℕ
  pub raised_by_id : ℕ
  pub reason : String
  pub details : String
  pub status : DisputeStatus
  pub resolution : Option String
  pub refund_amount : Option ℕ
  pub resolved_by_id : Option ℕ
  pub resolved_at : Option ℕ

-- The columns that a service fills in; `subject` is the identifier that the payload carries.
pub record Notification : Type 0 where
  pub user_id : ℕ
  pub type : NotificationType
  pub subject : ℕ

-- A version of a review that an edit replaced.
pub record ReviewSnapshot : Type 0 where
  pub rating : ℕ
  pub punctuality_rating : Option ℕ
  pub quality_rating : Option ℕ
  pub value_rating : Option ℕ
  pub comment : Option String
  pub edited_at : ℕ

pub record Review : Type 0 where
  pub id : ℕ
  pub booking_id : ℕ
  pub author_id : ℕ
  pub provider_id : ℕ
  pub rating : ℕ
  pub punctuality_rating : Option ℕ
  pub quality_rating : Option ℕ
  pub value_rating : Option ℕ
  pub comment : Option String
  pub edit_history : List ReviewSnapshot
  pub provider_response : Option String
  pub provider_responded_at : Option ℕ
  pub is_hidden : Bool
  pub deleted_at : Option ℕ

pub record Report : Type 0 where
  pub id : ℕ
  pub reporter_id : ℕ
  pub target_type : ReportTargetType
  pub target_id : ℕ
  pub reason : ReportReason
  pub details : Option String
  pub status : ReportStatus
  pub resolved_by_id : Option ℕ
  pub resolved_at : Option ℕ
  pub resolution_notes : Option String

-- A row of the audit trail, without the copies of the rows before and after.
pub record AdminAction : Type 0 where
  pub admin_id : ℕ
  pub action_type : AdminActionType
  pub target_id : ℕ
  pub reason : Option String

-- Rows that a service adds stand at the head of their table.
pub record Db : Type 0 where
  pub providers : List Provider
  pub categories : List Category
  pub services : List Service
  pub requests : List ServiceRequest
  pub quotes : List Quote
  pub bookings : List Booking
  pub history : List BookingStatusHistory
  pub disputes : List Dispute
  pub notifications : List Notification
  pub reviews : List Review
  pub reports : List Report
  pub admin_actions : List AdminAction
