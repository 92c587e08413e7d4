-- ===== src/Errors.antt =====
-- common/errors.ts, and the failures that Postgres raises through Prisma. An ApiError keeps its
-- code and its HTTP status; the message is left out.
use fixitph_backend.Prelude.{ℕ}

-- The `code` of an ApiError.
pub data Code : Type 0 where
  booking_not_found not_a_party invalid_status_transition not_allowed_to_transition : Code
  booking_not_reschedulable schedule_in_past schedule_ends_before_it_starts use_quote_accept : Code
  quote_not_found not_request_owner quote_not_pending quote_expired not_quote_owner : Code
  no_provider_profile provider_not_found provider_suspended provider_not_verified : Code
  request_not_for_you request_not_open request_expired request_not_found quote_already_sent : Code
  category_not_found provider_unavailable provider_not_accepting service_not_found : Code
  service_provider_mismatch booking_not_disputable dispute_already_open : Code
  invalid_reset_code reset_code_locked reset_code_expired reset_code_already_used : Code
  invalid_reset_token password_unchanged : Code
  user_not_found email_already_verified email_code_too_soon email_code_not_requested : Code
  email_code_locked email_code_expired email_changed email_code_invalid : Code
  invalid_credentials account_exists account_locked account_suspended account_deactivated : Code
  account_unavailable invalid_refresh_token refresh_token_reused refresh_token_expired : Code
  insufficient_role dispute_not_found report_not_found review_not_found : Code
  review_visibility_unchanged not_booking_customer booking_not_completed : Code
  review_already_exists not_review_provider not_review_author no_changes already_reported : Code
  unauthorized google_email_unverified category_cycle parent_not_found : Code
  category_has_children cannot_suspend_self : Code

pub record ApiError : Type 0 where
  pub code : Code
  pub status : ℕ

-- What Postgres and Prisma raise: P2025, P2002, a policy (42501), a CHECK (23514), a required
-- relation whose row the caller may not see.
pub data DatabaseError : Type 0 where
  record_not_found unique_violation policy_violation check_violation : DatabaseError
  missing_relation foreign_key_violation : DatabaseError

pub data Failure : Type 0 where
  api : ApiError → Failure
  database : DatabaseError → Failure

abbrev pub bad_request : Code → Failure
bad_request c = api (record { code = c; status = 400 })

abbrev pub unauthenticated : Code → Failure
unauthenticated c = api (record { code = c; status = 401 })

abbrev pub forbidden : Code → Failure
forbidden c = api (record { code = c; status = 403 })

abbrev pub not_found : Code → Failure
not_found c = api (record { code = c; status = 404 })

abbrev pub conflict : Code → Failure
conflict c = api (record { code = c; status = 409 })

pub data Result {ℓ} (A : Type ℓ) : Type ℓ where
  ok : A → Result A
  err : Failure → Result A
