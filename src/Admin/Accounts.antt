-- ===== src/Admin/Accounts.antt =====
-- `suspendUser` and `reinstateUser` of AdminService in admin/admin.service.ts, behind RolesGuard, on
-- the tables of accounts. None of them has row level security but the audit trail, which an
-- administrator may write. The cache is left out.
use fixitph_backend.Prelude.{
  ℕ, false, Option, none, some, List, ◌∷◌, String, ◌&&◌, ◌==◌, is_none, if◌then◌else◌, update_by,
}
use fixitph_backend.Schema.{AdminAction, AdminActionType, UserStatus, is_admin_role}
use fixitph_backend.Errors.{
  Result, ok, err, bad_request, forbidden, not_found, user_not_found, insufficient_role,
  cannot_suspend_self,
}
use fixitph_backend.Transaction.{AuthenticatedUser}
use fixitph_backend.Auth.Tables.{User, AuthTables}
use fixitph_backend.Auth.Refresh.{find_live_user}

-- The accounts, and the audit trail.
pub record Desk : Type 0 where
  pub accounts : AuthTables
  pub admin_actions : List AdminAction

unfoldable pub audited :
    AuthenticatedUser → AdminActionType → ℕ → String → List AdminAction → List AdminAction
audited admin type target reason actions =
    record { admin_id = admin.id; action_type = type; target_id = target; reason = some reason }
    ∷ actions

-- The three writes of a suspension, with the readings of the clock.
unfoldable pub suspended : (ℕ → ℕ) → ℕ → AuthTables → AuthTables
suspended clock id s = record s {
  users = update_by (λ u. u.id == id) (λ u. record u { status = UserStatus.suspended }) s.users;
  refresh_tokens =
      update_by (λ t. t.user_id == id && is_none t.revoked_at)
        (λ t. record t { revoked_at = some (clock 0) }) s.refresh_tokens;
  providers =
      update_by (λ p. p.user_id == id)
        (λ p. record p { suspended_at = some (clock 1); is_accepting_bookings = false })
        s.providers;
}

unfoldable pub suspend_found :
    (ℕ → ℕ) → AuthenticatedUser → ℕ → String → Desk → Option User → Desk × Result UserStatus
suspend_found clock admin id reason s none = (s, err (not_found user_not_found))
suspend_found clock admin id reason s (some u) =
    if u.id == admin.id then (s, err (bad_request cannot_suspend_self)) else (
      record {
        accounts = suspended clock id s.accounts;
        admin_actions = audited admin AdminActionType.user_suspend id reason s.admin_actions;
      },
      ok UserStatus.suspended,
    )

unfoldable pub suspend_user :
    (ℕ → ℕ) → AuthenticatedUser → ℕ → String → Desk → Desk × Result UserStatus
suspend_user clock admin id reason s =
    if is_admin_role admin.role
    then suspend_found clock admin id reason s (find_live_user id s.accounts)
    else (s, err (forbidden insufficient_role))

-- The lockout ends too; whether the provider accepts bookings is left as it is.
unfoldable pub reinstated : ℕ → AuthTables → AuthTables
reinstated id s = record s {
  users =
      update_by (λ u. u.id == id)
        (λ u. record u { status = UserStatus.active; failed_login_count = 0; locked_until = none })
        s.users;
  providers = update_by (λ p. p.user_id == id) (λ p. record p { suspended_at = none }) s.providers;
}

unfoldable pub reinstate_found :
    AuthenticatedUser → ℕ → String → Desk → Option User → Desk × Result UserStatus
reinstate_found admin id reason s none = (s, err (not_found user_not_found))
reinstate_found admin id reason s (some u) = (
  record {
    accounts = reinstated id s.accounts;
    admin_actions = audited admin AdminActionType.user_reinstate id reason s.admin_actions;
  },
  ok UserStatus.active,
)

unfoldable pub reinstate_user : AuthenticatedUser → ℕ → String → Desk → Desk × Result UserStatus
reinstate_user admin id reason s =
    if is_admin_role admin.role
    then reinstate_found admin id reason s (find_live_user id s.accounts)
    else (s, err (forbidden insufficient_role))
