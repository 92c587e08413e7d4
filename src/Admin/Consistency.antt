-- ===== src/Admin/Consistency.antt =====
-- The rulings of AdminService and the consistency of the database.
use fixitph_backend.Prelude.{ℕ, String, Option, true, ◌≡◌, Bool-cases, inl, inr}
use fixitph_backend.Schema.{Db, is_admin_role, AdminActionType}
use fixitph_backend.Transaction.{Env, AuthenticatedUser, Tx, to_auth_context, with_user}
use fixitph_backend.Transaction.Keeps.{Keeps, with_user-keeps}
use fixitph_backend.Database.Consistency.{IsConsistent}
use fixitph_backend.Database.ModerationKeeps.{moderation_keeps}
use fixitph_backend.Reviews.Rating.{recompute_provider_rating}
use fixitph_backend.Admin.Service.{
  ResolveDisputeDto, ReviewVisibilityDto, ResolveReportDto, as_admin, audit, close_booking,
  resolve_dispute, resolve_dispute_tx, rule_on, set_review_visibility, set_review_visibility_tx,
  hide_reported, resolve_report, resolve_report_tx,
}

-- What a call of an administrator leaves, and one that is refused.
pub as_admin-leaves :
    {A : Type 0} (P : Db → Type 0) (env : Env) (admin : AuthenticatedUser) (reason : Option String)
    (m : Tx A) (d : Db)
    → P d
    → ((is_admin_role admin.role) ≡ true
        → P (with_user (to_auth_context admin) reason env.now m d).0)
    → P (as_admin env admin reason m d).0
unfolding as_admin
as_admin-leaves P env admin reason m d h k = elim (Bool-cases (is_admin_role admin.role)) [
  | inl e ↦ rw (e, as_admin) (k e)
  | inr e ↦ rw (e, as_admin) h
]

module _ (env : Env) (admin : AuthenticatedUser) where
  audit-Keeps :
      (type : AdminActionType) (target : ℕ) (reason : Option String)
      → Keeps IsConsistent (audit admin type target reason)
  unfolding audit
  audit-Keeps type target reason = search moderation_keeps

  resolve_dispute_tx-Keeps :
      (id : ℕ) (dto : ResolveDisputeDto) → Keeps IsConsistent (resolve_dispute_tx env admin id dto)
  unfolding resolve_dispute_tx rule_on close_booking
  resolve_dispute_tx-Keeps id dto = search (moderation_keeps, audit-Keeps) depth 40

  visibility_tx-Keeps :
      (id : ℕ) (dto : ReviewVisibilityDto)
      → Keeps IsConsistent (set_review_visibility_tx env admin id dto)
  unfolding set_review_visibility_tx recompute_provider_rating
  visibility_tx-Keeps id dto = search (moderation_keeps, audit-Keeps) depth 40

  resolve_report_tx-Keeps :
      (id : ℕ) (dto : ResolveReportDto) → Keeps IsConsistent (resolve_report_tx env admin id dto)
  unfolding resolve_report_tx hide_reported
  resolve_report_tx-Keeps id dto = search (moderation_keeps, audit-Keeps) depth 40

  module _ (d : Db) (c : IsConsistent d) where
    pub resolve_dispute_keeps :
        (id : ℕ) (dto : ResolveDisputeDto) → IsConsistent (resolve_dispute env admin id dto d).0
    unfolding resolve_dispute
    resolve_dispute_keeps id dto =
        as_admin-leaves IsConsistent env admin _ _ d c
          λ _. with_user-keeps _ _ _ _ d (resolve_dispute_tx-Keeps id dto) c

    pub set_review_visibility_keeps :
        (id : ℕ) (dto : ReviewVisibilityDto)
        → IsConsistent (set_review_visibility env admin id dto d).0
    unfolding set_review_visibility
    set_review_visibility_keeps id dto =
        as_admin-leaves IsConsistent env admin _ _ d c
          λ _. with_user-keeps _ _ _ _ d (visibility_tx-Keeps id dto) c

    pub resolve_report_keeps :
        (id : ℕ) (dto : ResolveReportDto) → IsConsistent (resolve_report env admin id dto d).0
    unfolding resolve_report
    resolve_report_keeps id dto =
        as_admin-leaves IsConsistent env admin _ _ d c
          λ _. with_user-keeps _ _ _ _ d (resolve_report_tx-Keeps id dto) c
