-- ===== src/Reviews/Consistency.antt =====
-- The operations of ReviewsService and the consistency of the database.
use fixitph_backend.Prelude.{ℕ, Option, none, some, String}
use fixitph_backend.Schema.{Review, Db}
use fixitph_backend.Transaction.{Env, AuthenticatedUser}
use fixitph_backend.Transaction.Keeps.{Keeps, with_user-keeps}
use fixitph_backend.Database.Consistency.{IsConsistent}
use fixitph_backend.Database.ModerationKeeps.{moderation_keeps}
use fixitph_backend.Reviews.Rating.{recompute_rating}
use fixitph_backend.Reviews.Service.{
  CreateReviewDto, UpdateReviewDto, ReportReviewDto, create, create_tx, notify_reviewed, update,
  update_tx, edit, respond, edit_or_respond, report, report_tx,
}

notify-Keeps : (booking : ℕ) (owner : Option ℕ) → Keeps IsConsistent (notify_reviewed booking owner)
unfolding notify_reviewed
notify-Keeps booking none = search moderation_keeps
notify-Keeps booking (some owner) = search moderation_keeps

pub recompute_rating-Keeps :
    (env : Env) (provider : ℕ) → Keeps IsConsistent (recompute_rating env provider)
unfolding recompute_rating
recompute_rating-Keeps env provider = search moderation_keeps

module _ (env : Env) (user : AuthenticatedUser) where
  create_tx-Keeps : (dto : CreateReviewDto) → Keeps IsConsistent (create_tx env user dto)
  unfolding create_tx
  create_tx-Keeps dto = search (moderation_keeps, notify-Keeps, recompute_rating-Keeps) depth 40

  edit-Keeps :
      (id : ℕ) (dto : UpdateReviewDto) (r : Review) → Keeps IsConsistent (edit env user id dto r)
  unfolding edit
  edit-Keeps id dto r = search (moderation_keeps, recompute_rating-Keeps) depth 20

  respond-Keeps :
      (id : ℕ) (response : String) (r : Review)
      → Keeps IsConsistent (respond env user id response r)
  unfolding respond
  respond-Keeps id response r = search moderation_keeps depth 20

  either-Keeps :
      (id : ℕ) (dto : UpdateReviewDto) (r : Review) (o : Option String)
      → Keeps IsConsistent (edit_or_respond env user id dto r o)
  unfolding edit_or_respond
  either-Keeps id dto r none = edit-Keeps id dto r
  either-Keeps id dto r (some response) = respond-Keeps id response r

  update_tx-Keeps :
      (id : ℕ) (dto : UpdateReviewDto) → Keeps IsConsistent (update_tx env user id dto)
  unfolding update_tx
  update_tx-Keeps id dto = search (moderation_keeps, either-Keeps) depth 20

  report_tx-Keeps :
      (id : ℕ) (dto : ReportReviewDto) → Keeps IsConsistent (report_tx env user id dto)
  unfolding report_tx
  report_tx-Keeps id dto = search moderation_keeps depth 20

  module _ (d : Db) (c : IsConsistent d) where
    pub create_keeps : (dto : CreateReviewDto) → IsConsistent (create env user dto d).0
    unfolding create
    create_keeps dto = with_user-keeps _ _ _ _ d (create_tx-Keeps dto) c

    pub update_keeps : (id : ℕ) (dto : UpdateReviewDto) → IsConsistent (update env user id dto d).0
    unfolding update
    update_keeps id dto = with_user-keeps _ _ _ _ d (update_tx-Keeps id dto) c

    pub report_keeps : (id : ℕ) (dto : ReportReviewDto) → IsConsistent (report env user id dto d).0
    unfolding report
    report_keeps id dto = with_user-keeps _ _ _ _ d (report_tx-Keeps id dto) c
