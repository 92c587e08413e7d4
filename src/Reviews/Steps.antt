-- ===== src/Reviews/Steps.antt =====
-- The operations of ReviewsService against the lifecycle relation of Bookings/Spec.antt.
use fixitph_backend.Prelude.{ℕ, Option, none, some, String}
use fixitph_backend.Schema.{Review, Db}
use fixitph_backend.Transaction.{Env, AuthenticatedUser}
use fixitph_backend.Bookings.Spec.{view, Step}
use fixitph_backend.Bookings.OtherTables.{IsSilent}
use fixitph_backend.Bookings.Moderated.{silent_moderation}
use fixitph_backend.Bookings.Stepping.{TakesStep-silent, with_user-steps}
use fixitph_backend.Reviews.Rating.{recompute_rating}
use fixitph_backend.Reviews.Service.{
  CreateReviewDto, UpdateReviewDto, ReportReviewDto, create, create_tx, notify_reviewed, update,
  update_tx, edit, respond, edit_or_respond, report, report_tx,
}

notify-IsSilent : (booking : ℕ) (owner : Option ℕ) → IsSilent (notify_reviewed booking owner)
unfolding notify_reviewed
notify-IsSilent booking none = search silent_moderation
notify-IsSilent booking (some owner) = search silent_moderation

recompute_rating-IsSilent : (env : Env) (provider : ℕ) → IsSilent (recompute_rating env provider)
unfolding recompute_rating
recompute_rating-IsSilent env provider = search silent_moderation

module _ (env : Env) (user : AuthenticatedUser) where
  create_tx-IsSilent : (dto : CreateReviewDto) → IsSilent (create_tx env user dto)
  unfolding create_tx
  create_tx-IsSilent dto =
      search (silent_moderation, notify-IsSilent, recompute_rating-IsSilent) depth 40

  edit-IsSilent : (id : ℕ) (dto : UpdateReviewDto) (r : Review) → IsSilent (edit env user id dto r)
  unfolding edit
  edit-IsSilent id dto r = search (silent_moderation, recompute_rating-IsSilent) depth 20

  respond-IsSilent :
      (id : ℕ) (response : String) (r : Review) → IsSilent (respond env user id response r)
  unfolding respond
  respond-IsSilent id response r = search silent_moderation depth 20

  either-IsSilent :
      (id : ℕ) (dto : UpdateReviewDto) (r : Review) (o : Option String)
      → IsSilent (edit_or_respond env user id dto r o)
  unfolding edit_or_respond
  either-IsSilent id dto r none = edit-IsSilent id dto r
  either-IsSilent id dto r (some response) = respond-IsSilent id response r

  update_tx-IsSilent : (id : ℕ) (dto : UpdateReviewDto) → IsSilent (update_tx env user id dto)
  unfolding update_tx
  update_tx-IsSilent id dto = search (silent_moderation, either-IsSilent) depth 20

  report_tx-IsSilent : (id : ℕ) (dto : ReportReviewDto) → IsSilent (report_tx env user id dto)
  unfolding report_tx
  report_tx-IsSilent id dto = search silent_moderation depth 20

  module _ (d : Db) where
    pub create_steps : (dto : CreateReviewDto) → Step user (view d) (view (create env user dto d).0)
    unfolding create
    create_steps dto =
        with_user-steps user _ _ _ d (TakesStep-silent user (view d) _ (create_tx-IsSilent dto))

    pub update_steps :
        (id : ℕ) (dto : UpdateReviewDto) → Step user (view d) (view (update env user id dto d).0)
    unfolding update
    update_steps id dto =
        with_user-steps user _ _ _ d (TakesStep-silent user (view d) _ (update_tx-IsSilent id dto))

    pub report_steps :
        (id : ℕ) (dto : ReportReviewDto) → Step user (view d) (view (report env user id dto d).0)
    unfolding report
    report_steps id dto =
        with_user-steps user _ _ _ d (TakesStep-silent user (view d) _ (report_tx-IsSilent id dto))
