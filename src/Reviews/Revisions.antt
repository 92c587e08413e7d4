-- ===== src/Reviews/Revisions.antt =====
-- `update` of ReviewsService, where it succeeds.
use fixitph_backend.Prelude.{
  ℕ, true, Option, none, some, String, List, [], ◌∷◌, ◌++◌, ◌||◌, ◌==◌, is_some, get_or, or_keep,
  find_by, update_by, no_two, holds, ◌≡◌, refl, sym, ap, arith, length, find_by-widen,
  find_by-holds, ==_iff,
}
use fixitph_backend.Schema.{Review, Provider, Db, is_admin_role}
use fixitph_backend.Errors.{ok}
use fixitph_backend.Transaction.{Env, AuthenticatedUser, Session, pure, when}
use fixitph_backend.Transaction.Returns.{
  Returns, Returns-bind, Returns-reads, Returns-or_throw, Returns-throw_if, with_user-Returns,
}
use fixitph_backend.Database.Constraints.{review_clash}
use fixitph_backend.Database.WritesReturn.{Returns-update_provider}
use fixitph_backend.Database.Moderation.{find_editable_review}
use fixitph_backend.Database.ModerationReturns.{Returns-update_review}
use fixitph_backend.Reviews.Rating.{total_rating, recompute_rating}
use fixitph_backend.Reviews.Aggregate.{IsRatedIn, rerated, recomputed-IsRatedIn}
use fixitph_backend.Reviews.Service.{
  UpdateReviewDto, find_live_review, changes_content, snapshot, edited, edit, respond,
  edit_or_respond, update, update_tx,
}

-- Without a new number of stars no profile changes; with one, the rating of the provider is that of
-- the visible reviews again, and no other profile changes.
pub data Rerating : Option ℕ → ℕ → List Provider → Db → Type 0 where
  unrated :
      {provider : ℕ} {ps : List Provider} {e : Db} → e.providers ≡ ps → Rerating none provider ps e
  rated_anew :
      {stars provider : ℕ} {ps : List Provider} {e : Db} (rating count : ℕ)
      → e.providers ≡ rerated provider rating count ps
      → IsRatedIn provider e
      → Rerating (some stars) provider ps e

-- What an update makes of a review: an edit by the author, which keeps the version before it, or the
-- provider's response, which leaves the rest alone. An administrator may do either.
pub data Revision (env : Env) (user : AuthenticatedUser) (dto : UpdateReviewDto) (old r : Review)
    (d e : Db) : Type 0 where
  by_author :
      dto.provider_response ≡ none
      → (old.author_id == user.id || is_admin_role user.role) ≡ true
      → changes_content dto old ≡ true
      → r ≡ record old {
        rating = get_or dto.rating old.rating;
        punctuality_rating = or_keep dto.punctuality_rating old.punctuality_rating;
        quality_rating = or_keep dto.quality_rating old.quality_rating;
        value_rating = or_keep dto.value_rating old.value_rating;
        comment = or_keep dto.comment old.comment;
        edit_history =
            old.edit_history
            ++ ((record {
              rating = old.rating;
              punctuality_rating = old.punctuality_rating;
              quality_rating = old.quality_rating;
              value_rating = old.value_rating;
              comment = old.comment;
              edited_at = env.clock 0;
            })
                ∷ []);
      }
      → Rerating dto.rating old.provider_id d.providers e
      → Revision env user dto old r d e
  by_provider :
      (response : String)
      → dto.provider_response ≡ some response
      → (holds user.provider_id old.provider_id || is_admin_role user.role) ≡ true
      → r ≡ record old {
        provider_response = some response;
        provider_responded_at = some (env.clock 0);
      }
      → e.providers ≡ d.providers
      → Revision env user dto old r d e

pub record IsRevised (env : Env) (user : AuthenticatedUser) (id : ℕ) (dto : UpdateReviewDto)
    (d e : Db) (r : Review) : Type 0 where
  pub old : Review
  pub found : find_by (λ x. x.id == id) d.reviews ≡ some old
  pub revision : Revision env user dto old r d e
  pub leaves : e ≡ record d {
    reviews = update_by (λ x. x.id == id) (λ _. r) d.reviews;
    providers = e.providers;
  }

-- The row that the update finds is the one that was read.
pub same_row :
    (id : ℕ) (s : Session) (d : Db) (old r : Review)
    → no_two review_clash d.reviews ≡ true
    → find_live_review id s d ≡ some old
    → find_editable_review id s d ≡ some r
    → (r ≡ old) × (find_by (λ x. x.id == id) d.reviews ≡ some old) × ((old.id == id) ≡ true)
unfolding find_live_review find_editable_review review_clash
same_row id s d old r u f g =
    let live =
      find_by-widen review_clash _ (λ x. x.id == id) d.reviews old (λ y k. ground (arith, k))
        (λ y z k l. ground (arith, k, l)) u f in
    let editable =
      find_by-widen review_clash _ (λ x. x.id == id) d.reviews r (λ y k. ground (arith, k))
        (λ y z k l. ground (arith, k, l)) u g in
    (
      ground (arith, live, editable),
      live,
      find_by-holds (λ (x : Review). x.id == id) d.reviews old live,
    )

Returns-rating :
    (o : Option ℕ) (env : Env) (provider : ℕ) (s : Session) (d : Db) (Q : Unit {0} → Db → Type 0)
    → ((e : Db)
        → e ≡ record d { providers = e.providers }
        → Rerating o provider d.providers e
        → Q tt e)
    → Returns Q (when (is_some o) (recompute_rating env provider) s d)
unfolding when pure recompute_rating
Returns-rating none env provider s d Q h = h d refl (unrated refl)
Returns-rating (some n) env provider s d Q h = Returns-reads _ _ _ _ _ (
    Returns-update_provider _ _ _ _ _ (
      h _ refl (
        rated_anew _ _ refl (
          recomputed-IsRatedIn provider (λ found. env.halves_up (total_rating found) (length found))
            s d _ refl refl))))

module _ (env : Env) (user : AuthenticatedUser) (id : ℕ) (dto : UpdateReviewDto) (d : Db)
    (unique : no_two review_clash d.reviews ≡ true) (s : Session) where
  edit-Returns :
      (old : Review)
      → find_live_review id s d ≡ some old
      → dto.provider_response ≡ none
      → Returns (λ r e. IsRevised env user id dto d e r) (edit env user id dto old s d)
  unfolding edit pure edited snapshot
  edit-Returns old f n = Returns-throw_if _ _ _ _ _ _ λ own. Returns-throw_if _ _ _ _ _ _ λ changed.
      Returns-bind _ _ _ _ _ (
        Returns-update_review _ _ _ _ _ λ row k. Returns-bind _ _ _ _ _ (
          Returns-rating _ _ _ _ _ _ λ e same rates.
            let (is_old, found, is_id) = same_row id s d old row unique f k in
            record {
              old = old;
              found = found;
              revision =
                  by_author n (ground (arith, own)) (ground (arith, changed))
                    (rw (is_old, sym ((==_iff old.id id).0 is_id)) refl) rates;
              leaves = same;
            }))

  respond-Returns :
      (response : String) (old : Review)
      → find_live_review id s d ≡ some old
      → dto.provider_response ≡ some response
      → Returns (λ r e. IsRevised env user id dto d e r) (respond env user id response old s d)
  unfolding respond
  respond-Returns response old f n = Returns-throw_if _ _ _ _ _ _ λ own.
      Returns-update_review _ _ _ _ _ λ row k.
        let (is_old, found, is_id) = same_row id s d old row unique f k in
        record {
          old = old;
          found = found;
          revision =
              by_provider response n (ground (arith, own))
                (rw is_old (
                  ap
                    (λ i. record old {
                      id = i;
                      provider_response = some response;
                      provider_responded_at = some (env.clock 0);
                    })
                    (sym ((==_iff old.id id).0 is_id))))
                refl;
          leaves = refl;
        }

  either-Returns :
      (old : Review) (o : Option String)
      → find_live_review id s d ≡ some old
      → dto.provider_response ≡ o
      → Returns (λ r e. IsRevised env user id dto d e r) (edit_or_respond env user id dto old o s d)
  unfolding edit_or_respond
  either-Returns old none f n = edit-Returns old f n
  either-Returns old (some response) f n = respond-Returns response old f n

  update-Returns : Returns (λ r e. IsRevised env user id dto d e r) (update_tx env user id dto s d)
  unfolding update_tx
  update-Returns =
      Returns-reads _ _ _ _ _ (Returns-or_throw _ _ _ _ _ _ λ old f. either-Returns old _ f refl)

-- Where no two reviews clash, an update of a review that succeeds is one of two. Without a
-- response, it is by the author or an administrator: it stores the content that was given, keeps
-- what was not, and appends the ratings and the comment before it to the history, and where it
-- gives a rating, the provider's rating is that of the visible reviews. With a response, it is by
-- the provider or an administrator, and changes the response and its time alone. Nothing else in
-- the database changes.
pub update-IsRevised :
    (env : Env) (user : AuthenticatedUser) (id : ℕ) (dto : UpdateReviewDto) (d e : Db) (r : Review)
    → no_two review_clash d.reviews ≡ true
    → update env user id dto d ≡ (e, ok r)
    → IsRevised env user id dto d e r
unfolding update
update-IsRevised env user id dto d e r u h =
    with_user-Returns _ _ _ _ _ d e r (update-Returns env user id dto d u _) h
