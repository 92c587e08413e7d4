-- ===== src/Database/Moderation.antt =====
-- Prisma's writes of reviews, reports, rulings on disputes and the audit trail, with the triggers
-- `reviews_guard_insert` and `reviews_guard_update`.
use fixitph_backend.Prelude.{
  ℕ, Bool, true, false, Option, none, some, List, [], ◌∷◌, ◌&&◌, ◌||◌, ◌==◌, not, holds, leb, ltb,
  length, same_number, same_text, same_flag, if◌then◌else◌, find_by, any, update_by, no_two,
}
use fixitph_backend.Schema.{
  Booking, Dispute, Review, ReviewSnapshot, Report, AdminAction, Db, is_completed,
}
use fixitph_backend.Errors.{
  DatabaseError, database, record_not_found, policy_violation, check_violation,
  foreign_key_violation, Result, ok, err,
}
use fixitph_backend.Transaction.{Session, Tx}
use fixitph_backend.Database.Policies.{is_admin, reviews_visible, reviews_insert, reviews_update}
use fixitph_backend.Database.Constraints.{
  dispute_checks, dispute_clash, review_checks, review_clash, report_clash,
}
use fixitph_backend.Database.Writes.{admitted}

-- `reviews_guard_insert` of the review's booking, past every policy.
abbrev pub guard_insert : Review → Option Booking → Option DatabaseError
guard_insert r none = some foreign_key_violation
guard_insert r (some b) =
    if not (is_completed b.status)
    then some check_violation
    else (if not (b.customer_id == r.author_id)
        then some policy_violation
        else (if not (b.provider_id == r.provider_id) then some check_violation else none))

abbrev pub unless : {A : Type 0} → Option DatabaseError → Result A → Result A
unless none r = r
unless (some e) r = err (database e)

unfoldable pub create_review : Review → Tx Review
create_review r s d = unless (guard_insert r (find_by (λ b. b.id == r.booking_id) d.bookings)) (
    admitted (reviews_insert s r) (review_checks r) (no_two review_clash (r ∷ d.reviews))
      (r, record d { reviews = r ∷ d.reviews }))

unfoldable pub same_snapshot : ReviewSnapshot → ReviewSnapshot → Bool
same_snapshot a b =
    a.rating == b.rating
    && same_number a.punctuality_rating b.punctuality_rating
    && same_number a.quality_rating b.quality_rating
    && same_number a.value_rating b.value_rating
    && same_text a.comment b.comment
    && a.edited_at == b.edited_at

unfoldable pub same_history : List ReviewSnapshot → List ReviewSnapshot → Bool
same_history [] [] = true
same_history [] (y ∷ ys) = false
same_history (x ∷ xs) [] = false
same_history (x ∷ xs) (y ∷ ys) = same_snapshot x y && same_history xs ys

unfoldable pub same_content : Review → Review → Bool
same_content old r =
    r.rating == old.rating
    && same_text r.comment old.comment
    && same_number r.punctuality_rating old.punctuality_rating
    && same_number r.quality_rating old.quality_rating
    && same_number r.value_rating old.value_rating

-- What is left to the provider: everything but the response.
unfoldable pub same_but_response : Review → Review → Bool
same_but_response old r =
    same_content old r
    && same_history r.edit_history old.edit_history
    && same_flag r.is_hidden old.is_hidden
    && same_number r.deleted_at old.deleted_at
    && r.author_id == old.author_id
    && r.booking_id == old.booking_id

-- `reviews_guard_update`; what it refuses, it refuses as a policy does.
unfoldable pub guard_update : Session → Review → Review → Bool
guard_update s old r =
    is_admin s
    || (leb (length old.edit_history) (length r.edit_history)
        && (if holds s.user_id old.author_id
            then same_text r.provider_response old.provider_response
              && (same_content old r || ltb (length old.edit_history) (length r.edit_history))
            else same_but_response old r))

unfoldable pub find_review : ℕ → Session → Db → Option Review
find_review id s d = find_by (λ r. r.id == id && reviews_visible s d r) d.reviews

-- The row of an update by its identifier.
unfoldable pub find_editable_review : ℕ → Session → Db → Option Review
find_editable_review id s d = find_by (λ r. r.id == id && reviews_update s d r) d.reviews

unfoldable pub store_review : Session → Db → Review → Review → Result (Review × Db)
store_review s d old r =
    let reviews = update_by (λ x. x.id == r.id) (λ _. r) d.reviews in
    admitted (guard_update s old r && reviews_update s d r) (review_checks r)
      (no_two review_clash reviews) (r, record d { reviews = reviews })

unfoldable pub update_review : ℕ → (Review → Review) → Tx Review
update_review id change s d = elim (find_editable_review id s d) [
  | none ↦ err (database record_not_found)
  | some r ↦ store_review s d r (record (change r) { id = id })
]

-- The tables below are under no policy, but for the audit trail, which an admin writes.
unfoldable pub find_dispute : ℕ → Db → Option Dispute
find_dispute id d = find_by (λ x. x.id == id) d.disputes

unfoldable pub store_dispute : Db → Dispute → Result (Dispute × Db)
store_dispute d x =
    let disputes = update_by (λ y. y.id == x.id) (λ _. x) d.disputes in
    admitted true (dispute_checks x) (no_two dispute_clash disputes)
      (x, record d { disputes = disputes })

unfoldable pub update_dispute : ℕ → (Dispute → Dispute) → Tx Dispute
update_dispute id change s d = elim (find_dispute id d) [
  | none ↦ err (database record_not_found)
  | some x ↦ store_dispute d (record (change x) { id = id })
]

unfoldable pub create_report : Report → Tx Report
create_report r s d =
    admitted true true (no_two report_clash (r ∷ d.reports))
      (r, record d { reports = r ∷ d.reports })

unfoldable pub find_report : ℕ → Db → Option Report
find_report id d = find_by (λ r. r.id == id) d.reports

unfoldable pub update_report : ℕ → (Report → Report) → Tx (Unit {0})
update_report id change s d =
    if any (λ r. r.id == id) d.reports
    then ok (
      tt,
      record d {
        reports = update_by (λ r. r.id == id) (λ r. record (change r) { id = id }) d.reports;
      },
    )
    else err (database record_not_found)

unfoldable pub create_admin_action : AdminAction → Tx (Unit {0})
create_admin_action a s d =
    if is_admin s && holds s.user_id a.admin_id
    then ok (tt, record d { admin_actions = a ∷ d.admin_actions })
    else err (database policy_violation)
