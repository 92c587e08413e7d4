-- ===== src/Database/ModerationReturns.antt =====
-- The writes of moderation, where they succeed.
use fixitph_backend.Prelude.{
  ℕ, Bool, true, false, Option, none, some, ◌∷◌, ◌&&◌, ◌==◌, update_by, no_two, ◌≡◌, refl,
  Option-cases, Bool-cases, inl, inr, holds,
}
use fixitph_backend.Schema.{Dispute, Review, AdminAction, Db}
use fixitph_backend.Errors.{DatabaseError, Result}
use fixitph_backend.Transaction.{Session}
use fixitph_backend.Transaction.Returns.{Returns}
use fixitph_backend.Database.Policies.{is_admin}
use fixitph_backend.Database.Constraints.{review_checks, review_clash}
use fixitph_backend.Database.Writes.{admitted}
use fixitph_backend.Database.Moderation.{
  unless, create_review, find_editable_review, store_review, update_review, find_dispute,
  store_dispute, update_dispute, create_admin_action,
}

module _ {A : Type 0} (Q : A → Db → Type 0) where
  Returns-all_admitted :
      (permitted checked unique : Bool) (a : A) (d : Db)
      → (checked ≡ true → unique ≡ true → Q a d)
      → Returns Q (admitted permitted checked unique (a, d))
  unfolding admitted
  Returns-all_admitted true true true a d h = h refl refl
  Returns-all_admitted true true false a d h = tt
  Returns-all_admitted true false u a d h = tt
  Returns-all_admitted false c u a d h = tt

  Returns-unless :
      (o : Option DatabaseError) (r : Result (A × Db)) → Returns Q r → Returns Q (unless o r)
  Returns-unless none r h = h
  Returns-unless (some e) r h = tt

pub Returns-create_review :
    (r : Review) (s : Session) (d : Db) (Q : Review → Db → Type 0)
    → (review_checks r ≡ true
        → no_two review_clash (r ∷ d.reviews) ≡ true
        → Q r (record d { reviews = r ∷ d.reviews }))
    → Returns Q (create_review r s d)
unfolding create_review
Returns-create_review r s d Q h =
    Returns-unless Q _ _ (Returns-all_admitted Q _ _ _ _ _ λ checks unique. h checks unique)

module _ (id : ℕ) (s : Session) (d : Db) where
  pub Returns-update_review :
      (change : Review → Review) (Q : Review → Db → Type 0)
      → ((old : Review)
          → find_editable_review id s d ≡ some old
          → Q
              (record (change old) { id = id })
              (record d {
                reviews =
                    update_by (λ x. x.id == id) (λ _. record (change old) { id = id }) d.reviews;
              }))
      → Returns Q (update_review id change s d)
  unfolding update_review store_review
  Returns-update_review change Q h = elim (Option-cases (find_editable_review id s d)) [
    | inl e ↦ rw (e, update_review) tt
    | inr (old, e) ↦ rw (e, update_review) (Returns-all_admitted Q _ _ _ _ _ λ _ _. h old e)
  ]

  pub Returns-update_dispute :
      (change : Dispute → Dispute) (Q : Dispute → Db → Type 0)
      → ((old : Dispute)
          → find_dispute id d ≡ some old
          → Q
              (record (change old) { id = id })
              (record d {
                disputes =
                    update_by (λ x. x.id == id) (λ _. record (change old) { id = id }) d.disputes;
              }))
      → Returns Q (update_dispute id change s d)
  unfolding update_dispute store_dispute
  Returns-update_dispute change Q h = elim (Option-cases (find_dispute id d)) [
    | inl e ↦ rw (e, update_dispute) tt
    | inr (old, e) ↦ rw (e, update_dispute) (Returns-all_admitted Q true _ _ _ _ λ _ _. h old e)
  ]

pub Returns-create_admin_action :
    (a : AdminAction) (s : Session) (d : Db) (Q : Unit {0} → Db → Type 0)
    → Q tt (record d { admin_actions = a ∷ d.admin_actions })
    → Returns Q (create_admin_action a s d)
unfolding create_admin_action
Returns-create_admin_action a s d Q h =
    elim (Bool-cases (is_admin s && holds s.user_id a.admin_id)) [
      | inl e ↦ rw e h
      | inr e ↦ rw e tt
    ]
