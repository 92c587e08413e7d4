-- ===== src/Database/ModerationKeeps.antt =====
-- The writes of moderation: the consistency of the database, and the bookings, which they leave alone.
use fixitph_backend.Prelude.{
  ℕ, true, Option, none, some, any, ◌&&◌, ◌==◌, ◌≡◌, Option-cases, Bool-cases, inl, inr, holds,
  List,
}
use fixitph_backend.Schema.{Dispute, Review, Report, AdminAction, Db}
use fixitph_backend.Errors.{DatabaseError, Result}
use fixitph_backend.Transaction.Keeps.{Keeps, Leaves}
use fixitph_backend.Database.Policies.{is_admin}
use fixitph_backend.Database.Consistency.{IsConsistent}
use fixitph_backend.Database.Constraints.{dispute_clash, review_clash}
use fixitph_backend.Prelude.{no_two}
use fixitph_backend.Database.WritesKeep.{Leaves-admitted, writes_keep}
use fixitph_backend.Database.Moderation.{
  unless, create_review, find_editable_review, store_review, update_review, find_dispute,
  store_dispute, update_dispute, create_report, update_report, create_admin_action,
}

-- A property of the database that the writes of reports and the audit trail cannot touch, and those
-- of reviews and disputes only by their unique indexes.
pub record IsApart (P : Db → Type 0) : Type 1 where
  pub reviews :
      (d : Db) (reviews : List Review)
      → no_two review_clash reviews ≡ true
      → P d
      → P (record d { reviews = reviews })
  pub reports : (d : Db) (reports : List Report) → P d → P (record d { reports = reports })
  pub actions :
      (d : Db) (actions : List AdminAction) → P d → P (record d { admin_actions = actions })
  pub disputes :
      (d : Db) (disputes : List Dispute)
      → no_two dispute_clash disputes ≡ true
      → P d
      → P (record d { disputes = disputes })

pub IsConsistent-IsApart : IsApart IsConsistent
IsConsistent-IsApart = record {
  reviews = λ d r unique c. record {
    bookings_checked = c.bookings_checked;
    bookings_unique = c.bookings_unique;
    quotes_checked = c.quotes_checked;
    quotes_unique = c.quotes_unique;
    requests_unique = c.requests_unique;
    disputes_unique = c.disputes_unique;
    reviews_unique = unique;
    history_faithful = c.history_faithful;
  };
  reports = λ d r c. assumption;
  actions = λ d a c. assumption;
  disputes = λ d x unique c. record {
    bookings_checked = c.bookings_checked;
    bookings_unique = c.bookings_unique;
    quotes_checked = c.quotes_checked;
    quotes_unique = c.quotes_unique;
    requests_unique = c.requests_unique;
    disputes_unique = unique;
    reviews_unique = c.reviews_unique;
    history_faithful = c.history_faithful;
  };
}

Leaves-unless :
    {A : Type 0} (P : Db → Type 0) (o : Option DatabaseError) (r : Result (A × Db))
    → Leaves P r
    → Leaves P (unless o r)
Leaves-unless P none r h = h
Leaves-unless P (some e) r h = tt

module _ {P : Db → Type 0} (k : IsApart P) where
  pub create_review-Keeps : (r : Review) → Keeps P (create_review r)
  unfolding create_review
  create_review-Keeps r = record {
    at = λ s d h.
        Leaves-unless P _ _ (Leaves-admitted P _ _ _ _ _ λ _ unique. k.reviews d _ unique h);
  }

  pub update_review-Keeps : (id : ℕ) (change : Review → Review) → Keeps P (update_review id change)
  unfolding update_review store_review
  update_review-Keeps id change = record {
    at = λ s d h. elim (Option-cases (find_editable_review id s d)) [
      | inl e ↦ rw (e, update_review) tt
      | inr (r, e) ↦
          rw (e, update_review) (Leaves-admitted P _ _ _ _ _ λ _ unique. k.reviews d _ unique h)
    ];
  }

  pub update_dispute-Keeps :
      (id : ℕ) (change : Dispute → Dispute) → Keeps P (update_dispute id change)
  unfolding update_dispute store_dispute
  update_dispute-Keeps id change = record {
    at = λ s d h. elim (Option-cases (find_dispute id d)) [
      | inl e ↦ rw (e, update_dispute) tt
      | inr (x, e) ↦
          rw (e, update_dispute)
            (Leaves-admitted P true _ _ _ _ λ _ unique. k.disputes d _ unique h)
    ];
  }

  pub create_report-Keeps : (r : Report) → Keeps P (create_report r)
  unfolding create_report
  create_report-Keeps r = record {
    at = λ s d h. Leaves-admitted P true true _ _ _ λ _ _. k.reports d _ h;
  }

  pub update_report-Keeps : (id : ℕ) (change : Report → Report) → Keeps P (update_report id change)
  unfolding update_report
  update_report-Keeps id change = record {
    at = λ s d h. elim (Bool-cases (any (λ r. r.id == id) d.reports)) [
      | inl e ↦ rw (e, update_report) (k.reports d _ h)
      | inr e ↦ rw (e, update_report) tt
    ];
  }

  pub create_admin_action-Keeps : (a : AdminAction) → Keeps P (create_admin_action a)
  unfolding create_admin_action
  create_admin_action-Keeps a = record {
    at = λ s d h. elim (Bool-cases (is_admin s && holds s.user_id a.admin_id)) [
      | inl e ↦ rw (e, create_admin_action) (k.actions d _ h)
      | inr e ↦ rw (e, create_admin_action) tt
    ];
  }

pub ruleset moderation_keeps = (
  writes_keep, IsConsistent-IsApart, create_review-Keeps, update_review-Keeps, update_dispute-Keeps,
  create_report-Keeps, update_report-Keeps, create_admin_action-Keeps,
)
