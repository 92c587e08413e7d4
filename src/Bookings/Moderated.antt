-- ===== src/Bookings/Moderated.antt =====
-- Writes of reviews, reports, rulings and the audit trail leave the bookings alone.
use fixitph_backend.Prelude.{ℕ}
use fixitph_backend.Schema.{Dispute, Review, Report, AdminAction}
use fixitph_backend.Database.ModerationKeeps.{
  IsApart, create_review-Keeps, update_review-Keeps, update_dispute-Keeps, create_report-Keeps,
  update_report-Keeps, create_admin_action-Keeps,
}
use fixitph_backend.Database.Moderation.{
  create_review, update_review, update_dispute, create_report, update_report, create_admin_action,
}
use fixitph_backend.Bookings.Spec.{View, view}
use fixitph_backend.Bookings.OtherTables.{IsSilent, silent}

view-IsApart : (Q : View → Type 0) → IsApart (λ d. Q (view d))
view-IsApart Q = record {
  reviews = λ d r u h. h;
  reports = λ d r h. h;
  actions = λ d a h. h;
  disputes = λ d x u h. h;
}

pub create_review-IsSilent : (r : Review) → IsSilent (create_review r)
create_review-IsSilent r = record { keeps = λ Q. create_review-Keeps (view-IsApart Q) r }

pub update_review-IsSilent :
    (id : ℕ) (change : Review → Review) → IsSilent (update_review id change)
update_review-IsSilent id change = record {
  keeps = λ Q. update_review-Keeps (view-IsApart Q) id change;
}

pub update_dispute-IsSilent :
    (id : ℕ) (change : Dispute → Dispute) → IsSilent (update_dispute id change)
update_dispute-IsSilent id change = record {
  keeps = λ Q. update_dispute-Keeps (view-IsApart Q) id change;
}

pub create_report-IsSilent : (r : Report) → IsSilent (create_report r)
create_report-IsSilent r = record { keeps = λ Q. create_report-Keeps (view-IsApart Q) r }

pub update_report-IsSilent :
    (id : ℕ) (change : Report → Report) → IsSilent (update_report id change)
update_report-IsSilent id change = record {
  keeps = λ Q. update_report-Keeps (view-IsApart Q) id change;
}

pub create_admin_action-IsSilent : (a : AdminAction) → IsSilent (create_admin_action a)
create_admin_action-IsSilent a = record {
  keeps = λ Q. create_admin_action-Keeps (view-IsApart Q) a;
}

pub ruleset silent_moderation = (
  silent, create_review-IsSilent, update_review-IsSilent, update_dispute-IsSilent,
  create_report-IsSilent, update_report-IsSilent, create_admin_action-IsSilent,
)
