-- ===== src/Bookings/OtherTables.antt =====
-- Writes of the tables other than the bookings and their history.
use fixitph_backend.Prelude.{ℕ, Bool, Option, any, Option-cases, Bool-cases, inl, inr, ◌==◌}
use fixitph_backend.Schema.{Provider, ServiceRequest, Quote, Dispute, Notification, Db}
use fixitph_backend.Errors.{Failure}
use fixitph_backend.Transaction.{Session, Tx, pure, reads, throw_if, or_throw, when, ◌>>=◌}
use fixitph_backend.Transaction.Keeps.{
  Keeps, Leaves, Keeps-pure, Keeps-reads, Keeps-throw_if, Keeps-or_throw, Keeps-when, Keeps-bind,
}
use fixitph_backend.Database.WritesKeep.{Leaves-admitted}
use fixitph_backend.Database.Writes.{
  find_quote, store_quote, update_quote, update_quotes, create_quote, find_request, store_request,
  update_request, create_request, create_dispute, update_provider, create_notification,
}
use fixitph_backend.Bookings.Spec.{View, view}

module _ (Q : View → Type 0) where
  create_notification-view : (n : Notification) → Keeps (λ d. Q (view d)) (create_notification n)
  unfolding create_notification
  create_notification-view n = record { at = λ s d h. h }

  update_provider-view :
      (id : ℕ) (change : Provider → Provider) → Keeps (λ d. Q (view d)) (update_provider id change)
  unfolding update_provider
  update_provider-view id change = record {
    at = λ s d h. elim (Bool-cases (any (λ p. p.id == id) d.providers)) [
      | inl e ↦ rw (e, update_provider) h
      | inr e ↦ rw (e, update_provider) tt
    ];
  }

  store_quote-view :
      (s : Session) (d : Db) (q : Quote) → Q (view d) → Leaves (λ e. Q (view e)) (store_quote s d q)
  unfolding store_quote
  store_quote-view s d q h = Leaves-admitted (λ e. Q (view e)) _ _ _ _ _ (λ _ _. h)

  update_quote-view :
      (id : ℕ) (change : Quote → Quote) → Keeps (λ d. Q (view d)) (update_quote id change)
  unfolding update_quote
  update_quote-view id change = record {
    at = λ s d h. elim (Option-cases (find_quote id s d)) [
      | inl e ↦ rw (e, update_quote) tt
      | inr (q, e) ↦ rw (e, update_quote) (store_quote-view s d (record (change q) { id = id }) h)
    ];
  }

  update_quotes-view :
      (meets : Quote → Bool) (change : Quote → Quote)
      → Keeps (λ d. Q (view d)) (update_quotes meets change)
  unfolding update_quotes
  update_quotes-view meets change = record {
    at = λ s d h. Leaves-admitted (λ e. Q (view e)) _ _ _ _ _ (λ _ _. h);
  }

  create_quote-view : (q : Quote) → Keeps (λ d. Q (view d)) (create_quote q)
  unfolding create_quote
  create_quote-view q = record {
    at = λ s d h. Leaves-admitted (λ e. Q (view e)) _ _ _ _ _ (λ _ _. h);
  }

  store_request-view :
      (s : Session) (d : Db) (r : ServiceRequest)
      → Q (view d)
      → Leaves (λ e. Q (view e)) (store_request s d r)
  unfolding store_request
  store_request-view s d r h = Leaves-admitted (λ e. Q (view e)) _ _ _ _ _ (λ _ _. h)

  update_request-view :
      (id : ℕ) (change : ServiceRequest → ServiceRequest)
      → Keeps (λ d. Q (view d)) (update_request id change)
  unfolding update_request
  update_request-view id change = record {
    at = λ s d h. elim (Option-cases (find_request id s d)) [
      | inl e ↦ rw (e, update_request) tt
      | inr (r, e) ↦
          rw (e, update_request) (store_request-view s d (record (change r) { id = id }) h)
    ];
  }

  create_request-view : (r : ServiceRequest) → Keeps (λ d. Q (view d)) (create_request r)
  unfolding create_request
  create_request-view r = record {
    at = λ s d h. Leaves-admitted (λ e. Q (view e)) _ _ _ _ _ (λ _ _. h);
  }

  create_dispute-view : (x : Dispute) → Keeps (λ d. Q (view d)) (create_dispute x)
  unfolding create_dispute
  create_dispute-view x = record {
    at = λ s d h. Leaves-admitted (λ e. Q (view e)) _ _ _ _ _ (λ _ _. h);
  }

-- A transaction that leaves the bookings and their history as they were.
pub record IsSilent {A : Type 0} (m : Tx A) : Type 1 where
  pub keeps : (Q : View → Type 0) → Keeps (λ d. Q (view d)) m

pub IsSilent-pure : {A : Type 0} (a : A) → IsSilent (pure a)
IsSilent-pure a = record { keeps = λ Q. Keeps-pure a }

pub IsSilent-reads : {A : Type 0} (f : Session → Db → A) → IsSilent (reads f)
IsSilent-reads f = record { keeps = λ Q. Keeps-reads f }

pub IsSilent-throw_if : (b : Bool) (e : Failure) → IsSilent (throw_if b e)
IsSilent-throw_if b e = record { keeps = λ Q. Keeps-throw_if b e }

pub IsSilent-or_throw : {A : Type 0} (e : Failure) (o : Option A) → IsSilent (or_throw e o)
IsSilent-or_throw e o = record { keeps = λ Q. Keeps-or_throw e o }

pub IsSilent-when : (b : Bool) (m : Tx (Unit {0})) → IsSilent m → IsSilent (when b m)
IsSilent-when b m k = record { keeps = λ Q. Keeps-when b m (k.keeps Q) }

pub IsSilent-bind :
    {A B : Type 0} (m : Tx A) (f : A → Tx B)
    → IsSilent m
    → ((a : A) → IsSilent (f a))
    → IsSilent (m >>= f)
IsSilent-bind m f km kf = record { keeps = λ Q. Keeps-bind m f (km.keeps Q) (λ a. (kf a).keeps Q) }

pub create_notification-IsSilent : (n : Notification) → IsSilent (create_notification n)
create_notification-IsSilent n = record { keeps = λ Q. create_notification-view Q n }

pub update_provider-IsSilent :
    (id : ℕ) (change : Provider → Provider) → IsSilent (update_provider id change)
update_provider-IsSilent id change = record { keeps = λ Q. update_provider-view Q id change }

pub update_quote-IsSilent : (id : ℕ) (change : Quote → Quote) → IsSilent (update_quote id change)
update_quote-IsSilent id change = record { keeps = λ Q. update_quote-view Q id change }

pub update_quotes-IsSilent :
    (meets : Quote → Bool) (change : Quote → Quote) → IsSilent (update_quotes meets change)
update_quotes-IsSilent meets change = record { keeps = λ Q. update_quotes-view Q meets change }

pub create_quote-IsSilent : (q : Quote) → IsSilent (create_quote q)
create_quote-IsSilent q = record { keeps = λ Q. create_quote-view Q q }

pub update_request-IsSilent :
    (id : ℕ) (change : ServiceRequest → ServiceRequest) → IsSilent (update_request id change)
update_request-IsSilent id change = record { keeps = λ Q. update_request-view Q id change }

pub create_request-IsSilent : (r : ServiceRequest) → IsSilent (create_request r)
create_request-IsSilent r = record { keeps = λ Q. create_request-view Q r }

pub create_dispute-IsSilent : (x : Dispute) → IsSilent (create_dispute x)
create_dispute-IsSilent x = record { keeps = λ Q. create_dispute-view Q x }

pub ruleset silent = (
  IsSilent-pure, IsSilent-reads, IsSilent-throw_if, IsSilent-or_throw, IsSilent-when, IsSilent-bind,
  create_notification-IsSilent, update_provider-IsSilent, update_quote-IsSilent,
  update_quotes-IsSilent, create_quote-IsSilent, update_request-IsSilent, create_request-IsSilent,
  create_dispute-IsSilent,
)
