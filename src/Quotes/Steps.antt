-- ===== src/Quotes/Steps.antt =====
-- The operations of QuotesService against the lifecycle relation of Bookings/Spec.antt.
use fixitph_backend.Prelude.{
  ℕ, Bool, true, Option, none, some, String, ◌≡◌, ◌==◌, ◌&&◌, ◌||◌, not, refl, inl, inr, arith,
  Option-cases, Bool-cases,
}
use fixitph_backend.Schema.{Db, ServiceRequest, Quote, is_admin_role, is_pending}
use fixitph_backend.Errors.{Result, ok, err}
use fixitph_backend.Transaction.{Tx, Env, AuthenticatedUser, pure, ◌>>=◌}
use fixitph_backend.Database.Writes.{find_quote, find_request}
use fixitph_backend.Bookings.Spec.{View, view, Step}
use fixitph_backend.Bookings.OtherTables.{IsSilent, silent}
use fixitph_backend.Bookings.Stepping.{
  TakesStep, TakesStep-silent, TakesStep-after_silent, TakesStep-then_silent,
  create_booking-TakesStep, with_user-steps,
}
use fixitph_backend.Quotes.Service.{
  CreateQuoteDto, UpdateQuoteDto, AcceptQuoteDto, check_addressed, check_request, note_quoted,
  create_tx, update_tx, load_for_customer, accept_writes, accepted_booking, accept_tx, reject_tx,
  create, create_as, create_checked, update, accept, reject, create_as, create_checked,
}

check_addressed-IsSilent :
    (env : Env) (p : ℕ) (r : ServiceRequest) → IsSilent (check_addressed env p r)
unfolding check_addressed
check_addressed-IsSilent env p r = search silent

check_request-IsSilent :
    (env : Env) (p id : ℕ) (r : Option ServiceRequest) → IsSilent (check_request env p id r)
unfolding check_request
check_request-IsSilent env p id (some r) = check_addressed-IsSilent env p r
check_request-IsSilent env p id none = search silent

note_quoted-IsSilent : (q id : ℕ) (r : Option ServiceRequest) → IsSilent (note_quoted q id r)
unfolding note_quoted
note_quoted-IsSilent q id none = search silent
note_quoted-IsSilent q id (some r) = search silent depth 10

load_for_customer-IsSilent :
    (user : AuthenticatedUser) (id : ℕ) → IsSilent (load_for_customer user id)
unfolding load_for_customer
load_for_customer-IsSilent user id = search silent depth 14

ruleset quote_silent =
    (silent, check_request-IsSilent, note_quoted-IsSilent, load_for_customer-IsSilent)

create_tx-IsSilent : (env : Env) (p : ℕ) (dto : CreateQuoteDto) → IsSilent (create_tx env p dto)
unfolding create_tx
create_tx-IsSilent env p dto = search quote_silent depth 16

update_tx-IsSilent :
    (env : Env) (user : AuthenticatedUser) (id : ℕ) (dto : UpdateQuoteDto)
    → IsSilent (update_tx env user id dto)
unfolding update_tx
update_tx-IsSilent env user id dto = search quote_silent depth 16

reject_tx-IsSilent :
    (env : Env) (user : AuthenticatedUser) (id : ℕ) (reason : Option String)
    → IsSilent (reject_tx env user id reason)
unfolding reject_tx
reject_tx-IsSilent env user id reason = search quote_silent depth 16

abbrev may_accept : AuthenticatedUser → ServiceRequest → Bool
may_accept user r = r.customer_id == user.id || is_admin_role user.role

-- What comes after the quote and its request were loaded is for the customer or an administrator.
after_load :
    {A : Type 0} (v : View) (user : AuthenticatedUser) (id : ℕ) (f : Quote × ServiceRequest → Tx A)
    → ((loaded : Quote × ServiceRequest)
        → may_accept user loaded.1 ≡ true
        → TakesStep user v (f loaded))
    → TakesStep user v (load_for_customer user id >>= f)
unfolding load_for_customer ◌>>=◌ pure
after_load v user id f k = record {
  at = λ s d of e. elim (Option-cases (find_quote id s d)) [
    | inl n ↦ rw (n, ◌>>=◌) tt
    | inr (q, n) ↦ elim (Option-cases (find_request q.service_request_id s d)) [
      | inl m ↦ rw (n, m, ◌>>=◌) tt
      | inr (r, m) ↦
          rw (n, m, ◌>>=◌)
            (elim (Bool-cases (not (is_admin_role user.role) && not (r.customer_id == user.id))) [
              | inl p ↦ rw (p, ◌>>=◌) tt
              | inr p ↦
                  rw (p, ◌>>=◌)
                    (elim (Bool-cases (is_pending q.status)) [
                      | inr w ↦ rw (w, ◌>>=◌) tt
                      | inl w ↦ rw (w, ◌>>=◌) ((k (q, r) (ground (arith, p))).at s d of e)
                    ])
            ])
    ]
  ];
}

accept_writes_step :
    (v : View) (env : Env) (user : AuthenticatedUser) (dto : AcceptQuoteDto) (q : Quote)
    (r : ServiceRequest)
    → may_accept user r ≡ true
    → TakesStep user v (accept_writes env user dto q r)
unfolding accept_writes accepted_booking
accept_writes_step v env user dto q r m = TakesStep-after_silent user v _ _ (search silent) λ _.
    TakesStep-after_silent user v _ _ (search silent) λ _.
      TakesStep-then_silent user v _ _ (create_booking-TakesStep user v _ m refl refl)
        λ b. search silent depth 8

accept_tx_step :
    (v : View) (env : Env) (user : AuthenticatedUser) (id : ℕ) (dto : AcceptQuoteDto)
    → TakesStep user v (accept_tx env user id dto)
unfolding accept_tx
accept_tx_step v env user id dto = after_load v user id _ λ loaded m.
    TakesStep-after_silent user v _ _ (search silent) λ _.
      TakesStep-after_silent user v _ _ (search silent)
        λ _. accept_writes_step v env user dto loaded.0 loaded.1 m

module _ (env : Env) (user : AuthenticatedUser) (d : Db) where
  create_checked_steps :
      (p : ℕ) (dto : CreateQuoteDto) (r : Result (Unit {0}))
      → Step user (view d) (view (create_checked env user p dto d r).0)
  unfolding create_checked
  create_checked_steps p dto (err e) = Step.stay
  create_checked_steps p dto (ok u) =
      with_user-steps user _ _ _ d (TakesStep-silent user _ _ (create_tx-IsSilent env p dto))

  create_as_steps :
      (p : Option ℕ) (dto : CreateQuoteDto)
      → Step user (view d) (view (create_as env user p dto d).0)
  unfolding create_as
  create_as_steps none dto = Step.stay
  create_as_steps (some p) dto = create_checked_steps p dto _

  pub create_steps : (dto : CreateQuoteDto) → Step user (view d) (view (create env user dto d).0)
  unfolding create
  create_steps dto = create_as_steps user.provider_id dto

  pub update_steps :
      (id : ℕ) (dto : UpdateQuoteDto) → Step user (view d) (view (update env user id dto d).0)
  unfolding update
  update_steps id dto =
      with_user-steps user _ _ _ d (TakesStep-silent user _ _ (update_tx-IsSilent env user id dto))

  pub accept_steps :
      (id : ℕ) (dto : AcceptQuoteDto) → Step user (view d) (view (accept env user id dto d).0)
  unfolding accept
  accept_steps id dto = with_user-steps user _ _ _ d (accept_tx_step (view d) env user id dto)

  pub reject_steps :
      (id : ℕ) (reason : Option String) → Step user (view d) (view (reject env user id reason d).0)
  unfolding reject
  reject_steps id reason =
      with_user-steps user _ _ _ d
        (TakesStep-silent user _ _ (reject_tx-IsSilent env user id reason))
