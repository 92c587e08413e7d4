-- ===== src/Quotes/Consistency.antt =====
-- The operations of QuotesService and the consistency of the database.
use fixitph_backend.Prelude.{ℕ, Option, none, some, String}
use fixitph_backend.Schema.{Db, ServiceRequest, Quote}
use fixitph_backend.Errors.{Result, ok, err}
use fixitph_backend.Transaction.{Env, AuthenticatedUser}
use fixitph_backend.Transaction.Keeps.{Keeps, with_user-keeps}
use fixitph_backend.Database.Consistency.{IsConsistent}
use fixitph_backend.Database.WritesKeep.{writes_keep}
use fixitph_backend.Quotes.Service.{
  CreateQuoteDto, UpdateQuoteDto, AcceptQuoteDto, check_addressed, check_request, note_quoted,
  create_tx, update_tx, load_for_customer, accept_writes, accept_tx, reject_tx, create, create_as,
  create_checked, update, accept, reject, create_as, create_checked,
}

check_addressed-Keeps :
    (env : Env) (p : ℕ) (r : ServiceRequest) → Keeps IsConsistent (check_addressed env p r)
unfolding check_addressed
check_addressed-Keeps env p r = search writes_keep

check_request-Keeps :
    (env : Env) (p id : ℕ) (r : Option ServiceRequest)
    → Keeps IsConsistent (check_request env p id r)
unfolding check_request
check_request-Keeps env p id (some r) = check_addressed-Keeps env p r
check_request-Keeps env p id none = search writes_keep

note_quoted-Keeps : (q id : ℕ) (r : Option ServiceRequest) → Keeps IsConsistent (note_quoted q id r)
unfolding note_quoted
note_quoted-Keeps q id none = search writes_keep
note_quoted-Keeps q id (some r) = search writes_keep depth 10

load_for_customer-Keeps :
    (user : AuthenticatedUser) (id : ℕ) → Keeps IsConsistent (load_for_customer user id)
unfolding load_for_customer
load_for_customer-Keeps user id = search writes_keep depth 14

accept_writes-Keeps :
    (env : Env) (user : AuthenticatedUser) (dto : AcceptQuoteDto) (q : Quote) (r : ServiceRequest)
    → Keeps IsConsistent (accept_writes env user dto q r)
unfolding accept_writes
accept_writes-Keeps env user dto q r = search writes_keep depth 14

ruleset helpers_keep = (
  writes_keep, check_request-Keeps, note_quoted-Keeps, load_for_customer-Keeps, accept_writes-Keeps,
)

create_tx-Keeps :
    (env : Env) (p : ℕ) (dto : CreateQuoteDto) → Keeps IsConsistent (create_tx env p dto)
unfolding create_tx
create_tx-Keeps env p dto = search helpers_keep depth 16

update_tx-Keeps :
    (env : Env) (user : AuthenticatedUser) (id : ℕ) (dto : UpdateQuoteDto)
    → Keeps IsConsistent (update_tx env user id dto)
unfolding update_tx
update_tx-Keeps env user id dto = search helpers_keep depth 16

accept_tx-Keeps :
    (env : Env) (user : AuthenticatedUser) (id : ℕ) (dto : AcceptQuoteDto)
    → Keeps IsConsistent (accept_tx env user id dto)
unfolding accept_tx
accept_tx-Keeps env user id dto = search helpers_keep depth 16

reject_tx-Keeps :
    (env : Env) (user : AuthenticatedUser) (id : ℕ) (reason : Option String)
    → Keeps IsConsistent (reject_tx env user id reason)
unfolding reject_tx
reject_tx-Keeps env user id reason = search helpers_keep depth 16

module _ (env : Env) (user : AuthenticatedUser) (d : Db) (c : IsConsistent d) where
  create_checked_keeps :
      (p : ℕ) (dto : CreateQuoteDto) (r : Result (Unit {0}))
      → IsConsistent (create_checked env user p dto d r).0
  unfolding create_checked
  create_checked_keeps p dto (err e) = c
  create_checked_keeps p dto (ok u) = with_user-keeps _ _ _ _ d (create_tx-Keeps env p dto) c

  create_as_keeps :
      (p : Option ℕ) (dto : CreateQuoteDto) → IsConsistent (create_as env user p dto d).0
  unfolding create_as
  create_as_keeps none dto = c
  create_as_keeps (some p) dto = create_checked_keeps p dto _

  pub create_keeps : (dto : CreateQuoteDto) → IsConsistent (create env user dto d).0
  unfolding create
  create_keeps dto = create_as_keeps user.provider_id dto

  pub update_keeps : (id : ℕ) (dto : UpdateQuoteDto) → IsConsistent (update env user id dto d).0
  unfolding update
  update_keeps id dto = with_user-keeps _ _ _ _ d (update_tx-Keeps env user id dto) c

  pub accept_keeps : (id : ℕ) (dto : AcceptQuoteDto) → IsConsistent (accept env user id dto d).0
  unfolding accept
  accept_keeps id dto = with_user-keeps _ _ _ _ d (accept_tx-Keeps env user id dto) c

  pub reject_keeps :
      (id : ℕ) (reason : Option String) → IsConsistent (reject env user id reason d).0
  unfolding reject
  reject_keeps id reason = with_user-keeps _ _ _ _ d (reject_tx-Keeps env user id reason) c
