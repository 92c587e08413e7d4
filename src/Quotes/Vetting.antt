-- ===== src/Quotes/Vetting.antt =====
-- `create` of QuotesService, where it succeeds.
use fixitph_backend.Prelude.{
  ℕ, Bool, true, Option, none, some, ◌&&◌, ◌||◌, ◌==◌, not, is_none, is_past, holds, any, find_by,
  ◌≡◌, ◌⊎◌, inl, inr, refl, ap, arith,
}
use fixitph_backend.Schema.{Provider, Quote, ServiceRequest, Db, is_approved, takes_quotes}
use fixitph_backend.Errors.{Result, ok, err}
use fixitph_backend.Transaction.{
  Env, AuthenticatedUser, Session, to_auth_context, anonymous, pure, with_user,
}
use fixitph_backend.Transaction.Returns.{
  Returns, Returns-bind, Returns-reads, Returns-or_throw, Returns-throw_if, Returns-throw_if_last,
  Returns-always, with_user-Returns,
}
use fixitph_backend.Database.Policies.{in_open_feed}
use fixitph_backend.Database.Writes.{find_request}
use fixitph_backend.Database.WritesReturn.{Returns-create_quote}
use fixitph_backend.Quotes.Service.{
  CreateQuoteDto, find_provider, check_provider, check_addressed, check_request, new_quote,
  create_tx, create_checked, create_as, create,
}

-- The request takes quotes from this provider: one that the provider can see and that is addressed
-- to nobody else, or one in the feed.
unfoldable pub is_for : Env → ℕ → ServiceRequest → Bool
is_for env p r =
    (is_none r.provider_id || holds r.provider_id p)
    && takes_quotes r.status
    && not (is_past r.expires_at (env.clock 0))

pub TakesQuote : Env → ℕ → ℕ → Session → Db → Type 0
TakesQuote env p id s d =
    ((r : ServiceRequest) × (find_request id s d ≡ some r) × (is_for env p r ≡ true))
    ⊎ (any (λ r. r.id == id && in_open_feed s r) d.requests ≡ true)

pub record IsVetted (env : Env) (user : AuthenticatedUser) (dto : CreateQuoteDto) (d : Db)
    (q : Quote) : Type 0 where
  pub provider_id : ℕ
  pub provider : Provider
  pub profile : user.provider_id ≡ some provider_id
  pub held : find_by (λ p. p.id == provider_id && is_none p.deleted_at) d.providers ≡ some provider
  pub not_suspended : provider.suspended_at ≡ none
  pub verified : is_approved provider.verification_status ≡ true
  pub quote_is : q ≡ new_quote env provider_id dto
  pub takes :
      TakesQuote env provider_id dto.service_request_id
        (record { context = to_auth_context user; status_change_reason = none; now = env.now })
        d

module _ (env : Env) (user : AuthenticatedUser) (dto : CreateQuoteDto) (p : ℕ) (s : Session)
    (d : Db) where
  addressed-Returns :
      (r : ServiceRequest) (Q : Unit {0} → Db → Type 0)
      → (is_for env p r ≡ true → Q tt d)
      → Returns Q (check_addressed env p r s d)
  unfolding check_addressed is_for
  addressed-Returns r Q h = Returns-throw_if _ _ _ _ _ _ λ a.
      Returns-throw_if _ _ _ _ _ _
        λ b. Returns-throw_if_last _ _ _ _ _ λ c. h (ground (arith, a, b, c))

  request-Returns :
      (o : Option ServiceRequest) (Q : Unit {0} → Db → Type 0)
      → find_request dto.service_request_id s d ≡ o
      → (TakesQuote env p dto.service_request_id s d → Q tt d)
      → Returns Q (check_request env p dto.service_request_id o s d)
  unfolding check_request TakesQuote
  request-Returns none Q f h =
      Returns-reads _ _ _ _ _ (Returns-throw_if_last _ _ _ _ _ λ i. h (inr (ground (arith, i))))
  request-Returns (some r) Q f h = addressed-Returns r Q λ k. h (inl (r, f, k))

  create-Returns :
      Returns
        (λ q e. (q ≡ new_quote env p dto) × TakesQuote env p dto.service_request_id s d)
        (create_tx env p dto s d)
  unfolding create_tx pure
  create-Returns = Returns-reads _ _ _ _ _ (
      Returns-bind _ _ _ _ _ (
        request-Returns _ _ refl λ takes. Returns-reads _ _ _ _ _ (
          Returns-throw_if _ _ _ _ _ _ λ _. Returns-bind _ _ _ _ _ (
            Returns-create_quote _ _ _ _ (
              Returns-reads _ _ _ _ _ (
                Returns-bind _ _ _ _ _ (
                  Returns-always
                    (λ _ _.
                      (new_quote env p dto ≡ new_quote env p dto)
                      × TakesQuote env p dto.service_request_id s d)
                    _ λ _ _. (refl, takes))))))))

  -- What the reads before the transaction find out.
  provider-Returns :
      Returns
        (λ u e.
          (x : Provider) × (find_provider p s d ≡ some x)
          × (x.suspended_at ≡ none)
          × (is_approved x.verification_status ≡ true))
        (check_provider p s d)
  unfolding check_provider
  provider-Returns = Returns-reads _ _ _ _ _ (
      Returns-or_throw _ _ _ _ _ _ λ x f.
        Returns-throw_if _ _ _ _ _ _
          λ a. Returns-throw_if_last _ _ _ _ _ λ b. (x, f, ground (arith, a), ground (arith, b)))

module _ (env : Env) (user : AuthenticatedUser) (dto : CreateQuoteDto) (d e : Db) (q : Quote) where
  IsVetted-checked :
      (p : ℕ) (r : Result (Unit {0}))
      → user.provider_id ≡ some p
      → (with_user anonymous none env.now (check_provider p) d).1 ≡ r
      → create_checked env user p dto d r ≡ (e, ok q)
      → IsVetted env user dto d q
  unfolding create_checked find_provider
  IsVetted-checked p (err x) a f h = cc
  IsVetted-checked p (ok u) a f h =
      let checked =
        with_user-Returns _ _ _ _ _ d _ u (provider-Returns env user dto p _ d)
          (ap (λ r. ((with_user anonymous none env.now (check_provider p) d).0, r)) f) in
      let made = with_user-Returns _ _ _ _ _ d e q (create-Returns env user dto p _ d) h in
      record {
        provider_id = p;
        provider = checked.0;
        profile = a;
        held = checked.1;
        not_suspended = checked.2;
        verified = checked.3;
        quote_is = made.0;
        takes = made.1;
      }

  IsVetted-as :
      (o : Option ℕ)
      → user.provider_id ≡ o
      → create_as env user o dto d ≡ (e, ok q)
      → IsVetted env user dto d q
  unfolding create_as
  IsVetted-as none a h = cc
  IsVetted-as (some p) a h = IsVetted-checked p _ a refl h

-- A quote that is created is from the provider profile of the caller's token, which is not
-- deleted, not suspended, and verified, on a request that takes quotes from it: one that it can see
-- and that is addressed to nobody else, open and not expired, or one in the open feed.
pub create-IsVetted :
    (env : Env) (user : AuthenticatedUser) (dto : CreateQuoteDto) (d e : Db) (q : Quote)
    → create env user dto d ≡ (e, ok q)
    → IsVetted env user dto d q
unfolding create
create-IsVetted env user dto d e q h = IsVetted-as env user dto d e q user.provider_id refl h
