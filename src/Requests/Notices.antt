-- ===== src/Requests/Notices.antt =====
-- The loop of `updateStatus` in requests/requests.service.ts that tells the providers who quoted.
use fixitph_backend.Prelude.{
  ℕ, Bool, true, Option, none, some, List, [], ◌∷◌, ◌==◌, ◌&&◌, any, no_two, if◌then◌else◌,
  filter_by, ◌≡◌, refl, ap, subst, ◌∙◌, ==_iff, arith, inl, inr, Bool-cases,
}
use fixitph_backend.Schema.{RequestStatus, Quote, Provider, Notification, NotificationType, Db}
use fixitph_backend.Transaction.{Session, pure, when}
use fixitph_backend.Transaction.Returns.{Returns, Returns-bind, Returns-reads}
use fixitph_backend.Database.Policies.{quotes_visible}
use fixitph_backend.Database.WritesReturn.{Returns-create_notification}
use fixitph_backend.Bookings.Owners.{owner_of, found_owner}
use fixitph_backend.Requests.Service.{
  ends, distinct_providers, quoted_providers, notify_provider, notify_quoted,
}

abbrev pub notice : ℕ → Option ℕ → List Notification → List Notification
notice id none ns = ns
notice id (some user) ns =
    record { user_id = user; type = NotificationType.system; subject = id } ∷ ns

-- A notice to the account behind each of these profiles, the last one first.
unfoldable pub notices : ℕ → List ℕ → List Provider → List Notification → List Notification
notices id [] profiles ns = ns
notices id (p ∷ ps) profiles ns = notices id ps profiles (notice id (owner_of p profiles) ns)

-- Only a cancellation or a closing is told.
abbrev pub told : RequestStatus → ℕ → List ℕ → List Provider → List Notification → List Notification
told RequestStatus.cancelled id ps profiles ns = notices id ps profiles ns
told RequestStatus.closed id ps profiles ns = notices id ps profiles ns
told _ id ps profiles ns = ns

-- Who has been told of the move of the request `id` to `status`.
pub record IsTold (id : ℕ) (status : RequestStatus) (s : Session) (d e : Db) : Type 0 where
  pub quoters : List ℕ
  pub once : no_two (λ p q. p == q) quoters ≡ true
  pub quoted :
      (p : ℕ)
      → any (λ x. x == p) quoters
        ≡ any
            (λ q. (q.service_request_id == id && quotes_visible s e q) && q.provider_id == p)
            d.quotes
  pub tells : e.notifications ≡ told status id quoters d.providers d.notifications

any_swap : (a : ℕ) (xs : List ℕ) → any (λ x. a == x) xs ≡ any (λ x. x == a) xs
unfolding any
any_swap a [] = refl
any_swap a (x ∷ xs) = ground (arith, any_swap a xs)

any_at : (a b : ℕ) (xs : List ℕ) → (a == b) ≡ true → any (λ x. x == a) xs ≡ any (λ x. x == b) xs
any_at a b xs e = ap (λ n. any (λ x. x == n) xs) ((==_iff a b).0 e)

distinct_once : (quotes : List Quote) → no_two (λ p q. p == q) (distinct_providers quotes) ≡ true
unfolding distinct_providers no_two
distinct_once [] = refl
distinct_once (q ∷ quotes) =
    ground (arith, distinct_once quotes, any_swap q.provider_id (distinct_providers quotes))

distinct_all :
    (p : ℕ) (quotes : List Quote)
    → any (λ x. x == p) (distinct_providers quotes) ≡ any (λ q. q.provider_id == p) quotes
unfolding distinct_providers any
distinct_all p [] = refl
distinct_all p (q ∷ quotes) =
    ground (arith, distinct_all p quotes, any_at q.provider_id p (distinct_providers quotes))

any-filter_by :
    (p q : Quote → Bool) (quotes : List Quote)
    → any p (filter_by q quotes) ≡ any (λ x. q x && p x) quotes
unfolding any filter_by
any-filter_by p q [] = refl
any-filter_by p q (x ∷ quotes) = ground (arith, any-filter_by p q quotes)

Returns-notify_provider :
    (id : ℕ) (o : Option ℕ) (s : Session) (d : Db) (Q : Unit {0} → Db → Type 0)
    → Q tt (record d { notifications = notice id o d.notifications })
    → Returns Q (notify_provider id o s d)
unfolding notify_provider pure
Returns-notify_provider id none s d Q h = h
Returns-notify_provider id (some u) s d Q h = Returns-create_notification _ _ _ _ h

Returns-notify_quoted :
    (id : ℕ) (ps : List ℕ) (s : Session) (d : Db) (Q : Unit {0} → Db → Type 0)
    → Q tt (record d { notifications = notices id ps d.providers d.notifications })
    → Returns Q (notify_quoted id ps s d)
unfolding notify_quoted notices pure
Returns-notify_quoted id [] s d Q h = h
Returns-notify_quoted id (p ∷ ps) s d Q h = Returns-reads _ _ _ _ _ (
    rw (found_owner p d.providers) (
      Returns-bind _ _ _ _ _ (
        Returns-notify_provider id (owner_of p d.providers) s d _ (
          Returns-notify_quoted id ps s
            (record d { notifications = notice id (owner_of p d.providers) d.notifications }) Q
            h))))

told_where_ends :
    (status : RequestStatus) (id : ℕ) (ps : List ℕ) (profiles : List Provider)
    (ns : List Notification)
    → told status id ps profiles ns ≡ (if ends status then notices id ps profiles ns else ns)
told_where_ends status id ps profiles ns = ground arith

pub Returns-when_ends :
    (status : RequestStatus) (id : ℕ) (ps : List ℕ) (s : Session) (d : Db)
    (Q : Unit {0} → Db → Type 0)
    → Q tt (record d { notifications = told status id ps d.providers d.notifications })
    → Returns Q (when (ends status) (notify_quoted id ps) s d)
unfolding when pure
Returns-when_ends status id ps s d Q h =
    let same = told_where_ends status id ps d.providers d.notifications in
    let goal = subst (λ ns. Q tt (record d { notifications = ns })) same h in
    elim (Bool-cases (ends status)) [
      | inl k ↦ rw k (
          Returns-notify_quoted id ps s d Q (
            subst
              (λ b. Q tt (record d {
                notifications =
                    if b then notices id ps d.providers d.notifications else d.notifications;
              }))
              k goal))
      | inr k ↦ rw k (
          subst
            (λ b. Q tt (record d {
              notifications =
                  if b then notices id ps d.providers d.notifications else d.notifications;
            }))
            k goal)
    ]

module _ (id : ℕ) (s : Session) (d : Db) where
  pub told_of :
      (d1 : Db)
      → d1.quotes ≡ d.quotes
      → (p : ℕ)
      → any (λ x. x == p) (quoted_providers id s d1)
        ≡ any
            (λ q. (q.service_request_id == id && quotes_visible s d1 q) && q.provider_id == p)
            d.quotes
  unfolding quoted_providers
  told_of d1 e p =
      distinct_all p _ ∙ any-filter_by (λ q. q.provider_id == p) _ d1.quotes ∙ ap (any _) e

  pub told_once : (d1 : Db) → no_two (λ p q. p == q) (quoted_providers id s d1) ≡ true
  unfolding quoted_providers
  told_once d1 = distinct_once _
