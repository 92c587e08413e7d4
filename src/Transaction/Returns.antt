-- ===== src/Transaction/Returns.antt =====
-- What a transaction that succeeds returns: a rule for each way to build one. A failure returns
-- nothing, and meets every description.
use fixitph_backend.Prelude.{Bool, true, false, Option, none, some, String, ◌≡◌, refl, subst, ℕ}
use fixitph_backend.Schema.{Db}
use fixitph_backend.Errors.{Failure, Result, ok, err}
use fixitph_backend.Transaction.Core.{
  Session, AuthContext, Tx, pure, throw, throw_if, or_throw, reads, continue, ◌>>=◌, with_user,
  commit, truthy,
}

abbrev pub Returns : {A : Type 0} → (A → Db → Type 0) → Result (A × Db) → Type 0
Returns Q (ok (a, d)) = Q a d
Returns Q (err e) = Unit {0}

Returns-continue :
    {A B : Type 0} (Q : B → Db → Type 0) (f : A → Tx B) (s : Session) (r : Result (A × Db))
    → Returns (λ a e. Returns Q (f a s e)) r
    → Returns Q (continue f s r)
Returns-continue Q f s (ok (a, d)) h = h
Returns-continue Q f s (err e) h = tt

abbrev Given : {A : Type 0} → (A → Db → Type 0) → Db × Result A → Type 0
Given Q (d, ok a) = Q a d
Given Q (d, err e) = Unit {0}

Given-commit :
    {A : Type 0} (Q : A → Db → Type 0) (d : Db) (r : Result (A × Db))
    → Returns Q r
    → Given Q (commit d r)
Given-commit Q d (ok (a, e)) h = h
Given-commit Q d (err e) h = tt

module _ {A : Type 0} (Q : A → Db → Type 0) where
  pub Returns-bind :
      {B : Type 0} (m : Tx B) (f : B → Tx A) (s : Session) (d : Db)
      → Returns (λ b e. Returns Q (f b s e)) (m s d)
      → Returns Q ((m >>= f) s d)
  unfolding ◌>>=◌
  Returns-bind m f s d h = Returns-continue Q f s (m s d) h

  pub Returns-reads :
      {B : Type 0} (g : Session → Db → B) (f : B → Tx A) (s : Session) (d : Db)
      → Returns Q (f (g s d) s d)
      → Returns Q ((reads g >>= f) s d)
  unfolding ◌>>=◌
  Returns-reads g f s d h = h

  pub Returns-or_throw :
      {B : Type 0} (x : Failure) (o : Option B) (f : B → Tx A) (s : Session) (d : Db)
      → ((b : B) → o ≡ some b → Returns Q (f b s d))
      → Returns Q ((or_throw x o >>= f) s d)
  unfolding ◌>>=◌
  Returns-or_throw x none f s d h = tt
  Returns-or_throw x (some b) f s d h = h b refl

  pub Returns-throw_if :
      (b : Bool) (x : Failure) (f : Unit {0} → Tx A) (s : Session) (d : Db)
      → (b ≡ false → Returns Q (f tt s d))
      → Returns Q ((throw_if b x >>= f) s d)
  unfolding ◌>>=◌
  Returns-throw_if true x f s d h = tt
  Returns-throw_if false x f s d h = h refl

  -- What `withUser` returns.
  pub with_user-Returns :
      (c : AuthContext) (reason : Option String) (now : ℕ) (m : Tx A) (d e : Db) (a : A)
      → Returns Q (m (record { context = c; status_change_reason = truthy reason; now = now }) d)
      → with_user c reason now m d ≡ (e, ok a)
      → Q a e
  unfolding with_user
  with_user-Returns c reason now m d e a h k = subst (Given Q) k (Given-commit Q d _ h)

-- The test that a transaction ends with.
pub Returns-throw_if_last :
    (Q : Unit {0} → Db → Type 0) (b : Bool) (x : Failure) (s : Session) (d : Db)
    → (b ≡ false → Q tt d)
    → Returns Q (throw_if b x s d)
unfolding throw_if throw pure
Returns-throw_if_last Q true x s d h = tt
Returns-throw_if_last Q false x s d h = h refl

pub Returns-always :
    {A : Type 0} (Q : A → Db → Type 0) (r : Result (A × Db))
    → ((a : A) (d : Db) → Q a d)
    → Returns Q r
Returns-always Q (ok (a, d)) h = h a d
Returns-always Q (err e) h = tt
