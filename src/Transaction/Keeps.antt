-- ===== src/Transaction/Keeps.antt =====
-- What every step of a transaction keeps, with a rule for each way to build a transaction.
use fixitph_backend.Prelude.{◌≡◌, refl, ℕ, Bool, true, false, Option, none, some, String}
use fixitph_backend.Schema.{Db}
use fixitph_backend.Errors.{Failure, Result, ok, err}
use fixitph_backend.Transaction.Core.{
  Session, AuthContext, Tx, pure, continue, ◌>>=◌, throw_if, or_throw, when, reads, with_user,
  commit,
}

-- The relation of the database before to the one that a transaction returns; nothing of a failure.
abbrev pub Leaves : {A : Type 0} → (Db → Type 0) → Result (A × Db) → Type 0
Leaves P (ok (a, d)) = P d
Leaves P (err e) = Unit {0}

pub record Keeps {A : Type 0} (P : Db → Type 0) (m : Tx A) : Type 0 where
  pub at : (s : Session) (d : Db) → P d → Leaves P (m s d)

commit-keeps :
    {A : Type 0} (P : Db → Type 0) (d : Db) (r : Result (A × Db))
    → P d
    → Leaves P r
    → P (commit d r).0
commit-keeps P d (ok (a, e)) h l = l
commit-keeps P d (err f) h l = h

-- What a transaction leaves holds after `withUser`, if it holds before.
pub with_user-leaves :
    {A : Type 0} (P : Db → Type 0) (c : AuthContext) (reason : Option String) (now : ℕ) (m : Tx A)
    (d : Db)
    → P d
    → ((s : Session) → s.context ≡ c → Leaves P (m s d))
    → P (with_user c reason now m d).0
unfolding with_user
with_user-leaves P c reason now m d h l = commit-keeps P d _ h (l _ refl)

module _ {P : Db → Type 0} where
  pub Keeps-pure : {A : Type 0} (a : A) → Keeps P (pure a)
  unfolding pure
  Keeps-pure a = record { at = λ s d h. h }

  pub Keeps-reads : {A : Type 0} (f : Session → Db → A) → Keeps P (reads f)
  unfolding reads
  Keeps-reads f = record { at = λ s d h. h }

  pub Keeps-throw_if : (b : Bool) (e : Failure) → Keeps P (throw_if b e)
  unfolding throw_if
  Keeps-throw_if true e = record { at = λ s d h. tt }
  Keeps-throw_if false e = record { at = λ s d h. h }

  pub Keeps-or_throw : {A : Type 0} (e : Failure) (o : Option A) → Keeps P (or_throw e o)
  unfolding or_throw
  Keeps-or_throw e none = record { at = λ s d h. tt }
  Keeps-or_throw e (some a) = record { at = λ s d h. h }

  pub Keeps-when : (b : Bool) (m : Tx (Unit {0})) → Keeps P m → Keeps P (when b m)
  unfolding when
  Keeps-when true m k = k
  Keeps-when false m k = record { at = λ s d h. h }

  pub Leaves-continue :
      {A B : Type 0} (f : A → Tx B) (s : Session) (r : Result (A × Db))
      → ((a : A) → Keeps P (f a))
      → Leaves P r
      → Leaves P (continue f s r)
  Leaves-continue f s (ok (a, d)) k h = (k a).at s d h
  Leaves-continue f s (err e) k h = tt

  pub Keeps-bind :
      {A B : Type 0} (m : Tx A) (f : A → Tx B)
      → Keeps P m
      → ((a : A) → Keeps P (f a))
      → Keeps P (m >>= f)
  unfolding ◌>>=◌
  Keeps-bind m f km kf = record { at = λ s d h. Leaves-continue f s (m s d) kf (km.at s d h) }

  pub with_user-keeps :
      {A : Type 0} (c : AuthContext) (reason : Option String) (now : ℕ) (m : Tx A) (d : Db)
      → Keeps P m
      → P d
      → P (with_user c reason now m d).0
  with_user-keeps c reason now m d k h = with_user-leaves P c reason now m d h (λ s _. k.at s d h)

pub ruleset keeps_rules =
    (Keeps-pure, Keeps-reads, Keeps-throw_if, Keeps-or_throw, Keeps-when, Keeps-bind)
