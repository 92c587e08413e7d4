-- ===== src/Transaction/Core.antt =====
-- The transaction monad, `toAuthContext` of common/types.ts, and `withUser`.
use fixitph_backend.Prelude.{ℕ, Bool, Option, none, some, String, if◌then◌else◌}
use fixitph_backend.Schema.{UserRole, Db}
use fixitph_backend.Errors.{Failure, Result, ok, err}

pub record AuthenticatedUser : Type 0 where
  pub id : ℕ
  pub email : String
  pub role : UserRole
  pub provider_id : Option ℕ
  pub session_id : ℕ

pub record AuthContext : Type 0 where
  pub user_id : Option ℕ
  pub role : Option UserRole

-- The settings of the transaction, and its start, which is SQL's `now()`.
pub record Session : Type 0 where
  pub context : AuthContext
  pub open context use *
  pub status_change_reason : Option String
  pub now : ℕ

-- What a request draws from outside the program: the start of its transaction, the successive
-- readings of the clock, and the identifiers that the database generates for the rows it inserts. The
-- last is of the floating point numbers: whether the quotient of two numbers that lies halfway
-- between two hundredths is rounded up.
pub record Env : Type 0 where
  pub now : ℕ
  pub clock : ℕ → ℕ
  pub uuid : ℕ → ℕ
  pub halves_up : ℕ → ℕ → Bool

abbrev pub Tx : Type 0 → Type 0
Tx A = Session → Db → Result (A × Db)

unfoldable pub pure : {A : Type 0} → A → Tx A
pure a s d = ok (a, d)

unfoldable pub throw : {A : Type 0} → Failure → Tx A
throw e s d = err e

abbrev pub continue : {A B : Type 0} → (A → Tx B) → Session → Result (A × Db) → Result (B × Db)
continue f s (ok (a, d)) = f a s d
continue f s (err e) = err e

-- `if (test) throw error;`
unfoldable pub throw_if : Bool → Failure → Tx (Unit {0})
unfolding pure throw
throw_if b e = if b then throw e else pure tt

-- `if (!row) throw error;`
unfoldable pub or_throw : {A : Type 0} → Failure → Option A → Tx A
unfolding pure throw
or_throw e none = throw e
or_throw e (some a) = pure a

-- `if (test) { … }`
unfoldable pub when : Bool → Tx (Unit {0}) → Tx (Unit {0})
unfolding pure
when b m = if b then m else pure tt

-- Reads something off the session and the database.
unfoldable pub reads : {A : Type 0} → (Session → Db → A) → Tx A
reads f s d = ok (f s d, d)

infixl 5 ◌>>=◌ ◌>>◌
-- Unfolding this unfolds every step above.
unfoldable pub ◌>>=◌ : {A B : Type 0} → Tx A → (A → Tx B) → Tx B
unfolding pure throw throw_if or_throw when reads
◌>>=◌ m f s d = continue f s (m s d)

abbrev pub ◌>>◌ : {A B : Type 0} → Tx A → Tx B → Tx B
m >> k = m >>= λ _. k

unfoldable pub to_auth_context : AuthenticatedUser → AuthContext
to_auth_context user = record { user_id = some user.id; role = some user.role }

abbrev pub anonymous : AuthContext
anonymous = record { user_id = none; role = none }

-- A failure leaves the database as it was: the transaction is rolled back.
abbrev pub commit : {A : Type 0} → Db → Result (A × Db) → Db × Result A
commit d (ok (a, e)) = (e, ok a)
commit d (err f) = (d, err f)

-- `if (options?.statusChangeReason)`: an empty text is no reason.
abbrev pub truthy : Option String → Option String
truthy none = none
truthy (some String.[]) = none
truthy (some (String.◌∷◌ c t)) = some (String.◌∷◌ c t)

unfoldable pub with_user :
    {A : Type 0} → AuthContext → Option String → ℕ → Tx A → Db → Db × Result A
with_user context reason now m d =
    commit d (m (record { context = context; status_change_reason = truthy reason; now = now }) d)
