-- ===== src/Auth/Calls.antt =====
-- Any sequence of the calls that open, renew or end sessions.
use fixitph_backend.Prelude.{ℕ, Bool, true, Option, List, [], ◌∷◌, ◌&&◌, ◌==◌, not, any}
use fixitph_backend.Auth.Tables.{AuthTables, Crypto, Config, Draws}
use fixitph_backend.Auth.Service.{RequestMeta, RegisterDto, register, login}
use fixitph_backend.Auth.Refresh.{refresh, logout}
use fixitph_backend.Auth.Google.{GoogleProfile, sign_in}

pub data Call : Type 0 where
  register_as : RegisterDto → RequestMeta → Call
  login_with : ℕ → ℕ → RequestMeta → Call
  refresh_with : ℕ → RequestMeta → Call
  logout_with : Option ℕ → Call
  sign_in_as : GoogleProfile → RequestMeta → Call

unfoldable pub perform : Crypto → Config → Draws → Call → AuthTables → AuthTables
perform crypto config draws (register_as dto meta) s = (register crypto config draws dto meta s).0
perform crypto config draws (login_with email password meta) s =
    (login crypto config draws email password meta s).0
perform crypto config draws (refresh_with presented meta) s =
    (refresh crypto config draws presented meta s).0
perform crypto config draws (logout_with presented) s = logout crypto draws presented s
perform crypto config draws (sign_in_as profile meta) s =
    (sign_in crypto config draws profile meta s).0

unfoldable pub run : Crypto → Config → List (Draws × Call) → AuthTables → AuthTables
unfolding perform
run crypto config [] s = s
run crypto config ((draws, call) ∷ calls) s =
    run crypto config calls (perform crypto config draws call s)

-- The identifier that a call draws for a new family is not yet in use.
unfoldable pub is_fresh : Draws → AuthTables → Bool
is_fresh draws s = not (any (λ t. t.family_id == draws.family_id) s.refresh_tokens)

unfoldable pub draws_fresh : Crypto → Config → List (Draws × Call) → AuthTables → Bool
unfolding perform
draws_fresh crypto config [] s = true
draws_fresh crypto config ((draws, call) ∷ calls) s =
    is_fresh draws s && draws_fresh crypto config calls (perform crypto config draws call s)
