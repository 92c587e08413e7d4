-- ===== src/Bookings/Owners.antt =====
-- The accounts behind provider profiles.
use fixitph_backend.Prelude.{
  ℕ, Option, none, some, List, [], ◌∷◌, ◌==◌, if◌then◌else◌, find_by, ◌≡◌, refl, arith,
}
use fixitph_backend.Schema.{Provider}
use fixitph_backend.Bookings.Service.{user_id_of}

-- The account behind a provider profile.
unfoldable pub owner_of : ℕ → List Provider → Option ℕ
owner_of id [] = none
owner_of id (p ∷ ps) = let rest = owner_of id ps in if p.id == id then some p.user_id else rest

pub found_owner :
    (id : ℕ) (ps : List Provider) → user_id_of (find_by (λ p. p.id == id) ps) ≡ owner_of id ps
unfolding owner_of find_by
found_owner id [] = refl
found_owner id (p ∷ ps) = ground (arith, found_owner id ps)
