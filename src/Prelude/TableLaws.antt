-- ===== src/Prelude/TableLaws.antt =====
-- Lemmas on searches, updates and unique indexes of tables.
use mathlib.Core.Path.{◌≡◌, refl}
use mathlib.Core.Bool.{Bool, true, false}
use mathlib.Core.Option.{none, some}
use mathlib.Core.List.{List, [], ◌∷◌}
use native.Mathlib.Omega.{arith}
use fixitph_backend.Prelude.Tables.{find_by, any, all, update_by, no_two}

module _ {ℓ} {A : Type ℓ} where
  -- A search returns a row that it was asked for, and that has what all rows have.
  pub find_by-all :
      (q p : A → Bool) (xs : List A) (x : A)
      → find_by q xs ≡ some x
      → all p xs ≡ true
      → (q x ≡ true) × (p x ≡ true)
  unfolding find_by all
  find_by-all q p [] y h a = cc
  find_by-all q p (x ∷ xs) y h a = ground (arith, find_by-all q p xs y)

  pub find_by-holds : (q : A → Bool) (xs : List A) (x : A) → find_by q xs ≡ some x → q x ≡ true
  unfolding find_by
  find_by-holds q [] y h = cc
  find_by-holds q (x ∷ xs) y h = ground (arith, find_by-holds q xs y)

  pub find_by-head : (q : A → Bool) (x : A) (xs : List A) → q x ≡ true → find_by q (x ∷ xs) ≡ some x
  unfolding find_by
  find_by-head q x xs h = ground (arith, h)

  pub all-update_by :
      (p h : A → Bool) (f : A → A) (xs : List A)
      → ((x : A) → h x ≡ true → p x ≡ true → p (f x) ≡ true)
      → all p xs ≡ true
      → all p (update_by h f xs) ≡ true
  unfolding all update_by
  all-update_by p h f [] k a = refl
  all-update_by p h f (x ∷ xs) k a = ground (arith, k x, all-update_by p h f xs k)

  pub all_mono :
      (p q : A → Bool) (xs : List A)
      → ((x : A) → p x ≡ true → q x ≡ true)
      → all p xs ≡ true
      → all q xs ≡ true
  unfolding all
  all_mono p q [] k a = refl
  all_mono p q (x ∷ xs) k a = ground (arith, k x, all_mono p q xs k)

  pub any-update_by :
      (p h : A → Bool) (f : A → A) (xs : List A)
      → ((x : A) → h x ≡ true → p (f x) ≡ p x)
      → any p (update_by h f xs) ≡ any p xs
  unfolding any update_by
  any-update_by p h f [] k = refl
  any-update_by p h f (x ∷ xs) k = ground (arith, k x, any-update_by p h f xs k)

  pub any-mono-false :
      (p q : A → Bool) (xs : List A)
      → ((x : A) → q x ≡ true → p x ≡ true)
      → any p xs ≡ false
      → any q xs ≡ false
  unfolding any
  any-mono-false p q [] k a = refl
  any-mono-false p q (x ∷ xs) k a = ground (arith, k x, any-mono-false p q xs k)

  pub any-find_by :
      (p q : A → Bool) (xs : List A) (x : A) → find_by q xs ≡ some x → p x ≡ true → any p xs ≡ true
  unfolding find_by any
  any-find_by p q [] y h e = cc
  any-find_by p q (x ∷ xs) y h e = ground (arith, any-find_by p q xs y)

  pub find_by-none : (p : A → Bool) (xs : List A) → any p xs ≡ false → find_by p xs ≡ none
  unfolding find_by any
  find_by-none p [] h = refl
  find_by-none p (x ∷ xs) h = ground (arith, find_by-none p xs)

  -- After an update all rows have `q`: the changed rows by the change, the others from `p`.
  pub all-update_by_to :
      (p q h : A → Bool) (f : A → A) (xs : List A)
      → ((x : A) → h x ≡ true → p x ≡ true → q (f x) ≡ true)
      → ((x : A) → h x ≡ false → p x ≡ true → q x ≡ true)
      → all p xs ≡ true
      → all q (update_by h f xs) ≡ true
  unfolding all update_by
  all-update_by_to p q h f [] k l a = refl
  all-update_by_to p q h f (x ∷ xs) k l a =
      ground (arith, k x, l x, all-update_by_to p q h f xs k l)

  -- Rows of a table in which no row has `p`.
  pub all-avoid :
      (p q r : A → Bool) (xs : List A)
      → any p xs ≡ false
      → ((x : A) → p x ≡ false → q x ≡ true → r x ≡ true)
      → all q xs ≡ true
      → all r xs ≡ true
  unfolding any all
  all-avoid p q r [] n k a = refl
  all-avoid p q r (x ∷ xs) n k a = ground (arith, k x, all-avoid p q r xs)

  -- Where rows that meet the wider condition clash, both searches find the same row.
  pub find_by-widen :
      (clash : A → A → Bool) (p q : A → Bool) (xs : List A) (x : A)
      → ((y : A) → p y ≡ true → q y ≡ true)
      → ((y z : A) → q y ≡ true → q z ≡ true → clash y z ≡ true)
      → no_two clash xs ≡ true
      → find_by p xs ≡ some x
      → find_by q xs ≡ some x
  unfolding find_by no_two
  find_by-widen clash p q [] x k c u h = cc
  find_by-widen clash p q (y ∷ xs) x k c u h = ground (
    arith,
    k y,
    k x,
    c y x,
    find_by-widen clash p q xs x k c,
    find_by-holds p xs x,
    any-find_by (clash y) p xs x,
  )

  -- The row that a search found, after an update that the search does not look at.
  pub find_by-update_by :
      (p h : A → Bool) (f : A → A) (xs : List A) (x : A)
      → ((y : A) → h y ≡ true → p (f y) ≡ p y)
      → find_by p xs ≡ some x
      → h x ≡ true
      → find_by p (update_by h f xs) ≡ some (f x)
  unfolding find_by update_by
  find_by-update_by p h f [] x k e t = cc
  find_by-update_by p h f (y ∷ xs) x k e t = ground (arith, k y, find_by-update_by p h f xs x k)

  -- An update that makes `q` true of the rows that it changes, where the other rows have `q`.
  pub all-set :
      (q h : A → Bool) (f : A → A) (xs : List A)
      → ((x : A) → h x ≡ true → q (f x) ≡ true)
      → ((x : A) → h x ≡ false → q x ≡ true)
      → all q (update_by h f xs) ≡ true
  unfolding all update_by
  all-set q h f [] k l = refl
  all-set q h f (x ∷ xs) k l = ground (arith, k x, l x, all-set q h f xs k l)

  pub any-all :
      (p q : A → Bool) (xs : List A)
      → ((x : A) → q x ≡ true → p x ≡ false)
      → all q xs ≡ true
      → any p xs ≡ false
  unfolding any all
  any-all p q [] k a = refl
  any-all p q (x ∷ xs) k a = ground (arith, k x, any-all p q xs k)

  -- An update that makes `p` true of no row that it changes.
  pub any-update_by-false :
      (p h : A → Bool) (f : A → A) (xs : List A)
      → ((x : A) → h x ≡ true → p x ≡ false → p (f x) ≡ false)
      → any p xs ≡ false
      → any p (update_by h f xs) ≡ false
  unfolding any update_by
  any-update_by-false p h f [] k a = refl
  any-update_by-false p h f (x ∷ xs) k a = ground (arith, k x, any-update_by-false p h f xs k)

  -- An update of which no row that it changes clashes with more rows than before.
  pub no_two-update_by :
      (clash : A → A → Bool) (h : A → Bool) (f : A → A) (xs : List A)
      → ((x y : A) → clash x y ≡ false → clash (f x) y ≡ false)
      → ((x y : A) → clash x y ≡ false → clash x (f y) ≡ false)
      → no_two clash xs ≡ true
      → no_two clash (update_by h f xs) ≡ true
  unfolding no_two update_by
  no_two-update_by clash h f [] k l a = refl
  no_two-update_by clash h f (x ∷ xs) k l a = ground (
    arith,
    any-mono-false (clash x) (clash (f x)) (update_by h f xs) (λ y e. ground (arith, k x y, e)),
    any-update_by-false (clash x) h f xs (λ y _. l x y),
    no_two-update_by clash h f xs k l,
  )
