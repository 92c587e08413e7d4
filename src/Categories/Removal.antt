-- ===== src/Categories/Removal.antt =====
-- The tree of categories across a removal of CategoriesService.
use fixitph_backend.Prelude.{
  ℕ, zero, suc, Bool, true, false, Option, none, some, List, [], ◌∷◌, ◌+◌, ◌==◌, not, holds,
  find_by, any, all, filter_by, ◌≡◌, inl, inr, refl, ◌∙◌, arith, Bool-cases, Option-cases,
  any-find_by,
}
use fixitph_backend.Categories.Tables.{Category, CategoryTables}
use fixitph_backend.Categories.Service.{
  remove, deactivate, delete_category, update_category, find_category,
}
use fixitph_backend.Categories.Forest.{
  is_rooted, is_forest, rooted_by, rooted_row, is_forest_mono, rehung,
}

find_by-filter_by :
    (p q : Category → Bool) (cs : List Category) (x : Category)
    → find_by p cs ≡ some x
    → ((y : Category) → p y ≡ true → q y ≡ true)
    → find_by p (filter_by q cs) ≡ some x
unfolding find_by filter_by
find_by-filter_by p q [] x f k = cc
find_by-filter_by p q (y ∷ cs) x f k = ground (arith, f, k y, find_by-filter_by p q cs x)

all-filter_by :
    (p q r : Category → Bool) (cs : List Category)
    → ((y : Category) → q y ≡ true → p y ≡ true → r y ≡ true)
    → all p cs ≡ true
    → all r (filter_by q cs) ≡ true
unfolding all filter_by
all-filter_by p q r [] k a = refl
all-filter_by p q r (y ∷ cs) k a = ground (arith, k y, a, all-filter_by p q r cs k)

module _ (id : ℕ) (cs : List Category) (leaf : any (λ c. holds c.parent_id id) cs ≡ false) where
  abbrev others : List Category
  others = filter_by (λ c. not (c.id == id)) cs

  -- A category without children is on the way up of no other.
  prune :
      (n : ℕ) (o : Option ℕ)
      → holds o id ≡ false
      → is_rooted n cs o ≡ true
      → is_rooted n others o ≡ true
  unfolding is_rooted
  prune n none k r = refl
  prune zero (some p) k r = absurd (cc)
  prune (suc n) (some p) k r =
      let (x, found, up) = rooted_row n p cs r in
      rooted_by n p others x (find_by-filter_by _ _ cs x found (λ y h. ground (arith, h, k)))
      ∙ prune n x.parent_id
          (ground
            (arith, leaf, any-find_by (λ c. holds c.parent_id id) (λ c. c.id == p) cs x found))
          up

  pruned : (n : ℕ) → is_forest n cs ≡ true → is_forest n others ≡ true
  unfolding is_forest
  pruned n tree = all-filter_by _ _ _ cs (λ y h r. prune n (some y.id) (ground (arith, h)) r) tree

module _ (n id : ℕ) (s : CategoryTables) (tree : is_forest n s.categories ≡ true) where
  still : is_forest (n + n) s.categories ≡ true
  still = is_forest_mono n (n + n) s.categories (omega (arith)) tree

  deactivate-is_forest : is_forest (n + n) (deactivate id s).0.categories ≡ true
  unfolding deactivate update_category
  deactivate-is_forest = elim (Option-cases (find_category id s)) [
    | inl e ↦ ground (arith, e, still)
    | inr (c, e) ↦ elim (Bool-cases (holds c.parent_id id)) [
      | inl k ↦ ground (arith, e, k, still)
      | inr k ↦ ground (
        arith,
        e,
        k,
        rehung id (λ x. record x { id = id; is_active = false }) (λ x h. refl) n s.categories
            (λ c f. inl refl) tree,
      )
    ]
  ]

  delete-is_forest :
      any (λ c. holds c.parent_id id) s.categories ≡ false
      → is_forest (n + n) (delete_category id s).0.categories ≡ true
  unfolding delete_category
  delete-is_forest leaf =
      let cut = is_forest_mono n (n + n) _ (omega (arith)) (pruned id s.categories leaf n tree) in
      ground (arith, still, cut)

  pub remove-is_forest : is_forest (n + n) (remove id s).0.categories ≡ true
  unfolding remove
  remove-is_forest = elim (Bool-cases (any (λ c. holds c.parent_id id) s.categories)) [
    | inl k ↦ ground (arith, k, still)
    | inr k ↦ ground (arith, k, deactivate-is_forest, delete-is_forest k)
  ]
