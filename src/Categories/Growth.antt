-- ===== src/Categories/Growth.antt =====
-- The tree of categories across a creation and a removal of CategoriesService.
use fixitph_backend.Prelude.{
  ℕ, zero, suc, true, false, Option, none, some, List, ◌∷◌, ◌==◌, holds, find_by, any, all,
  all_mono, ◌≡◌, inl, inr, refl, ◌∙◌, arith, Bool-cases, find_by-head, find_by-holds, any-find_by,
  ==_refl,
}
use fixitph_backend.Categories.Tables.{Category, CategoryTables}
use fixitph_backend.Categories.Service.{CreateCategoryDto, new_category, insert_category, create}
use fixitph_backend.Categories.Forest.{
  is_rooted, is_forest, rooted_by, rooted_row, is_rooted_mono, is_forest_mono, guarded-is_forest,
  rooted_parent,
}

-- A row with a new identifier is on no way up.
grow :
    (n : ℕ) (c : Category) (cs : List Category) (o : Option ℕ)
    → any (λ x. x.id == c.id) cs ≡ false
    → is_rooted n cs o ≡ true
    → is_rooted n (c ∷ cs) o ≡ true
unfolding is_rooted find_by
grow n c cs none fresh r = refl
grow zero c cs (some p) fresh r = absurd (cc)
grow (suc n) c cs (some p) fresh r =
    let (x, found, up) = rooted_row n p cs r in
    let other : (c.id == p) ≡ false = ground (
      arith,
      fresh,
      find_by-holds (λ y. y.id == p) cs x found,
      any-find_by (λ y. y.id == c.id) (λ y. y.id == p) cs x found,
    ) in
    rooted_by n p (c ∷ cs) x (ground (arith, other, found)) ∙ grow n c cs x.parent_id fresh up

-- A creation, refused or not, makes no way up longer than the longest was by more than one.
pub create-is_forest :
    (n id : ℕ) (dto : CreateCategoryDto) (s : CategoryTables)
    → is_forest n s.categories ≡ true
    → is_forest (suc n) (create id dto s).0.categories ≡ true
unfolding create insert_category new_category is_forest all
create-is_forest n id dto s tree =
    let still = is_forest_mono n (suc n) s.categories (omega (arith)) tree in
    guarded-is_forest _ _ _ _ still λ exists.
      elim (Bool-cases (any (λ x. x.id == id) s.categories)) [
        | inl k ↦ ground (arith, k, still)
        | inr k ↦ elim (Bool-cases (holds dto.parent_id id)) [
          | inl h ↦ ground (arith, k, h, still)
          | inr h ↦
              let c = new_category id dto in
              let top : is_rooted (suc n) (c ∷ s.categories) (some id) ≡ true =
                rooted_by n id (c ∷ s.categories) c
                  (find_by-head (λ x. x.id == id) c s.categories (==_refl id))
                ∙ grow n c s.categories dto.parent_id k
                    (rooted_parent n dto.parent_id s exists tree) in
              let rest : all (λ x. is_rooted (suc n) (c ∷ s.categories) (some x.id)) s.categories
                  ≡ true =
                all_mono _ _ s.categories
                  (λ x r.
                    is_rooted_mono n (suc n) _ _ (omega (arith))
                      (grow n c s.categories (some x.id) k r))
                  tree in
              ground (arith, k, h, top, rest)
        ]
      ]
