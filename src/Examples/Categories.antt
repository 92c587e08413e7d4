-- ===== src/Examples/Categories.antt =====
-- Small trees of categories: CategoriesService at them.
use fixitph_backend.Prelude.{
  ℕ, zero, suc, true, false, none, some, Option, List, [], ◌∷◌, ◌≡◌, refl, arith, all, find_by,
  update_by,
}
use fixitph_backend.Errors.{err, bad_request, category_cycle}
use fixitph_backend.Categories.Tables.{Category, CategoryTables}
use fixitph_backend.Categories.Service.{
  UpdateCategoryDto, update, find_category, parent_of, assert_no_cycle, assert_parent_exists,
  not_own_parent, guarded, update_category, changed,
}
use fixitph_backend.Categories.Forest.{is_forest, is_rooted}
use fixitph_backend.Categories.Calls.{Call, perform, perform-is_forest}

abbrev category : ℕ → Option ℕ → Category
category id parent = record {
  id = id;
  parent_id = parent;
  name = "Plumbing";
  description = none;
  icon = none;
  position = 0;
  is_active = true;
}

abbrev tables : List Category → CategoryTables
tables cs = record { categories = cs; services = []; requested = [] }

abbrev two_trees : CategoryTables
two_trees = tables (category 1 none ∷ category 2 (some 1) ∷ category 3 none ∷ [])

abbrev move_below : ℕ → UpdateCategoryDto
move_below parent = record {
  parent_id = some (some parent);
  name = none;
  description = none;
  icon = none;
  position = none;
  is_active = none;
}

two_trees-is_forest : is_forest 2 two_trees.categories ≡ true
unfolding is_forest all is_rooted find_by
two_trees-is_forest = refl

perform-is_forest_example :
    is_forest 5 (perform (Call.change 3 (move_below 2)) two_trees).categories ≡ true
perform-is_forest_example =
    perform-is_forest 2 (Call.change 3 (move_below 2)) two_trees (omega (arith)) two_trees-is_forest

-- The trees below are a category with a chain of so many others under it.
abbrev chain : ℕ → List Category
chain zero = category 0 none ∷ []
chain (suc n) = category (suc n) (some n) ∷ chain n

twenty_checked : (update 0 (move_below 19) (tables (chain 19))).1 ≡ err (bad_request category_cycle)
unfolding update guarded not_own_parent assert_parent_exists find_category find_by assert_no_cycle
    parent_of
twenty_checked = refl

-- Twenty rounds do not come up to the top of this chain.
twenty_one_unchecked :
    is_forest 100 (update 0 (move_below 20) (tables (chain 20))).0.categories ≡ false
unfolding is_forest all update guarded not_own_parent assert_parent_exists find_category find_by
    assert_no_cycle parent_of update_category changed update_by is_rooted
twenty_one_unchecked = refl
