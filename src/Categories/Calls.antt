-- ===== src/Categories/Calls.antt =====
-- The calls of CategoriesService that write.
use fixitph_backend.Prelude.{ℕ, suc, true, ◌+◌, ◌≤◌, ◌≡◌, arith}
use fixitph_backend.Categories.Tables.{CategoryTables}
use fixitph_backend.Categories.Service.{
  CreateCategoryDto, UpdateCategoryDto, create, update, remove,
}
use fixitph_backend.Categories.Forest.{is_forest, is_forest_mono, update-is_forest}
use fixitph_backend.Categories.Growth.{create-is_forest}
use fixitph_backend.Categories.Removal.{remove-is_forest}

-- The identifier that a creation is given is drawn by the database.
pub data Call : Type 0 where
  creation : ℕ → CreateCategoryDto → Call
  change : ℕ → UpdateCategoryDto → Call
  removal : ℕ → Call

unfoldable pub perform : Call → CategoryTables → CategoryTables
perform (Call.creation id dto) s = (create id dto s).0
perform (Call.change id dto) s = (update id dto s).0
perform (Call.removal id) s = (remove id s).0

-- In a tree in which every way up comes to the top within `n` categories, where `n` is at most the
-- twenty rounds of the check for cycles, any call, refused or not, leaves a tree in which every way
-- up comes to the top within `2 * n + 1`: no category becomes its own ancestor, and none is left
-- below a parent that is gone.
pub perform-is_forest :
    (n : ℕ) (call : Call) (s : CategoryTables)
    → n ≤ 20
    → is_forest n s.categories ≡ true
    → is_forest (suc (n + n)) (perform call s).categories ≡ true
unfolding perform
perform-is_forest n (Call.creation id dto) s rounds tree =
    is_forest_mono (suc n) (suc (n + n)) _ (omega (arith)) (create-is_forest n id dto s tree)
perform-is_forest n (Call.change id dto) s rounds tree =
    is_forest_mono (n + n) (suc (n + n)) _ (omega (arith)) (update-is_forest n id dto s rounds tree)
perform-is_forest n (Call.removal id) s rounds tree =
    is_forest_mono (n + n) (suc (n + n)) _ (omega (arith)) (remove-is_forest n id s tree)
