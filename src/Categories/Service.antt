-- ===== src/Categories/Service.antt =====
-- The operations of CategoriesService in categories/categories.service.ts that write: create, update
-- and remove, with the foreign keys and the CHECK of the table. The slug of a new category and the
-- cache are left out.
use fixitph_backend.Prelude.{
  ℕ, zero, suc, Bool, true, false, Option, none, some, String, ◌∷◌, ◌&&◌, ◌||◌, ◌==◌, not, holds,
  is_none, get_or, if◌then◌else◌, find_by, any, filter_by, update_by,
}
use fixitph_backend.Errors.{
  Result, ok, err, bad_request, conflict, database, record_not_found, check_violation,
  unique_violation, foreign_key_violation, category_cycle, parent_not_found, category_has_children,
}
use fixitph_backend.Categories.Tables.{Category, CategoryTables}

unfoldable pub find_category : ℕ → CategoryTables → Option Category
find_category id s = find_by (λ c. c.id == id) s.categories

-- `row ? row.parentId : null`
unfoldable pub parent_of : Option Category → Option ℕ
parent_of none = none
parent_of (some c) = c.parent_id

unfoldable pub assert_parent_exists : Option ℕ → CategoryTables → Result (Unit {0})
assert_parent_exists none s = ok tt
assert_parent_exists (some parent) s = elim (find_category parent s) [
  | none ↦ err (bad_request parent_not_found)
  | some c ↦ ok tt
]

-- The loop of `assertNoCycle`; the first argument is what is left of its twenty rounds.
unfoldable pub assert_no_cycle : ℕ → ℕ → Option ℕ → CategoryTables → Result (Unit {0})
assert_no_cycle rounds id none s = ok tt
assert_no_cycle zero id (some cursor) s = ok tt
assert_no_cycle (suc rounds) id (some cursor) s =
    let rest = assert_no_cycle rounds id (parent_of (find_category cursor s)) s in
    if cursor == id then err (bad_request category_cycle) else rest

unfoldable pub not_own_parent : ℕ → Option ℕ → Result (Unit {0})
not_own_parent id parent = if holds parent id then err (bad_request category_cycle) else ok tt

-- An `await` that may throw before the rest.
unfoldable pub guarded :
    {A : Type 0}
    → Result (Unit {0})
    → CategoryTables
    → CategoryTables × Result A
    → CategoryTables × Result A
guarded (ok u) s r = r
guarded (err e) s r = (s, err e)

pub record CreateCategoryDto : Type 0 where
  pub parent_id : Option ℕ
  pub name : String
  pub description : Option String
  pub icon : Option String
  pub position : Option ℕ
  pub is_active : Option Bool

unfoldable pub new_category : ℕ → CreateCategoryDto → Category
new_category id dto = record {
  id = id;
  parent_id = dto.parent_id;
  name = dto.name;
  description = dto.description;
  icon = dto.icon;
  position = get_or dto.position 0;
  is_active = get_or dto.is_active true;
}

-- The insertion, under the primary key and `categories_not_own_parent`.
unfoldable pub insert_category : Category → CategoryTables → CategoryTables × Result Category
insert_category c s =
    if any (λ x. x.id == c.id) s.categories
    then (s, err (database unique_violation))
    else (if holds c.parent_id c.id
        then (s, err (database check_violation))
        else (record s { categories = c ∷ s.categories }, ok c))

unfoldable pub create : ℕ → CreateCategoryDto → CategoryTables → CategoryTables × Result Category
create id dto s =
    guarded (assert_parent_exists dto.parent_id s) s (insert_category (new_category id dto) s)

-- A field that may be left out is an option; where it may be null too, an option of an option.
pub record UpdateCategoryDto : Type 0 where
  pub parent_id : Option (Option ℕ)
  pub name : Option String
  pub description : Option (Option String)
  pub icon : Option (Option String)
  pub position : Option ℕ
  pub is_active : Option Bool

unfoldable pub changed : UpdateCategoryDto → Category → Category
changed dto c = record c {
  parent_id = get_or dto.parent_id c.parent_id;
  name = get_or dto.name c.name;
  description = get_or dto.description c.description;
  icon = get_or dto.icon c.icon;
  position = get_or dto.position c.position;
  is_active = get_or dto.is_active c.is_active;
}

unfoldable pub update_category :
    ℕ → (Category → Category) → CategoryTables → CategoryTables × Result Category
update_category id change s = elim (find_category id s) [
  | none ↦ (s, err (database record_not_found))
  | some c ↦ if holds (change c).parent_id id then (s, err (database check_violation)) else (
    record s {
      categories = update_by (λ x. x.id == id) (λ x. record (change x) { id = id }) s.categories;
    },
    ok (record (change c) { id = id }),
  )
]

unfoldable pub update : ℕ → UpdateCategoryDto → CategoryTables → CategoryTables × Result Category
update id dto s =
    let parent = get_or dto.parent_id none in
    guarded (not_own_parent id parent) s (
      guarded (assert_parent_exists parent s) s
        (guarded (assert_no_cycle 20 id parent s) s (update_category id (changed dto) s)))

pub record Removal : Type 0 where
  pub id : ℕ
  pub deactivated : Bool

unfoldable pub deactivate : ℕ → CategoryTables → CategoryTables × Result Removal
deactivate id s =
    let (left, written) = update_category id (λ c. record c { is_active = false }) s in
    elim written [
      | ok c ↦ (left, ok (record { id = id; deactivated = true }))
      | err e ↦ (left, err e)
    ]

-- The deletion, under the foreign keys, which all restrict.
unfoldable pub delete_category : ℕ → CategoryTables → CategoryTables × Result Removal
delete_category id s =
    if not (any (λ c. c.id == id) s.categories)
    then (s, err (database record_not_found))
    else (if any (λ c. holds c.parent_id id) s.categories
          || any (λ x. x.category_id == id) s.services
          || any (λ r. r == id) s.requested
        then (s, err (database foreign_key_violation))
        else (
          record s { categories = filter_by (λ c. not (c.id == id)) s.categories },
          ok (record { id = id; deactivated = false }),
        ))

unfoldable pub remove : ℕ → CategoryTables → CategoryTables × Result Removal
remove id s =
    if any (λ c. holds c.parent_id id) s.categories
    then (s, err (conflict category_has_children))
    else (if any (λ x. x.category_id == id && is_none x.deleted_at) s.services
        then deactivate id s
        else delete_category id s)
