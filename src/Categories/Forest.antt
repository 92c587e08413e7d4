-- ===== src/Categories/Forest.antt =====
-- The tree of categories across an update of CategoriesService.
use fixitph_backend.Prelude.{
  ℕ, zero, suc, Bool, true, false, Option, none, some, List, [], ◌∷◌, ◌+◌, ◌≤◌, ◌==◌, holds, get_or,
  find_by, all, all_mono, update_by, ◌≡◌, ◌⊎◌, inl, inr, refl, sym, ◌∙◌, ap, subst, arith,
  Bool-cases, Option-cases, find_by-all, find_by-holds, find_by-update_by, all-update_by_to, ==_iff,
}
use fixitph_backend.Errors.{Result, ok, err}
use fixitph_backend.Categories.Tables.{Category, CategoryTables}
use fixitph_backend.Categories.Service.{
  find_category, parent_of, assert_parent_exists, assert_no_cycle, guarded, UpdateCategoryDto,
  changed, update_category, update,
}

-- Whether the way up from a category comes to the top within so many categories.
unfoldable pub is_rooted : ℕ → List Category → Option ℕ → Bool
is_rooted n cs none = true
is_rooted zero cs (some id) = false
is_rooted (suc n) cs (some id) = elim (find_by (λ c. c.id == id) cs) [
  | none ↦ false
  | some c ↦ is_rooted n cs c.parent_id
]

unfoldable pub is_forest : ℕ → List Category → Bool
is_forest n cs = all (λ c. is_rooted n cs (some c.id)) cs

pub rooted_by :
    (n id : ℕ) (cs : List Category) (c : Category)
    → find_by (λ x. x.id == id) cs ≡ some c
    → is_rooted (suc n) cs (some id) ≡ is_rooted n cs c.parent_id
unfolding is_rooted
rooted_by n id cs c f = cc

pub rooted_row :
    (n id : ℕ) (cs : List Category)
    → is_rooted (suc n) cs (some id) ≡ true
    → (c : Category) × (find_by (λ x. x.id == id) cs ≡ some c) × (is_rooted n cs c.parent_id ≡ true)
unfolding is_rooted
rooted_row n id cs r = elim (Option-cases (find_by (λ x. x.id == id) cs)) [
  | inl e ↦ absurd (cc)
  | inr (c, e) ↦ (c, e, sym (rooted_by n id cs c e) ∙ r)
]

pub is_rooted_mono :
    (n m : ℕ) (cs : List Category) (o : Option ℕ)
    → n ≤ m
    → is_rooted n cs o ≡ true
    → is_rooted m cs o ≡ true
unfolding is_rooted
is_rooted_mono n m cs none l r = refl
is_rooted_mono zero m cs (some id) l r = absurd (cc)
is_rooted_mono (suc n) zero cs (some id) l r = absurd (omega (arith, l))
is_rooted_mono (suc n) (suc m) cs (some id) l r =
    let (c, f, up) = rooted_row n id cs r in
    rooted_by m id cs c f ∙ is_rooted_mono n m cs c.parent_id (omega (arith, l)) up

-- A search that the update does not reach.
find_by-avoid :
    (p h : Category → Bool) (f : Category → Category) (cs : List Category)
    → ((x : Category) → h x ≡ true → p x ≡ false)
    → ((x : Category) → h x ≡ true → p (f x) ≡ false)
    → find_by p (update_by h f cs) ≡ find_by p cs
unfolding find_by update_by
find_by-avoid p h f [] a b = refl
find_by-avoid p h f (x ∷ cs) a b = ground (arith, a x, b x, find_by-avoid p h f cs a b)

-- An update of the category `id` that keeps its identifier.
module _ (id : ℕ) (f : Category → Category)
    (same : (x : Category) → x.id ≡ id → (f x).id ≡ id) where
  abbrev moved : List Category → List Category
  moved cs = update_by (λ x. x.id == id) f cs

  elsewhere :
      (p : ℕ) (cs : List Category)
      → (p == id) ≡ false
      → find_by (λ x. x.id == p) (moved cs) ≡ find_by (λ x. x.id == p) cs
  elsewhere p cs k =
      find_by-avoid _ _ f cs (λ x h. ground (arith, h, k))
        (λ x h. ground (arith, same x ((==_iff x.id id).0 h), k))

  -- The way up from the new parent does not meet the category, and is still there.
  climb :
      (n m : ℕ) (s : CategoryTables) (o : Option ℕ)
      → n ≤ m
      → assert_no_cycle m id o s ≡ ok tt
      → is_rooted n s.categories o ≡ true
      → is_rooted n (moved s.categories) o ≡ true
  unfolding is_rooted assert_no_cycle find_category parent_of
  climb n m s none l k r = refl
  climb zero m s (some p) l k r = absurd (cc)
  climb (suc n) zero s (some p) l k r = absurd (omega (arith, l))
  climb (suc n) (suc m) s (some p) l k r = elim (Bool-cases (p == id)) [
    | inl e ↦ absurd (ground (arith, e, k))
    | inr e ↦
        let (c, found, up) = rooted_row n p s.categories r in
        rooted_by n p (moved s.categories) c (elsewhere p s.categories e ∙ found)
        ∙ climb n m s c.parent_id (omega (arith, l)) (ground (arith, e, k, found)) up
  ]

  module _ (n : ℕ) (cs : List Category)
      (parent : (c : Category)
        → find_by (λ x. x.id == id) cs ≡ some c
        → ((f c).parent_id ≡ c.parent_id) ⊎ (is_rooted n (moved cs) (f c).parent_id ≡ true)) where
    -- Every way up is at most as much longer as the way up from the new parent.
    rehang :
        (j k : ℕ) (o : Option ℕ)
        → j + n ≤ k
        → is_rooted j cs o ≡ true
        → is_rooted k (moved cs) o ≡ true
    unfolding is_rooted
    rehang j k none l r = refl
    rehang zero k (some p) l r = absurd (cc)
    rehang (suc j) zero (some p) l r = absurd (omega (arith, l))
    rehang (suc j) (suc k) (some p) l r =
        let (c, found, up) = rooted_row j p cs r in
        elim (Bool-cases (p == id)) [
          | inl e ↦
              let here = (==_iff p id).0 e in
              let found_id = subst (λ q. find_by (λ x. x.id == q) cs ≡ some c) here found in
              let row =
                find_by-update_by (λ x. x.id == id) (λ x. x.id == id) f cs c
                  (λ x h. ground (arith, h, same x ((==_iff x.id id).0 h))) found_id
                  (find_by-holds _ cs c found_id) in
              rooted_by k p (moved cs) (f c)
                (subst (λ q. find_by (λ x. x.id == q) (moved cs) ≡ some (f c)) (sym here) row)
              ∙ elim (parent c found_id) [
                | inl e ↦
                    ap (is_rooted k (moved cs)) e ∙ rehang j k c.parent_id (omega (arith, l)) up
                | inr r ↦ is_rooted_mono n k (moved cs) (f c).parent_id (omega (arith, l)) r
              ]
          | inr e ↦
              rooted_by k p (moved cs) c (elsewhere p cs e ∙ found)
              ∙ rehang j k c.parent_id (omega (arith, l)) up
        ]

    pub rehung : is_forest n cs ≡ true → is_forest (n + n) (moved cs) ≡ true
    unfolding is_forest
    rehung =
        all-update_by_to _ _ _ f cs
          (λ x h r.
            subst (λ q. is_rooted (n + n) (moved cs) (some q) ≡ true)
              ((==_iff x.id id).0 h ∙ sym (same x ((==_iff x.id id).0 h)))
              (rehang n (n + n) (some x.id) (omega (arith)) r))
          (λ x h r. rehang n (n + n) (some x.id) (omega (arith)) r)

pub is_forest_mono :
    (n m : ℕ) (cs : List Category) → n ≤ m → is_forest n cs ≡ true → is_forest m cs ≡ true
unfolding is_forest
is_forest_mono n m cs l = all_mono _ _ cs (λ c r. is_rooted_mono n m cs (some c.id) l r)

pub guarded-is_forest :
    {A : Type 0} (n : ℕ) (g : Result (Unit {0})) (s : CategoryTables)
    (r : CategoryTables × Result A)
    → is_forest n s.categories ≡ true
    → (g ≡ ok tt → is_forest n r.0.categories ≡ true)
    → is_forest n (guarded g s r).0.categories ≡ true
unfolding guarded
guarded-is_forest n (ok tt) s r p k = k refl
guarded-is_forest n (err e) s r p k = p

existing_parent :
    (n p : ℕ) (s : CategoryTables)
    → assert_parent_exists (some p) s ≡ ok tt
    → is_forest n s.categories ≡ true
    → is_rooted n s.categories (some p) ≡ true
unfolding assert_parent_exists find_category is_forest
existing_parent n p s k t = elim (Option-cases (find_by (λ c. c.id == p) s.categories)) [
  | inl e ↦ absurd (ground (arith, e, k))
  | inr (c, e) ↦
      let (named, up) = find_by-all _ _ s.categories c e t in
      subst (λ q. is_rooted n s.categories (some q) ≡ true) ((==_iff c.id p).0 named) up
]

pub rooted_parent :
    (n : ℕ) (o : Option ℕ) (s : CategoryTables)
    → assert_parent_exists o s ≡ ok tt
    → is_forest n s.categories ≡ true
    → is_rooted n s.categories o ≡ true
unfolding is_rooted
rooted_parent n none s k t = refl
rooted_parent n (some p) s k t = existing_parent n p s k t

module _ (n id : ℕ) (dto : UpdateCategoryDto) (s : CategoryTables) (rounds : n ≤ 20)
    (tree : is_forest n s.categories ≡ true) where
  abbrev renewed : Category → Category
  renewed x = record (changed dto x) { id = id }

  new_parent :
      (o : Option (Option ℕ))
      → dto.parent_id ≡ o
      → assert_parent_exists (get_or o none) s ≡ ok tt
      → assert_no_cycle 20 id (get_or o none) s ≡ ok tt
      → (c : Category)
      → ((renewed c).parent_id ≡ c.parent_id)
        ⊎ (is_rooted n (update_by (λ x. x.id == id) renewed s.categories) (renewed c).parent_id
            ≡ true)
  unfolding changed
  new_parent none e exists free c = inl (ap (λ o. get_or o c.parent_id) e)
  new_parent (some o) e exists free c = inr (
      ap
        (λ q. is_rooted n (update_by (λ x. x.id == id) renewed s.categories) (get_or q c.parent_id))
        e
      ∙ climb id renewed (λ x k. refl) n 20 s o rounds free (rooted_parent n o s exists tree))

  still : is_forest (n + n) s.categories ≡ true
  still = is_forest_mono n (n + n) s.categories (omega (arith)) tree

  stored-is_forest :
      is_forest (n + n) (update_by (λ x. x.id == id) renewed s.categories) ≡ true
      → is_forest (n + n) (update_category id (changed dto) s).0.categories ≡ true
  unfolding update_category
  stored-is_forest h = elim (Option-cases (find_category id s)) [
    | inl e ↦ ground (arith, e, still)
    | inr (c, e) ↦ elim (Bool-cases (holds (changed dto c).parent_id id)) [
      | inl k ↦ ground (arith, e, k, still)
      | inr k ↦ ground (arith, e, k, h)
    ]
  ]

  -- In a tree in which every way up comes to the top within `n` categories, where `n` is at most the
  -- twenty rounds of the check, an update of a category, refused or not, leaves a tree in which every
  -- way up comes to the top within twice as many: no category becomes its own ancestor.
  pub update-is_forest : is_forest (n + n) (update id dto s).0.categories ≡ true
  unfolding update
  update-is_forest = guarded-is_forest _ _ _ _ still λ own.
      guarded-is_forest _ _ _ _ still λ exists. guarded-is_forest _ _ _ _ still λ free.
        stored-is_forest (
          rehung id renewed (λ x k. refl) n s.categories
            (λ c f. new_parent dto.parent_id refl exists free c) tree)
