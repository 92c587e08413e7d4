-- ===== src/Categories/Tables.antt =====
-- The rows that CategoriesService reads and writes (prisma/schema.prisma): categories, and of services
-- and service_requests what refers to a category. Slugs are left out.
use fixitph_backend.Prelude.{ℕ, Bool, Option, List, String}

pub record Category : Type 0 where
  pub id : ℕ
  pub parent_id : Option ℕ
  pub name : String
  pub description : Option String
  pub icon : Option String
  pub position : ℕ
  pub is_active : Bool

pub record Listing : Type 0 where
  pub category_id : ℕ
  pub deleted_at : Option ℕ

pub record CategoryTables : Type 0 where
  pub categories : List Category
  pub services : List Listing
  pub requested : List ℕ  -- the categories of the service requests
