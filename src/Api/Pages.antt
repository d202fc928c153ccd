-- ===== src/Api/Pages.antt =====
-- A page of rows: `parsePagination` of internal/api/pagination.go with the clause
-- `OFFSET $1 LIMIT $2` of the listings, and the meta object of internal/api/response.go.
use vullify_backend.Prelude.{ℕ, List, take, drop, length}
use vullify_backend.Api.{Pagination}

-- `Meta`.
pub record Meta : Type 0 where
  pub page : ℕ
  pub per_page : ℕ
  pub total : ℕ

module _ {A : Type 0} where
  -- For an offset that is not negative.
  abbrev pub page_rows : Pagination → List A → List A
  page_rows p rows = take p.per_page (drop p.offset rows)

  abbrev pub meta_of : Pagination → List A → Meta
  meta_of p rows = record { page = p.page; per_page = p.per_page; total = length rows }
