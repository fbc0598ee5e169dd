-- ===== src/Common/Paginated.antt =====
-- common/Paginated.ts
use nest_rest_backend_templa.Prelude.{
  ℕ, ◌+◌, ◌-◌, ◌*◌, ◌/◌, ℤ, difference, List, ltb, if◌then◌else◌,
}

pub record PaginatedMeta : Type 0 where
  pub total : ℕ
  pub page : ℕ
  pub per_page : ℕ
  pub pages : ℕ

pub record PaginatedResult (A : Type 0) : Type 0 where
  pub items : List A
  pub meta : PaginatedMeta

-- perPage > 0 ? Math.ceil(total / perPage) : 1
abbrev pub page_count : (total per_page : ℕ) → ℕ
page_count total per_page = if ltb 0 per_page then (total + per_page - 1) / per_page else 1

-- buildPaginated
abbrev pub build_paginated : {A : Type 0} → List A → (total page per_page : ℕ) → PaginatedResult A
build_paginated items total page per_page = record {
  items = items;
  meta = record {
    total = total;
    page = page;
    per_page = per_page;
    pages = page_count total per_page;
  };
}

-- The offset of toSqlPagination, (page - 1) * perPage; its limit is `perPage`.
abbrev pub sql_offset : (page per_page : ℕ) → ℤ
sql_offset page per_page = difference (page * per_page) per_page
