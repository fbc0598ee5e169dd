-- ===== src/File/Listing/Pages.antt =====
-- The pages of a listing, one after the other, each from a query with its own order of the rows.
use mathlib.Core.List.{map-append, Permᴰ}
use native.Mathlib.Nat.{lt-div-mul-add, suc-mul, zero-mul}
use nest_rest_backend_templa.Prelude.{
  if◌then◌else◌, Option, none, ℕ, zero, suc, ◌+◌, ◌-◌, ◌*◌, ◌≤◌, ◌<◌, ◌≡◌, refl, ap, sym, ◌∙◌,
  subst, pos, some, List, [], ◌∷◌, ◌++◌, map, length, min, take, drop, take-append-drop, arith,
}
use nest_rest_backend_templa.Exec.{Result, ok, throw}
use nest_rest_backend_templa.Sql.{select_where}
use nest_rest_backend_templa.Common.Paginated.{PaginatedResult, page_count, sql_offset}
use nest_rest_backend_templa.File.Store.{
  FileStore, File, FileRow, count_files, live_file, is_live, joined,
}
use nest_rest_backend_templa.File.Listing.{FileDto, file_dto, live_files, find_files, files_get}

-- The items of an answer.
abbrev pub items_of : Result (PaginatedResult FileDto) → List FileDto
items_of (ok result) = result.items
items_of (throw t) = []

abbrev pub pages_of : Result (PaginatedResult FileDto) → ℕ
pages_of (ok result) = result.meta.pages
pages_of (throw t) = 0

-- What the database may do to the rows of a query without an ORDER BY.
abbrev pub IsOrder : (List FileRow → List FileRow) → Type 0
IsOrder order = (rows : List FileRow) → Permᴰ (order rows) rows

abbrev kept_if : Option ℕ → FileRow → List FileRow → List FileRow
kept_if none row rows = row ∷ rows
kept_if (some deleted_at) row rows = rows

-- The rows that have no `deletedAt`.
abbrev pub not_deleted_rows : List FileRow → List FileRow
not_deleted_rows [] = []
not_deleted_rows (row ∷ rows) = kept_if row.deleted_at row (not_deleted_rows rows)

-- The files that are not deleted, as they are answered.
abbrev pub listed : FileStore → List FileDto
listed s = map file_dto (map (joined s.versions) (not_deleted_rows s.files))

kept-eq :
    (deleted_at : Option ℕ) (row : FileRow) (rows : List FileRow)
    → (if is_live deleted_at then row ∷ rows else rows) ≡ kept_if deleted_at row rows
kept-eq none row rows = refl
kept-eq (some t) row rows = refl

live_rows-eq : (rows : List FileRow) → select_where live_file rows ≡ not_deleted_rows rows
unfolding select_where
live_rows-eq [] = refl
live_rows-eq (row ∷ rows) =
    kept-eq row.deleted_at row (select_where live_file rows)
    ∙ ap (kept_if row.deleted_at row) (live_rows-eq rows)

-- How many items `count` pages have together, from the page after `before`.
unfoldable pub walk :
    (order : ℕ → List FileRow → List FileRow) (per_page before count : ℕ) → FileStore → ℕ
walk order per_page before zero s = 0
walk order per_page before (suc count) s =
    length (items_of (files_get (order before) (some (suc before)) (some per_page) s))
    + walk order per_page (suc before) count s

offset_of_page : (n k : ℕ) → sql_offset (suc k) n ≡ pos (k * n)
offset_of_page n k = rw (suc-mul k n) (ground arith)

page_items :
    (order : List FileRow → List FileRow) (n k : ℕ) (s : FileStore)
    → items_of (files_get order (some (suc k)) (some n) s)
      ≡ map file_dto (take n (drop (k * n) (live_files order s)))
unfolding files_get find_files
page_items order n k s = rw (offset_of_page n k) refl

length-map {ℓ κ} :
    {A : Type ℓ} {B : Type κ} (f : A → B) (xs : List A) → length (map f xs) ≡ length xs
length-map f [] = refl
length-map f (x ∷ xs) = ap suc (length-map f xs)

module _ {ℓ} {A : Type ℓ} where
  length-take : (n : ℕ) (xs : List A) → length (take n xs) ≡ min n (length xs)
  length-take zero xs = omega arith
  length-take (suc n) [] = omega arith
  length-take (suc n) (x ∷ xs) = omega (arith, length-take n xs)

  length-drop : (n : ℕ) (xs : List A) → length (drop n xs) ≡ length xs - n
  length-drop zero xs = omega arith
  length-drop (suc n) [] = omega arith
  length-drop (suc n) (x ∷ xs) = omega (arith, length-drop n xs)

length-perm : {A : Type 0} (xs ys : List A) → Permᴰ xs ys → length xs ≡ length ys
length-perm _ _ Permᴰ.nil = refl
length-perm _ _ (Permᴰ.cons {l₁ = xs} {l₂ = ys} e d) = ap suc (length-perm xs ys d)
length-perm _ _ (Permᴰ.swap e f) = refl
length-perm xs zs (Permᴰ.trans {l₂ = ys} d e) = length-perm xs ys d ∙ length-perm ys zs e

map-perm : {A B : Type 0} (f : A → B) (xs ys : List A) → Permᴰ xs ys → Permᴰ (map f xs) (map f ys)
map-perm f _ _ Permᴰ.nil = Permᴰ.nil
map-perm f _ _ (Permᴰ.cons {l₁ = xs} {l₂ = ys} e d) = Permᴰ.cons (ap f e) (map-perm f xs ys d)
map-perm f _ _ (Permᴰ.swap e e') = Permᴰ.swap (ap f e) (ap f e')
map-perm f xs zs (Permᴰ.trans {l₂ = ys} d e) = Permᴰ.trans (map-perm f xs ys d) (map-perm f ys zs e)

three_parts :
    (n k : ℕ) (files : List File)
    → map file_dto (take k files)
        ++ (map file_dto (take n (drop k files)) ++ map file_dto (drop n (drop k files)))
      ≡ map file_dto files
three_parts n k files =
    ap (λ (t : List FileDto). map file_dto (take k files) ++ t)
      (sym (map-append file_dto (take n (drop k files)) (drop n (drop k files)))
        ∙ ap (map file_dto) (take-append-drop n (drop k files)))
    ∙ sym (map-append file_dto (take k files) (drop k files))
    ∙ ap (map file_dto) (take-append-drop k files)

module _ (order : List FileRow → List FileRow) (s : FileStore) (any_order : IsOrder order) where
  length-live_files : length (live_files order s) ≡ count_files s
  length-live_files =
      length-map (joined s.versions) (order (select_where live_file s.files))
      ∙ length-perm _ _ (any_order (select_where live_file s.files))

  length-page :
      (n k : ℕ)
      → length (items_of (files_get order (some (suc k)) (some n) s))
        ≡ min n (count_files s - k * n)
  length-page n k =
      ap length (page_items order n k s)
      ∙ length-map file_dto (take n (drop (k * n) (live_files order s)))
      ∙ length-take n (drop (k * n) (live_files order s))
      ∙ ap (min n)
          (length-drop (k * n) (live_files order s) ∙ ap (λ (t : ℕ). t - k * n) length-live_files)

  -- A page is cut out of the files that are not deleted, in some order.
  page_is_cut :
      (n k : ℕ)
      → (before : List FileDto) × (after : List FileDto) × Permᴰ
          (before ++ (items_of (files_get order (some (suc k)) (some n) s) ++ after))
          (listed s)
  page_is_cut n k = (
    map file_dto (take (k * n) (live_files order s)),
    map file_dto (drop n (drop (k * n) (live_files order s))),
    subst (λ xs. Permᴰ xs (listed s))
        (sym (
          ap
            (λ (items : List FileDto).
              map file_dto (take (k * n) (live_files order s))
              ++ (items ++ map file_dto (drop n (drop (k * n) (live_files order s)))))
            (page_items order n k s)
          ∙ three_parts n (k * n) (live_files order s)))
        (map-perm file_dto _ _ (
          map-perm (joined s.versions) _ _ (
            subst (λ rows. Permᴰ (order (select_where live_file s.files)) rows)
              (live_rows-eq s.files) (any_order (select_where live_file s.files))))),
  )

module _ (order : ℕ → List FileRow → List FileRow) (s : FileStore)
    (any_order : (k : ℕ) → IsOrder (order k)) where
  walk-eq :
      (n before count : ℕ)
      → walk order n before count s ≡ min (count * n) (count_files s - before * n)
  unfolding walk
  walk-eq n before zero = omega (arith, zero-mul n)
  walk-eq n before (suc count) = omega (
    arith,
    length-page (order before) s (any_order before) n before,
    walk-eq n (suc before) count,
    suc-mul before n,
    suc-mul count n,
  )

  enough_pages : (total n : ℕ) → 0 < n → total ≤ page_count total n * n
  enough_pages total n h = ground (arith, lt-div-mul-add {a = total + n - 1} {b = n} h)

  -- With a page size above zero, and in whatever orders the database returns the rows, another for
  -- each query: the items of every page, with some more before and after, are the files that are
  -- not deleted in some order; and the items of the pages from the first to as many as the answer
  -- counts are together as many as these files.
  pub pages_of_any_order :
      (n : ℕ)
      → 0 < n
      → ((k : ℕ)
          → (before : List FileDto) × (after : List FileDto) × Permᴰ
              (before ++ (items_of (files_get (order k) (some (suc k)) (some n) s) ++ after))
              (listed s))
        × (walk order n 0 (pages_of (files_get (order 0) (some 1) (some n) s)) s
            ≡ length (listed s))
  unfolding files_get find_files
  pages_of_any_order n h = (
    (λ k. page_is_cut (order k) s (any_order k) n k),
    rw (offset_of_page n 0) (
        walk-eq n 0 (page_count (count_files s) n)
        ∙ omega (arith, enough_pages (count_files s) n h, zero-mul n)
        ∙ sym (
            length-map file_dto (map (joined s.versions) (not_deleted_rows s.files))
            ∙ length-map (joined s.versions) (not_deleted_rows s.files)
            ∙ sym (ap length (live_rows-eq s.files)))),
  )
