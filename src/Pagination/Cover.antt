-- ===== src/Pagination/Cover.antt =====
-- The pages, one after the other, are the rows.
use native.Mathlib.Omega.{arith}
use native.Mathlib.Nat.{lt-div-mul-add, mul-le-mul}
use django_project_test.Pagination.Pages.{Result, Page, ok, invalid, page_at, pages_of}
use django_project_test.Base.{
  refl, max, take_add, le→not-ltb, ◌/◌, ap, false, ◌-◌, sym, ltb, ◌+◌, take_all, drop, zero, ◌∙◌,
  take, none, ◌≡◌, ◌++◌, suc, some, length, ◌*◌, ◌≤◌, [], ◌<◌, slice, List, Option, ℕ,
}

-- `page_size` rows or fewer are left over by a division rounded up.
pages_enough : (count page_size : ℕ) → 0 < page_size → count ≤ pages_of count page_size * page_size
unfolding pages_of
pages_enough count page_size some_size =
    let q = (count + page_size - 1) / page_size in
    let above : count + page_size - 1 < q * page_size + page_size =
      lt-div-mul-add {a = count + page_size - 1} some_size in
    let grown : q * page_size ≤ max 1 q * page_size =
      mul-le-mul {n₁ = q} {m₁ = page_size} {n₂ = max 1 q} {m₂ = page_size} (omega arith)
        (omega arith) in
    omega arith

module _ {ℓ} {A : Type ℓ} where
  abbrev pub items_of : Result (Option (Page A)) → List A
  items_of (ok none) = []
  items_of (ok (some p)) = p.items
  items_of (invalid e) = []

  -- The items of the first `n` pages.
  unfoldable pub first_pages : List A → ℕ → ℕ → List A
  first_pages rows page_size zero = []
  first_pages rows page_size (suc n) =
      first_pages rows page_size n ++ items_of (page_at rows page_size (suc n))

  page_at_lem :
      (rows : List A) (page_size n : ℕ)
      → n < pages_of (length rows) page_size
      → items_of (page_at rows page_size (suc n)) ≡ take page_size (drop (n * page_size) rows)
  unfolding page_at slice
  page_at_lem rows page_size n h =
      let in_range : ltb (pages_of (length rows) page_size) (suc n) ≡ false =
        le→not-ltb (suc n) (pages_of (length rows) page_size) h in
      let start : (suc n - 1) * page_size ≡ n * page_size = ap (λ k. k * page_size) (omega arith) in
      let width : n * page_size + page_size - n * page_size ≡ page_size = omega arith in
      rw (in_range, start, width) refl

  first_pages-take :
      (rows : List A) (page_size n : ℕ)
      → n ≤ pages_of (length rows) page_size
      → first_pages rows page_size n ≡ take (n * page_size) rows
  unfolding first_pages take
  first_pages-take rows page_size zero h =
      let nothing : 0 * page_size ≡ 0 = omega arith in rw nothing refl
  first_pages-take rows page_size (suc n) h =
      rw (page_at_lem rows page_size n h, first_pages-take rows page_size n (omega arith))
        (sym (take_add (n * page_size) page_size (suc n * page_size) rows (omega arith)))

  -- For a page size that is not 0, the pages from the first to the last, one after the other, are the
  -- rows: no row is left out and none is shown twice.
  pub pages_cover :
      (rows : List A) (page_size : ℕ)
      → 0 < page_size
      → first_pages rows page_size (pages_of (length rows) page_size) ≡ rows
  pages_cover rows page_size some_size =
      first_pages-take rows page_size (pages_of (length rows) page_size) (omega arith)
      ∙ take_all (pages_of (length rows) page_size * page_size) rows
          (pages_enough (length rows) page_size some_size)
