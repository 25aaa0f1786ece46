-- ===== src/Pagination/Pages.antt =====
-- `get_page_size`, `PageNumberPagination`, `LimitOffsetPagination` and `get_paginator`.
use django_project_test.Base.{
  nat_eq, slice, ◌*◌, ◌/◌, ◌&&◌, none, min, leb, ◌==◌, ◌-◌, ◌+◌, ltb, some, length, max,
  if◌then◌else◌, List, Option, ℕ,
}
use django_project_test.Base.Integers.{is_negative, pos, to_nat, ℤ}

-- The class attributes of a paginator.
pub record Limits : Type 0 where
  pub page_size : ℕ
  pub max_page_size : ℕ

pub data Invalid : Type 0 where
  not_integer too_small out_of_range : Invalid

pub data Result {ℓ} (A : Type ℓ) : Type ℓ where
  ok : A → Result A
  invalid : Invalid → Result A

infixl 5 ◌>>=◌
abbrev pub ◌>>=◌ {ℓ κ} : {A : Type ℓ} {B : Type κ} → Result A → (A → Result B) → Result B
ok a >>= f = f a
invalid e >>= f = invalid e

-- A parameter that is there, as `int` reads it: `none` where it raises.
abbrev pub Number : Type 0
Number = Option ℤ

abbrev pub clamp : ℕ → ℕ → ℕ
clamp bound n = if ltb 0 bound && ltb bound n then bound else n

-- `int(raw)`, at least 1
unfoldable pub sized : ℕ → Number → Result ℕ
sized bound none = invalid not_integer
sized bound (some n) = if ltb (to_nat n) 1 then invalid too_small else ok (clamp bound (to_nat n))

-- `get_page_size`; a parameter that is missing or empty is `none`.
unfoldable pub get_page_size : Limits → Option Number → Result ℕ
get_page_size l none = ok l.page_size
get_page_size l (some raw) = sized l.max_page_size raw

-- `max(1, (count + page_size - 1) // page_size)`, for a page size that is not 0
unfoldable pub pages_of : ℕ → ℕ → ℕ
pages_of count page_size = max 1 ((count + page_size - 1) / page_size)

pub record Page {ℓ} (A : Type ℓ) : Type ℓ where
  pub items : List A
  pub count : ℕ
  pub page : ℕ
  pub pages : ℕ
  pub page_size : ℕ

-- `int(query_params.get("page", 1))`, at least 1
unfoldable pub page_number : Option Number → Result ℕ
page_number none = ok 1
page_number (some none) = invalid not_integer
page_number (some (some n)) = ok (max 1 (to_nat n))

pub record Window {ℓ} (A : Type ℓ) : Type ℓ where
  pub items : List A
  pub count : ℕ
  pub limit : ℕ
  pub offset : ℕ

number_or : ℕ → Option Number → Result ℤ
number_or default none = ok (pos default)
number_or default (some none) = invalid not_integer
number_or default (some (some n)) = ok n

module _ {ℓ} {A : Type ℓ} where
  unfoldable pub page_at : List A → ℕ → ℕ → Result (Option (Page A))
  page_at rows page_size page_num =
      let count = length rows in
      let pages = pages_of count page_size in
      let start = (page_num - 1) * page_size in
      if ltb pages page_num && ltb 0 count
      then invalid out_of_range
      else ok (
          some (record {
            items = slice start (start + page_size) rows;
            count = count;
            page = page_num;
            pages = pages;
            page_size = page_size;
          }))

  -- `paginate_queryset`: `none` where it returns None. A page size of 0 is replaced by the default.
  unfoldable pub paginate :
      Limits → Option Number → Option Number → List A → Result (Option (Page A))
  paginate l size page rows = do
    given ← get_page_size l size
    let page_size = if given == 0 then l.page_size else given
    page_num ← page_number page
    if page_size == 0 then ok none else page_at rows page_size page_num

  -- The page numbers of the links.
  unfoldable pub next_page : Page A → Option ℕ
  next_page p = if leb p.pages p.page then none else some (p.page + 1)

  unfoldable pub previous_page : Page A → Option ℕ
  previous_page p = if leb p.page 1 then none else some (p.page - 1)

  window : ℕ → ℕ → ℕ → List A → Window A
  window max_limit limit offset rows =
      let taken = min limit max_limit in
      record {
        items = slice offset (offset + taken) rows;
        count = length rows;
        limit = taken;
        offset = offset;
      }

  -- `LimitOffsetPagination.paginate_queryset`
  unfoldable pub paginate_offset :
      ℕ → ℕ → Option Number → Option Number → List A → Result (Window A)
  unfolding number_or window
  paginate_offset default_limit max_limit limit offset rows = do
    l ← number_or default_limit limit
    o ← number_or 0 offset
    if ltb (to_nat l) 1
        then invalid too_small
        else if is_negative o
        then invalid too_small
        else ok (window max_limit (to_nat l) (to_nat o) rows)

  unfoldable pub next_offset : Window A → Option ℕ
  next_offset w = if leb w.count (w.offset + w.limit) then none else some (w.offset + w.limit)

  unfoldable pub previous_offset : Window A → Option ℕ
  previous_offset w = if leb w.offset 0 then none else some (w.offset - w.limit)
