-- ===== src/Pagination/Examples.antt =====
-- Pages of concrete rows. A row is its number; the cursor of a value is one of three texts.
use django_project_test.Pagination.Pages.{
  Limits, Page, paginate, page_at, pages_of, ok, get_page_size, page_number,
}
use django_project_test.Pagination.Cover.{first_pages, pages_cover}
use django_project_test.Pagination.Bounds.{Fits, paginate-Fits}
use django_project_test.Pagination.Cursor.{
  Ordering, CursorPage, page, paginate_cursor, page_of, rows_beyond, beyond, after_decode,
}
use django_project_test.Pagination.Walk.{Strict}
use django_project_test.Pagination.Strokes.{strokes, encode_strokes, decode_strokes}
use django_project_test.Base.{string_eq, false, String, nat_eq}
use django_project_test.Base.{
  refl, drop, [], some, take, arith, ◌∷◌, true, none, slice, ℕ, ◌≡◌, List,
}
use django_project_test.Base.Integers.{pos}

abbrev rows : List ℕ
rows = 50 ∷ 40 ∷ 30 ∷ 20 ∷ 10 ∷ []

pages_cover_example : first_pages rows 2 (pages_of 5 2) ≡ rows
pages_cover_example = pages_cover rows 2 (omega arith)

abbrev limits : Limits
limits = record { page_size = 2; max_page_size = 4 }

abbrev second_page : Page ℕ
second_page = record { items = 30 ∷ 20 ∷ []; count = 5; page = 2; pages = 3; page_size = 2 }

second_page-paginate : paginate limits none (some (some (pos 2))) rows ≡ ok (some second_page)
unfolding paginate page_at pages_of get_page_size page_number slice take drop nat_eq
second_page-paginate = refl

paginate-Fits_example : Fits limits rows second_page
paginate-Fits_example =
    paginate-Fits limits none (some (some (pos 2))) rows second_page (omega arith) (omega arith)
      second_page-paginate

abbrev by_id : Ordering
by_id = record { text = "-id"; descending = true }

abbrev value : ℕ → ℕ
value n = n

rows-Strict : Strict value by_id rows
unfolding beyond
rows-Strict = (
  (refl, (refl, (refl, (refl, tt)))),
  ((refl, (refl, (refl, tt))), ((refl, (refl, tt)), ((refl, tt), (tt, tt)))),
)

-- Two rows with the value 40, of which the first page has one.
abbrev tied : List ℕ
tied = 50 ∷ 40 ∷ 40 ∷ 10 ∷ []

abbrev cursor_40 : String
cursor_40 = encode_strokes "-id" 40

abbrev last_rows : CursorPage value
last_rows = record {
  items = 10 ∷ [];
  has_next = false;
  next_cursor = none;
  previous_cursor = some cursor_40;
}

tied_last : paginate_cursor value strokes by_id 2 (some cursor_40) tied ≡ page last_rows
unfolding paginate_cursor after_decode page_of rows_beyond beyond decode_strokes encode_strokes
    string_eq nat_eq take
tied_last = refl
