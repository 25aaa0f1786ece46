-- ===== src/Pagination/Cursor.antt =====
-- `CursorPagination`: the rows are the queryset in the order of the ordering field, of which each row
-- has a number.
use django_project_test.Base.{
  string_eq, true, length, [], false, ◌==◌, ◌+◌, ltb, some, take, none, ◌∷◌, if◌then◌else◌, List,
  Bool, Option, ℕ, String,
}

-- The text of a cursor, and what is read from it: the codec of the code is in Text. `none` is where
-- the reading raises.
pub record Codec : Type 0 where
  pub encode : String → ℕ → String
  pub decode : String → Option (String × ℕ)

pub data CursorError : Type 0 where
  bad_cursor other_ordering : CursorError

-- An ordering is a field, and whether it stands with a minus sign.
pub record Ordering : Type 0 where
  pub text : String
  pub descending : Bool

-- `field__lt` for a descending ordering, `field__gt` for an ascending one
unfoldable pub beyond : Ordering → ℕ → ℕ → Bool
beyond o cursor value = if o.descending then ltb value cursor else ltb cursor value

module _ {ℓ} {A : Type ℓ} (field : A → ℕ) where
  unfoldable pub rows_beyond : Ordering → ℕ → List A → List A
  rows_beyond o cursor [] = []
  rows_beyond o cursor (r ∷ rows) =
      let rest = rows_beyond o cursor rows in if beyond o cursor (field r) then r ∷ rest else rest

  pub record CursorPage : Type ℓ where
    pub items : List A
    pub has_next : Bool
    pub next_cursor : Option String
    pub previous_cursor : Option String

  unfoldable pub last_field : List A → Option ℕ
  last_field [] = none
  last_field (r ∷ []) = some (field r)
  last_field (r ∷ s ∷ rows) = last_field (s ∷ rows)

  unfoldable pub cursor_of : Codec → Ordering → Bool → Option ℕ → Option String
  cursor_of codec o false last = none
  cursor_of codec o true none = none
  cursor_of codec o true (some v) = some (codec.encode o.text v)

  -- The part after the filter.
  unfoldable pub page_of : Codec → Ordering → ℕ → Option String → List A → CursorPage
  unfolding last_field cursor_of
  page_of codec o page_size cursor rows =
      let fetched = take (page_size + 1) rows in
      let items = take page_size fetched in
      let has_next = ltb page_size (length fetched) in
      record {
        items = items;
        has_next = has_next;
        next_cursor = cursor_of codec o has_next (last_field items);
        previous_cursor = cursor;
      }

  pub data Reply : Type ℓ where
    page : CursorPage → Reply
    error : CursorError → Reply

  unfoldable pub after_decode : Codec → Ordering → ℕ → String → Option (String × ℕ) → List A → Reply
  after_decode codec o page_size cursor none rows = error bad_cursor
  after_decode codec o page_size cursor (some (ordering, v)) rows =
      if ordering == o.text
      then page (page_of codec o page_size (some cursor) (rows_beyond o v rows))
      else error other_ordering

  -- `paginate_queryset` with the page size it found, not 0; an empty cursor is none.
  unfoldable pub paginate_cursor : Codec → Ordering → ℕ → Option String → List A → Reply
  unfolding after_decode
  paginate_cursor codec o page_size none rows = page (page_of codec o page_size none rows)
  paginate_cursor codec o page_size (some cursor) rows =
      if cursor == ""
      then page (page_of codec o page_size none rows)
      else after_decode codec o page_size cursor (codec.decode cursor) rows
