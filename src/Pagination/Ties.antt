-- ===== src/Pagination/Ties.antt =====
-- What the cursors of a cursor pagination leave out, and where its previous link leads.
use django_project_test.Pagination.Cursor.{
  Codec, Ordering, CursorPage, Reply, page, error, beyond, rows_beyond, page_of, paginate_cursor,
  after_decode,
}
use django_project_test.Pagination.Walk.{IsCodec}
use django_project_test.Base.{
  false, string_eq, ◌+◌, inr, ◌∙◌, inl, ◌==◌, sym, refl, zero, subst, Bool-cases, ap, ==_refl, true,
  ◌∷◌, suc, none, ◌≡◌, some, String, [], All, Option, List, ℕ, take,
}

All-take {ℓ} : {A : Type ℓ} (P : A → Type 0) (n : ℕ) (xs : List A) → All P xs → All P (take n xs)
unfolding take
All-take P zero xs h = tt
All-take P (suc n) [] h = tt
All-take P (suc n) (x ∷ xs) h = (h.0, All-take P n xs h.1)

module _ {ℓ} {A : Type ℓ} (field : A → ℕ) (codec : Codec) (o : Ordering) where
  All-rows_beyond :
      (v : ℕ) (rows : List A) → All (λ r. beyond o v (field r) ≡ true) (rows_beyond field o v rows)
  unfolding rows_beyond
  All-rows_beyond v [] = tt
  All-rows_beyond v (r ∷ rows) =
      let rest = All-rows_beyond v rows in
      elim (Bool-cases (beyond o v (field r))) [ inl e ↦ rw e (e, rest) | inr e ↦ rw e rest ]

  abbrev items_of : Reply field → List A
  items_of (page p) = p.items
  items_of (error e) = []

  abbrev previous_of : Reply field → Option String
  previous_of (page p) = p.previous_cursor
  previous_of (error e) = none

  reply_of_cursor :
      IsCodec codec
      → (page_size v : ℕ) (rows : List A)
      → paginate_cursor field codec o page_size (some (codec.encode o.text v)) rows
        ≡ page (
            page_of field codec o page_size
              (some (codec.encode o.text v))
              (rows_beyond field o v rows))
  unfolding paginate_cursor after_decode
  reply_of_cursor c page_size v rows =
      rw (c.encode_some o.text v, c.decode-encode o.text v, ==_refl {A = String} o.text) refl

  -- With a codec that reads each cursor back, the page of a cursor has only rows that lie strictly
  -- beyond the cursor's value: of the rows that have the value of the last row of a page, those that did
  -- not fit on that page are on no later one.
  pub ties_left_out :
      (page_size v : ℕ) (rows : List A) (p : CursorPage field)
      → IsCodec codec
      → paginate_cursor field codec o page_size (some (codec.encode o.text v)) rows ≡ page p
      → All (λ r. beyond o v (field r) ≡ true) p.items
  unfolding page_of
  ties_left_out page_size v rows p c h =
      subst (λ reply. All (λ r. beyond o v (field r) ≡ true) (items_of reply))
        (sym (reply_of_cursor c page_size v rows) ∙ h)
        (All-take _ page_size _ (All-take _ (page_size + 1) _ (All-rows_beyond v rows)))

  abbrev Returns : String → Reply field → Type 0
  Returns cursor (page p) = some cursor ≡ p.previous_cursor
  Returns cursor (error e) = Unit

  after_decode-Returns :
      (page_size : ℕ) (cursor : String) (read : Option (String × ℕ)) (rows : List A)
      → Returns cursor (after_decode field codec o page_size cursor read rows)
  unfolding after_decode page_of
  after_decode-Returns page_size cursor none rows = tt
  after_decode-Returns page_size cursor (some (ordering, v)) rows =
      elim (Bool-cases (ordering == o.text)) [ inl e ↦ rw e refl | inr e ↦ rw e tt ]

  paginate_cursor-Returns :
      (page_size : ℕ) (cursor : String) (rows : List A)
      → (cursor == "") ≡ false
      → Returns cursor (paginate_cursor field codec o page_size (some cursor) rows)
  unfolding paginate_cursor
  paginate_cursor-Returns page_size cursor rows h =
      rw h (after_decode-Returns page_size cursor (codec.decode cursor) rows)

  empty_cursor :
      (page_size : ℕ) (cursor : String) (rows : List A)
      → (cursor == "") ≡ true
      → paginate_cursor field codec o page_size (some cursor) rows
        ≡ paginate_cursor field codec o page_size none rows
  unfolding paginate_cursor
  empty_cursor page_size cursor rows h = rw h refl

  first_repeats :
      (page_size : ℕ) (rows : List A) (p : CursorPage field)
      → paginate_cursor field codec o page_size none rows ≡ page p
      → paginate_cursor field codec o page_size p.previous_cursor rows ≡ page p
  unfolding paginate_cursor page_of
  first_repeats page_size rows p h =
      let e : none ≡ p.previous_cursor = ap previous_of h in
      subst (λ c. paginate_cursor field codec o page_size c rows ≡ page p) e h

  -- The previous link of a page, followed on the same rows, leads to the same page.
  pub previous_repeats :
      (page_size : ℕ) (cursor : Option String) (rows : List A) (p : CursorPage field)
      → paginate_cursor field codec o page_size cursor rows ≡ page p
      → paginate_cursor field codec o page_size p.previous_cursor rows ≡ page p
  previous_repeats page_size none rows p h = first_repeats page_size rows p h
  previous_repeats page_size (some cursor) rows p h = elim (Bool-cases (cursor == "")) [
    | inl empty ↦
        first_repeats page_size rows p (sym (empty_cursor page_size cursor rows empty) ∙ h)
    | inr given ↦
        subst (λ c. paginate_cursor field codec o page_size c rows ≡ page p)
          (subst (Returns cursor) h (paginate_cursor-Returns page_size cursor rows given)) h
  ]
