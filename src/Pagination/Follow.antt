-- ===== src/Pagination/Follow.antt =====
-- Following the next links of a cursor pagination.
use django_project_test.Pagination.Cursor.{
  Codec, Ordering, Reply, page, error, rows_beyond, page_of, paginate_cursor, cursor_of,
  after_decode,
}
use django_project_test.Base.{
  append-snoc, length-append, append_assoc, ==_refl, true, le→not-ltb, subst, false, sym, ltb, ◌∙◌,
  take_all, ap, drop, ◌+◌, zero, dec_le, ◌∷◌, take, refl, some, arith, ◌++◌, ◌≤◌, ◌<◌, ◌≡◌, suc,
  length, [], none, String, Option, List, ℕ,
}
use django_project_test.Pagination.Walk.{
  last_field-append, length-take-min, rows_beyond-append, take-take, split_last, Strict, IsCodec,
}

module _ {ℓ} {A : Type ℓ} (field : A → ℕ) (codec : Codec) (o : Ordering) where
  abbrev pub follow : Option String → List A → (String → List A) → List A
  follow none items rest = items
  follow (some c) items rest = items ++ rest c

  abbrev pub served : Reply field → (String → List A) → List A
  served (error e) rest = []
  served (page p) rest = follow p.next_cursor p.items rest

  -- The items of a page, and of the pages after it: `fuel` pages at most.
  unfoldable pub walk : ℕ → List A → ℕ → Option String → List A
  walk page_size rows zero cursor = []
  walk page_size rows (suc fuel) cursor =
      served (paginate_cursor field codec o page_size cursor rows)
        (λ c. walk page_size rows fuel (some c))

  -- The page of the rows `suf`, when it is the last one.
  last_page :
      (page_size : ℕ) (cursor : Option String) (suf : List A)
      → length suf ≤ page_size
      → let p = page_of field codec o page_size cursor suf in
        (p.items ≡ suf) × (p.next_cursor ≡ none)
  unfolding page_of cursor_of
  last_page page_size cursor suf h =
      let whole : take (page_size + 1) suf ≡ suf = take_all (page_size + 1) suf (omega arith) in
      let stop : ltb page_size (length suf) ≡ false = le→not-ltb (length suf) page_size h in
      (ap (take page_size) whole ∙ take_all page_size suf h, rw (whole, stop) refl)

  -- And when it is not.
  full_page :
      (n : ℕ) (cursor : Option String) (suf : List A)
      → suc n < length suf
      → let p = page_of field codec o (suc n) cursor suf in
        (init : List A) × (x : A) × (p.items ≡ init ++ x ∷ [])
        × (p.next_cursor ≡ some (codec.encode o.text (field x)))
        × (suf ≡ init ++ x ∷ drop (suc n) suf)
  unfolding page_of cursor_of
  full_page n cursor suf h =
      let (init, x, e, e') = split_last n suf (omega arith) in
      let items : take (suc n) (take (suc n + 1) suf) ≡ init ++ x ∷ [] =
        take-take (suc n) (suc n + 1) suf (omega arith) ∙ e in
      let size : length (take (suc n + 1) suf) ≡ suc n + 1 =
        omega (arith, length-take-min (suc n + 1) suf) in
      let more : ltb (suc n) (length (take (suc n + 1) suf)) ≡ true = rw size (ground arith) in
      (init, x, items, rw (more, items, last_field-append field o init x) refl, e')

  -- The answer to a next cursor.
  after_next :
      IsCodec codec
      → (page_size : ℕ) (rows before : List A) (x : A) (rest : List A) → Strict field o rows
      → rows ≡ before ++ x ∷ rest
      → let cursor = some (codec.encode o.text (field x)) in
        paginate_cursor field codec o page_size cursor rows
        ≡ page (page_of field codec o page_size cursor rest)
  unfolding paginate_cursor after_decode
  after_next c page_size rows before x rest strict e =
      let cursor = codec.encode o.text (field x) in
      let beyond_x : rows_beyond field o (field x) rows ≡ rest =
        ap (rows_beyond field o (field x)) e
        ∙ rows_beyond-append field o before x rest (subst (Strict field o) e strict) in
      rw
        (
          c.encode_some o.text (field x),
          c.decode-encode o.text (field x),
          ==_refl {A = String} o.text,
          beyond_x,
        )
        refl

  after_first :
      (page_size : ℕ) (rows : List A)
      → paginate_cursor field codec o page_size none rows
        ≡ page (page_of field codec o page_size none rows)
  unfolding paginate_cursor
  after_first page_size rows = refl

  -- From any page of the rows `suf`, the last part of the rows.
  walk_from :
      IsCodec codec
      → (n fuel : ℕ) (rows before suf : List A) (cursor : Option String) → Strict field o rows
      → rows ≡ before ++ suf
      → paginate_cursor field codec o (suc n) cursor rows
        ≡ page (page_of field codec o (suc n) cursor suf)
      → length suf < fuel
      → walk (suc n) rows fuel cursor ≡ suf
  unfolding walk
  walk_from c n zero rows before suf cursor strict e h enough = absurd (omega arith)
  walk_from c n (suc fuel) rows before suf cursor strict e h enough =
      let p = page_of field codec o (suc n) cursor suf in
      elim (dec_le (length suf) (suc n)) [
        | yes short ↦ let (items, stop) = last_page (suc n) cursor suf short in rw (h, stop) items
        | no long ↦
            let (init, x, items, more, split) = full_page n cursor suf (omega arith) in
            let rest = drop (suc n) suf in
            let parts : rows ≡ (before ++ init) ++ x ∷ rest =
              e ∙ ap (λ ys. before ++ ys) split ∙ sym (append_assoc before init (x ∷ rest)) in
            let next = after_next c (suc n) rows (before ++ init) x rest strict parts in
            let size : length suf ≡ length init + suc (length rest) =
              ap length split ∙ length-append init (x ∷ rest) in
            let ih =
              walk_from c n fuel rows (before ++ init ++ x ∷ []) rest
                (some (codec.encode o.text (field x))) strict
                (parts ∙ append-snoc before init x rest) next (omega arith) in
            rw (h, more, items, ih) (append_assoc init (x ∷ []) rest ∙ sym split)
      ]

  -- With a codec that reads each cursor back, rows of which no two have the same value of the ordering
  -- field, and a page size that is not 0, following the next links from the first page gives all rows,
  -- once each and in order, within as many pages as there are rows, and one more.
  pub cursor_pages_cover :
      (page_size : ℕ) (rows : List A)
      → IsCodec codec
      → Strict field o rows
      → 0 < page_size
      → walk page_size rows (suc (length rows)) none ≡ rows
  cursor_pages_cover zero rows c strict h = absurd (omega arith)
  cursor_pages_cover (suc n) rows c strict h =
      walk_from c n (suc (length rows)) rows [] rows none strict refl (after_first (suc n) rows)
        (omega arith)
