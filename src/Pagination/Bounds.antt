-- ===== src/Pagination/Bounds.antt =====
-- The bounds of a page of either paginator.
use django_project_test.Pagination.Pages.{
  ◌>>=◌, Result, Page, Limits, Number, ok, invalid, page_at, pages_of, paginate, get_page_size,
  page_number, sized,
}
use django_project_test.Base.{
  refl, drop, ◌+◌, ◌*◌, ◌-◌, length-take, inr, inl, nat_eq, ◌&&◌, subst, false, ltb, none, ◌==◌,
  ◌≡◌, arith, Bool-cases, some, length, ◌<◌, ◌≤◌, slice, List, Option, ℕ,
}
use django_project_test.Base.Integers.{to_nat}

abbrev Holds {ℓ κ} : {A : Type ℓ} → (A → Type κ) → Result A → Type κ
Holds P (ok a) = P a
Holds P (invalid e) = Unit

Holds-bind {ℓ κ μ ν} :
    {A : Type ℓ} {B : Type κ} (P : A → Type μ) (Q : B → Type ν) (r : Result A) (f : A → Result B)
    → Holds P r
    → ((a : A) → P a → Holds Q (f a))
    → Holds Q (r >>= f)
Holds-bind P Q (ok a) f h step = step a h
Holds-bind P Q (invalid e) f h step = tt

Holds-mono {ℓ κ μ} :
    {A : Type ℓ} (P : A → Type κ) (Q : A → Type μ) (r : Result A)
    → ((a : A) → P a → Q a)
    → Holds P r
    → Holds Q r
Holds-mono P Q (ok a) f h = f a h
Holds-mono P Q (invalid e) f h = tt

abbrev Sized : ℕ → ℕ → Type 0
Sized bound n = (1 ≤ n) × (0 < bound → n ≤ bound)

sized_bounds : (bound : ℕ) (n : Number) → Holds (Sized bound) (sized bound n)
unfolding sized
sized_bounds bound none = tt
sized_bounds bound (some n) = elim (Bool-cases (ltb (to_nat n) 1)) [
  | inl small ↦ rw small tt
  | inr large ↦ rw large (elim (Bool-cases (ltb 0 bound && ltb bound (to_nat n))) [
    | inl over ↦ rw over (ground arith, λ h. omega arith)
    | inr under ↦ rw under (ground arith, λ h. ground arith)
  ])
]

get_page_size_bounds :
    (l : Limits) (given : Option Number)
    → 0 < l.page_size
    → l.page_size ≤ l.max_page_size
    → Holds (λ n. (1 ≤ n) × (n ≤ l.max_page_size)) (get_page_size l given)
unfolding get_page_size
get_page_size_bounds l none a b = (a, b)
get_page_size_bounds l (some raw) a b =
    Holds-mono _ _ (sized l.max_page_size raw) (λ n h. (h.0, h.1 (omega arith)))
      (sized_bounds l.max_page_size raw)

page_number_bounds : (raw : Option Number) → Holds (λ n. 1 ≤ n) (page_number raw)
unfolding page_number
page_number_bounds none = omega arith
page_number_bounds (some none) = tt
page_number_bounds (some (some z)) = omega arith

module _ {ℓ} {A : Type ℓ} where
  -- What is promised of the answer for a list of rows.
  pub record Fits (l : Limits) (rows : List A) (p : Page A) : Type 0 where
    pub few : length p.items ≤ p.page_size
    pub at_least_one : 1 ≤ p.page_size
    pub at_most_max : p.page_size ≤ l.max_page_size
    pub first : 1 ≤ p.page
    pub last : 0 < length rows → p.page ≤ p.pages
    pub total : p.count ≡ length rows

  abbrev FitsSome : Limits → List A → Option (Page A) → Type 0
  FitsSome l rows none = Unit
  FitsSome l rows (some p) = Fits l rows p

  page_at_bounds :
      (l : Limits) (rows : List A) (size n : ℕ)
      → 1 ≤ size
      → size ≤ l.max_page_size
      → 1 ≤ n
      → Holds (FitsSome l rows) (page_at rows size n)
  unfolding page_at slice
  page_at_bounds l rows size n a b c =
      elim (Bool-cases (ltb (pages_of (length rows) size) n && ltb 0 (length rows))) [
        | inl out ↦ rw out tt
        | inr within ↦ rw within (record {
          few =
              let t =
                length-take ((n - 1) * size + size - (n - 1) * size) (drop ((n - 1) * size) rows) in
              omega arith;
          at_least_one = a;
          at_most_max = b;
          first = c;
          last = λ h. ground arith;
          total = refl;
        })
      ]

  paginate_bounds :
      (l : Limits) (size page : Option Number) (rows : List A)
      → 0 < l.page_size
      → l.page_size ≤ l.max_page_size
      → Holds (FitsSome l rows) (paginate l size page rows)
  unfolding paginate
  paginate_bounds l size page rows a b =
      Holds-bind _ _ (get_page_size l size) _ (get_page_size_bounds l size a b) (λ given h.
        let not_zero : (given == 0) ≡ false = ground arith in
        Holds-bind _ _ (page_number page) _ (page_number_bounds page)
          (λ n first. rw (not_zero, not_zero) (page_at_bounds l rows given n h.0 h.1 first)))

  -- With a default page size above 0 and not above the largest page size: a page has no more items than
  -- its page size, the page size lies between 1 and the largest one, the page number between 1 and,
  -- where there are rows, the number of pages, and the count is the number of rows.
  pub paginate-Fits :
      (l : Limits) (size page : Option Number) (rows : List A) (p : Page A)
      → 0 < l.page_size
      → l.page_size ≤ l.max_page_size
      → paginate l size page rows ≡ ok (some p)
      → Fits l rows p
  paginate-Fits l size page rows p a b h =
      subst (Holds (FitsSome l rows)) h (paginate_bounds l size page rows a b)
