-- ===== src/Gateway/Store.antt =====
-- A sorted-set store that satisfies the laws the sliding window relies on.
use native.Mathlib.Omega.{arith}
use django_project_test.Gateway.Window.{Redis, IsSortedSet}
use django_project_test.Gateway.Rules.{is_some}
use django_project_test.Base.{
  inr, true, inl, Bool-cases, [], ◌∷◌, refl, leb, ◌+◌, not, min, string_eq, false, ◌&&◌, none, some,
  ◌==◌, ◌≡◌, Bool, Option, List, if◌then◌else◌, ==_refl, count, length, ℕ, String,
}
use django_project_test.Base.Dict.{insert, lookup, Dict}

abbrev pub Sets : Type 0
Sets = String → Dict String ℕ

abbrev set : Sets → String → Dict String ℕ → Sets
set s key d k = if k == key then d else s k

unfoldable pub purge : ℕ → ℕ → Dict String ℕ → Dict String ℕ
purge low high [] = []
purge low high ((m, x) ∷ d) =
    let rest = purge low high d in if leb low x && leb x high then rest else (m, x) ∷ rest

unfoldable pub values : Dict String ℕ → List ℕ
values [] = []
values ((m, x) ∷ d) = x ∷ values d

abbrev smaller : ℕ → Option ℕ → Option ℕ
smaller x none = some x
smaller x (some y) = some (min x y)

unfoldable pub earliest : Dict String ℕ → Option ℕ
earliest [] = none
earliest ((m, x) ∷ d) = smaller x (earliest d)

abbrev pub store : Redis
store = record {
  State = Sets;
  zremrangebyscore = λ s key low high. set s key (purge low high (s key));
  zcard = λ s key. length (values (s key));
  zrange = λ s key. earliest (s key);
  zadd = λ s key member score. set s key (insert member score (s key));
  expire = λ s key seconds. s;
}

abbrev pub scores : Sets → String → List ℕ
scores s key = values (s key)

abbrev pub has : Sets → String → String → Bool
has s key member = is_some (lookup member (s key))

count-purge :
    (p : ℕ → Bool) (low high : ℕ) (d : Dict String ℕ)
    → count p (values (purge low high d))
      ≡ count (λ x. p x && not (leb low x && leb x high)) (values d)
unfolding purge values count
count-purge p low high [] = refl
count-purge p low high ((m, x) ∷ d) =
    let rest = count-purge p low high d in
    elim (Bool-cases (leb low x && leb x high)) [
      | inl gone ↦ elim (Bool-cases (p x)) [ inl e ↦ rw (gone, e) rest | inr e ↦ rw (gone, e) rest ]
      | inr kept ↦ elim (Bool-cases (p x)) [
        | inl e ↦ rw (kept, e, rest) refl
        | inr e ↦ rw (kept, e) rest
      ]
    ]

purge-absent :
    (low high : ℕ) (member : String) (d : Dict String ℕ)
    → is_some (lookup member d) ≡ false
    → is_some (lookup member (purge low high d)) ≡ false
unfolding purge lookup
purge-absent low high member [] h = refl
purge-absent low high member ((m, x) ∷ d) h =
    let rest = purge-absent low high member d in
    elim (Bool-cases (member == m)) [
      | inl e ↦ let no : true ≡ false = ground arith in cc
      | inr e ↦ elim (Bool-cases (leb low x && leb x high)) [
        | inl gone ↦ rw gone (rest (ground arith))
        | inr kept ↦ rw (kept, e) (rest (ground arith))
      ]
    ]

count-insert :
    (p : ℕ → Bool) (member : String) (score : ℕ) (d : Dict String ℕ)
    → is_some (lookup member d) ≡ false
    → count p (values (insert member score d))
      ≡ (if p score then count p (values d) + 1 else count p (values d))
unfolding lookup insert values count
count-insert p member score [] h = refl
count-insert p member score ((m, x) ∷ d) h =
    let rest = count-insert p member score d in
    elim (Bool-cases (member == m)) [
      | inl e ↦ let no : true ≡ false = ground arith in cc
      | inr e ↦
          let ih = rest (ground arith) in
          rw e (elim (Bool-cases (p x)) [
            | inl h' ↦ rw (h', ih) (ground arith)
            | inr h' ↦ rw (h', ih) refl
          ])
    ]

pub store-IsSortedSet : IsSortedSet store scores has
store-IsSortedSet = record {
  purged = λ s key low high p. rw (==_refl key) (count-purge p low high (s key));
  purged_members = λ s key low high member absent.
      rw (==_refl key) (purge-absent low high member (s key) absent);
  card = λ s key. refl;
  added =
      λ s key member score p absent. rw (==_refl key) (count-insert p member score (s key) absent);
  expire_kept = λ s key seconds. refl;
}
