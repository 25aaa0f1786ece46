-- ===== src/Sessions/Idle.antt =====
-- A session that was idle too long ends, and one in use does not.
use django_project_test.Base.{
  refl, leb→le, inr, inl, Bool-cases, leb, ◌∙◌, if◌then◌else◌, ◌+◌, ap, false, arith, true, ◌≤◌,
  some, ◌≡◌, ℕ, List, ◌&&◌, Bool, [], ◌∷◌,
}
use django_project_test.Sessions.{
  served, flushed, refuse, time, Reply, is_idle, call, is_exempt, Request, Session,
  IdleTimeoutMiddleware, Texts,
}

third_case {ℓ} :
    {A : Type ℓ} (p q r : Bool) (w x y z : A)
    → p ≡ false
    → q ≡ true
    → r ≡ false
    → (if p then w else if q then if r then x else y else z) ≡ y
third_case p q r w x y z hp hq hr = rw (hp, hq, hr) refl

and_true : (a b : Bool) → (a && b) ≡ true → (a ≡ true) × (b ≡ true)
and_true a b h = ground arith

-- A view that leaves the session alone.
abbrev pub Keeps : {R : Type 0} → (Session → R × Session) → Type 0
Keeps view = (s : Session) → (view s).1 ≡ s

-- Requests with their views.
pub record Visit (R : Type 0) : Type 0 where
  pub request : Request
  pub view : Session → R × Session
  pub keeps : Keeps view

abbrev stamped : ℕ → Session → Session
stamped now s = record s { last_activity = some (time now) }

module _ (mw : IdleTimeoutMiddleware) where
  within_timeout :
      (last now : ℕ) → now ≤ last + mw.timeout → is_idle mw.timeout now (some (time last)) ≡ false
  unfolding is_idle
  within_timeout last now soon = ground arith

module _ {R : Type 0} (texts : Texts) (mw : IdleTimeoutMiddleware) where
  abbrev pub exempt : Visit R → Bool
  exempt v = is_exempt texts mw.exempt_prefixes v.request.path

  abbrev pub visit : Visit R → Session → Reply R × Session
  visit v s = call texts mw v.request v.view s

  unfoldable pub visit_all : List (Visit R) → Session → Session
  visit_all [] s = s
  visit_all (v ∷ vs) s = visit_all vs (visit v s).1

  visit-exempt : (v : Visit R) (s : Session) → exempt v ≡ true → (visit v s).1 ≡ s
  unfolding call
  visit-exempt v s e = rw e (v.keeps s)

  visit-active :
      (v : Visit R) (s : Session)
      → exempt v ≡ false
      → s.is_authenticated ≡ true
      → is_idle mw.timeout v.request.now s.last_activity ≡ false
      → (visit v s).1 ≡ stamped v.request.later s
  unfolding call
  visit-active v s e a i =
      let t = stamped v.request.later s in
      ap (λ o. o.1)
        (third_case (exempt v) s.is_authenticated (is_idle mw.timeout v.request.now s.last_activity)
          (served texts mw (v.view s)) (refuse texts mw v.request, flushed)
          (served texts mw (v.view t)) (served texts mw (v.view s)) e a i)
      ∙ v.keeps t

  -- The requests to paths that are not exempt come within the timeout, each of the one before.
  unfoldable pub in_use : ℕ → List (Visit R) → Bool
  in_use since [] = true
  in_use since (v ∷ vs) =
      let skipped = in_use since vs in
      let rest = in_use v.request.later vs in
      if exempt v then skipped else leb v.request.now (since + mw.timeout) && rest

  -- With views that leave the session alone: a user who is logged in and last active at a time, and
  -- whose requests to paths that are not exempt come within the timeout of that time and of each other,
  -- stays logged in.
  pub session_in_use_stays :
      (vs : List (Visit R)) (s : Session) (since : ℕ)
      → s.is_authenticated ≡ true
      → s.last_activity ≡ some (time since)
      → in_use since vs ≡ true
      → (visit_all vs s).is_authenticated ≡ true
  unfolding visit_all in_use
  session_in_use_stays [] s since a l h = a
  session_in_use_stays (v ∷ vs) s since a l h = elim (Bool-cases (exempt v)) [
    | inl e ↦
        ap (λ t. (visit_all vs t).is_authenticated) (visit-exempt v s e)
        ∙ session_in_use_stays vs s since a l (rw e at h)
    | inr e ↦
        let both =
          and_true (leb v.request.now (since + mw.timeout)) (in_use v.request.later vs)
            (rw e at h) in
        let i =
          ap (is_idle mw.timeout v.request.now) l
          ∙ within_timeout mw since v.request.now
              (leb→le v.request.now (since + mw.timeout) both.0) in
        ap (λ t. (visit_all vs t).is_authenticated) (visit-active v s e a i)
        ∙ session_in_use_stays vs (stamped v.request.later s) v.request.later a refl both.1
  ]
