-- ===== src/Keys/Rotation.antt =====
-- Which keys are left after a rotation, and after rotations at regular times.
use django_project_test.Base.{
  refl, arith, le→not-ltb, ◌≤◌, ◌≡◌, ◌*◌, [], All, ◌+◌, ◌∷◌, List, String, ℕ,
}
use django_project_test.Keys.{
  get_all_active_keys, day, active_keys, KeyRotationManager, RotationKey, rotate_key, retire,
}

-- A key whose days are over, counted from its creation.
abbrev Expired : ℕ → ℕ → RotationKey → Type 0
Expired now days k = k.created_at + days * day ≤ now

retire-All :
    (now days : ℕ) (ks : List RotationKey) → All (Expired now days) ks → retire now days ks ≡ []
unfolding retire
retire-All now days [] h = refl
retire-All now days (k ∷ ks) h =
    rw (le→not-ltb (k.created_at + days * day) now h.0) (retire-All now days ks h.1)

-- The rotations after a time, each with the text of its key, at least the kept days apart.
pub record Rotation : Type 0 where
  pub fresh : String
  pub at : ℕ

abbrev pub Spaced : ℕ → ℕ → List Rotation → Type 0
Spaced days since [] = Unit
Spaced days since (r ∷ rs) = (since + days * day ≤ r.at) × Spaced days r.at rs

unfoldable pub rotate_all : ℕ → List Rotation → KeyRotationManager → KeyRotationManager
rotate_all days [] m = m
rotate_all days (r ∷ rs) m = rotate_all days rs (rotate_key r.fresh r.at r.at days m)

abbrev pub last_rotation : Rotation → List Rotation → Rotation
last_rotation r [] = r
last_rotation r (s ∷ rs) = last_rotation s rs

All-Expired :
    (days since now : ℕ) (ks : List RotationKey)
    → since + days * day ≤ now
    → All (λ k. k.created_at ≤ since) ks
    → All (Expired now days) ks
All-Expired days since now [] le h = tt
All-Expired days since now (k ∷ ks) le h =
    let first = h.0 in ((omega arith), All-Expired days since now ks le h.1)

-- Where all keys were made by some time, and the key is rotated again and again, each time at least
-- `keep_old_days` after that time and after the rotation before: the key made last is the only one
-- left to verify with, so that what the key before it signed cannot be verified.
pub regular_rotation_keeps_one :
    (days since : ℕ) (m : KeyRotationManager) (r : Rotation) (rs : List Rotation)
    → All (λ k. k.created_at ≤ since) m.keys
    → Spaced days since (r ∷ rs)
    → get_all_active_keys (rotate_all days (r ∷ rs) m) ≡ (last_rotation r rs).fresh ∷ []
unfolding rotate_all rotate_key active_keys
regular_rotation_keeps_one days since m r [] old spaced =
    rw (retire-All r.at days m.keys (All-Expired days since r.at m.keys spaced.0 old)) refl
regular_rotation_keeps_one days since m r (s ∷ rs) old spaced =
    let gone = retire-All r.at days m.keys (All-Expired days since r.at m.keys spaced.0 old) in
    let one = rotate_key r.fresh r.at r.at days m in
    let young : All (λ k. k.created_at ≤ r.at) one.keys = rw gone (omega arith, tt) in
    regular_rotation_keeps_one days r.at one s rs young spaced.1
