-- ===== src/Saas/Flags/Rollout.antt =====
-- `FeatureFlag.is_enabled_for_user`: the window of time, and visitors.
use django_project_test.Saas.Flags.{
  user_groups, tenants, users, internal, FeatureFlag, Flags, RolloutStrategy, everyone, percentage,
  User, by_key, by_strategy, enabled_row, is_enabled, is_enabled_for_user, is_everyone, too_early,
  too_late,
}
use django_project_test.Base.{
  sym, subst, refl, ◌&&◌, not, none, arith, some, false, true, ◌≡◌, String, Option, ℕ,
}

module _ {M : Type 0} (bucket : ℕ → ℕ) where
  by_strategy_everyone :
      (s : RolloutStrategy) (f : FeatureFlag M) (user : User) (tenant : Option ℕ)
      → is_everyone s ≡ true
      → by_strategy bucket s f user tenant ≡ true
  unfolding by_strategy
  by_strategy_everyone everyone f user tenant h = refl
  by_strategy_everyone internal f user tenant h = ground arith
  by_strategy_everyone users f user tenant h = ground arith
  by_strategy_everyone tenants f user tenant h = ground arith
  by_strategy_everyone percentage f user tenant h = ground arith
  by_strategy_everyone user_groups f user tenant h = h

  row_visitor :
      (f : FeatureFlag M) (user : User) (tenant : Option ℕ) (now : ℕ)
      → enabled_row bucket (some f) none tenant now ≡ true
      → enabled_row bucket (some f) (some user) tenant now
        ≡ (not (too_early f.starts_at now) && not (too_late f.ends_at now))
  unfolding enabled_row is_enabled_for_user
  row_visitor f user tenant now h =
      let everyone_in = by_strategy_everyone f.rollout_strategy f user tenant in ground arith

  -- Where a flag is on for a visitor without an account, it is on for a user exactly within its window
  -- of time: for the visitor the window is not looked at.
  pub visitor_ignores_window :
      (key : String) (f : FeatureFlag M) (user : User) (tenant : Option ℕ) (now : ℕ) (fs : Flags M)
      → by_key bucket key fs ≡ some f
      → is_enabled bucket false key none tenant now fs ≡ true
      → is_enabled bucket false key (some user) tenant now fs
        ≡ (not (too_early f.starts_at now) && not (too_late f.ends_at now))
  unfolding is_enabled enabled_row
  visitor_ignores_window key f user tenant now fs e h =
      let window = not (too_early f.starts_at now) && not (too_late f.ends_at now) in
      subst
        (λ row.
          enabled_row bucket row none tenant now ≡ true
          → enabled_row bucket row (some user) tenant now ≡ window)
        (sym e) (row_visitor f user tenant now) h
