-- ===== src/Auth/Banning.antt =====
-- What the throttle of a network does: when it bans, when a ban ends, and what a sign-in forgives.
use edtech_back.Base.{
  ℕ, ◌≤◌, ◌<◌, ◌≡◌, refl, true, false, none, is_some, arith, Option-cases, inl, inr,
}
use mathlib.Core.Path.{subst}
use edtech_back.Model.{LoginThrottle, Settings}
use edtech_back.Auth.Lockout.{is_locked}
use edtech_back.Auth.Throttle.{
  passed, lift_ban, enforce_lock, enforce_row, open_window, open_cycles, end_cycle, fail_row,
  forgive_row,
}

module _ (settings : Settings) where
  -- what holds of every row of the throttle: the failures stay below the limit, and a ban stands in
  -- place of a lock and behind the cycles that it takes
  pub record IsThrottle (t : LoginThrottle) : Type 0 where
    pub below : t.failed_count < settings.login_ip_max_failures
    pub instead : is_some t.blocked_at ≡ true → t.locked_until ≡ none
    pub earned : is_some t.blocked_at ≡ true → settings.login_ip_ban_cycles ≤ t.cycle_count

  pub fail_row-IsThrottle :
      (now : ℕ) (t : LoginThrottle) → IsThrottle t → IsThrottle (fail_row settings now t)
  unfolding fail_row end_cycle open_cycles open_window
  fail_row-IsThrottle now t h = record {
    below = ground (arith, h.below);
    instead = λ b. ground (arith, h.instead);
    earned = λ b. ground (arith, h.earned);
  }

  pub forgive_row-IsThrottle :
      (now : ℕ) (t : LoginThrottle) → IsThrottle t → IsThrottle (forgive_row now t)
  unfolding forgive_row
  forgive_row-IsThrottle now t h = record {
    below = ground (arith, h.below);
    instead = λ b. ground (arith, h.instead);
    earned = λ b. ground (arith, h.earned);
  }

  lift_ban-IsThrottle : (t : LoginThrottle) → IsThrottle t → IsThrottle (lift_ban t)
  unfolding lift_ban
  lift_ban-IsThrottle t h = record {
    below = let b = h.below in omega arith;
    instead = λ b. refl;
    earned = λ b. absurd (ground arith);
  }

  unlocked_row : LoginThrottle → LoginThrottle
  unlocked_row t = record t { locked_until = none; failed_count = 0; window_started_at = none }

  enforce_lock-IsThrottle :
      (now : ℕ) (t t' : LoginThrottle)
      → IsThrottle t
      → t.blocked_at ≡ none
      → enforce_lock now t ≡ passed t'
      → IsThrottle t' × (t'.blocked_at ≡ none) × (is_locked now t'.locked_until ≡ false)
  unfolding enforce_lock
  enforce_lock-IsThrottle now t t' h free e = elim (Option-cases t.locked_until) [
    | inl none_there ↦
        let same : t ≡ t' = ground (arith, none_there) in
        subst (λ r. IsThrottle r × (r.blocked_at ≡ none) × (is_locked now r.locked_until ≡ false))
          same (h, free, simp none_there refl)
    | inr (until, there) ↦
        let same : unlocked_row t ≡ t' = unfold unlocked_row in ground (arith, there) in
        subst (λ r. IsThrottle r × (r.blocked_at ≡ none) × (is_locked now r.locked_until ≡ false))
          same
          (unfold unlocked_row in
            (
              record {
                below = let b = h.below in omega arith;
                instead = λ b. refl;
                earned = h.earned;
              },
              free,
              refl,
            ))
  ]

  pub enforce_row-IsThrottle :
      (now : ℕ) (t t' : LoginThrottle)
      → IsThrottle t
      → enforce_row settings now t ≡ passed t'
      → IsThrottle t' × (t'.blocked_at ≡ none) × (is_locked now t'.locked_until ≡ false)
  unfolding enforce_row
  enforce_row-IsThrottle now t t' h e = elim (Option-cases t.blocked_at) [
    | inl free ↦ enforce_lock-IsThrottle now t t' h free (ground (arith, free))
    | inr (at, banned) ↦
        enforce_lock-IsThrottle now (lift_ban t) t' (lift_ban-IsThrottle t h)
          (unfold lift_ban in refl) (ground (arith, banned))
  ]
