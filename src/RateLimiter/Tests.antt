-- ===== src/RateLimiter/Tests.antt =====
-- Runs of the limiter of src/provider_rate_limit.rs.
use mail_subsystem.Prelude.{ℕ, ◌+◌, ◌*◌, ◌-◌, ◌/◌, ◌≤◌, ◌≡◌, refl, [], ◌∷◌, some, none, arith}
use mail_subsystem.Sql.{count_where}
use mail_subsystem.RateLimiter.{Limiter, new_limiter, try_acquire, grants, acquire, wait_for_slot}
use mail_subsystem.RateLimiter.Spacing.{is_within, grants-rate, acquire-lets_through}

-- Two requests per second.
abbrev limiter : Limiter
limiter = record { min_interval = 500; next_allowed = 100 }

abbrev wake_late : ℕ → ℕ → ℕ
wake_late t d = t + d + 3

created : new_limiter (λ rpm. 60_000 / rpm) 100 120 ≡ some limiter
unfolding new_limiter
created = refl

unlimited : new_limiter (λ rpm. 60_000 / rpm) 100 0 ≡ none
unfolding new_limiter
unlimited = refl

passes_granted : grants limiter (100 ∷ 150 ∷ 599 ∷ 600 ∷ 650 ∷ 1200 ∷ []) ≡ 100 ∷ 600 ∷ 1200 ∷ []
unfolding grants try_acquire
passes_granted = refl

waits :
    wait_for_slot wake_late 2 (some limiter) 40
    ≡ some (some (record { min_interval = 500; next_allowed = 603 }), 103)
unfolding wait_for_slot acquire try_acquire
waits = refl

grants-rate_example :
    count_where (is_within 100 1100) (grants limiter (100 ∷ 150 ∷ 600 ∷ 1099 ∷ 1100 ∷ [])) * 500
    ≤ 1100 + 500 - 1 - 100
grants-rate_example = grants-rate limiter (100 ∷ 150 ∷ 600 ∷ 1099 ∷ 1100 ∷ []) 100 1100

acquire-lets_through_example :
    (granted : ℕ) × (acquire wake_late 2 limiter 40
      ≡ some (record limiter { next_allowed = granted + 500 }, granted))
    × (100 ≤ granted)
    × (40 ≤ granted)
acquire-lets_through_example = acquire-lets_through wake_late (λ t d. omega arith) limiter 40
