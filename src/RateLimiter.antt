-- ===== src/RateLimiter.antt =====
-- src/provider_rate_limit.rs: the interval limiter. Times are nanoseconds of the monotonic clock.
-- The interval of a rate is computed in floating point by the standard library: an argument.
pub mod Spacing
mod Tests
use mail_subsystem.Prelude.{
  ℕ, zero, suc, ◌+◌, ◌-◌, Bool, List, [], ◌∷◌, Option, none, some, leb, ◌==◌, if◌then◌else◌,
}

pub record Limiter : Type 0 where
  pub min_interval : ℕ
  pub next_allowed : ℕ

-- `interval_of rpm` is Duration::from_secs_f64(60.0 / rpm).
unfoldable pub new_limiter : (ℕ → ℕ) → ℕ → ℕ → Option Limiter
new_limiter interval_of now requests_per_minute =
    if requests_per_minute == 0
    then none
    else some (record { min_interval = interval_of requests_per_minute; next_allowed = now })

-- One pass of the loop under the lock: `none` lets the caller through, and a delay is slept.
unfoldable pub try_acquire : Limiter → ℕ → Limiter × Option ℕ
try_acquire l now =
    if leb l.next_allowed now
    then (record l { next_allowed = now + l.min_interval }, none)
    else (l, some (l.next_allowed - now))

-- What follows a pass: a caller that is let through is noted with its time.
abbrev pub grants_after : (Limiter → List ℕ) → ℕ → Limiter × Option ℕ → List ℕ
grants_after rest now (l, none) = now ∷ rest l
grants_after rest now (l, some delay) = rest l

-- The passes of all tasks, in the order in which they hold the lock, each at its time: the times
-- at which a caller is let through.
unfoldable pub grants : Limiter → List ℕ → List ℕ
grants l [] = []
grants l (now ∷ later) = grants_after (λ l'. grants l' later) now (try_acquire l now)

-- The end of an iteration of a caller's loop: `break`, or a sleep and `continue`.
abbrev pub acquire_after :
    (Limiter → ℕ → Option (Limiter × ℕ))
    → (ℕ → ℕ → ℕ)
    → ℕ
    → Limiter × Option ℕ
    → Option (Limiter × ℕ)
acquire_after again wake now (l, none) = some (l, now)
acquire_after again wake now (l, some delay) = again l (wake now delay)

-- The loop of one caller. `wake now d` is the time at which a sleep of `d` that began at `now`
-- ends; with it the limiter and the time at which the caller is let through.
unfoldable pub acquire : (ℕ → ℕ → ℕ) → ℕ → Limiter → ℕ → Option (Limiter × ℕ)
acquire wake zero l now = none
acquire wake (suc fuel) l now =
    acquire_after (λ l' now'. acquire wake fuel l' now') wake now (try_acquire l now)

-- A provider waits only if it has a limiter.
unfoldable pub wait_for_slot : (ℕ → ℕ → ℕ) → ℕ → Option Limiter → ℕ → Option (Option Limiter × ℕ)
wait_for_slot wake fuel none now = some (none, now)
wait_for_slot wake fuel (some l) now = elim (acquire wake fuel l now) [
  | none ↦ none
  | some (l', granted) ↦ some (some l', granted)
]
