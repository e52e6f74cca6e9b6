-- ===== src/RateLimiter/Spacing.antt =====
-- src/provider_rate_limit.rs: requests are spaced by the interval, and a caller alone gets through.
use mail_subsystem.Prelude.{
  ℕ, ◌+◌, ◌-◌, ◌*◌, ◌≤◌, ◌≡◌, refl, inl, inr, Bool, List, [], ◌∷◌, none, some, arith, Bool-cases,
  leb, ltb, ◌&&◌, max, true, false, ◌<◌,
}
use mail_subsystem.Sql.{count_where}
use mail_subsystem.RateLimiter.{Limiter, try_acquire, grants, acquire}

-- Each grant comes at least the interval after the one before it, the first not before `start`.
abbrev pub IsSpaced : ℕ → ℕ → List ℕ → Type 0
IsSpaced interval start [] = Unit
IsSpaced interval start (t ∷ ts) = (start ≤ t) × IsSpaced interval (t + interval) ts

try_acquire-lets_through :
    (l : Limiter) (now : ℕ)
    → leb l.next_allowed now ≡ true
    → try_acquire l now ≡ (record l { next_allowed = now + l.min_interval }, none)
unfolding try_acquire
try_acquire-lets_through l now e = rw e refl

try_acquire-delays :
    (l : Limiter) (now : ℕ)
    → leb l.next_allowed now ≡ false
    → try_acquire l now ≡ (l, some (l.next_allowed - now))
unfolding try_acquire
try_acquire-delays l now e = rw e refl

-- Whatever the tasks and the times of their passes, the grants are spaced.
pub grants-IsSpaced :
    (l : Limiter) (passes : List ℕ) → IsSpaced l.min_interval l.next_allowed (grants l passes)
unfolding grants
grants-IsSpaced l [] = tt
grants-IsSpaced l (now ∷ later) = elim (Bool-cases (leb l.next_allowed now)) [
  | inl e ↦
      rw (try_acquire-lets_through l now e)
        (ground arith, grants-IsSpaced (record l { next_allowed = now + l.min_interval }) later)
  | inr e ↦ rw (try_acquire-delays l now e) (grants-IsSpaced l later)
]

abbrev pub is_within : ℕ → ℕ → ℕ → Bool
is_within start stop t = leb start t && ltb t stop

spaced_bound :
    (interval first start stop : ℕ) (ts : List ℕ)
    → IsSpaced interval first ts
    → count_where (is_within start stop) ts * interval ≤ stop + interval - 1 - max start first
unfolding count_where
spaced_bound interval first start stop [] s = omega arith
spaced_bound interval first start stop (t ∷ ts) s =
    let ih = spaced_bound interval (t + interval) start stop ts s.1 in
    elim (Bool-cases (is_within start stop t)) [
      | inl e ↦
          let low : start ≤ t = ground arith in
          let high : t < stop = ground arith in rw e (omega (arith, ih, s.0, low, high))
      | inr e ↦ rw e (omega (arith, ih, s.0))
    ]

-- Whatever the tasks and the times of their passes: the number of callers let through at times
-- from `start` up to but not including `stop`, times the interval, is at most
-- `stop + interval - 1 - start`.
pub grants-rate :
    (l : Limiter) (passes : List ℕ) (start stop : ℕ)
    → count_where (is_within start stop) (grants l passes) * l.min_interval
      ≤ stop + l.min_interval - 1 - start
grants-rate l passes start stop = omega (
  arith,
  spaced_bound l.min_interval l.next_allowed start stop (grants l passes)
      (grants-IsSpaced l passes),
)

-- A caller that is alone, whose sleeps do not end early, gets through within two iterations: not
-- before the limiter allows it nor before it asked, and the next slot is one interval later.
pub acquire-lets_through :
    (wake : ℕ → ℕ → ℕ)
    → ((t d : ℕ) → t + d ≤ wake t d)
    → (l : Limiter) (now : ℕ)
    → (granted : ℕ) × (acquire wake 2 l now
        ≡ some (record l { next_allowed = granted + l.min_interval }, granted))
      × (l.next_allowed ≤ granted)
      × (now ≤ granted)
unfolding acquire
acquire-lets_through wake late l now = elim (Bool-cases (leb l.next_allowed now)) [
  | inl e ↦ (now, rw (try_acquire-lets_through l now e) refl, ground arith, omega arith)
  | inr e ↦
      let t = wake now (l.next_allowed - now) in
      let after : l.next_allowed ≤ t = omega (arith, late now (l.next_allowed - now)) in
      let free : leb l.next_allowed t ≡ true = ground (arith, after) in
      (
        t,
        rw (try_acquire-delays l now e, try_acquire-lets_through l t free) refl,
        after,
        ground (arith, late now (l.next_allowed - now)),
      )
]
