-- ===== src/Agent/Reconnect/Bounds.antt =====
-- The pauses between the connections of src/agent/channel.rs.
use evebox.Base.{ℕ, ◌*◌, ◌/◌, ◌≤◌, List, [], ◌∷◌, All, arith}
use evebox.Agent.Reconnect.{
  min_backoff, max_backoff, ConnectionOutcome, disconnected, connect_failed, server_too_old,
  unauthorized, next_backoff, retry, jitter, sleeps,
}

abbrev IsBackoff : ℕ → Type 0
IsBackoff backoff = (min_backoff ≤ backoff) × (backoff ≤ max_backoff)

next_backoff-IsBackoff :
    (backoff connected_for : ℕ)
    → IsBackoff backoff
    → IsBackoff (next_backoff backoff connected_for).0
      × IsBackoff (next_backoff backoff connected_for).1
unfolding next_backoff
next_backoff-IsBackoff backoff connected_for h = ground arith

retry-IsBackoff :
    (outcome : ConnectionOutcome) (backoff : ℕ)
    → IsBackoff backoff
    → IsBackoff (retry outcome backoff).0 × IsBackoff (retry outcome backoff).1
unfolding retry
retry-IsBackoff (disconnected connected_for) backoff h =
    next_backoff-IsBackoff backoff connected_for h
retry-IsBackoff connect_failed backoff h = next_backoff-IsBackoff backoff 0 h
retry-IsBackoff server_too_old backoff h = (omega arith, h)
retry-IsBackoff unauthorized backoff h = (omega arith, h)

-- Half of the delay at most is added.
jitter_bound :
    (random_range : ℕ → ℕ) (delay : ℕ)
    → ((max : ℕ) → random_range max ≤ max)
    → jitter random_range delay * 2 ≤ delay
unfolding jitter
jitter_bound random_range delay h = ground (arith, h (delay / 1_000_000 / 2))

-- A pause between two connections: from a second up to 45 seconds.
abbrev pub IsPause : ℕ → Type 0
IsPause t = (min_backoff ≤ t) × (t * 2 ≤ max_backoff * 3)

sleeps-IsPause :
    (random_range : ℕ → ℕ) (backoff : ℕ) (outcomes : List ConnectionOutcome)
    → ((max : ℕ) → random_range max ≤ max)
    → IsBackoff backoff
    → All IsPause (sleeps random_range backoff outcomes)
unfolding sleeps
sleeps-IsPause random_range backoff [] range h = tt
sleeps-IsPause random_range backoff (outcome ∷ outcomes) range h =
    let (delay, next) = retry-IsBackoff outcome backoff h in
    (
      omega (arith, delay, jitter_bound random_range (retry outcome backoff).0 range),
      sleeps-IsPause random_range (retry outcome backoff).1 outcomes range next,
    )

-- Whatever becomes of its connections, an agent waits at least one second and at most 45 seconds
-- before it connects again, where the random number drawn is at most the bound asked for.
pub reconnect_bounds :
    (random_range : ℕ → ℕ) (outcomes : List ConnectionOutcome)
    → ((max : ℕ) → random_range max ≤ max)
    → All IsPause (sleeps random_range min_backoff outcomes)
reconnect_bounds random_range outcomes range =
    sleeps-IsPause random_range min_backoff outcomes range (omega arith)
