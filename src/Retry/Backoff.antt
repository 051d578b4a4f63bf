-- ===== src/Retry/Backoff.antt =====
-- app/embedding_retry.go: the constants of the retry queue and `EmbeddingRetryBackoff`. A duration
-- is a number of nanoseconds.
use project_brain.Base.{
  ℕ, zero, suc, ◌-◌, ◌*◌, ◌%◌, ◌^◌, ◌≤◌, ◌<◌, min, ltb, leb, if◌then◌else◌, ◌≡◌, refl, ap, ◌∙◌,
  arith,
}

abbrev pub second : ℕ
second = 1000000000

abbrev pub max_embedding_retry_attempts : ℕ
max_embedding_retry_attempts = 12

-- six hours
abbrev pub max_embedding_retry_backoff : ℕ
max_embedding_retry_backoff = 21600 * second

-- a day
abbrev pub paused_embedding_retry_backoff : ℕ
paused_embedding_retry_backoff = 86400 * second

abbrev pub default_embedding_retry_batch : ℕ
default_embedding_retry_batch = 32

-- The iterations that are left, and `d`. The product wraps as in int64; as `d` is below the cap
-- before each step, it never comes near 2 ^ 63.
unfoldable pub backoff_loop : ℕ → ℕ → ℕ
backoff_loop zero d = d
backoff_loop (suc n) d =
    let doubled = (d * 2) % 2 ^ 64 in
    let rest = backoff_loop n doubled in
    if leb max_embedding_retry_backoff doubled then max_embedding_retry_backoff else rest

unfoldable pub embedding_retry_backoff : ℕ → ℕ
embedding_retry_backoff attempts =
    let n = if ltb attempts 1 then 1 else attempts in backoff_loop (n - 1) (30 * second)

-- The delay without a cap.
unfoldable pub doubled_times : ℕ → ℕ → ℕ
doubled_times zero d = d
doubled_times (suc n) d = doubled_times n d * 2

doubled_times-shift : (n d : ℕ) → doubled_times n (d * 2) ≡ doubled_times (suc n) d
unfolding doubled_times
doubled_times-shift zero d = refl
doubled_times-shift (suc n) d = omega (arith, doubled_times-shift n d)

doubled_times-le : (n d : ℕ) → d ≤ doubled_times n d
unfolding doubled_times
doubled_times-le zero d = omega arith
doubled_times-le (suc n) d = omega (arith, doubled_times-le n d)

double-exact : (d : ℕ) → d < max_embedding_retry_backoff → (d * 2) % 2 ^ 64 ≡ d * 2
double-exact d h = ground arith

backoff_loop-min :
    (n d : ℕ)
    → d < max_embedding_retry_backoff
    → backoff_loop n d ≡ min (doubled_times n d) max_embedding_retry_backoff
unfolding backoff_loop doubled_times
backoff_loop-min zero d h = omega arith
backoff_loop-min (suc n) d h = rw (double-exact d h) (
    ground (arith, backoff_loop-min n (d * 2), doubled_times-shift n d, doubled_times-le n (d * 2)))

first_attempt : (n : ℕ) → (if ltb (suc n) 1 then 1 else suc n) - 1 ≡ n
first_attempt n = ground arith

embedding_retry_backoff-suc :
    (n : ℕ) → embedding_retry_backoff (suc n) ≡ backoff_loop n (30 * second)
unfolding embedding_retry_backoff
embedding_retry_backoff-suc n = ap (λ k. backoff_loop k (30 * second)) (first_attempt n)

-- The delay after attempt n + 1 is 30 seconds doubled n times, cut off at six hours.
pub embedding_retry_backoff-min :
    (n : ℕ)
    → embedding_retry_backoff (suc n)
      ≡ min (doubled_times n (30 * second)) max_embedding_retry_backoff
embedding_retry_backoff-min n =
    embedding_retry_backoff-suc n ∙ backoff_loop-min n (30 * second) (omega arith)

next_delay :
    (n : ℕ)
    → min (doubled_times n (30 * second)) max_embedding_retry_backoff
      ≤ min (doubled_times (suc n) (30 * second)) max_embedding_retry_backoff
unfolding doubled_times
next_delay n = omega arith

first_delay : embedding_retry_backoff 0 ≡ 30 * second
unfolding embedding_retry_backoff backoff_loop
first_delay = refl

-- Every delay lies between 30 seconds and six hours, and a further failed attempt never shortens it.
pub embedding_retry_backoff-bounds :
    (n : ℕ)
    → (30 * second ≤ embedding_retry_backoff n)
      × (embedding_retry_backoff n ≤ max_embedding_retry_backoff)
      × (embedding_retry_backoff n ≤ embedding_retry_backoff (suc n))
embedding_retry_backoff-bounds zero = rw first_delay (
    rw (embedding_retry_backoff-min 0)
      (omega arith, omega arith, omega (arith, doubled_times-le 0 (30 * second))))
embedding_retry_backoff-bounds (suc n) = rw (embedding_retry_backoff-min n) (
    rw (embedding_retry_backoff-min (suc n))
      (omega (arith, doubled_times-le n (30 * second)), omega arith, next_delay n))
