-- ===== src/Worker/Delay.antt =====
-- How long the outbox worker waits before a retry, `retryDelay` of backend/internal/worker/outbox.go.
use rock_paper_money.Prelude.{
  ltb, if◌then◌else◌, Bool-cases, nat_eq, string_eq, bool_eq, ℕ, zero, suc, ◌+◌, ◌*◌, ◌/◌, ◌^◌, ◌≤◌,
  ◌<◌, ◌≡◌, ap, ◌∙◌, inl, inr, arith,
}
use rock_paper_money.Worker.Outbox.{OutboxConfig, double_delay, retry_delay}

abbrev pub min_delay : ℕ → ℕ → ℕ
min_delay a b = if ltb b a then b else a

-- A delay above half of the longest one is above the longest one, however often it is doubled.
long_delay : (n d m : ℕ) → m < d * 2 → m < d * 2 ^ suc n
long_delay zero d m h = omega (arith, h)
long_delay (suc n) d m h = let rest = long_delay n d m h in grind (arith, rest)

double_pow : (d n : ℕ) → d * 2 * 2 ^ n ≡ d * 2 ^ suc n
double_pow d n = grind arith

pow_grows : (d n : ℕ) → d ≤ d * 2 ^ n
pow_grows d zero = omega arith
pow_grows d (suc n) = let rest = pow_grows d n in grind (arith, rest)

double_delay-min : (n m d : ℕ) → double_delay n m d ≡ min_delay (d * 2 ^ n) m
unfolding double_delay
double_delay-min zero m d = ground arith
double_delay-min (suc n) m d =
    let rest = double_delay-min n m (d * 2) in
    let same = double_pow d n in
    let long = long_delay n d m in
    let grows = pow_grows d (suc n) in
    elim (Bool-cases (ltb (m / 2) d)) [
      | inl above ↦ ground (arith, long)
      | inr below ↦ ground (arith, rest, same, grows)
    ]

-- The wait before a retry is the base doubled once for every attempt after the first, or the
-- longest wait where that is shorter.
pub retry_delay-doubles :
    (config : OutboxConfig) (n : ℕ)
    → retry_delay config (n + 1) ≡ min_delay (config.retry_base * 2 ^ n) config.max_retry
unfolding retry_delay
retry_delay-doubles config n =
    ap (λ k. double_delay k config.max_retry config.retry_base) (omega arith)
    ∙ double_delay-min n config.max_retry config.retry_base
