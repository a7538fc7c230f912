-- ===== src/Backoff.antt =====
-- src/utils/backoff.rs: the capped exponential delay and the counter that picks its exponent.
-- Durations are milliseconds. `AtomicU32` is its value; the two atomic accesses of `next_delay`
-- stand in the order of the source.
pub mod Delays
mod Tests
use dns_ingress.Prelude.{
  ℕ, zero, suc, ◌+◌, ◌-◌, ◌*◌, ◌%◌, ◌^◌, min, leb, if◌then◌else◌, List, [], ◌∷◌,
}

abbrev pub u32_mod : ℕ
u32_mod = 2 ^ 32

abbrev pub u64_max : ℕ
u64_max = 2 ^ 64 - 1

abbrev pub saturating_mul : ℕ → ℕ → ℕ
saturating_mul a b = min (a * b) u64_max

-- `2u64.saturating_pow(k)`
abbrev pub saturating_pow_two : ℕ → ℕ
saturating_pow_two k = min (2 ^ k) u64_max

unfoldable pub exponential_backoff : ℕ → ℕ → ℕ → ℕ
exponential_backoff attempt base_delay_ms max_delay_ms =
    min (saturating_mul base_delay_ms (saturating_pow_two (min attempt 10))) max_delay_ms

pub record BackoffCounter : Type 0 where
  pub counter : ℕ

pub new : BackoffCounter
new = record { counter = 0 }

-- `fetch_add` wraps, and yields the value before the addition.
unfoldable pub next_delay : BackoffCounter → ℕ → ℕ → BackoffCounter × ℕ
next_delay c base_delay_ms max_delay_ms =
    let attempt = c.counter in
    let added = (attempt + 1) % u32_mod in
    let delay = exponential_backoff attempt base_delay_ms max_delay_ms in
    (record { counter = if leb 10 attempt then 0 else added }, delay)

-- The delays of `n` calls in a row, and the counter behind them.
pub delays : ℕ → BackoffCounter → ℕ → ℕ → BackoffCounter × List ℕ
delays zero c base_delay_ms max_delay_ms = (c, [])
delays (suc n) c base_delay_ms max_delay_ms =
    let (c', delay) = next_delay c base_delay_ms max_delay_ms in
    let (last, rest) = delays n c' base_delay_ms max_delay_ms in (last, delay ∷ rest)
