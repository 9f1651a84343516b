-- ===== src/Events/Delays.antt =====
-- The delay before a retry (apps/api/src/events/events.service.ts).
use unified_inbox.Prelude.{ℕ, zero, suc, ◌≤◌, ◌-◌, ◌≡◌, arith}
use unified_inbox.Events.{
  retry_delay_ms, power_of_2, transport_retry_base_delay_ms, transport_retry_max_delay_ms,
}

power_of_2-positive : (n : ℕ) → 1 ≤ power_of_2 n
power_of_2-positive zero = omega arith
power_of_2-positive (suc n) = omega (arith, power_of_2-positive n)

less_one : (n : ℕ) → suc n - 1 ≡ n
less_one n = omega arith

-- A retry comes after one second at least and five at most, whatever the number of attempts, and not
-- earlier than after fewer attempts.
pub retry_delay_ms-bounds :
    (attempt : ℕ)
    → (transport_retry_base_delay_ms ≤ retry_delay_ms attempt)
      × (retry_delay_ms attempt ≤ transport_retry_max_delay_ms)
      × (retry_delay_ms attempt ≤ retry_delay_ms (suc attempt))
unfolding retry_delay_ms
retry_delay_ms-bounds zero = (omega arith, omega arith, omega arith)
retry_delay_ms-bounds (suc n) =
    rw (less_one n, less_one (suc n))
      (ground (arith, power_of_2-positive n), ground arith, ground (arith, power_of_2-positive n))
