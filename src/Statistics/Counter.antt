-- ===== src/Statistics/Counter.antt =====
-- `_counter_delta` on the readings of a 32-bit counter.
use hass_tplink_easy_smart.Base.{ℕ, ◌+◌, ◌-◌, ◌%◌, ◌≤◌, ◌<◌, ◌≡◌, ◌⊎◌, arith, leb, if◌then◌else◌}
use hass_tplink_easy_smart.Base.Int.{pos}
use hass_tplink_easy_smart.Statistics.{counter_modulus, wrap_threshold, counter_delta}

packets : ℕ → ℕ → ℕ
packets current previous =
    if leb previous current
    then current - previous
    else if leb wrap_threshold previous
    then counter_modulus - previous + current
    else current

-- Between two readings below 2 ^ 32 the delta is a count of packets below 2 ^ 32. If the counter
-- did not fall, or fell from the wrap threshold or above, the delta added to the old reading gives
-- the new one modulo 2 ^ 32; if it fell from below the threshold, the delta is the new reading.
pub counter_delta_lem :
    (current previous : ℕ)
    → current < counter_modulus
    → previous < counter_modulus
    → (delta : ℕ) × (counter_delta (pos current) (pos previous) ≡ pos delta)
      × (delta < counter_modulus)
      × ((previous ≤ current) ⊎ (wrap_threshold ≤ previous)
          → (previous + delta) % counter_modulus ≡ current)
      × (current < previous → previous < wrap_threshold → delta ≡ current)
unfolding counter_delta packets
counter_delta_lem current previous h k = (
  packets current previous,
  ground arith,
  ground arith,
  λ near. ground arith,
  λ fell low. ground arith,
)
