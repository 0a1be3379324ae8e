-- ===== src/Statistics.antt =====
-- client/statistics.py: traffic rates from two samples of the packet counters.
-- Times and rates are Python floats. Their type and the five operations that the code applies to
-- them are a parameter; no law of them is assumed. An integer that is too large for a float raises
-- `OverflowError`, here `none`.
pub mod Counter
pub mod Samples
pub mod Rates
pub mod Update
mod Tests
use hass_tplink_easy_smart.Base.{
  ℕ, ◌*◌, ◌^◌, Bool, true, false, ◌&&◌, Option, none, some, List, [], ◌∷◌, if◌then◌else◌,
}
use hass_tplink_easy_smart.Base.Int.{ℤ, pos, ◌+ℤ◌, ◌-ℤ◌, leb_ℤ}
use hass_tplink_easy_smart.Base.Assoc.{lookup, insert, nat_eq}
use hass_tplink_easy_smart.Python.{Result, ok, err, or_overflow, ◌>>=◌}
use hass_tplink_easy_smart.Classes.{PortStatistics}

-- What the code does with floats: `a - b`, `a > 0`, an integer over a float, a float times an
-- integer, and a float over a million.
pub record Floats : Type 1 where
  pub F : Type 0
  pub minus : F → F → F
  pub is_positive : F → Bool
  pub int_over : ℤ → F → Option F
  pub times_int : F → ℤ → Option F
  pub over_million : F → F

abbrev pub counter_modulus : ℕ
counter_modulus = 2 ^ 32

-- `int(2**32 * 0.9)`
abbrev pub wrap_threshold : ℕ
wrap_threshold = 3865470566

unfoldable pub counter_delta : ℤ → ℤ → ℤ
unfolding ◌+ℤ◌ ◌-ℤ◌
counter_delta current previous =
    if leb_ℤ previous current
    then current -ℤ previous
    else if leb_ℤ (pos wrap_threshold) previous
    then pos counter_modulus -ℤ previous +ℤ current
    else current

pub record PortTrafficRates (F : Type 0) : Type 0 where
  pub tx_packets_per_second : F
  pub rx_packets_per_second : F
  pub tx_estimated_mbps : F
  pub rx_estimated_mbps : F

-- The fields of `PortStatisticsRateCalculator`.
pub record Calculator (F : Type 0) : Type 0 where
  pub assumed_packet_size : ℕ
  pub previous : List (ℕ × PortStatistics)
  pub previous_sample_time : Option F

-- `{item.number: item for item in statistics}`
unfoldable pub by_number :
    List (ℕ × PortStatistics) → List PortStatistics → List (ℕ × PortStatistics)
by_number current [] = current
by_number current (item ∷ statistics) = by_number (insert item.number item current) statistics

module _ (floats : Floats) where
  open floats use {F, minus, is_positive, int_over, times_int, over_million}

  unfoldable pub rates_of : ℕ → F → PortStatistics → PortStatistics → Result (PortTrafficRates F)
  unfolding or_overflow
  rates_of assumed_packet_size elapsed item previous = do
    let tx_delta = counter_delta item.tx_good_packets previous.tx_good_packets
    let rx_delta = counter_delta item.rx_good_packets previous.rx_good_packets
    tx_pps ← or_overflow (int_over tx_delta elapsed)
    rx_pps ← or_overflow (int_over rx_delta elapsed)
    let bits_per_packet = pos (assumed_packet_size * 8)
    tx_bits ← or_overflow (times_int tx_pps bits_per_packet)
    rx_bits ← or_overflow (times_int rx_pps bits_per_packet)
    ok (record {
      tx_packets_per_second = tx_pps;
      rx_packets_per_second = rx_pps;
      tx_estimated_mbps = over_million tx_bits;
      rx_estimated_mbps = over_million rx_bits;
    })

  -- The body of the loop over `current.items()`, from its `if previous is None: continue` on.
  unfoldable pub add_rates :
      ℕ
      → F
      → ℕ
      → PortStatistics
      → Option PortStatistics
      → List (ℕ × PortTrafficRates F)
      → Result (List (ℕ × PortTrafficRates F))
  add_rates size elapsed number item none rates = ok rates
  add_rates size elapsed number item (some previous) rates =
      rates_of size elapsed item previous >>= λ found. ok (insert number found rates)

  unfoldable pub rates_loop :
      ℕ
      → F
      → List (ℕ × PortStatistics)
      → List (ℕ × PortStatistics)
      → List (ℕ × PortTrafficRates F)
      → Result (List (ℕ × PortTrafficRates F))
  rates_loop size elapsed previous [] rates = ok rates
  rates_loop size elapsed previous ((number, item) ∷ current) rates =
      add_rates size elapsed number item (lookup number previous) rates >>= λ added.
      rates_loop size elapsed previous current added

  -- `elapsed`
  unfoldable pub elapsed_since : Option F → F → Option F
  elapsed_since none sample_time = none
  elapsed_since (some previous_time) sample_time = some (minus sample_time previous_time)

  -- The rates of a call: none before there are two samples with time between them.
  unfoldable pub rates_between :
      Calculator F → List (ℕ × PortStatistics) → Option F → Result (List (ℕ × PortTrafficRates F))
  rates_between self current none = ok []
  rates_between self current (some elapsed) =
      if is_positive elapsed
      then rates_loop self.assumed_packet_size elapsed self.previous current []
      else ok []

  -- The end of `update`: the sample is stored unless an exception was raised.
  unfoldable pub stored :
      Calculator F
      → List (ℕ × PortStatistics)
      → F
      → Result (List (ℕ × PortTrafficRates F))
      → Result (List (ℕ × PortTrafficRates F)) × Calculator F
  stored self current sample_time (ok rates) =
      (ok rates, record self { previous = current; previous_sample_time = some sample_time })
  stored self current sample_time (err e) = (err e, self)

  unfoldable pub update :
      Calculator F → List PortStatistics → F → Result (List (ℕ × PortTrafficRates F)) × Calculator F
  update self statistics sample_time =
      let current = by_number [] statistics in
      let elapsed = elapsed_since self.previous_sample_time sample_time in
      stored self current sample_time (rates_between self current elapsed)
