-- ===== src/Statistics/Tests.antt =====
-- Rates at concrete samples, with integers in the place of floats.
use hass_tplink_easy_smart.Statistics.{rates_of}
use hass_tplink_easy_smart.Statistics.{add_rates}
use hass_tplink_easy_smart.Base.Assoc.{insert}
use hass_tplink_easy_smart.Statistics.{by_number}
use hass_tplink_easy_smart.Statistics.{rates_loop}
use hass_tplink_easy_smart.Statistics.{rates_between}
use hass_tplink_easy_smart.Base.{
  ℕ, ◌≡◌, refl, ◌+◌, ◌*◌, ◌≤◌, ◌<◌, ◌/◌, ◌%◌, ◌⊎◌, true, some, List, [], ◌∷◌, arith, none, leb,
  if◌then◌else◌,
}
use hass_tplink_easy_smart.Base.Int.{ℤ, pos, ◌-ℤ◌, ltb_ℤ, pos_part}
use hass_tplink_easy_smart.Base.Assoc.{lookup, nat_eq}
use hass_tplink_easy_smart.Classes.{PortStatistics, full_1000m}
use hass_tplink_easy_smart.Statistics.{
  Floats, Calculator, counter_modulus, wrap_threshold, counter_delta, update, elapsed_since, stored,
}
use hass_tplink_easy_smart.Python.{ok, err, overflow_error}
use hass_tplink_easy_smart.Statistics.Counter.{counter_delta_lem}
use hass_tplink_easy_smart.Statistics.Update.{IsUpdate, update_lem}

abbrev whole_seconds : Floats
whole_seconds = record {
  F = ℤ;
  minus = λ a b. a -ℤ b;
  is_positive = ltb_ℤ (pos 0);
  int_over = λ a b. some (pos (pos_part a / pos_part b));
  times_int = λ a b. some (pos (pos_part a * pos_part b));
  over_million = λ a. pos (pos_part a / 1000000);
}

abbrev sample : ℕ → ℕ → PortStatistics
sample number packets = record {
  number = number;
  enabled = true;
  link_status = full_1000m;
  tx_good_packets = pos packets;
  tx_bad_packets = pos 0;
  rx_good_packets = pos packets;
  rx_bad_packets = pos 0;
}

abbrev calculator : Calculator ℤ
calculator = record {
  assumed_packet_size = 1500;
  previous = (1, sample 1 4294967000) ∷ (2, sample 2 50) ∷ [];
  previous_sample_time = some (pos 10);
}

abbrev samples : List PortStatistics
samples = sample 1 1000704 ∷ sample 3 7 ∷ []

counter_delta_lem_example :
    (delta : ℕ) × (counter_delta (pos 1000) (pos 4294967000) ≡ pos delta)
    × (delta < counter_modulus)
    × ((4294967000 ≤ 1000) ⊎ (wrap_threshold ≤ 4294967000)
        → (4294967000 + delta) % counter_modulus ≡ 1000)
    × (1000 < 4294967000 → 4294967000 < wrap_threshold → delta ≡ 1000)
counter_delta_lem_example = counter_delta_lem 1000 4294967000 (ground arith) (ground arith)

-- A counter that wrapped between the samples, over ten seconds.
rates_run :
    (update whole_seconds calculator samples (pos 20)).0
    ≡ ok (
        (
          1,
          record {
            tx_packets_per_second = pos 100100;
            rx_packets_per_second = pos 100100;
            tx_estimated_mbps = pos 1201;
            rx_estimated_mbps = pos 1201;
          },
        )
        ∷ [])
unfolding lookup update rates_between elapsed_since ◌-ℤ◌ rates_loop by_number insert add_rates
    rates_of counter_delta stored
rates_run = refl

-- Integers in the place of floats, that are below 100000.
abbrev small_numbers : Floats
small_numbers = record whole_seconds {
  int_over = λ a b. if leb (pos_part a) 100000 then some (pos (pos_part a / pos_part b)) else none;
}

overflow_run : update small_numbers calculator samples (pos 20) ≡ (err overflow_error, calculator)
unfolding lookup update rates_between elapsed_since ◌-ℤ◌ rates_loop by_number insert add_rates
    rates_of counter_delta stored
overflow_run = refl

update_lem_example :
    IsUpdate whole_seconds calculator samples
      (pos 20)
      (update whole_seconds calculator samples (pos 20))
update_lem_example = update_lem whole_seconds calculator samples (pos 20)
