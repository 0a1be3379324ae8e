-- ===== src/Statistics/Update.antt =====
-- What a call of `update` returns and stores.
use hass_tplink_easy_smart.Base.{
  ℕ, ◌≡◌, refl, sym, ap, subst, ◌∙◌, Bool, true, false, Option, none, some, List, [], arith,
  if◌then◌else◌,
}
use hass_tplink_easy_smart.Base.Assoc.{lookup, nat_eq}
use hass_tplink_easy_smart.Python.{Result, ok, err, Error, overflow_error}
use hass_tplink_easy_smart.Classes.{PortStatistics}
use hass_tplink_easy_smart.Statistics.{
  Floats, PortTrafficRates, Calculator, by_number, rates_loop, elapsed_since, rates_between, stored,
  update,
}
use hass_tplink_easy_smart.Statistics.Samples.{
  last_of, both_of, by_number-IsDistinct, lookup-by_number,
}
use hass_tplink_easy_smart.Statistics.Rates.{IsTooLarge, AtPort, Looped, rates_loop-Looped}

module _ (floats : Floats) where
  open floats use {F, minus, is_positive}

  -- The readings of a port at both ends of a time that has passed.
  abbrev pub readings_over :
      Calculator F → List PortStatistics → F → ℕ → Option (PortStatistics × PortStatistics)
  readings_over self statistics elapsed port =
      if is_positive elapsed
      then both_of (last_of port statistics) (lookup port self.previous)
      else none

  -- What is reported for a port, by the time of the sample before.
  abbrev pub Reported :
      Calculator F → List PortStatistics → F → ℕ → Option F → Option (PortTrafficRates F) → Type 0
  Reported self statistics sample_time port none reported = reported ≡ none
  Reported self statistics sample_time port (some before) reported =
      AtPort floats self.assumed_packet_size (minus sample_time before)
        (readings_over self statistics (minus sample_time before) port) none reported

  pub record IsStored (self : Calculator F) (statistics : List PortStatistics) (sample_time : F)
      (rates : List (ℕ × PortTrafficRates F)) (after : Calculator F) : Type 0 where
    pub reported :
        (port : ℕ)
        → Reported self statistics sample_time port self.previous_sample_time (lookup port rates)
    pub sample : (port : ℕ) → lookup port after.previous ≡ last_of port statistics
    pub time : after.previous_sample_time ≡ some sample_time
    pub same_size : after.assumed_packet_size ≡ self.assumed_packet_size

  pub record IsRefused (self : Calculator F) (statistics : List PortStatistics) (sample_time : F)
      (e : Error) (after : Calculator F) : Type 0 where
    pub same : after ≡ self
    pub overflow : e ≡ overflow_error
    pub before : F
    pub sampled_before : self.previous_sample_time ≡ some before
    pub port : ℕ
    pub item : PortStatistics
    pub old : PortStatistics
    pub readings : readings_over self statistics (minus sample_time before) port ≡ some (item, old)
    pub large : IsTooLarge floats self.assumed_packet_size (minus sample_time before) item old

  abbrev pub IsUpdate :
      Calculator F
      → List PortStatistics
      → F
      → Result (List (ℕ × PortTrafficRates F)) × Calculator F
      → Type 0
  IsUpdate self statistics sample_time (ok rates, after) =
      IsStored self statistics sample_time rates after
  IsUpdate self statistics sample_time (err e, after) =
      IsRefused self statistics sample_time e after

  last-by_number :
      (port : ℕ) (statistics : List PortStatistics)
      → lookup port (by_number [] statistics) ≡ last_of port statistics
  unfolding lookup
  last-by_number port statistics = ground (arith, lookup-by_number port [] statistics)

  module _ (self : Calculator F) (statistics : List PortStatistics) (sample_time : F) where
    -- A call that calculates no rates.
    stored-IsUpdate :
        ((port : ℕ) → Reported self statistics sample_time port self.previous_sample_time none)
        → IsUpdate self statistics sample_time
            (stored floats self (by_number [] statistics) sample_time (ok []))
    unfolding stored lookup
    stored-IsUpdate none_reported = record {
      reported = none_reported;
      sample = λ port. last-by_number port statistics;
      time = refl;
      same_size = refl;
    }

    readings_passed :
        (before : F) (port : ℕ)
        → is_positive (minus sample_time before) ≡ true
        → readings_over self statistics (minus sample_time before) port
          ≡ both_of (lookup port (by_number [] statistics)) (lookup port self.previous)
    readings_passed before port passed = rw passed (
        ap (λ item. both_of item (lookup port self.previous))
          (sym (last-by_number port statistics)))

    readings_stuck :
        (before : F) (port : ℕ)
        → is_positive (minus sample_time before) ≡ false
        → readings_over self statistics (minus sample_time before) port ≡ none
    readings_stuck before port passed = rw passed refl

    stored-Looped :
        (before : F) (out : Result (List (ℕ × PortTrafficRates F)))
        → self.previous_sample_time ≡ some before
        → is_positive (minus sample_time before) ≡ true
        → Looped floats self.assumed_packet_size
            (minus sample_time before)
            self.previous
            (by_number [] statistics)
            []
            out
        → IsUpdate self statistics sample_time
            (stored floats self (by_number [] statistics) sample_time out)
    unfolding stored lookup
    stored-Looped before (ok rates) timed passed looped = record {
      reported = λ port.
          subst (λ b. Reported self statistics sample_time port b (lookup port rates)) (sym timed)
            (subst
              (λ r.
                AtPort floats self.assumed_packet_size (minus sample_time before) r none
                  (lookup port rates))
              (sym (readings_passed before port passed)) (looped port));
      sample = λ port. last-by_number port statistics;
      time = refl;
      same_size = refl;
    }
    stored-Looped before (err e) timed passed looped = record {
      same = refl;
      overflow = looped.large.0;
      before = before;
      sampled_before = timed;
      port = looped.number;
      item = looped.item;
      old = looped.old;
      readings = readings_passed before looped.number passed ∙ looped.readings;
      large = looped.large.1;
    }

    between :
        (before : F) (b : Bool)
        → self.previous_sample_time ≡ some before
        → is_positive (minus sample_time before) ≡ b
        → IsUpdate self statistics sample_time (
            stored floats self (by_number [] statistics) sample_time (
              if b
              then rates_loop floats self.assumed_packet_size
                  (minus sample_time before)
                  self.previous
                  (by_number [] statistics)
                  []
              else ok []))
    between before true timed passed = stored-Looped before _ timed passed (
        rates_loop-Looped floats self.assumed_packet_size (minus sample_time before) self.previous
          (by_number [] statistics) [] (by_number-IsDistinct [] statistics tt))
    between before false timed passed = stored-IsUpdate λ port.
        subst (λ b. Reported self statistics sample_time port b none) (sym timed)
          (subst
            (λ r. AtPort floats self.assumed_packet_size (minus sample_time before) r none none)
            (sym (readings_stuck before port passed)) refl)

    rates_between-IsUpdate :
        (before : Option F)
        → self.previous_sample_time ≡ before
        → IsUpdate self statistics sample_time (
            stored floats self (by_number [] statistics) sample_time (
              rates_between floats self
                (by_number [] statistics)
                (elapsed_since floats before sample_time)))
    unfolding rates_between elapsed_since
    rates_between-IsUpdate none timed =
        stored-IsUpdate
          λ port. subst (λ b. Reported self statistics sample_time port b none) (sym timed) refl
    rates_between-IsUpdate (some before) timed =
        between before (is_positive (minus sample_time before)) timed refl

  -- A call reports a rate for exactly the ports that this sample and the one before report, if time
  -- has passed between them, and none otherwise. The rates of a port are the packets sent and
  -- received between its two last readings by that time, and the millions of bits in so many
  -- packets of the assumed size. The sample and its time are stored. Only if one of these integers
  -- is too large for a float, `OverflowError` is raised, and nothing is stored.
  pub update_lem :
      (self : Calculator F) (statistics : List PortStatistics) (sample_time : F)
      → IsUpdate self statistics sample_time (update floats self statistics sample_time)
  unfolding update
  update_lem self statistics sample_time =
      rates_between-IsUpdate self statistics sample_time self.previous_sample_time refl

  nil_between :
      (self : Calculator F) (sample_time elapsed : F) (b : Bool)
      → (stored floats self [] sample_time (
          if b
          then rates_loop floats self.assumed_packet_size elapsed self.previous [] []
          else ok [])).0
        ≡ ok []
  unfolding stored rates_loop
  nil_between self sample_time elapsed true = refl
  nil_between self sample_time elapsed false = refl

  nil_from :
      (self : Calculator F) (sample_time : F) (before : Option F)
      → (stored floats self
          (by_number [] [])
          sample_time
          (rates_between floats self (by_number [] []) (elapsed_since floats before sample_time))).0
        ≡ ok []
  unfolding rates_between elapsed_since stored by_number
  nil_from self sample_time none = refl
  nil_from self sample_time (some before) =
      nil_between self sample_time (minus sample_time before)
        (is_positive (minus sample_time before))

  -- A sample of no ports has no rates.
  pub update-nil :
      (self : Calculator F) (sample_time : F) → (update floats self [] sample_time).0 ≡ ok []
  unfolding update
  update-nil self sample_time = nil_from self sample_time self.previous_sample_time
