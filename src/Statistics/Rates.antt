-- ===== src/Statistics/Rates.antt =====
-- What the loop of `update` makes of two samples.
use hass_tplink_easy_smart.Base.{
  ℕ, ◌*◌, ◌≡◌, refl, sym, ap, subst, ◌∙◌, ◌⊎◌, inl, inr, true, false, Option, none, some, List, [],
  ◌∷◌, arith, ◌==◌, Bool-cases,
}
use hass_tplink_easy_smart.Base.Int.{pos}
use hass_tplink_easy_smart.Python.{Result, ok, err, Error, overflow_error, or_overflow, ◌>>=◌}
use hass_tplink_easy_smart.Base.Assoc.{lookup, insert, nat_eq, IsDistinct, lookup-insert}
use hass_tplink_easy_smart.Classes.{PortStatistics}
use hass_tplink_easy_smart.Statistics.Samples.{both_of}
use hass_tplink_easy_smart.Statistics.{
  Floats, PortTrafficRates, counter_delta, rates_of, add_rates, rates_loop,
}

-- A split on a computed value.
Option-cases : {A : Type 0} (o : Option A) → (o ≡ none) ⊎ ((a : A) × (o ≡ some a))
Option-cases none = inl refl
Option-cases (some a) = inr (a, refl)

module _ (floats : Floats) where
  open floats use {F, is_positive, int_over, times_int, over_million}

  -- The rate of a port from two of its readings: the packets sent and received between them by the
  -- time that passed, and the millions of bits in so many packets of the assumed size.
  pub record IsRate (size : ℕ) (elapsed : F) (item old : PortStatistics) (rate : PortTrafficRates F)
      : Type 0 where
    pub sent_rate :
        int_over (counter_delta item.tx_good_packets old.tx_good_packets) elapsed
        ≡ some rate.tx_packets_per_second
    pub received_rate :
        int_over (counter_delta item.rx_good_packets old.rx_good_packets) elapsed
        ≡ some rate.rx_packets_per_second
    pub sent_bits : F
    pub sent_mbps :
        (times_int rate.tx_packets_per_second (pos (size * 8)) ≡ some sent_bits)
        × (over_million sent_bits ≡ rate.tx_estimated_mbps)
    pub received_bits : F
    pub received_mbps :
        (times_int rate.rx_packets_per_second (pos (size * 8)) ≡ some received_bits)
        × (over_million received_bits ≡ rate.rx_estimated_mbps)

  -- An integer of the rate of a port is too large for a float.
  pub data IsTooLarge (size : ℕ) (elapsed : F) (item old : PortStatistics) : Type 0 where
    sent :
        int_over (counter_delta item.tx_good_packets old.tx_good_packets) elapsed ≡ none
        → IsTooLarge size elapsed item old
    received :
        int_over (counter_delta item.rx_good_packets old.rx_good_packets) elapsed ≡ none
        → IsTooLarge size elapsed item old
    bits :
        (rate : F)
        → (int_over (counter_delta item.tx_good_packets old.tx_good_packets) elapsed ≡ some rate)
          ⊎ (int_over (counter_delta item.rx_good_packets old.rx_good_packets) elapsed ≡ some rate)
        → times_int rate (pos (size * 8)) ≡ none
        → IsTooLarge size elapsed item old

  abbrev Rated : ℕ → F → PortStatistics → PortStatistics → Result (PortTrafficRates F) → Type 0
  Rated size elapsed item old (ok rate) = IsRate size elapsed item old rate
  Rated size elapsed item old (err e) = (e ≡ overflow_error) × IsTooLarge size elapsed item old

  rates_of-Rated :
      (size : ℕ) (elapsed : F) (item old : PortStatistics)
      → Rated size elapsed item old (rates_of floats size elapsed item old)
  unfolding rates_of or_overflow
  rates_of-Rated size elapsed item old =
      let tx = int_over (counter_delta item.tx_good_packets old.tx_good_packets) elapsed in
      let rx = int_over (counter_delta item.rx_good_packets old.rx_good_packets) elapsed in
      elim (Option-cases tx) [
        | inl e ↦ rw e (refl, sent e)
        | inr (t, et) ↦ elim (Option-cases rx) [
          | inl e ↦ rw (et, e) (refl, received e)
          | inr (r, er) ↦ elim (Option-cases (times_int t (pos (size * 8)))) [
            | inl e ↦ rw (et, er, e) (refl, bits t (inl et) e)
            | inr (bt, ebt) ↦ elim (Option-cases (times_int r (pos (size * 8)))) [
              | inl e ↦ rw (et, er, ebt, e) (refl, bits r (inr er) e)
              | inr (br, ebr) ↦
                  rw (et, er, ebt, ebr)
                    (record {
                      sent_rate = et;
                      received_rate = er;
                      sent_bits = bt;
                      sent_mbps = (ebt, refl);
                      received_bits = br;
                      received_mbps = (ebr, refl);
                    })
            ]
          ]
        ]
      ]

  -- The entry of a port after the loop, by its two readings and the entry before.
  abbrev pub AtPort :
      ℕ
      → F
      → Option (PortStatistics × PortStatistics)
      → Option (PortTrafficRates F)
      → Option (PortTrafficRates F)
      → Type 0
  AtPort size elapsed none before after = after ≡ before
  AtPort size elapsed (some (item, old)) before after =
      (rate : PortTrafficRates F) × (after ≡ some rate) × IsRate size elapsed item old rate

  -- Two readings of one port, of which the rates cannot be calculated.
  pub record Overflown (size : ℕ) (elapsed : F) (previous current : List (ℕ × PortStatistics))
      (e : Error) : Type 0 where
    pub number : ℕ
    pub item : PortStatistics
    pub old : PortStatistics
    pub readings : both_of (lookup number current) (lookup number previous) ≡ some (item, old)
    pub large : (e ≡ overflow_error) × IsTooLarge size elapsed item old

  abbrev pub Looped :
      ℕ
      → F
      → List (ℕ × PortStatistics)
      → List (ℕ × PortStatistics)
      → List (ℕ × PortTrafficRates F)
      → Result (List (ℕ × PortTrafficRates F))
      → Type 0
  Looped size elapsed previous current rates (ok out) =
      (port : ℕ)
      → AtPort size elapsed (both_of (lookup port current) (lookup port previous))
          (lookup port rates) (lookup port out)
  Looped size elapsed previous current rates (err e) = Overflown size elapsed previous current e

  module _ (size : ℕ) (elapsed : F) (previous : List (ℕ × PortStatistics)) (number : ℕ)
      (item : PortStatistics) (current : List (ℕ × PortStatistics))
      (fresh : lookup number current ≡ none) where
    -- The readings of a port that is not the first of the loop.
    readings_later :
        (port : ℕ)
        → (number == port) ≡ false
        → both_of (lookup port ((number, item) ∷ current)) (lookup port previous)
          ≡ both_of (lookup port current) (lookup port previous)
    unfolding lookup
    readings_later port h = rw h refl

    readings_first :
        (port : ℕ)
        → (number == port) ≡ true
        → both_of (lookup port ((number, item) ∷ current)) (lookup port previous)
          ≡ both_of (some item) (lookup number previous)
    unfolding lookup
    readings_first port h =
        let same : number ≡ port = ground arith in
        rw h (ap (λ p. both_of (some item) (lookup p previous)) (sym same))

    readings_none :
        (port : ℕ)
        → (number == port) ≡ true
        → both_of (lookup port current) (lookup port previous) ≡ none
    readings_none port h =
        let same : number ≡ port = ground arith in
        ap (λ r. both_of r (lookup port previous)) (sym (ap (λ p. lookup p current) same) ∙ fresh)

    -- The loop over the other ports, seen from the loop over all.
    Looped-cons :
        (old : Option PortStatistics) (rates added : List (ℕ × PortTrafficRates F))
        (out : Result (List (ℕ × PortTrafficRates F)))
        → lookup number previous ≡ old
        → ((port : ℕ) → (number == port) ≡ false → lookup port added ≡ lookup port rates)
        → AtPort size elapsed (both_of (some item) old) (lookup number rates) (lookup number added)
        → Looped size elapsed previous current added out
        → Looped size elapsed previous ((number, item) ∷ current) rates out
    Looped-cons old rates added (ok out) found others first rest = λ port.
        elim (Bool-cases (number == port)) [
          | inl h ↦
              let same : number ≡ port = ground arith in
              let after : lookup port out ≡ lookup port added =
                subst (λ r. AtPort size elapsed r (lookup port added) (lookup port out))
                  (readings_none port h) (rest port) in
              subst (λ r. AtPort size elapsed r (lookup port rates) (lookup port out))
                (sym (readings_first port h ∙ ap (both_of (some item)) found))
                (subst (λ a. AtPort size elapsed (both_of (some item) old) (lookup port rates) a)
                  (sym after)
                  (subst
                    (λ p.
                      AtPort size elapsed (both_of (some item) old) (lookup p rates)
                        (lookup p added))
                    same first))
          | inr h ↦
              subst (λ r. AtPort size elapsed r (lookup port rates) (lookup port out))
                (sym (readings_later port h))
                (subst
                  (λ b.
                    AtPort size elapsed (both_of (lookup port current) (lookup port previous)) b
                      (lookup port out))
                  (others port h) (rest port))
        ]
    Looped-cons old rates added (err e) found others first rest = record {
      number = rest.number;
      item = rest.item;
      old = rest.old;
      readings = elim (Bool-cases (number == rest.number)) [
        | inl h ↦ let gone = readings_none rest.number h in absurd (ground (arith, rest.readings))
        | inr h ↦ readings_later rest.number h ∙ rest.readings
      ];
      large = rest.large;
    }

    rates_of-Looped :
        (old : PortStatistics) (rates : List (ℕ × PortTrafficRates F))
        → lookup number previous ≡ some old
        → ((added : List (ℕ × PortTrafficRates F))
            → Looped size elapsed previous current added
                (rates_loop floats size elapsed previous current added))
        → (r : Result (PortTrafficRates F)) → Rated size elapsed item old r
        → Looped size elapsed previous ((number, item) ∷ current) rates (
            r >>= (λ rate. ok (insert number rate rates)) >>= λ added.
            rates_loop floats size elapsed previous current added)
    rates_of-Looped old rates found rest (ok rate) rated =
        let added = insert number rate rates in
        Looped-cons (some old) rates added (rates_loop floats size elapsed previous current added)
          found (λ port h. lookup-insert number port rate rates ∙ rw h refl)
          (rate, ground (arith, lookup-insert number number rate rates), rated) (rest added)
    rates_of-Looped old rates found rest (err e) rated = record {
      number = number;
      item = item;
      old = old;
      readings = readings_first number (ground arith) ∙ ap (both_of (some item)) found;
      large = rated;
    }

    loop_step :
        (old : Option PortStatistics) (rates : List (ℕ × PortTrafficRates F))
        → lookup number previous ≡ old
        → ((added : List (ℕ × PortTrafficRates F))
            → Looped size elapsed previous current added
                (rates_loop floats size elapsed previous current added))
        → Looped size elapsed previous ((number, item) ∷ current) rates (
            add_rates floats size elapsed number item old rates >>= λ added.
            rates_loop floats size elapsed previous current added)
    unfolding add_rates
    loop_step none rates found rest =
        Looped-cons none rates rates (rates_loop floats size elapsed previous current rates) found
          (λ port h. refl) refl (rest rates)
    loop_step (some old) rates found rest =
        rates_of-Looped old rates found rest (rates_of floats size elapsed item old)
          (rates_of-Rated size elapsed item old)

  pub rates_loop-Looped :
      (size : ℕ) (elapsed : F) (previous current : List (ℕ × PortStatistics))
      (rates : List (ℕ × PortTrafficRates F))
      → IsDistinct current
      → Looped size elapsed previous current rates
          (rates_loop floats size elapsed previous current rates)
  unfolding rates_loop lookup
  rates_loop-Looped size elapsed previous [] rates h = λ port. refl
  rates_loop-Looped size elapsed previous ((number, item) ∷ current) rates h =
      loop_step size elapsed previous number item current h.0 (lookup number previous) rates refl
        (λ added. rates_loop-Looped size elapsed previous current added h.1)
