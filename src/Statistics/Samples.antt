-- ===== src/Statistics/Samples.antt =====
-- The samples of `update` as dictionaries by the numbers of the ports.
use hass_tplink_easy_smart.Base.{
  ℕ, ◌≡◌, refl, Option, none, some, List, [], ◌∷◌, arith, ◌==◌, if◌then◌else◌,
}
use hass_tplink_easy_smart.Base.Assoc.{
  lookup, insert, nat_eq, IsDistinct, lookup-insert, insert-IsDistinct,
}
use hass_tplink_easy_smart.Classes.{PortStatistics}
use hass_tplink_easy_smart.Statistics.{by_number}

pub by_number-IsDistinct :
    (current : List (ℕ × PortStatistics)) (statistics : List PortStatistics)
    → IsDistinct current
    → IsDistinct (by_number current statistics)
unfolding by_number
by_number-IsDistinct current [] h = h
by_number-IsDistinct current (item ∷ statistics) h =
    by_number-IsDistinct (insert item.number item current) statistics
      (insert-IsDistinct item.number item current h)

-- The last item of a sample that reports on a port.
abbrev pub last_of : ℕ → List PortStatistics → Option PortStatistics
last_of port [] = none
last_of port (item ∷ statistics) = elim (last_of port statistics) [
  | none ↦ if item.number == port then some item else none
  | some later ↦ some later
]

pub lookup-by_number :
    (port : ℕ) (current : List (ℕ × PortStatistics)) (statistics : List PortStatistics)
    → lookup port (by_number current statistics)
      ≡ elim (last_of port statistics) [ none ↦ lookup port current | some item ↦ some item ]
unfolding by_number
lookup-by_number port current [] = refl
lookup-by_number port current (item ∷ statistics) = ground (
  arith,
  lookup-by_number port (insert item.number item current) statistics,
  lookup-insert item.number port item current,
)

-- What two dictionaries have for a key, where both have something.
abbrev pub both_of : {A B : Type 0} → Option A → Option B → Option (A × B)
both_of none old = none
both_of (some item) none = none
both_of (some item) (some old) = some (item, old)
