-- ===== src/Api/Mirror/Laws.antt =====
-- What `set_port_mirror` lets through.
use hass_tplink_easy_smart.Base.{
  ℕ, ◌≡◌, refl, ◌⊎◌, inl, inr, true, false, ◌||◌, Option, none, some, ap, List, [], ◌∷◌, ◌++◌,
  arith,
}
use hass_tplink_easy_smart.Base.Int.{ℤ, pos, negsuc, ltb_ℤ, ◌≤ℤ◌}
use hass_tplink_easy_smart.Base.Lists.{is_empty, All}
use hass_tplink_easy_smart.Base.Order.{contains, nat_ord, int_ord, sorted_set, contains-sorted_set}
use hass_tplink_easy_smart.Base.Order.Ascending.{contains-append, contains-keep, contains-is_empty}
use hass_tplink_easy_smart.Python.{Value, int, ok, index, >>=-eq-ok}
use hass_tplink_easy_smart.Classes.{PortMirrorState}
use hass_tplink_easy_smart.Ports.Mask.Laws.{InRange}
use hass_tplink_easy_smart.Ports.Validate.{validate_ports, to_ints}
use hass_tplink_easy_smart.Ports.Validate.Laws.{validate_ports-returns, validate_ports_one}
use hass_tplink_easy_smart.Ports.Trunk.{group_of}
use hass_tplink_easy_smart.Ports.Trunk.Affected.{one_valid}
use hass_tplink_easy_smart.Api.Mirror.{
  destination_member, Mirroring, source_ports, lag_ports, mirroring,
}

mirroring_parts :
    (current : PortMirrorState) (destination : Option ℤ) (ingress egress : List Value)
    {plan : Mirroring}
    → mirroring current destination ingress egress ≡ ok plan
    → (destination_member current destination ≡ ok plan.destination)
      × (validate_ports ingress current.port_count true ≡ ok plan.ingress)
      × (validate_ports egress current.port_count true ≡ ok plan.egress)
      × (is_empty (source_ports plan) ≡ false)
      × (contains plan.destination (source_ports plan) ≡ false)
      × (is_empty (lag_ports current.trunk_groups (plan.destination ∷ source_ports plan)) ≡ true)
unfolding mirroring
mirroring_parts current d i e {plan} h =
    (ground arith, ground arith, ground arith, ground arith, ground arith, ground arith)

contains-source_ports :
    (p : ℕ) (plan : Mirroring)
    → contains p (source_ports plan) ≡ (contains p plan.ingress || contains p plan.egress)
unfolding source_ports
contains-source_ports p plan = ground (
  arith,
  contains-sorted_set p (plan.ingress ++ plan.egress),
  contains-append p plan.ingress plan.egress,
)

destination_member-eq :
    (current : PortMirrorState) (port : ℤ) {number : ℕ}
    → destination_member current (some port) ≡ ok number
    → (port ≡ pos number) × InRange current.port_count number
unfolding destination_member index
destination_member-eq current (negsuc n) {number} h =
    let (ports, valid, at) =
      >>=-eq-ok (validate_ports (int (negsuc n) ∷ []) current.port_count false)
        (λ ports. index ports 0) h in
    let range = one_valid (negsuc n) current.port_count valid in absurd (ground arith)
destination_member-eq current (pos n) {number} h =
    let (ports, valid, at) =
      >>=-eq-ok (validate_ports (int (pos n) ∷ []) current.port_count false)
        (λ ports. index ports 0) h in
    let range = one_valid (pos n) current.port_count valid in
    let inside : InRange current.port_count n = ground arith in
    let one = validate_ports_one n current.port_count false inside in
    let same : ports ≡ n ∷ [] = cc in
    let found : index ports 0 ≡ ok n = rw same refl in
    let number_is : number ≡ n = cc in rw number_is (refl, inside)

destination-chosen :
    (current : PortMirrorState) (destination : Option ℤ) {number : ℕ}
    → destination_member current destination ≡ ok number
    → (destination ≡ some (pos number)) × InRange current.port_count number
unfolding destination_member
destination-chosen current none h = cc
destination-chosen current (some port) h =
    let (same, range) = destination_member-eq current port h in (ap some same, range)

-- Mirroring that passed the tests, as it was requested.
pub record IsMirroring (current : PortMirrorState) (destination : Option ℤ)
    (ingress_ports egress_ports : List Value) (plan : Mirroring) : Type 0 where
  pub chosen : destination ≡ some (pos plan.destination)
  pub destination_range : InRange current.port_count plan.destination
  pub ingress_numbers : List ℤ
  pub ingress_requested : to_ints ingress_ports ≡ ok ingress_numbers
  pub ingress_members : (p : ℕ) → contains p plan.ingress ≡ contains (pos p) ingress_numbers
  pub egress_numbers : List ℤ
  pub egress_requested : to_ints egress_ports ≡ ok egress_numbers
  pub egress_members : (p : ℕ) → contains p plan.egress ≡ contains (pos p) egress_numbers
  pub ingress_range : All (InRange current.port_count) plan.ingress
  pub egress_range : All (InRange current.port_count) plan.egress
  pub some_source : (is_empty plan.ingress ≡ false) ⊎ (is_empty plan.egress ≡ false)
  pub apart :
      (contains plan.destination plan.ingress ≡ false)
      × (contains plan.destination plan.egress ≡ false)
  pub outside_lags :
      (p : ℕ)
      → (p ≡ plan.destination) ⊎ (contains p plan.ingress ≡ true) ⊎ (contains p plan.egress ≡ true)
      → group_of current.trunk_groups p ≤ℤ pos 0

not-lag_port :
    (groups : List ℤ) (plan : Mirroring) (p : ℕ)
    → is_empty (lag_ports groups (plan.destination ∷ source_ports plan)) ≡ true
    → (p ≡ plan.destination) ⊎ (contains p plan.ingress ≡ true) ⊎ (contains p plan.egress ≡ true)
    → group_of groups p ≤ℤ pos 0
unfolding lag_ports contains
not-lag_port groups plan p h m = ground (
  arith,
  contains-keep (λ port. ltb_ℤ (pos 0) (group_of groups port)) p
      (plan.destination ∷ source_ports plan),
  contains-is_empty p (lag_ports groups (plan.destination ∷ source_ports plan)),
  contains-source_ports p plan,
)

one-is_filled :
    (xs ys : List ℕ)
    → is_empty (sorted_set (xs ++ ys)) ≡ false
    → (is_empty xs ≡ false) ⊎ (is_empty ys ≡ false)
unfolding sorted_set
one-is_filled [] [] h = inl h
one-is_filled [] (y ∷ ys) h = inr refl
one-is_filled (x ∷ xs) ys h = inl refl

filled :
    (plan : Mirroring)
    → is_empty (source_ports plan) ≡ false
    → (is_empty plan.ingress ≡ false) ⊎ (is_empty plan.egress ≡ false)
unfolding source_ports
filled plan h = one-is_filled plan.ingress plan.egress h

-- Mirroring that `set_port_mirror` accepts has the requested destination and sources, all of them
-- ports of the device; there is a source; the destination is not one; and no port of it is in a LAG.
pub mirroring-IsMirroring :
    (current : PortMirrorState) (destination : Option ℤ) (ingress egress : List Value)
    {plan : Mirroring}
    → mirroring current destination ingress egress ≡ ok plan
    → IsMirroring current destination ingress egress plan
mirroring-IsMirroring current d i e {plan} h =
    let (vd, vi, ve, filled_sources, apart, lone) = mirroring_parts current d i e h in
    let (chosen, range) = destination-chosen current d vd in
    let (ni, ri, _, xi) = validate_ports-returns i current.port_count true vi in
    let (ne, re, _, xe) = validate_ports-returns e current.port_count true ve in
    record {
      chosen = chosen;
      destination_range = range;
      ingress_numbers = ni;
      ingress_requested = ri;
      ingress_members = xi.members;
      egress_numbers = ne;
      egress_requested = re;
      egress_members = xe.members;
      ingress_range = xi.in_range;
      egress_range = xe.in_range;
      some_source = filled plan filled_sources;
      apart = (
        ground (arith, contains-source_ports plan.destination plan),
        ground (arith, contains-source_ports plan.destination plan),
      );
      outside_lags = λ p m. not-lag_port current.trunk_groups plan p lone m;
    }
