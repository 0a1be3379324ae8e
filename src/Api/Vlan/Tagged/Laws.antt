-- ===== src/Api/Vlan/Tagged/Laws.antt =====
-- What `upsert_8021q_vlan` lets through, and what its form says of each port.
use hass_tplink_easy_smart.Base.{
  ℕ, ◌<◌, ◌≡◌, refl, ◌⊎◌, ◌↔◌, true, false, not, ◌||◌, List, ◌∷◌, map, arith, String,
}
use hass_tplink_easy_smart.Base.Int.{ℤ, pos, ◌≤ℤ◌}
use hass_tplink_easy_smart.Base.Lists.{length, keep, is_empty, range_from}
use hass_tplink_easy_smart.Base.Order.{contains, nat_ord, int_ord}
use hass_tplink_easy_smart.Base.Order.Ascending.{
  contains-keep, contains-is_empty, contains-range_from,
}
use hass_tplink_easy_smart.Python.{Value, ok}
use hass_tplink_easy_smart.Classes.{Vlan8021QState}
use hass_tplink_easy_smart.Ports.Mask.Laws.{InRange}
use hass_tplink_easy_smart.Ports.Trunk.{expand_trunk_ports}
use hass_tplink_easy_smart.Ports.Trunk.Expansion.{IsExpansion, expand_trunk_ports-IsExpansion}
use hass_tplink_easy_smart.Api.Query.{Param, number, text, str_of_int}
use Prim.Native.String.{◌++◌ as str_append}
use hass_tplink_easy_smart.Api.Vlan.Tagged.{
  valid_name, existing_ids, other_members, orphaned, check_members, vlan_members, sel_type,
  vlan_form,
}

-- A VLAN request that passed the tests.
pub record IsVlan (state : Vlan8021QState) (vlan_id : ℤ) (name : String)
    (tagged_ports untagged_ports : List Value) (tagged untagged : List ℕ) : Type 0 where
  pub mode : state.enabled ≡ true
  pub id_range : (pos 1 ≤ℤ vlan_id) × (vlan_id ≤ℤ pos 4094)
  pub named : valid_name name ≡ true
  pub tagged_expansion : IsExpansion tagged_ports state.trunk_groups tagged
  pub untagged_expansion : IsExpansion untagged_ports state.trunk_groups untagged
  pub filled : (is_empty tagged ≡ false) ⊎ (is_empty untagged ≡ false)
  pub disjoint : (p : ℕ) → contains p tagged ≡ true → contains p untagged ≡ false
  pub room :
      (contains vlan_id (existing_ids state) ≡ true)
      ⊎ (length (existing_ids state) < state.max_vlans)
  pub covered :
      vlan_id ≡ pos 1
      → (p : ℕ) → InRange state.port_count p
      → (contains p tagged ≡ true)
        ⊎ (contains p untagged ≡ true)
        ⊎ (contains p (other_members state.vlans) ≡ true)

vlan_members_parts :
    (state : Vlan8021QState) (vlan_id : ℤ) (name : String)
    (tagged_ports untagged_ports : List Value) {tagged untagged : List ℕ}
    → vlan_members state vlan_id name tagged_ports untagged_ports ≡ ok (tagged, untagged)
    → (state.enabled ≡ true)
      × (pos 1 ≤ℤ vlan_id)
      × (vlan_id ≤ℤ pos 4094)
      × (valid_name name ≡ true)
      × (expand_trunk_ports tagged_ports state.trunk_groups ≡ ok tagged)
      × (expand_trunk_ports untagged_ports state.trunk_groups ≡ ok untagged)
      × (check_members state vlan_id tagged untagged ≡ ok tt)
unfolding vlan_members
vlan_members_parts state z name ts us {tagged} {untagged} h = (
  ground arith,
  ground arith,
  ground arith,
  ground arith,
  ground arith,
  ground arith,
  ground arith,
)

check_members_parts :
    (state : Vlan8021QState) (vlan_id : ℤ) (tagged untagged : List ℕ)
    → check_members state vlan_id tagged untagged ≡ ok tt
    → (is_empty (keep (λ port. contains port untagged) tagged) ≡ true)
      × ((is_empty tagged ≡ false) ⊎ (is_empty untagged ≡ false))
      × ((contains vlan_id (existing_ids state) ≡ true)
          ⊎ (length (existing_ids state) < state.max_vlans))
      × (vlan_id ≡ pos 1 → is_empty (orphaned state tagged untagged) ≡ true)
unfolding check_members
check_members_parts state z tagged untagged h =
    (ground arith, ground arith, ground arith, λ e. ground arith)

not-orphaned :
    (state : Vlan8021QState) (tagged untagged : List ℕ) (p : ℕ)
    → is_empty (orphaned state tagged untagged) ≡ true
    → InRange state.port_count p
    → (contains p tagged ≡ true)
      ⊎ (contains p untagged ≡ true)
      ⊎ (contains p (other_members state.vlans) ≡ true)
unfolding orphaned
not-orphaned state tagged untagged p h r = ground (
  arith,
  contains-keep
      (λ port. not (
        contains port tagged
        || (contains port untagged || contains port (other_members state.vlans))))
      p (range_from 1 state.port_count),
  contains-range_from p 1 state.port_count,
  contains-is_empty p (orphaned state tagged untagged),
)

-- A request that `upsert_8021q_vlan` writes is for VLAN mode, with an id and a name in order; its
-- members are the requested ports with their whole LAGs, ports of the device all of them; no port is both tagged and untagged; a new VLAN fits the table; and a new VLAN 1 leaves
-- every port of the device in some VLAN.
pub vlan_members-IsVlan :
    (state : Vlan8021QState) (vlan_id : ℤ) (name : String)
    (tagged_ports untagged_ports : List Value) {tagged untagged : List ℕ}
    → vlan_members state vlan_id name tagged_ports untagged_ports ≡ ok (tagged, untagged)
    → IsVlan state vlan_id name tagged_ports untagged_ports tagged untagged
vlan_members-IsVlan state z name ts us {tagged} {untagged} h =
    let (mode, low, high, named, expanded, expanded', checked) =
      vlan_members_parts state z name ts us h in
    let (apart, filled, room, covered) = check_members_parts state z tagged untagged checked in
    record {
      mode = mode;
      id_range = (low, high);
      named = named;
      tagged_expansion = expand_trunk_ports-IsExpansion ts state.trunk_groups expanded;
      untagged_expansion = expand_trunk_ports-IsExpansion us state.trunk_groups expanded';
      filled = filled;
      disjoint = λ p m. ground (
        arith,
        contains-keep (λ port. contains port untagged) p tagged,
        contains-is_empty p (keep (λ port. contains port untagged) tagged),
      );
      room = room;
      covered = λ e p r. not-orphaned state tagged untagged p (covered e) r;
    }

-- The form of a VLAN in which each port of the device has a mark.
abbrev pub marked_form : Vlan8021QState → ℤ → String → (ℕ → ℕ) → List (String × Param)
marked_form state vlan_id name mark =
    ("vid", number vlan_id)
    ∷ ("vname", text name)
    ∷ ("qvlan_add", text "Add/Modify")
    ∷ map (λ port. (str_append "selType_" (str_of_int (pos port)), number (pos (mark port))))
        (range_from 1 state.port_count)

-- The mark of a port is 1 exactly if it is tagged, 0 exactly if it is untagged, and 2 exactly if it
-- is neither.
pub record IsMarking (tagged untagged : List ℕ) (mark : ℕ → ℕ) : Type 0 where
  pub marks_tagged : (p : ℕ) → (mark p ≡ 1) ↔ (contains p tagged ≡ true)
  pub marks_untagged : (p : ℕ) → (mark p ≡ 0) ↔ (contains p untagged ≡ true)
  pub marks_others :
      (p : ℕ) → (mark p ≡ 2) ↔ ((contains p tagged ≡ false) × (contains p untagged ≡ false))

-- The form of a VLAN with no port in both lists has such marks.
pub vlan_form-IsMarking :
    (state : Vlan8021QState) (vlan_id : ℤ) (name : String) (tagged untagged : List ℕ)
    → ((p : ℕ) → contains p tagged ≡ true → contains p untagged ≡ false)
    → (mark : ℕ → ℕ) × IsMarking tagged untagged mark
      × (vlan_form state vlan_id name tagged untagged ≡ marked_form state vlan_id name mark)
unfolding vlan_form sel_type
vlan_form-IsMarking state z name tagged untagged apart = (
  sel_type tagged untagged,
  record {
    marks_tagged = λ p. let d = apart p in ground (arith, d);
    marks_untagged = λ p. let d = apart p in ground (arith, d);
    marks_others = λ p. let d = apart p in ground (arith, d);
  },
  refl,
)
