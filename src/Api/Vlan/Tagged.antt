-- ===== src/Api/Vlan/Tagged.antt =====
-- `get_8021q_vlans`, `set_8021q_vlan_enabled`, `upsert_8021q_vlan` and `delete_8021q_vlan`
pub mod Laws
use Prim.Native.Char.{code}
use Prim.Native.String.{◌++◌ as str_append}
use hass_tplink_easy_smart.Base.{
  ℕ, zero, suc, ◌+◌, String, Bool, true, false, not, ◌&&◌, ◌||◌, Option, none, some, List, [], ◌∷◌,
  ◌++◌, map, ltb, leb, ◌==◌, if◌then◌else◌,
}
use hass_tplink_easy_smart.Base.Int.{ℤ, pos, pos_part, ltb_ℤ, eqb_ℤ}
use hass_tplink_easy_smart.Base.Lists.{length, is_empty, keep, range_from}
use hass_tplink_easy_smart.Base.Order.{contains, sorted_set, int_ord, nat_ord}
use hass_tplink_easy_smart.Python.{
  Value, list, int, str, no_items, to_list, Result, ok, err, data_format, invalid_array,
  invalid_limits, action, not_between, mode_disabled, invalid_name, tagged_and_untagged, no_member,
  too_many_vlans, orphaned_ports, default_vlan, unknown_vlan, replace_conversion_error, raise_if,
  index, ◌>>=◌, ◌>>◌,
}
use hass_tplink_easy_smart.Classes.{Vlan8021Q, Vlan8021QState}
use hass_tplink_easy_smart.Core.Variables.{Library, dict_type}
use hass_tplink_easy_smart.Core.Session.Monad.{
  Action, Session, lift, pure, ⊤, ◌>>=◌ as ◌>>>=◌, ◌>>◌ as ◌>>>◌,
}
use hass_tplink_easy_smart.Core.Session.Calls.{invalidate_authentication}
use hass_tplink_easy_smart.Core.Session.Variables.{fetch_variable}
use hass_tplink_easy_smart.Ports.Mask.{decode_port_mask}
use hass_tplink_easy_smart.Ports.Trunk.{expand_trunk_ports}
use hass_tplink_easy_smart.Api.Query.{Param, number, text, str_of_int}
use hass_tplink_easy_smart.Api.Apply.{Client, apply_get}
use hass_tplink_easy_smart.Api.Fields.{
  Fields, get_default, get_value, require_dict, int_list, trunk_groups_of, flag, number_field,
}
use hass_tplink_easy_smart.Api.Vlan.Mtu.{number_of_bool}

limit_fields : Fields → Result (ℤ × ℤ × ℤ)
limit_fields d = do
  port_count ← number_field d "portNum"
  count ← number_field d "count"
  max_vlans ← number_field d "maxVids"
  ok (port_count, count, max_vlans)

-- `isinstance(raw_names, list) and len(raw_names) >= count`, or the getter's error.
name_list : Value → ℕ → Result (List Value)
name_list (list names) count =
    if ltb (length (to_list names)) count
    then err (data_format (invalid_array "names" count))
    else ok (to_list names)
name_list _ count = err (data_format (invalid_array "names" count))

-- `str(value)`; of a value that is no text it is a parameter.
str_of_value : Library → Value → String
str_of_value library (str s) = s
str_of_value library v = library.str_of v

record Arrays : Type 0 where
  vlan_ids : List ℤ
  tagged_masks : List ℤ
  untagged_masks : List ℤ
  raw_names : List Value

-- The list comprehension over `range(count)`, from index `i` on.
tagged_from : Library → Arrays → ℕ → ℕ → ℕ → Result (List Vlan8021Q)
unfolding str_of_value
tagged_from library a port_count i zero = ok []
tagged_from library a port_count i (suc count) = do
  vlan_id ← index a.vlan_ids i
  name ← index a.raw_names i
  tagged_mask ← index a.tagged_masks i
  tagged_ports ← decode_port_mask (int tagged_mask) port_count
  untagged_mask ← index a.untagged_masks i
  untagged_ports ← decode_port_mask (int untagged_mask) port_count
  rest ← tagged_from library a port_count (i + 1) count
  ok (
      record {
        vlan_id = vlan_id;
        name = str_of_value library name;
        tagged_ports = tagged_ports;
        untagged_ports = untagged_ports;
      }
      ∷ rest)

-- `get_8021q_vlans`, from the variable of the page on.
unfoldable pub parse_8021q_vlans : Library → Value → Result Vlan8021QState
unfolding limit_fields name_list tagged_from
parse_8021q_vlans library data' = do
  d ← require_dict data' "qvlan_ds"
  found ← replace_conversion_error (data_format (invalid_limits "802.1Q VLAN")) (limit_fields d)
  raise_if (ltb_ℤ found.0 (pos 1) || (ltb_ℤ found.1 (pos 0) || ltb_ℤ found.2 (pos 1)))
      (data_format (invalid_limits "802.1Q VLAN"))
  vlan_ids ← int_list (get_default d "vids" (list no_items)) "vids" (pos_part found.1)
  tagged_masks ← int_list (get_default d "tagMbrs" (list no_items)) "tagMbrs" (pos_part found.1)
  untagged_masks ←
      int_list (get_default d "untagMbrs" (list no_items)) "untagMbrs" (pos_part found.1)
  raw_names ← name_list (get_default d "names" (list no_items)) (pos_part found.1)
  trunk_groups ← trunk_groups_of (get_value d "lagIds") "lagIds" (pos_part found.0)
  vlans ←
      tagged_from library
        (record {
          vlan_ids = vlan_ids;
          tagged_masks = tagged_masks;
          untagged_masks = untagged_masks;
          raw_names = raw_names;
        })
        (pos_part found.0) 0 (pos_part found.1)
  ok (record {
    enabled = flag d "state";
    port_count = pos_part found.0;
    max_vlans = pos_part found.2;
    vlans = vlans;
    trunk_groups = trunk_groups;
  })

name_char : ℕ → Bool
name_char c =
    (leb b'A' c && leb c b'Z')
    || ((leb b'a' c && leb c b'z') || ((leb b'0' c && leb c b'9') || (c == b'_' || c == b'-')))

-- `re.fullmatch(r"[A-Za-z0-9_-]{0,n}", name)`
fits : ℕ → String → Bool
unfolding name_char
fits n String.[] = true
fits zero (String.◌∷◌ c s) = false
fits (suc n) (String.◌∷◌ c s) = name_char (code c) && fits n s

unfoldable pub valid_name : String → Bool
unfolding fits
valid_name name = fits 10 name

unfoldable pub existing_ids : Vlan8021QState → List ℤ
existing_ids state = sorted_set (map (λ (vlan : Vlan8021Q). vlan.vlan_id) state.vlans)

-- `other_members`: the ports of the VLANs other than 1.
unfoldable pub other_members : List Vlan8021Q → List ℕ
other_members [] = []
other_members (vlan ∷ vlans) =
    let rest = other_members vlans in
    if eqb_ℤ vlan.vlan_id (pos 1)
    then rest
    else (vlan.tagged_ports ++ (vlan.untagged_ports ++ rest))

-- `orphaned`: the ports of the device in none of the two lists of the request nor in another VLAN.
unfoldable pub orphaned : Vlan8021QState → List ℕ → List ℕ → List ℕ
orphaned state tagged untagged =
    let others = other_members state.vlans in
    keep (λ port. not (contains port tagged || (contains port untagged || contains port others)))
      (range_from 1 state.port_count)

-- The test for `vlan_id == 1`.
check_default : Vlan8021QState → List ℕ → List ℕ → Bool → Result ⊤
check_default state tagged untagged true =
    let ports = orphaned state tagged untagged in
    raise_if (not (is_empty ports)) (action (orphaned_ports ports))
check_default state tagged untagged false = ok tt

-- The tests of `upsert_8021q_vlan` behind the expansion of the two lists.
unfoldable pub check_members : Vlan8021QState → ℤ → List ℕ → List ℕ → Result ⊤
unfolding check_default
check_members state vlan_id tagged untagged = do
  let overlap = keep (λ port. contains port untagged) tagged
  raise_if (not (is_empty overlap)) (action (tagged_and_untagged overlap))
  raise_if (is_empty tagged && is_empty untagged) (action no_member)
  let ids = existing_ids state
  raise_if (not (contains vlan_id ids) && leb state.max_vlans (length ids))
      (action (too_many_vlans (pos state.max_vlans)))
  check_default state tagged untagged (eqb_ℤ vlan_id (pos 1))

-- The tests of `upsert_8021q_vlan`, and the tagged and untagged ports that it writes.
unfoldable pub vlan_members :
    Vlan8021QState → ℤ → String → List Value → List Value → Result (List ℕ × List ℕ)
vlan_members state vlan_id name tagged_ports untagged_ports = do
  raise_if (not state.enabled) (action (mode_disabled "802.1Q VLAN"))
  raise_if (ltb_ℤ vlan_id (pos 1) || ltb_ℤ (pos 4094) vlan_id)
      (action (not_between "vlan_id" (pos 1) (pos 4094)))
  raise_if (not (valid_name name)) (action invalid_name)
  tagged ← expand_trunk_ports tagged_ports state.trunk_groups
  untagged ← expand_trunk_ports untagged_ports state.trunk_groups
  check_members state vlan_id tagged untagged
  ok (tagged, untagged)

-- `selType_<port>`: tagged, untagged or no member.
unfoldable pub sel_type : List ℕ → List ℕ → ℕ → ℕ
sel_type tagged untagged port =
    if contains port tagged then 1 else if contains port untagged then 0 else 2

unfoldable pub vlan_form : Vlan8021QState → ℤ → String → List ℕ → List ℕ → List (String × Param)
vlan_form state vlan_id name tagged untagged =
    ("vid", number vlan_id)
    ∷ ("vname", text name)
    ∷ ("qvlan_add", text "Add/Modify")
    ∷ map
        (λ port. (
          str_append "selType_" (str_of_int (pos port)),
          number (pos (sel_type tagged untagged port)),
        ))
        (range_from 1 state.port_count)

unfoldable pub check_8021q_vlan : Vlan8021QState → ℤ → Result (List (String × Param))
check_8021q_vlan state vlan_id = do
  raise_if (eqb_ℤ vlan_id (pos 1)) (action default_vlan)
  raise_if (not (contains vlan_id (map (λ (vlan : Vlan8021Q). vlan.vlan_id) state.vlans)))
      (action (unknown_vlan vlan_id))
  ok (("selVlans", number vlan_id) ∷ ("qvlan_del", text "Delete") ∷ [])

module _ (c : Client) where
  unfoldable pub get_8021q_vlans : Action Vlan8021QState
  get_8021q_vlans =
      fetch_variable c.library c.device c.account "Vlan8021QRpm.htm" "qvlan_ds" dict_type
      >>>= λ data'. lift (parse_8021q_vlans c.library data')

  unfoldable pub set_8021q_vlan_enabled : Bool → Action ⊤
  set_8021q_vlan_enabled enabled =
      get_8021q_vlans
      >>> (apply_get c "qvlanSet.cgi"
            (("qvlan_en", number (number_of_bool enabled)) ∷ ("qvlan_mode", text "Apply") ∷ [])
          >>> invalidate_authentication)

  unfoldable pub upsert_8021q_vlan : ℤ → String → List Value → List Value → Action (Option String)
  upsert_8021q_vlan vlan_id name tagged_ports untagged_ports = get_8021q_vlans >>>= λ state.
      lift (vlan_members state vlan_id name tagged_ports untagged_ports) >>>= λ ports.
      apply_get c "qvlanSet.cgi" (vlan_form state vlan_id name ports.0 ports.1)

  unfoldable pub delete_8021q_vlan : ℤ → Action (Option String)
  delete_8021q_vlan vlan_id = get_8021q_vlans >>>= λ state.
      lift (check_8021q_vlan state vlan_id) >>>= λ params. apply_get c "qvlanSet.cgi" params
