-- ===== src/Api/Vlan/PortBased.antt =====
-- `get_port_vlans`, `set_port_vlan_enabled`, `upsert_port_vlan` and `delete_port_vlan`
use hass_tplink_easy_smart.Base.{
  ℕ, zero, suc, ◌+◌, String, Bool, not, ◌||◌, Option, List, [], ◌∷◌, map,
}
use hass_tplink_easy_smart.Base.Int.{ℤ, pos, pos_part, ltb_ℤ, eqb_ℤ}
use hass_tplink_easy_smart.Base.Lists.{is_empty}
use hass_tplink_easy_smart.Base.Order.{contains, int_ord}
use hass_tplink_easy_smart.Python.{
  Value, list, int, no_items, Result, ok, data_format, invalid_limits, action, not_between,
  mode_disabled, no_port_selected, default_vlan, unknown_vlan, replace_conversion_error, raise_if,
  index, ◌>>=◌, ◌>>◌,
}
use hass_tplink_easy_smart.Classes.{PortVlan, PortVlanState}
use hass_tplink_easy_smart.Core.Variables.{dict_type}
use hass_tplink_easy_smart.Core.Session.Monad.{Action, lift, ⊤, ◌>>=◌ as ◌>>>=◌, ◌>>◌ as ◌>>>◌}
use hass_tplink_easy_smart.Core.Session.Calls.{invalidate_authentication}
use hass_tplink_easy_smart.Core.Session.Variables.{fetch_variable}
use hass_tplink_easy_smart.Ports.Mask.{decode_port_mask}
use hass_tplink_easy_smart.Ports.Trunk.{expand_trunk_ports}
use hass_tplink_easy_smart.Api.Query.{Param, number, text}
use hass_tplink_easy_smart.Api.Apply.{Client, apply_get}
use hass_tplink_easy_smart.Api.Fields.{
  Fields, get_default, get_value, require_dict, int_list, trunk_groups_of, flag, number_field,
}
use hass_tplink_easy_smart.Api.Vlan.Mtu.{number_of_bool}

count_fields : Fields → Result (ℤ × ℤ)
count_fields d = do
  port_count ← number_field d "portNum"
  count ← number_field d "count"
  ok (port_count, count)

-- The list comprehension over `range(count)`, from index `i` on.
vlans_from : List ℤ → List ℤ → ℕ → ℕ → ℕ → Result (List PortVlan)
vlans_from vlan_ids masks port_count i zero = ok []
vlans_from vlan_ids masks port_count i (suc count) = do
  vlan_id ← index vlan_ids i
  mask ← index masks i
  member_ports ← decode_port_mask (int mask) port_count
  rest ← vlans_from vlan_ids masks port_count (i + 1) count
  ok (record { vlan_id = vlan_id; member_ports = member_ports } ∷ rest)

-- `get_port_vlans`, from the variable of the page on.
unfoldable pub parse_port_vlans : Value → Result PortVlanState
unfolding count_fields vlans_from
parse_port_vlans data' = do
  d ← require_dict data' "pvlan_ds"
  found ← replace_conversion_error (data_format (invalid_limits "Port VLAN")) (count_fields d)
  raise_if (ltb_ℤ found.0 (pos 1) || ltb_ℤ found.1 (pos 0))
      (data_format (invalid_limits "Port VLAN"))
  vlan_ids ← int_list (get_default d "vids" (list no_items)) "vids" (pos_part found.1)
  masks ← int_list (get_default d "mbrs" (list no_items)) "mbrs" (pos_part found.1)
  trunk_groups ← trunk_groups_of (get_value d "lagIds") "lagIds" (pos_part found.0)
  vlans ← vlans_from vlan_ids masks (pos_part found.0) 0 (pos_part found.1)
  ok (record {
    enabled = flag d "state";
    port_count = pos_part found.0;
    vlans = vlans;
    trunk_groups = trunk_groups;
  })

-- The tests of `upsert_port_vlan`, and the members that it writes.
unfoldable pub port_vlan_members : PortVlanState → ℤ → List Value → Result (List ℕ)
port_vlan_members state vlan_id member_ports = do
  raise_if (not state.enabled) (action (mode_disabled "Port-based VLAN"))
  raise_if (ltb_ℤ vlan_id (pos 2) || ltb_ℤ (pos state.port_count) vlan_id)
      (action (not_between "vlan_id" (pos 2) (pos state.port_count)))
  members ← expand_trunk_ports member_ports state.trunk_groups
  raise_if (is_empty members) (action no_port_selected)
  ok members

unfoldable pub port_vlan_form : ℤ → List ℕ → List (String × Param)
port_vlan_form vlan_id members =
    ("vid", number vlan_id)
    ∷ ("pvlan_add", text "Apply")
    ∷ map (λ port. ("selPorts", number (pos port))) members

unfoldable pub check_port_vlan : PortVlanState → ℤ → Result (List (String × Param))
check_port_vlan state vlan_id = do
  raise_if (eqb_ℤ vlan_id (pos 1)) (action default_vlan)
  raise_if (not (contains vlan_id (map (λ (vlan : PortVlan). vlan.vlan_id) state.vlans)))
      (action (unknown_vlan vlan_id))
  ok (("selVlans", number vlan_id) ∷ ("pvlan_del", text "Delete") ∷ [])

module _ (c : Client) where
  unfoldable pub get_port_vlans : Action PortVlanState
  get_port_vlans =
      fetch_variable c.library c.device c.account "VlanPortBasicRpm.htm" "pvlan_ds" dict_type
      >>>= λ data'. lift (parse_port_vlans data')

  unfoldable pub set_port_vlan_enabled : Bool → Action ⊤
  set_port_vlan_enabled enabled =
      get_port_vlans
      >>> (apply_get c "pvlanSet.cgi"
            (("pvlan_en", number (number_of_bool enabled)) ∷ ("pvlan_mode", text "Apply") ∷ [])
          >>> invalidate_authentication)

  unfoldable pub upsert_port_vlan : ℤ → List Value → Action (Option String)
  upsert_port_vlan vlan_id member_ports = get_port_vlans >>>= λ state.
      lift (port_vlan_members state vlan_id member_ports) >>>= λ members.
      apply_get c "pvlanSet.cgi" (port_vlan_form vlan_id members)

  unfoldable pub delete_port_vlan : ℤ → Action (Option String)
  delete_port_vlan vlan_id = get_port_vlans >>>= λ state.
      lift (check_port_vlan state vlan_id) >>>= λ params. apply_get c "pvlanSet.cgi" params
