-- ===== src/Api/Vlan/Pvid.antt =====
-- `get_pvids` and `set_pvid`
pub mod Laws
use hass_tplink_easy_smart.Base.{
  ℕ, zero, suc, ◌+◌, ◌-◌, String, Bool, true, false, not, ◌&&◌, ◌||◌, Option, none, some, List, [],
  ◌∷◌, map, if◌then◌else◌,
}
use hass_tplink_easy_smart.Base.Int.{ℤ, pos, pos_part, ltb_ℤ, eqb_ℤ}
use hass_tplink_easy_smart.Base.Lists.{is_empty, keep, take}
use hass_tplink_easy_smart.Base.Order.{contains, int_ord}
use hass_tplink_easy_smart.Python.{
  Value, list, no_items, Result, ok, err, data_format, invalid_limits, action, mode_disabled,
  no_port_selected, unknown_vlan, not_members, replace_conversion_error, raise_if, index,
  value_error, ◌>>=◌, ◌>>◌,
}
use hass_tplink_easy_smart.Classes.{VlanPvidState}
use hass_tplink_easy_smart.Core.Variables.{dict_type}
use hass_tplink_easy_smart.Core.Session.Monad.{Action, Session, lift, pure, ⊤, ◌>>=◌ as ◌>>>=◌}
use hass_tplink_easy_smart.Core.Session.Variables.{fetch_variable}
use hass_tplink_easy_smart.Ports.Mask.{has_bit, encode_port_mask}
use hass_tplink_easy_smart.Ports.Trunk.{expand_trunk_ports}
use hass_tplink_easy_smart.Api.Query.{Param, number, text}
use hass_tplink_easy_smart.Api.Apply.{Client, apply_get}
use hass_tplink_easy_smart.Api.Fields.{
  Fields, get_default, get_value, require_dict, int_list, trunk_groups_of, flag, number_field,
}

count_fields : Fields → Result (ℤ × ℤ)
count_fields d = do
  port_count ← number_field d "portNum"
  count ← number_field d "count"
  ok (port_count, count)

-- `get_pvids`, from the variable of the page on.
unfoldable pub parse_pvids : Value → Result VlanPvidState
unfolding count_fields
parse_pvids data' = do
  d ← require_dict data' "pvid_ds"
  found ← replace_conversion_error (data_format (invalid_limits "PVID")) (count_fields d)
  raise_if (ltb_ℤ found.0 (pos 1) || ltb_ℤ found.1 (pos 0)) (data_format (invalid_limits "PVID"))
  pvids ← int_list (get_value d "pvids") "pvids" (pos_part found.0)
  vlan_ids ← int_list (get_default d "vids" (list no_items)) "vids" (pos_part found.1)
  member_masks ← int_list (get_default d "mbrs" (list no_items)) "mbrs" (pos_part found.1)
  trunk_groups ← trunk_groups_of (get_value d "lagIds") "lagIds" (pos_part found.0)
  ok (record {
    enabled = flag d "state";
    port_count = pos_part found.0;
    pvids = take (pos_part found.0) pvids;
    vlan_ids = take (pos_part found.1) vlan_ids;
    member_masks = take (pos_part found.1) member_masks;
    trunk_groups = trunk_groups;
  })

-- `state.member_masks[state.vlan_ids.index(vlan_id)]`; `index` raises `ValueError` on a missing one.
unfoldable pub mask_of : ℤ → List ℤ → List ℤ → Result ℤ
mask_of vlan_id [] masks = err value_error
mask_of vlan_id (z ∷ vlan_ids) masks = elim (eqb_ℤ z vlan_id) [
  | true ↦ index masks 0
  | false ↦ elim masks [
    | [] ↦ mask_of vlan_id vlan_ids []
    | _ ∷ rest ↦ mask_of vlan_id vlan_ids rest
  ]
]

-- The tests of `set_pvid`, and the ports that it writes.
unfoldable pub pvid_members : VlanPvidState → List Value → ℤ → Result (List ℕ)
pvid_members state ports vlan_id = do
  raise_if (not state.enabled) (action (mode_disabled "802.1Q VLAN"))
  members ← expand_trunk_ports ports state.trunk_groups
  raise_if (is_empty members) (action no_port_selected)
  raise_if (not (contains vlan_id state.vlan_ids)) (action (unknown_vlan vlan_id))
  vlan_mask ← mask_of vlan_id state.vlan_ids state.member_masks
  let invalid_members = keep (λ port. not (has_bit vlan_mask (port - 1))) members
  raise_if (not (is_empty invalid_members)) (action (not_members vlan_id invalid_members))
  ok members

unfoldable pub pvid_form : VlanPvidState → List Value → ℤ → Result (List (String × Param))
pvid_form state ports vlan_id = do
  members ← pvid_members state ports vlan_id
  mask ← encode_port_mask members
  ok (("pbm", number (pos mask)) ∷ ("pvid", number vlan_id) ∷ [])

module _ (c : Client) where
  unfoldable pub get_pvids : Action VlanPvidState
  get_pvids =
      fetch_variable c.library c.device c.account "Vlan8021QPvidRpm.htm" "pvid_ds" dict_type
      >>>= λ data'. lift (parse_pvids data')

  unfoldable pub set_pvid : List Value → ℤ → Action (Option String)
  set_pvid ports vlan_id = get_pvids >>>= λ state.
      lift (pvid_form state ports vlan_id) >>>= λ params. apply_get c "vlanPvidSet.cgi" params
