-- ===== src/Api/Lag.antt =====
-- `get_lags`, `set_lag` and `delete_lag`
pub mod Laws
use Prim.Native.String.{◌++◌ as str_append}
use hass_tplink_easy_smart.Base.{
  ℕ, zero, suc, ◌+◌, ◌-◌, ◌*◌, min, String, Bool, false, ◌||◌, not, Option, List, [], ◌∷◌, ◌++◌,
  map, ltb, ◌==◌, if◌then◌else◌,
}
use hass_tplink_easy_smart.Base.Int.{ℤ, pos, pos_part, ltb_ℤ, eqb_ℤ}
use hass_tplink_easy_smart.Base.Lists.{length, take, keep, is_empty}
use hass_tplink_easy_smart.Base.Assoc.{insert, nat_eq}
use hass_tplink_easy_smart.Python.{
  Value, list, no_items, Result, ok, err, data_format, invalid_limits, action, not_between,
  invalid_lag_size, lag_ports_out_of_range, replace_conversion_error, raise_if, ◌>>=◌, ◌>>◌,
}
use hass_tplink_easy_smart.Classes.{LagState}
use hass_tplink_easy_smart.Core.Variables.{int_type, dict_type}
use hass_tplink_easy_smart.Core.Session.Monad.{Action, Session, lift, pure, ⊤, ◌>>=◌ as ◌>>>=◌}
use hass_tplink_easy_smart.Core.Session.Variables.{fetch_variables}
use hass_tplink_easy_smart.Ports.Trunk.{ports_where}
use hass_tplink_easy_smart.Ports.Validate.{validate_ports}
use hass_tplink_easy_smart.Api.Query.{Param, number, text, str_of_int}
use hass_tplink_easy_smart.Api.Apply.{Client, apply_get}
use hass_tplink_easy_smart.Api.Fields.{
  Fields, get_default, get_value, require_dict, int_list, number_field,
}

is_nonzero : ℤ → Bool
is_nonzero z = not (eqb_ℤ z (pos 0))

-- The loop over the group numbers, `count` of them from `group_id` on.
groups_from : Fields → ℕ → ℕ → ℕ → List (ℕ × List ℕ) → Result (List (ℕ × List ℕ))
unfolding is_nonzero
groups_from configuration port_count group_id zero groups = ok groups
groups_from configuration port_count group_id (suc count) groups = do
  values ←
      int_list
        (get_default configuration (str_append "portStr_g" (str_of_int (pos group_id)))
          (list no_items))
        "LAG ports" 0
  groups_from configuration port_count (group_id + 1) count
      (insert group_id (ports_where is_nonzero 1 (take port_count values)) groups)

-- The three limits, converted.
limits : Fields → Fields → Result (ℤ × ℤ × ℤ)
limits configuration data' = do
  max_groups ← number_field configuration "maxTrunkNum"
  port_count ← number_field configuration "portNum"
  ports_per_group ← number_field data' "portNumPerTrunk"
  ok (max_groups, port_count, ports_per_group)

-- `get_lags`, from the variables of the page on.
unfoldable pub parse_lags : Fields → Result LagState
unfolding groups_from limits
parse_lags data' = do
  configuration ← require_dict (get_value data' "trunk_conf") "trunk_conf"
  found ← replace_conversion_error (data_format (invalid_limits "LAG")) (limits configuration data')
  raise_if (ltb_ℤ found.0 (pos 1) || (ltb_ℤ found.1 (pos 2) || ltb_ℤ found.2 (pos 2)))
      (data_format (invalid_limits "LAG"))
  groups ← groups_from configuration (pos_part found.1) 1 (pos_part found.0) []
  ok (record {
    max_groups = pos_part found.0;
    port_count = pos_part found.1;
    ports_per_group = pos_part found.2;
    groups = groups;
  })

-- `group_id < 1 or group_id > state.max_groups`
unfoldable pub bad_group : LagState → ℤ → Bool
bad_group state group_id = ltb_ℤ group_id (pos 1) || ltb_ℤ (pos state.max_groups) group_id

-- The ports that the switch allows in a group: its block of `ports_per_group` ports.
unfoldable pub minimum : LagState → ℤ → ℕ
minimum state group_id = (pos_part group_id - 1) * state.ports_per_group + 1

unfoldable pub maximum : LagState → ℤ → ℕ
maximum state group_id = min (pos_part group_id * state.ports_per_group) state.port_count

unfoldable pub outside : LagState → ℤ → ℕ → Bool
outside state group_id port = ltb port (minimum state group_id) || ltb (maximum state group_id) port

unfoldable pub lag_form : ℤ → List ℕ → List (String × Param)
lag_form group_id members =
    ("groupId", number group_id)
    ∷ ("setapply", text "Apply")
    ∷ map (λ port. ("portid", number (pos port))) members

-- The tests of `set_lag`, and the members that it writes.
unfoldable pub lag_members : LagState → ℤ → List Value → Result (List ℕ)
lag_members state group_id ports = do
  raise_if (bad_group state group_id)
      (action (not_between "group_id" (pos 1) (pos state.max_groups)))
  members ← validate_ports ports state.port_count false
  raise_if (ltb (length members) 2 || ltb state.ports_per_group (length members))
      (action (invalid_lag_size state.ports_per_group))
  raise_if (not (is_empty (keep (outside state group_id) members)))
      (action (lag_ports_out_of_range group_id (minimum state group_id) (maximum state group_id)))
  ok members

unfoldable pub check_group : LagState → ℤ → Result (List (String × Param))
check_group state group_id = do
  raise_if (bad_group state group_id)
      (action (not_between "group_id" (pos 1) (pos state.max_groups)))
  ok (("chk_trunk", number group_id) ∷ ("setDelete", text "Delete") ∷ [])

module _ (c : Client) where
  unfoldable pub get_lags : Action LagState
  get_lags =
      fetch_variables c.library c.device c.account "PortTrunkRpm.htm"
        (("trunk_conf", dict_type) ∷ ("portNumPerTrunk", int_type) ∷ [])
      >>>= λ data'. lift (parse_lags data')

  unfoldable pub set_lag : ℤ → List Value → Action (Option String)
  set_lag group_id ports = get_lags >>>= λ state.
      lift (lag_members state group_id ports) >>>= λ members.
      apply_get c "port_trunk_set.cgi" (lag_form group_id members)

  unfoldable pub delete_lag : ℤ → Action (Option String)
  delete_lag group_id = get_lags >>>= λ state.
      lift (check_group state group_id) >>>= λ params. apply_get c "port_trunk_display.cgi" params
