-- ===== src/Api/Vlan/Mtu.antt =====
-- `get_mtu_vlan` and `set_mtu_vlan`
use hass_tplink_easy_smart.Base.{
  ℕ, Bool, true, false, not, ◌&&◌, ◌||◌, Option, none, some, [], ◌∷◌, ◌==◌,
}
use hass_tplink_easy_smart.Base.Int.{ℤ, pos, pos_part, ltb_ℤ}
use hass_tplink_easy_smart.Python.{
  Value, int, Result, ok, data_format, invalid_limits, replace_conversion_error, raise_if, index,
  ◌>>=◌, ◌>>◌,
}
use hass_tplink_easy_smart.Classes.{MtuVlanState}
use hass_tplink_easy_smart.Core.Variables.{dict_type}
use hass_tplink_easy_smart.Core.Session.Monad.{
  Action, slept, lift, pure, emit, ⊤, ◌>>=◌ as ◌>>>=◌, ◌>>◌ as ◌>>>◌,
}
use hass_tplink_easy_smart.Core.Session.Variables.{fetch_variable}
use hass_tplink_easy_smart.Ports.Validate.{validate_ports}
use hass_tplink_easy_smart.Api.Query.{number, text}
use hass_tplink_easy_smart.Api.Apply.{Client, apply_get}
use hass_tplink_easy_smart.Api.Fields.{Fields, require_dict, flag, number_field}

port_fields : Fields → Result (ℤ × ℤ)
port_fields d = do
  port_count ← number_field d "portNum"
  uplink_port ← number_field d "uplinkPort"
  ok (port_count, uplink_port)

-- `get_mtu_vlan`, from the variable of the page on.
unfoldable pub parse_mtu_vlan : Value → Result MtuVlanState
unfolding port_fields
parse_mtu_vlan data' = do
  d ← require_dict data' "mtu_ds"
  found ← replace_conversion_error (data_format (invalid_limits "MTU VLAN")) (port_fields d)
  raise_if (ltb_ℤ found.0 (pos 1) || (ltb_ℤ found.1 (pos 1) || ltb_ℤ found.0 found.1))
      (data_format (invalid_limits "MTU VLAN"))
  ok (record {
    enabled = flag d "state";
    port_count = pos_part found.0;
    uplink_port = pos_part found.1;
  })

unfoldable pub number_of_bool : Bool → ℤ
number_of_bool true = pos 1
number_of_bool false = pos 0

-- `port`: the port asked for, or the present one, validated.
unfoldable pub chosen_port : MtuVlanState → Option ℤ → Result ℕ
chosen_port state none = do
  ports ← validate_ports (int (pos state.uplink_port) ∷ []) state.port_count false
  index ports 0
chosen_port state (some uplink_port) = do
  ports ← validate_ports (int uplink_port ∷ []) state.port_count false
  index ports 0

same_flag : Bool → Bool → Bool
same_flag true b = b
same_flag false b = not b

module _ (c : Client) where
  unfoldable pub get_mtu_vlan : Action MtuVlanState
  get_mtu_vlan =
      fetch_variable c.library c.device c.account "VlanMtuRpm.htm" "mtu_ds" dict_type >>>= λ data'.
      lift (parse_mtu_vlan data')

  -- The first form, if the mode changes.
  write_mode : Bool → Bool → Action ⊤
  write_mode true enabled = pure tt
  write_mode false enabled =
      apply_get c "mtuVlanSet.cgi"
        (("mtu_en", number (number_of_bool enabled)) ∷ ("mtu_mode", text "Apply") ∷ [])
      >>> pure tt

  -- The pause after VLAN mode was enabled.
  pause : Bool → Action ⊤
  pause true = pure tt
  pause false = emit (slept (pos 1))

  write_uplink : Bool → Bool → ℕ → Action ⊤
  write_uplink false was_enabled port = pure tt
  write_uplink true was_enabled port =
      pause was_enabled
      >>> (apply_get c "mtuVlanSet.cgi"
            (("uplinkPort", number (pos port)) ∷ ("mtu_uplink", text "Apply") ∷ [])
          >>> pure tt)

  unfoldable pub set_mtu_vlan : Bool → Option ℤ → Action ⊤
  unfolding write_mode pause write_uplink same_flag number_of_bool
  set_mtu_vlan enabled uplink_port = get_mtu_vlan >>>= λ state.
      lift (chosen_port state uplink_port) >>>= λ port.
      write_mode (same_flag state.enabled enabled) enabled
      >>> write_uplink (enabled && not (port == state.uplink_port)) state.enabled port
