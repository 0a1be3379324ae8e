-- ===== src/Api/Settings.antt =====
-- The LED, reboot, IGMP snooping and loop prevention, and the states and counters of ports.
use hass_tplink_easy_smart.Base.{
  ℕ, zero, suc, ◌+◌, ◌-◌, ◌*◌, String, Bool, true, Option, none, some, List, [], ◌∷◌,
}
use hass_tplink_easy_smart.Base.Int.{ℤ}
use hass_tplink_easy_smart.Base.Lists.{take, drop}
use hass_tplink_easy_smart.Base.Order.{nat_ord, int_ord}
use hass_tplink_easy_smart.Python.{
  Value, str, int, bool, list, to_list, Result, ok, err, data_format, missing, invalid_port_count,
  invalid_integer, to_int, truthy, equals_one, index, replace_conversion_error, ◌>>=◌,
}
use hass_tplink_easy_smart.Classes.{
  PortSpeed, unknown, PortState, PortStatistics, IgmpSnoopingState, LoopPreventionState,
}
use hass_tplink_easy_smart.Core.Variables.{int_type, dict_type}
use hass_tplink_easy_smart.Core.Session.Monad.{Action, ⊤, lift, ◌>>=◌ as ◌>>>=◌, ◌>>◌ as ◌>>>◌}
use hass_tplink_easy_smart.Core.Session.Calls.{invalidate_authentication}
use hass_tplink_easy_smart.Core.Session.Variables.{fetch_variables, fetch_variable}
use hass_tplink_easy_smart.Api.Query.{number, text}
use hass_tplink_easy_smart.Api.Apply.{Client, apply_get, apply_post}
use hass_tplink_easy_smart.Api.Fields.{
  Fields, get_value, require_list, port_speed, require_dict, require_count, flag,
}
use hass_tplink_easy_smart.Api.Vlan.Mtu.{number_of_bool}

-- `isinstance(value, int)`, or the getter's `DataFormatError`, and `bool(value)`.
require_flag : Value → String → Result Bool
require_flag (int z) name = ok (truthy (int z))
require_flag (bool b) name = ok b
require_flag _ name = err (data_format (missing name))

unfoldable pub parse_led : Value → Result Bool
unfolding require_flag
parse_led value = require_flag value "led"

unfoldable pub parse_igmp : Value → Result IgmpSnoopingState
parse_igmp data' = do
  d ← require_dict data' "igmp_ds"
  ok (record { enabled = flag d "state"; report_suppression = flag d "suppressionState" })

unfoldable pub parse_loop : Value → Result LoopPreventionState
unfolding require_flag
parse_loop value = do enabled ← require_flag value "lpEn"; ok (record { enabled = enabled })

-- The lists of a page of port settings.
record Columns : Type 0 where
  enabled : List Value
  speed_config : List Value
  speed_actual : List Value
  flow_config : List Value
  flow_actual : List Value

-- The body of the loop of `get_port_states`.
port_state : Columns → ℕ → Result PortState
port_state columns n = do
  config ← index columns.speed_config (n - 1)
  speed_config ← port_speed config
  actual ← index columns.speed_actual (n - 1)
  speed_actual ← port_speed actual
  enabled ← index columns.enabled (n - 1)
  flow_config ← index columns.flow_config (n - 1)
  flow_actual ← index columns.flow_actual (n - 1)
  ok (record {
    number = n;
    enabled = equals_one enabled;
    flow_control_config = equals_one flow_config;
    flow_control_actual = equals_one flow_actual;
    speed_config = speed_config;
    speed_actual = speed_actual;
  })

port_states_from : Columns → ℕ → ℕ → Result (List PortState)
port_states_from columns n zero = ok []
port_states_from columns n (suc count) = do
  state ← port_state columns n
  rest ← port_states_from columns (n + 1) count
  ok (state ∷ rest)

-- `get_port_states`, from the variables of the page on.
unfoldable pub parse_port_states : Fields → Result (List PortState)
unfolding port_states_from port_state
parse_port_states data' = do
  all_info ← require_dict (get_value data' "all_info") "all_info"
  max_port_num ← require_count (get_value data' "max_port_num") (invalid_port_count "Port settings")
  enabled ← require_list all_info "state" max_port_num
  speed_config ← require_list all_info "spd_cfg" max_port_num
  speed_actual ← require_list all_info "spd_act" max_port_num
  flow_config ← require_list all_info "fc_cfg" max_port_num
  flow_actual ← require_list all_info "fc_act" max_port_num
  port_states_from
      (record {
        enabled = enabled;
        speed_config = speed_config;
        speed_actual = speed_actual;
        flow_config = flow_config;
        flow_actual = flow_actual;
      })
      1 max_port_num

-- `values[index] if isinstance(values, list) and len(values) > index`
item_at : Value → ℕ → Option Value
item_at (list items) i = elim (index (to_list items) i) [ ok v ↦ some v | err e ↦ none ]
item_at _ i = none

link_of : Option Value → Result PortSpeed
link_of none = ok unknown
link_of (some v) = port_speed v

enabled_of : Option Value → Bool
enabled_of none = true
enabled_of (some v) = truthy v

-- `[int(value) for value in values]`
to_counters : List Value → Result (List ℤ)
to_counters [] = ok []
to_counters (v ∷ values) = do z ← to_int v; rest ← to_counters values; ok (z ∷ rest)

-- The body of the loop of `get_port_statistics`, for the port of index `i`.
port_counters : List Value → Value → Value → ℕ → Result PortStatistics
port_counters packets states links i = do
  counters ←
      replace_conversion_error (data_format (invalid_integer "pkts"))
        (to_counters (take 4 (drop (i * 4) packets)))
  link_status ← link_of (item_at links i)
  tx_good ← index counters 0
  tx_bad ← index counters 1
  rx_good ← index counters 2
  rx_bad ← index counters 3
  ok (record {
    number = i + 1;
    enabled = enabled_of (item_at states i);
    link_status = link_status;
    tx_good_packets = tx_good;
    tx_bad_packets = tx_bad;
    rx_good_packets = rx_good;
    rx_bad_packets = rx_bad;
  })

statistics_from : List Value → Value → Value → ℕ → ℕ → Result (List PortStatistics)
statistics_from packets states links i zero = ok []
statistics_from packets states links i (suc count) = do
  item ← port_counters packets states links i
  rest ← statistics_from packets states links (i + 1) count
  ok (item ∷ rest)

-- `get_port_statistics`, from the variables of the page on.
unfoldable pub parse_port_statistics : Fields → Result (List PortStatistics)
unfolding statistics_from port_counters to_counters enabled_of link_of item_at
parse_port_statistics data' = do
  all_info ← require_dict (get_value data' "all_info") "all_info"
  max_port_num ←
      require_count (get_value data' "max_port_num") (invalid_port_count "Port statistics")
  packets ← require_list all_info "pkts" (max_port_num * 4)
  statistics_from packets (get_value all_info "state") (get_value all_info "link_status") 0
      max_port_num

module _ (c : Client) where
  unfoldable pub get_led_state : Action Bool
  get_led_state =
      fetch_variable c.library c.device c.account "TurnOnLEDRpm.htm" "led" int_type >>>= λ state.
      lift (parse_led state)

  unfoldable pub set_led_state : Bool → Action (Option String)
  set_led_state enabled =
      get_led_state
      >>> apply_get c "led_on_set.cgi"
          (("rd_led", number (number_of_bool enabled)) ∷ ("led_cfg", text "Apply") ∷ [])

  unfoldable pub reboot : Action ⊤
  reboot =
      apply_post c "reboot.cgi" (("reboot_op", str "reboot") ∷ ("save_op", str "false") ∷ [])
      >>> invalidate_authentication

  unfoldable pub get_igmp_snooping : Action IgmpSnoopingState
  get_igmp_snooping =
      fetch_variable c.library c.device c.account "IgmpSnoopingRpm.htm" "igmp_ds" dict_type
      >>>= λ data'. lift (parse_igmp data')

  unfoldable pub set_igmp_snooping : Bool → Bool → Action (Option String)
  set_igmp_snooping enabled report_suppression =
      get_igmp_snooping
      >>> apply_get c "igmpSnooping.cgi" (
          ("igmp_mode", number (number_of_bool enabled))
          ∷ ("reportSu_mode", number (number_of_bool report_suppression))
          ∷ ("Apply", text "Apply")
          ∷ [])

  unfoldable pub get_loop_prevention : Action LoopPreventionState
  get_loop_prevention =
      fetch_variable c.library c.device c.account "LoopPreventionRpm.htm" "lpEn" int_type
      >>>= λ enabled. lift (parse_loop enabled)

  unfoldable pub set_loop_prevention : Bool → Action (Option String)
  set_loop_prevention enabled =
      get_loop_prevention
      >>> apply_get c "loop_prevention_set.cgi"
          (("lpEn", number (number_of_bool enabled)) ∷ ("apply", text "Apply") ∷ [])

  unfoldable pub get_port_states : Action (List PortState)
  get_port_states =
      fetch_variables c.library c.device c.account "PortSettingRpm.htm"
        (("all_info", dict_type) ∷ ("max_port_num", int_type) ∷ [])
      >>>= λ data'. lift (parse_port_states data')

  unfoldable pub get_port_statistics : Action (List PortStatistics)
  get_port_statistics =
      fetch_variables c.library c.device c.account "PortStatisticsRpm.htm"
        (("all_info", dict_type) ∷ ("max_port_num", int_type) ∷ [])
      >>>= λ data'. lift (parse_port_statistics data')
