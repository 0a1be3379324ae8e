-- ===== src/Api/Limits.antt =====
-- QoS priorities, bandwidth limits and storm control of ports: settings of a port apply to its LAG.
use hass_tplink_easy_smart.Base.{
  ℕ, zero, suc, ◌+◌, ◌-◌, ◌*◌, String, Bool, true, false, not, ◌&&◌, ◌||◌, Option, none, some, List,
  [], ◌∷◌, ◌++◌, map, if◌then◌else◌,
}
use hass_tplink_easy_smart.Base.Int.{ℤ, pos, ltb_ℤ, leb_ℤ, ◌-ℤ◌}
use hass_tplink_easy_smart.Base.Lists.{is_empty, take}
use hass_tplink_easy_smart.Base.Order.{nat_ord, int_ord}
use hass_tplink_easy_smart.Python.{
  Value, str, int, Result, ok, err, data_format, action, invalid_port_count, invalid_mode_of,
  not_between, not_port_based, invalid_mode, no_storm_type, value_error, to_int, index, raise_if,
  replace_conversion_error, ◌>>=◌, ◌>>◌,
}
use hass_tplink_easy_smart.Classes.{
  QosMode, qos_mode_of, qos_mode_number, port_based, QosState, BandwidthControl, StormControl,
}
use hass_tplink_easy_smart.Core.Variables.{int_type, list_type}
use hass_tplink_easy_smart.Core.Session.Monad.{
  Action, ⊤, pure, lift, ◌>>=◌ as ◌>>>=◌, ◌>>◌ as ◌>>>◌,
}
use hass_tplink_easy_smart.Core.Session.Variables.{fetch_variables}
use hass_tplink_easy_smart.Ports.Mask.{has_bit}
use hass_tplink_easy_smart.Ports.Trunk.{ports_for_trunk}
use hass_tplink_easy_smart.Api.Query.{str_of_int}
use hass_tplink_easy_smart.Api.Apply.{Client, apply_post}
use hass_tplink_easy_smart.Api.Fields.{Fields, get_value, int_list, require_count}
use hass_tplink_easy_smart.Api.Vlan.Mtu.{number_of_bool}
use Prim.Native.String.{◌++◌ as str_append}

-- `get_qos`, from the variables of the page on.
qos_mode : Value → Result QosMode
qos_mode value =
    to_int value >>= λ z. elim (qos_mode_of z) [ none ↦ err value_error | some mode ↦ ok mode ]

unfoldable pub parse_qos : Fields → Result QosState
unfolding qos_mode
parse_qos data' = do
  port_count ← require_count (get_value data' "portNumber") (invalid_port_count "QoS settings")
  mode ←
      replace_conversion_error (data_format (invalid_mode_of "QoS settings"))
        (qos_mode (get_value data' "qosMode"))
  priorities ← int_list (get_value data' "pPri") "pPri" port_count
  trunk_groups ← int_list (get_value data' "pTrunk") "pTrunk" port_count
  ok (record {
    mode = mode;
    priorities = take port_count priorities;
    trunk_groups = take port_count trunk_groups;
  })

-- `{f"sel_{port}": 1 for port in ports}`
unfoldable pub selected : List ℕ → List (String × Value)
selected ports = map (λ port. (str_append "sel_" (str_of_int (pos port)), int (pos 1))) ports

is_port_based : QosMode → Bool
is_port_based port_based = true
is_port_based _ = false

-- The tests of `set_qos_priority`, and the ports that it sets.
unfoldable pub priority_ports : QosState → ℤ → ℤ → Result (List ℕ)
unfolding is_port_based
priority_ports state port_number priority = do
  raise_if (not (is_port_based state.mode)) (action not_port_based)
  raise_if (ltb_ℤ priority (pos 1) || ltb_ℤ (pos 4) priority)
      (action (not_between "priority" (pos 1) (pos 4)))
  ports_for_trunk port_number state.trunk_groups

unfoldable pub priority_form : ℤ → List ℕ → List (String × Value)
priority_form priority ports =
    ("port_queue", int (priority -ℤ pos 1)) ∷ ("apply", str "Apply") ∷ selected ports

-- The items from port `number` on, `count` of them, three values each.
bandwidth_from : List ℤ → ℕ → ℕ → Result (List BandwidthControl)
bandwidth_from values n zero = ok []
bandwidth_from values n (suc count) = do
  ingress ← index values ((n - 1) * 3)
  egress ← index values ((n - 1) * 3 + 1)
  group ← index values ((n - 1) * 3 + 2)
  rest ← bandwidth_from values (n + 1) count
  ok (
      record { number = n; ingress_kbps = ingress; egress_kbps = egress; trunk_group = group }
      ∷ rest)

-- `get_bandwidth_controls`, from the variables of the page on.
unfoldable pub parse_bandwidth : Fields → Result (List BandwidthControl)
unfolding bandwidth_from
parse_bandwidth data' = do
  port_count ←
      require_count (get_value data' "portNumber") (invalid_port_count "Bandwidth settings")
  values ← int_list (get_value data' "bcInfo") "bcInfo" (port_count * 3)
  bandwidth_from values 1 port_count

-- `not low <= value <= high`
unfoldable pub not_within : ℤ → ℤ → ℤ → Bool
not_within low high value = not (leb_ℤ low value && leb_ℤ value high)

-- The tests of `set_bandwidth_control` ahead of the read.
unfoldable pub check_rates : ℤ → ℤ → Result ⊤
check_rates ingress_kbps egress_kbps = do
  raise_if (not_within (pos 0) (pos 1000000) ingress_kbps)
      (action (not_between "ingress_kbps" (pos 0) (pos 1000000)))
  raise_if (not_within (pos 0) (pos 1000000) egress_kbps)
      (action (not_between "egress_kbps" (pos 0) (pos 1000000)))

unfoldable pub bandwidth_ports : ℤ → List BandwidthControl → Result (List ℕ)
bandwidth_ports port_number state =
    ports_for_trunk port_number (map (λ (item : BandwidthControl). item.trunk_group) state)

unfoldable pub bandwidth_form : ℤ → ℤ → List ℕ → List (String × Value)
bandwidth_form ingress_kbps egress_kbps ports =
    ("igrRate", int ingress_kbps)
    ∷ ("egrRate", int egress_kbps)
    ∷ ("applay", str "Apply")
    ∷ selected ports

storm_from : List ℤ → ℕ → ℕ → Result (List StormControl)
storm_from values n zero = ok []
storm_from values n (suc count) = do
  rate ← index values ((n - 1) * 3)
  mask ← index values ((n - 1) * 3 + 1)
  group ← index values ((n - 1) * 3 + 2)
  rest ← storm_from values (n + 1) count
  ok (
      record {
        number = n;
        enabled = ltb_ℤ (pos 0) rate && ltb_ℤ (pos 0) mask;
        rate_kbps = rate;
        unknown_unicast = has_bit mask 0;
        multicast = has_bit mask 1;
        broadcast = has_bit mask 2;
        trunk_group = group;
      }
      ∷ rest)

-- `get_storm_controls`, from the variables of the page on.
unfoldable pub parse_storm : Fields → Result (List StormControl)
unfolding storm_from
parse_storm data' = do
  port_count ←
      require_count (get_value data' "portNumber") (invalid_port_count "Storm-control settings")
  values ← int_list (get_value data' "scInfo") "scInfo" (port_count * 3)
  storm_from values 1 port_count

-- `types`
unfoldable pub storm_types : Bool → Bool → Bool → List ℤ
storm_types unknown_unicast multicast broadcast =
    (if unknown_unicast then pos 1 ∷ [] else [])
    ++ ((if multicast then pos 2 ∷ [] else []) ++ (if broadcast then pos 4 ∷ [] else []))

-- The tests of `set_storm_control` ahead of the read.
unfoldable pub check_storm : Bool → ℤ → List ℤ → Result ⊤
check_storm enabled rate_kbps types = do
  raise_if (enabled && not_within (pos 1) (pos 1000000) rate_kbps)
      (action (not_between "rate_kbps" (pos 1) (pos 1000000)))
  raise_if (enabled && is_empty types) (action no_storm_type)

unfoldable pub storm_ports : ℤ → List StormControl → Result (List ℕ)
storm_ports port_number state =
    ports_for_trunk port_number (map (λ (item : StormControl). item.trunk_group) state)

unfoldable pub storm_form : Bool → ℤ → List ℤ → List ℕ → List (String × Value)
storm_form enabled rate_kbps types ports =
    ("state", int (number_of_bool enabled))
    ∷ ("applay", str "Apply")
    ∷ ((if enabled
          then ("rate", int rate_kbps) ∷ map (λ item. ("stormType", int item)) types
          else [])
        ++ selected ports)

module _ (c : Client) where
  unfoldable pub get_qos : Action QosState
  get_qos =
      fetch_variables c.library c.device c.account "QosBasicRpm.htm" (
        ("portNumber", int_type)
        ∷ ("qosMode", int_type)
        ∷ ("pPri", list_type)
        ∷ ("pTrunk", list_type)
        ∷ [])
      >>>= λ data'. lift (parse_qos data')

  -- A mode that is not of the enumeration is refused after the read.
  unfoldable pub set_qos_mode : ℤ → Action ⊤
  set_qos_mode mode =
      get_qos
      >>> (lift
            (elim (qos_mode_of mode) [ none ↦ err (action invalid_mode) | some parsed ↦ ok parsed ])
          >>>= λ parsed_mode.
              apply_post c "qos_mode_set.cgi" (
                ("rd_qosmode", int (pos (qos_mode_number parsed_mode)))
                ∷ ("qosmode", str "Apply")
                ∷ [])
              >>> pure tt)

  unfoldable pub set_qos_priority : ℤ → ℤ → Action (Option String)
  set_qos_priority port_number priority = get_qos >>>= λ state.
      lift (priority_ports state port_number priority) >>>= λ ports.
      apply_post c "qos_port_priority_set.cgi" (priority_form priority ports)

  unfoldable pub get_bandwidth_controls : Action (List BandwidthControl)
  get_bandwidth_controls =
      fetch_variables c.library c.device c.account "QosBandWidthControlRpm.htm"
        (("portNumber", int_type) ∷ ("bcInfo", list_type) ∷ [])
      >>>= λ data'. lift (parse_bandwidth data')

  unfoldable pub set_bandwidth_control : ℤ → ℤ → ℤ → Action (Option String)
  set_bandwidth_control port_number ingress_kbps egress_kbps =
      lift (check_rates ingress_kbps egress_kbps)
      >>> (get_bandwidth_controls >>>= λ state.
          lift (bandwidth_ports port_number state) >>>= λ ports.
          apply_post c "qos_bandwidth_set.cgi" (bandwidth_form ingress_kbps egress_kbps ports))

  unfoldable pub get_storm_controls : Action (List StormControl)
  get_storm_controls =
      fetch_variables c.library c.device c.account "QosStormControlRpm.htm"
        (("portNumber", int_type) ∷ ("scInfo", list_type) ∷ [])
      >>>= λ data'. lift (parse_storm data')

  unfoldable pub set_storm_control : ℤ → Bool → ℤ → Bool → Bool → Bool → Action (Option String)
  set_storm_control port_number enabled rate_kbps unknown_unicast multicast broadcast =
      let types = storm_types unknown_unicast multicast broadcast in
      lift (check_storm enabled rate_kbps types)
      >>> (get_storm_controls >>>= λ state. lift (storm_ports port_number state) >>>= λ ports.
          apply_post c "qos_storm_set.cgi" (storm_form enabled rate_kbps types ports))
