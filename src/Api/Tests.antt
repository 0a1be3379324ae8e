-- ===== src/Api/Tests.antt =====
-- The client against a concrete switch: a run of `set_lag`, and what the theorems say of it.
use hass_tplink_easy_smart.Api.Device.{digit_text}
use hass_tplink_easy_smart.Api.Device.{pairs}
use hass_tplink_easy_smart.Api.Device.{hex_value}
use hass_tplink_easy_smart.Api.Device.{compact}
use hass_tplink_easy_smart.Api.Device.{normalize_mac}
use hass_tplink_easy_smart.Api.Device.Laws.{normalize_mac_idem}
use hass_tplink_easy_smart.Base.{some, false}
use hass_tplink_easy_smart.Api.Limits.{
  set_qos_priority, set_bandwidth_control, set_storm_control, storm_types,
}
use hass_tplink_easy_smart.Api.Mirror.{set_port_mirror}
use hass_tplink_easy_smart.Api.Trace.Limits.{
  PriorityWrite, BandwidthWrite, StormWrite, set_qos_priority-trace, set_bandwidth_control-trace,
  set_storm_control-trace,
}
use hass_tplink_easy_smart.Api.Trace.Mirror.{MirrorWrite, set_port_mirror-trace}
use hass_tplink_easy_smart.Ports.Mask.{encode_from}
use hass_tplink_easy_smart.Ports.Mask.{encode_port_mask}
use hass_tplink_easy_smart.Base.Bits.{test_bit}
use hass_tplink_easy_smart.Ports.Mask.{has_bit}
use hass_tplink_easy_smart.Python.{index}
use hass_tplink_easy_smart.Api.Vlan.Pvid.{mask_of}
use hass_tplink_easy_smart.Api.Vlan.Tagged.{existing_ids}
use hass_tplink_easy_smart.Ports.Trunk.{group_of}
use hass_tplink_easy_smart.Ports.Trunk.{selected_groups}
use hass_tplink_easy_smart.Api.Vlan.Pvid.{pvid_members}
use hass_tplink_easy_smart.Ports.Trunk.{ports_where}
use hass_tplink_easy_smart.Ports.Trunk.{expand}
use hass_tplink_easy_smart.Api.Vlan.Tagged.{check_members}
use hass_tplink_easy_smart.Ports.Trunk.{expand_trunk_ports}
use hass_tplink_easy_smart.Api.Vlan.Tagged.{valid_name}
use hass_tplink_easy_smart.Api.Lag.{maximum}
use hass_tplink_easy_smart.Api.Lag.{minimum}
use hass_tplink_easy_smart.Api.Lag.{outside}
use hass_tplink_easy_smart.Ports.Validate.{is_invalid}
use hass_tplink_easy_smart.Base.Order.{insert}
use hass_tplink_easy_smart.Base.Order.{sorted_set}
use hass_tplink_easy_smart.Ports.Validate.{check_range}
use hass_tplink_easy_smart.Python.{to_int}
use hass_tplink_easy_smart.Ports.Validate.{to_ints}
use hass_tplink_easy_smart.Python.{replace_conversion_error}
use hass_tplink_easy_smart.Ports.Validate.{unique_ports}
use hass_tplink_easy_smart.Ports.Validate.{validate_ports}
use hass_tplink_easy_smart.Api.Lag.{bad_group}
use hass_tplink_easy_smart.Base.{
  ℕ, zero, suc, ◌≡◌, refl, String, true, false, none, some, List, [], ◌∷◌,
}
use hass_tplink_easy_smart.Base.Int.{pos}
use hass_tplink_easy_smart.Base.Order.{contains, nat_ord}
use hass_tplink_easy_smart.Python.{Value, int, dict, field, no_fields, ok}
use hass_tplink_easy_smart.Classes.{LagState, Vlan8021QState, VlanPvidState}
use hass_tplink_easy_smart.Core.Variables.{Library}
use hass_tplink_easy_smart.Core.Session.Monad.{get_request, post_request, response, Device, Session}
use hass_tplink_easy_smart.Core.Session.Login.{Credentials, authenticate}
use hass_tplink_easy_smart.Core.Session.Calls.{call}
use hass_tplink_easy_smart.Core.Session.Calls.Laws.{
  Called, call_lem, Authenticated, authenticate_lem,
}
use hass_tplink_easy_smart.Core.Session.Calls.Trace.{Extends}
use hass_tplink_easy_smart.Api.Query.{Param, number}
use hass_tplink_easy_smart.Api.Apply.{Client}
use hass_tplink_easy_smart.Api.Lag.{set_lag, lag_members}
use hass_tplink_easy_smart.Api.Lag.Laws.{lag_members_disjoint}
use hass_tplink_easy_smart.Api.Vlan.Tagged.{upsert_8021q_vlan, vlan_members}
use hass_tplink_easy_smart.Api.Vlan.Pvid.{set_pvid, pvid_form}
use hass_tplink_easy_smart.Api.Vlan.Pvid.Laws.{IsPvid, pvid_form_lem}
use hass_tplink_easy_smart.Api.Trace.{Traffic}
use hass_tplink_easy_smart.Api.Trace.Writes.{
  LagWrite, VlanWrite, PvidWrite, set_lag-trace, upsert_8021q_vlan-trace, set_pvid-trace,
}
use hass_tplink_easy_smart.Ports.Mask.{decode_port_mask}

-- Ports 1 and 2 form LAG 1 of 2; a LAG has up to 4 of the 8 ports.
abbrev trunk_conf : Value
trunk_conf = dict (field "maxTrunkNum" (int (pos 2)) (field "portNum" (int (pos 8)) no_fields))

-- Pages are told apart by their first byte.
abbrev page : List ℕ → String
page [] = ""
page (zero ∷ _) = "<script>var logonInfo = new Array(\n0, 0, 0);</script>"
page (suc _ ∷ _) = "<script>var trunk_conf = {};var portNumPerTrunk = 4;</script>"

abbrev library : Library
library = record {
  loads = λ s. some trunk_conf;
  str_of = λ v. "0";
  unicode_word = λ c. false;
  utf8 = λ bytes. some (page bytes);
  gb18030 = λ bytes. none;
  gb18030_replace = λ bytes. "";
}

-- A switch that accepts the login, shows the LAG page, and applies every write.
abbrev switch : Device
switch events (post_request path form) = response 200 (some (0 ∷ []))
switch events (get_request path) = response 200 (some (1 ∷ []))

abbrev account : Credentials
account = record { user = "admin"; password = "secret" }

abbrev client : Client
client = record { library = library; device = switch; account = account }

-- A new client.
abbrev start : Session
start = record {
  has_session = false;
  session_injected = false;
  is_initialized = false;
  events = [];
}

abbrev requested_ports : List Value
requested_ports = int (pos 4) ∷ int (pos 3) ∷ []

call_lem_example :
    let (r, after) = call library switch account (get_request "PortTrunkRpm.htm") start in
    Called library switch account start r after
call_lem_example =
    call_lem library switch account (get_request "PortTrunkRpm.htm") start
      (record { logged_in = λ h. h })

set_lag-trace_example :
    Extends
      (Traffic account "PortTrunkRpm.htm" (LagWrite client (pos 1)))
      start
      (set_lag client (pos 1) requested_ports start).1
set_lag-trace_example = set_lag-trace client (pos 1) requested_ports start

upsert_8021q_vlan-trace_example :
    Extends
      (Traffic account "Vlan8021QRpm.htm" (VlanWrite client (pos 10) "office" requested_ports []))
      start
      (upsert_8021q_vlan client (pos 10) "office" requested_ports [] start).1
upsert_8021q_vlan-trace_example =
    upsert_8021q_vlan-trace client (pos 10) "office" requested_ports [] start

set_pvid-trace_example :
    Extends
      (Traffic account "Vlan8021QPvidRpm.htm" (PvidWrite client requested_ports (pos 10)))
      start
      (set_pvid client requested_ports (pos 10) start).1
set_pvid-trace_example = set_pvid-trace client requested_ports (pos 10) start

authenticate_lem_example :
    let (r, after) = authenticate library switch account start in
    Authenticated library switch account start r after
authenticate_lem_example = authenticate_lem library switch account start

abbrev lag_state : LagState
lag_state = record { max_groups = 2; port_count = 8; ports_per_group = 4; groups = [] }

lag_run : lag_members lag_state (pos 1) requested_ports ≡ ok (3 ∷ 4 ∷ [])
unfolding lag_members bad_group validate_ports unique_ports replace_conversion_error to_ints to_int
    check_range sorted_set insert is_invalid outside minimum maximum
lag_run = refl

lag_members_disjoint_example : pos 1 ≡ pos 1
unfolding contains
lag_members_disjoint_example =
    lag_members_disjoint lag_state (pos 1) (pos 1) requested_ports requested_ports lag_run lag_run 3
      refl refl

-- Ports 1 and 2 are LAG 1.
abbrev vlan_state : Vlan8021QState
vlan_state = record {
  enabled = true;
  port_count = 4;
  max_vlans = 32;
  vlans =
      (record {
        vlan_id = pos 1;
        name = "Default";
        tagged_ports = [];
        untagged_ports = 1 ∷ 2 ∷ 3 ∷ 4 ∷ [];
      })
      ∷ [];
  trunk_groups = pos 1 ∷ pos 1 ∷ pos 0 ∷ pos 0 ∷ [];
}

abbrev tagged_ports : List Value
tagged_ports = int (pos 2) ∷ []

abbrev untagged_ports : List Value
untagged_ports = int (pos 4) ∷ []

vlan_run :
    vlan_members vlan_state (pos 10) "office" tagged_ports untagged_ports ≡ ok (1 ∷ 2 ∷ [], 4 ∷ [])
unfolding vlan_members valid_name expand_trunk_ports validate_ports unique_ports
    replace_conversion_error to_ints to_int check_range sorted_set insert is_invalid check_members
    expand ports_where contains selected_groups group_of existing_ids
vlan_run = refl

abbrev pvid_state : VlanPvidState
pvid_state = record {
  enabled = true;
  port_count = 4;
  pvids = pos 1 ∷ pos 1 ∷ pos 1 ∷ pos 1 ∷ [];
  vlan_ids = pos 1 ∷ pos 10 ∷ [];
  member_masks = pos 15 ∷ pos 11 ∷ [];
  trunk_groups = pos 1 ∷ pos 1 ∷ pos 0 ∷ pos 0 ∷ [];
}

abbrev pvid_params : List (String × Param)
pvid_params = ("pbm", number (pos 3)) ∷ ("pvid", number (pos 10)) ∷ []

pvid_run : pvid_form pvid_state tagged_ports (pos 10) ≡ ok pvid_params
unfolding pvid_form pvid_members expand_trunk_ports validate_ports unique_ports
    replace_conversion_error to_ints to_int check_range sorted_set insert is_invalid expand
    ports_where contains selected_groups group_of mask_of index has_bit test_bit encode_port_mask
    encode_from
pvid_run = refl

pvid_form_lem_example :
    (members : List ℕ) × (mask : ℕ) × IsPvid pvid_state tagged_ports (pos 10) members
    × (pvid_params ≡ ("pbm", number (pos mask)) ∷ ("pvid", number (pos 10)) ∷ [])
    × (decode_port_mask (int (pos mask)) 4 ≡ ok members)
pvid_form_lem_example = pvid_form_lem pvid_state tagged_ports (pos 10) pvid_run

set_qos_priority-trace_example :
    Extends
      (Traffic account "QosBasicRpm.htm" (PriorityWrite client (pos 3) (pos 4)))
      start
      (set_qos_priority client (pos 3) (pos 4) start).1
set_qos_priority-trace_example = set_qos_priority-trace client (pos 3) (pos 4) start

set_bandwidth_control-trace_example :
    Extends
      (Traffic account "QosBandWidthControlRpm.htm"
        (BandwidthWrite client (pos 3) (pos 512) (pos 0)))
      start
      (set_bandwidth_control client (pos 3) (pos 512) (pos 0) start).1
set_bandwidth_control-trace_example =
    set_bandwidth_control-trace client (pos 3) (pos 512) (pos 0) start

set_storm_control-trace_example :
    Extends
      (Traffic account "QosStormControlRpm.htm"
        (StormWrite client (pos 3) true (pos 512) (storm_types true false true)))
      start
      (set_storm_control client (pos 3) true (pos 512) true false true start).1
set_storm_control-trace_example =
    set_storm_control-trace client (pos 3) true (pos 512) true false true start

set_port_mirror-trace_example :
    Extends
      (Traffic account "PortMirrorRpm.htm"
        (MirrorWrite client true (some (pos 1)) requested_ports []))
      start
      (set_port_mirror client true (some (pos 1)) requested_ports [] start).1
set_port_mirror-trace_example =
    set_port_mirror-trace client true (some (pos 1)) requested_ports [] start

mac_run : normalize_mac (some "50-d4-f7-aa-bb-0c") ≡ some "50:D4:F7:AA:BB:0C"
unfolding normalize_mac compact hex_value pairs digit_text
mac_run = refl

normalize_mac_idem_example : normalize_mac (some "50:D4:F7:AA:BB:0C") ≡ some "50:D4:F7:AA:BB:0C"
normalize_mac_idem_example = normalize_mac_idem (some "50-d4-f7-aa-bb-0c") mac_run
