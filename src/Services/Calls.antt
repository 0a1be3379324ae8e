-- ===== src/Services/Calls.antt =====
-- services.py: a call of a service, its data as the schemas of `SERVICES` leave it, finds the
-- coordinator with the given address and runs one of its commands.
use Prim.Native.Char.{code}
use text.Mathlib.Text.{◌==◌ as str_eq}
use hass_tplink_easy_smart.Base.{
  ℕ, ◌-◌, String, Bool, true, false, not, ◌&&◌, Option, none, some, List, [], ◌∷◌, map, leb, ◌==◌,
  if◌then◌else◌,
}
use hass_tplink_easy_smart.Base.Int.{ℤ}
use hass_tplink_easy_smart.Base.Assoc.{insert, string_eq}
use hass_tplink_easy_smart.Python.{
  int, Result, ok, err, Float, other_error, home_assistant_error, service_not_found,
}
use hass_tplink_easy_smart.Classes.{
  TpLinkSystemInfo, QosMode, port_based, ieee_8021p, dscp_ieee_8021p, PoePriority, high_priority,
  middle_priority, low_priority, PoePowerLimit, auto_limit, limit_1, limit_2, limit_3, limit_4,
  PowerLimit, level, watts,
}
use hass_tplink_easy_smart.Statistics.{Floats}
use hass_tplink_easy_smart.Core.Session.Monad.{Event, ⊤, raise, lift, ◌>>=◌ as ◌>>>=◌}
use hass_tplink_easy_smart.Api.Apply.{Client}
use hass_tplink_easy_smart.Api.Poe.{Arithmetic}
use hass_tplink_easy_smart.Coordinator.State.{Coordinator}
use hass_tplink_easy_smart.Coordinator.Refresh.{Surroundings, Update}
use hass_tplink_easy_smart.Coordinator.Commands.{
  async_set_igmp_snooping, async_set_loop_prevention, async_run_cable_diagnostic,
  async_set_qos_mode, async_set_qos_priority, async_set_poe_limit, async_set_port_poe_settings,
}
use hass_tplink_easy_smart.Coordinator.Configuration.{
  async_set_port_mirror, async_set_lag, async_delete_lag, async_set_mtu_vlan,
  async_set_port_vlan_enabled, async_upsert_port_vlan, async_delete_port_vlan,
  async_set_8021q_vlan_enabled, async_upsert_8021q_vlan, async_delete_8021q_vlan, async_set_pvid,
  async_set_bandwidth_control, async_set_storm_control,
}

-- `ServiceNames`, each with the fields of its schema.
pub data Operation : Type 0 where
  general_poe_limit : (power_limit : Float) → Operation
  port_poe_settings :
      (port_number : ℤ) (enabled : Bool) (priority power_limit : String) (manual : Option Float)
      → Operation
  igmp_snooping : (enabled report_suppression : Bool) → Operation
  loop_protection : (enabled : Bool) → Operation
  cable_test : (port_number : ℤ) → Operation
  port_mirroring :
      (enabled : Bool) (destination_port : Option ℤ) (ingress_ports egress_ports : List ℤ)
      → Operation
  lag_setting : (group_id : ℤ) (ports : List ℤ) → Operation
  lag_removal : (group_id : ℤ) → Operation
  mtu_vlan_setting : (enabled : Bool) (uplink_port : Option ℤ) → Operation
  port_vlan_mode : (enabled : Bool) → Operation
  port_vlan_setting : (vlan_id : ℤ) (member_ports : List ℤ) → Operation
  port_vlan_removal : (vlan_id : ℤ) → Operation
  tagged_vlan_mode : (enabled : Bool) → Operation
  tagged_vlan_setting :
      (vlan_id : ℤ) (name : String) (tagged_ports untagged_ports : List ℤ) → Operation
  tagged_vlan_removal : (vlan_id : ℤ) → Operation
  pvid_setting : (ports : List ℤ) (vlan_id : ℤ) → Operation
  qos_mode_setting : (mode : String) → Operation
  qos_priority_setting : (port_number priority : ℤ) → Operation
  bandwidth_setting : (port_number ingress_kbps egress_kbps : ℤ) → Operation
  storm_setting :
      (port_number : ℤ) (enabled : Bool) (rate_kbps : ℤ)
      (unknown_unicast multicast broadcast : Bool)
      → Operation
  unknown_service : (name : String) → Operation

pub record ServiceCall : Type 0 where
  pub mac_address : String
  pub operation : Operation

-- `_POE_PRIORITY_MAP`
unfoldable pub priority_named : String → Option PoePriority
priority_named name =
    if str_eq name "High"
    then some high_priority
    else if str_eq name "Middle"
    then some middle_priority
    else if str_eq name "Low"
    then some low_priority
    else none

-- `_POE_POWER_LIMIT_MAP`, where `some none` is "Manual".
unfoldable pub power_limit_named : String → Option (Option PoePowerLimit)
power_limit_named name =
    if str_eq name "Auto"
    then some (some auto_limit)
    else if str_eq name "Class 1"
    then some (some limit_1)
    else if str_eq name "Class 2"
    then some (some limit_2)
    else if str_eq name "Class 3"
    then some (some limit_3)
    else if str_eq name "Class 4"
    then some (some limit_4)
    else if str_eq name "Manual"
    then some none
    else none

-- `_QOS_MODE_MAP`
unfoldable pub qos_mode_named : String → Option QosMode
qos_mode_named name =
    if str_eq name "Port based"
    then some port_based
    else if str_eq name "802.1p based"
    then some ieee_8021p
    else if str_eq name "DSCP/802.1p based"
    then some dscp_ieee_8021p
    else none

-- A subscript of one of these maps; `other_error` is `KeyError`.
unfoldable pub item_named : {A : Type 0} → Option A → Result A
item_named none = err other_error
item_named (some a) = ok a

-- The limit, from the map or from `manual_power_limit`.
unfoldable pub chosen_limit : Option PoePowerLimit → Option Float → Result PowerLimit
chosen_limit (some limit) manual = ok (level limit)
chosen_limit none (some x) = ok (watts x)
chosen_limit none none = err home_assistant_error

module _ (w : Surroundings) where
  -- What the three functions of services run on the coordinator.
  unfoldable pub run_operation : Operation → Update w ⊤
  unfolding item_named chosen_limit
  run_operation (general_poe_limit limit) = async_set_poe_limit w limit
  run_operation (port_poe_settings port_number enabled priority power_limit manual) =
      lift (item_named (priority_named priority)) >>>= λ priority.
      lift (item_named (power_limit_named power_limit)) >>>= λ limit.
      lift (chosen_limit limit manual) >>>= λ limit.
      async_set_port_poe_settings w port_number enabled priority limit
  run_operation (igmp_snooping enabled report_suppression) =
      async_set_igmp_snooping w enabled report_suppression
  run_operation (loop_protection enabled) = async_set_loop_prevention w enabled
  run_operation (cable_test port_number) = async_run_cable_diagnostic w port_number
  run_operation (port_mirroring enabled destination_port ingress_ports egress_ports) =
      async_set_port_mirror w enabled destination_port (map int ingress_ports)
        (map int egress_ports)
  run_operation (lag_setting group_id ports) = async_set_lag w group_id (map int ports)
  run_operation (lag_removal group_id) = async_delete_lag w group_id
  run_operation (mtu_vlan_setting enabled uplink_port) = async_set_mtu_vlan w enabled uplink_port
  run_operation (port_vlan_mode enabled) = async_set_port_vlan_enabled w enabled
  run_operation (port_vlan_setting vlan_id member_ports) =
      async_upsert_port_vlan w vlan_id (map int member_ports)
  run_operation (port_vlan_removal vlan_id) = async_delete_port_vlan w vlan_id
  run_operation (tagged_vlan_mode enabled) = async_set_8021q_vlan_enabled w enabled
  run_operation (tagged_vlan_setting vlan_id name tagged_ports untagged_ports) =
      async_upsert_8021q_vlan w vlan_id name (map int tagged_ports) (map int untagged_ports)
  run_operation (tagged_vlan_removal vlan_id) = async_delete_8021q_vlan w vlan_id
  run_operation (pvid_setting ports vlan_id) = async_set_pvid w (map int ports) vlan_id
  run_operation (qos_mode_setting mode) =
      lift (item_named (qos_mode_named mode)) >>>= λ mode. async_set_qos_mode w mode
  run_operation (qos_priority_setting port_number priority) =
      async_set_qos_priority w port_number priority
  run_operation (bandwidth_setting port_number ingress_kbps egress_kbps) =
      async_set_bandwidth_control w port_number ingress_kbps egress_kbps
  run_operation (storm_setting port_number enabled rate_kbps unknown_unicast multicast broadcast) =
      async_set_storm_control w port_number enabled rate_kbps unknown_unicast multicast broadcast
  run_operation (unknown_service name) = raise service_not_found

-- The `except` clauses of the services.
unfoldable pub wrapped : Result ⊤ → Result ⊤
wrapped (ok done) = ok done
wrapped (err home_assistant_error) = err home_assistant_error
wrapped (err service_not_found) = err service_not_found
wrapped (err _) = err home_assistant_error

-- A coordinator, and the client that its API uses.
pub record Managed (F : Type 0) : Type 0 where
  pub client : Client
  pub coordinator : Coordinator F

-- `replace("-", ":").upper()` of a character; an address has ASCII characters only.
unfoldable pub normalized_character : ℕ → ℕ
normalized_character c = if c == b'-' then b':' else if leb b'a' c && leb c b'z' then c - 32 else c

unfoldable pub normalized : String → List ℕ
unfolding normalized_character
normalized String.[] = []
normalized (String.◌∷◌ c s) = normalized_character (code c) ∷ normalized s

unfoldable pub same_codes : List ℕ → List ℕ → Bool
same_codes [] [] = true
same_codes (a ∷ as') (b ∷ bs) = a == b && same_codes as' bs
same_codes _ _ = false

-- `switch_info and switch_info.mac and ... == normalized_mac`
unfoldable pub has_address : List ℕ → Option TpLinkSystemInfo → Bool
has_address mac none = false
has_address mac (some info) = not (str_eq info.mac "") && same_codes (normalized info.mac) mac

-- The coordinators of `hass.data[DOMAIN]`, by the key of their entry.
abbrev pub Entries : Type 0 → Type 0
Entries F = List (String × Option (Managed F))

-- The first entry that has a coordinator of which `test` holds.
unfoldable pub found_first :
    {V : Type 0} → (V → Bool) → List (String × Option V) → Option (String × V)
found_first test [] = none
found_first test ((key, none) ∷ entries) = found_first test entries
found_first test ((key, some v) ∷ entries) =
    let rest = found_first test entries in if test v then some (key, v) else rest

-- `_find_coordinator`, with the key of its entry.
unfoldable pub find_coordinator : {F : Type 0} → String → Entries F → Option (String × Managed F)
find_coordinator mac entries =
    found_first (λ managed. has_address (normalized mac) managed.coordinator.switch_info) entries

unfoldable pub is_known : Operation → Bool
is_known (unknown_service name) = false
is_known _ = true

-- What the services share: the arithmetic and the clock.
module _ (arithmetic : Arithmetic) (floats : Floats) (monotonic : List Event → floats.F) where
  abbrev pub surroundings : Client → Surroundings
  surroundings client = record {
    client = client;
    arithmetic = arithmetic;
    floats = floats;
    monotonic = monotonic;
  }

  unfoldable pub serve :
      Operation
      → Entries floats.F
      → Option (String × Managed floats.F)
      → Result ⊤ × Entries floats.F
  serve operation entries none = (err home_assistant_error, entries)
  serve operation entries (some (key, managed)) =
      let (r, after) = run_operation (surroundings managed.client) operation managed.coordinator in
      (wrapped r, insert key (some (record managed { coordinator = after })) entries)

  -- `async_call_service`
  unfoldable pub async_call_service : ServiceCall → Entries floats.F → Result ⊤ × Entries floats.F
  async_call_service call entries =
      if is_known call.operation
      then serve call.operation entries (find_coordinator call.mac_address entries)
      else (err service_not_found, entries)
