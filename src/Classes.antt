-- ===== src/Classes.antt =====
-- client/classes.py: the enumerations and records that the client returns.
use hass_tplink_easy_smart.Base.{
  ℕ, zero, suc, String, Bool, Option, none, some, List, ◌==◌, if◌then◌else◌,
}
use hass_tplink_easy_smart.Python.{Value, Float}
use hass_tplink_easy_smart.Base.Int.{ℤ, pos, negsuc}

pub data PortSpeed : Type 0 where
  link_down auto half_10m full_10m half_100m full_100m full_1000m unknown : PortSpeed

-- `PortSpeed(number)`; `none` is `ValueError`.
unfoldable pub port_speed_of : ℤ → Option PortSpeed
port_speed_of (pos zero) = some link_down
port_speed_of (pos (suc zero)) = some auto
port_speed_of (pos (suc (suc zero))) = some half_10m
port_speed_of (pos (suc (suc (suc zero)))) = some full_10m
port_speed_of (pos (suc (suc (suc (suc zero))))) = some half_100m
port_speed_of (pos (suc (suc (suc (suc (suc zero)))))) = some full_100m
port_speed_of (pos (suc (suc (suc (suc (suc (suc zero))))))) = some full_1000m
port_speed_of (pos (suc (suc (suc (suc (suc (suc (suc zero)))))))) = some unknown
port_speed_of _ = none

-- `speed.value`
unfoldable pub port_speed_number : PortSpeed → ℕ
port_speed_number link_down = 0
port_speed_number auto = 1
port_speed_number half_10m = 2
port_speed_number full_10m = 3
port_speed_number half_100m = 4
port_speed_number full_100m = 5
port_speed_number full_1000m = 6
port_speed_number unknown = 7

pub data QosMode : Type 0 where
  port_based ieee_8021p dscp_ieee_8021p : QosMode

-- `QosMode(number)`; `none` is `ValueError`.
unfoldable pub qos_mode_of : ℤ → Option QosMode
qos_mode_of (pos zero) = some port_based
qos_mode_of (pos (suc zero)) = some ieee_8021p
qos_mode_of (pos (suc (suc zero))) = some dscp_ieee_8021p
qos_mode_of _ = none

-- `int(mode)`
unfoldable pub qos_mode_number : QosMode → ℕ
qos_mode_number port_based = 0
qos_mode_number ieee_8021p = 1
qos_mode_number dscp_ieee_8021p = 2

pub record LagState : Type 0 where
  pub max_groups : ℕ
  pub port_count : ℕ
  pub ports_per_group : ℕ
  pub groups : List (ℕ × List ℕ)

pub record MtuVlanState : Type 0 where
  pub enabled : Bool
  pub port_count : ℕ
  pub uplink_port : ℕ

pub record PortVlan : Type 0 where
  pub vlan_id : ℤ
  pub member_ports : List ℕ

pub record PortVlanState : Type 0 where
  pub enabled : Bool
  pub port_count : ℕ
  pub vlans : List PortVlan
  pub trunk_groups : List ℤ

pub record Vlan8021Q : Type 0 where
  pub vlan_id : ℤ
  pub name : String
  pub tagged_ports : List ℕ
  pub untagged_ports : List ℕ

pub record Vlan8021QState : Type 0 where
  pub enabled : Bool
  pub port_count : ℕ
  pub max_vlans : ℕ
  pub vlans : List Vlan8021Q
  pub trunk_groups : List ℤ

pub record VlanPvidState : Type 0 where
  pub enabled : Bool
  pub port_count : ℕ
  pub pvids : List ℤ
  pub vlan_ids : List ℤ
  pub member_masks : List ℤ
  pub trunk_groups : List ℤ

pub record QosState : Type 0 where
  pub mode : QosMode
  pub priorities : List ℤ
  pub trunk_groups : List ℤ

pub record BandwidthControl : Type 0 where
  pub number : ℕ
  pub ingress_kbps : ℤ
  pub egress_kbps : ℤ
  pub trunk_group : ℤ

pub record StormControl : Type 0 where
  pub number : ℕ
  pub enabled : Bool
  pub rate_kbps : ℤ
  pub unknown_unicast : Bool
  pub multicast : Bool
  pub broadcast : Bool
  pub trunk_group : ℤ

pub record PortMirrorState : Type 0 where
  pub enabled : Bool
  pub port_count : ℕ
  pub destination_port : Option ℕ
  pub ingress_ports : List ℕ
  pub egress_ports : List ℕ
  pub trunk_groups : List ℤ

pub record PortState : Type 0 where
  pub number : ℕ
  pub enabled : Bool
  pub flow_control_config : Bool
  pub flow_control_actual : Bool
  pub speed_config : PortSpeed
  pub speed_actual : PortSpeed

pub record IgmpSnoopingState : Type 0 where
  pub enabled : Bool
  pub report_suppression : Bool

pub record LoopPreventionState : Type 0 where
  pub enabled : Bool

pub record PortStatistics : Type 0 where
  pub number : ℕ
  pub enabled : Bool
  pub link_status : PortSpeed
  pub tx_good_packets : ℤ
  pub tx_bad_packets : ℤ
  pub rx_good_packets : ℤ
  pub rx_bad_packets : ℤ

pub record TpLinkSystemInfo : Type 0 where
  pub name : String
  pub mac : String
  pub ip : Option String
  pub netmask : Option String
  pub gateway : Option String
  pub firmware : Option String
  pub hardware : Option String

pub data CableStatus : Type 0 where
  not_tested no_cable normal open_cable short open_short cross_cable unknown_cable : CableStatus

-- `CableStatus(number)`; `none` is `ValueError`.
unfoldable pub cable_status_of : ℤ → Option CableStatus
cable_status_of (negsuc zero) = some not_tested
cable_status_of (negsuc (suc n)) = none
cable_status_of (pos n) =
    if n == 0
    then some no_cable
    else if n == 1
    then some normal
    else if n == 2
    then some open_cable
    else if n == 3
    then some short
    else if n == 4
    then some open_short
    else if n == 5
    then some cross_cable
    else if n == 255
    then some unknown_cable
    else none

pub record CableDiagnostic : Type 0 where
  pub number : ℕ
  pub status : CableStatus
  pub length_m : Option ℤ

pub data PoePriority : Type 0 where
  high_priority middle_priority low_priority : PoePriority

-- `PoePriority(number)`; `none` is `ValueError`.
unfoldable pub poe_priority_of : ℤ → Option PoePriority
poe_priority_of (pos zero) = some high_priority
poe_priority_of (pos (suc zero)) = some middle_priority
poe_priority_of (pos (suc (suc zero))) = some low_priority
poe_priority_of _ = none

pub data PoePowerLimit : Type 0 where
  auto_limit limit_1 limit_2 limit_3 limit_4 : PoePowerLimit

-- `PoePowerLimit.try_parse` of an integer.
unfoldable pub poe_power_limit_of : ℤ → Option PoePowerLimit
poe_power_limit_of (pos n) =
    if n == 330
    then some auto_limit
    else if n == 40
    then some limit_1
    else if n == 70
    then some limit_2
    else if n == 154
    then some limit_3
    else if n == 300
    then some limit_4
    else none
poe_power_limit_of (negsuc n) = none

pub data PoeClass : Type 0 where
  class_0 class_1 class_2 class_3 class_4 : PoeClass

-- `PoeClass.try_parse` of an integer.
unfoldable pub poe_class_of : ℤ → Option PoeClass
poe_class_of (pos n) =
    if n == 330
    then some class_0
    else if n == 40
    then some class_1
    else if n == 70
    then some class_2
    else if n == 154
    then some class_3
    else if n == 300
    then some class_4
    else none
poe_class_of (negsuc n) = none

pub data PoePowerStatus : Type 0 where
  power_off turning_on power_on overload short_circuit nonstandard_pd : PoePowerStatus
  voltage_high voltage_low hardware_fault overtemperature : PoePowerStatus

-- `PoePowerStatus(number)`; `none` is `ValueError`.
unfoldable pub poe_power_status_of : ℤ → Option PoePowerStatus
poe_power_status_of (pos n) =
    if n == 0
    then some power_off
    else if n == 1
    then some turning_on
    else if n == 2
    then some power_on
    else if n == 3
    then some overload
    else if n == 4
    then some short_circuit
    else if n == 5
    then some nonstandard_pd
    else if n == 6
    then some voltage_high
    else if n == 7
    then some voltage_low
    else if n == 8
    then some hardware_fault
    else if n == 9
    then some overtemperature
    else none
poe_power_status_of (negsuc n) = none

-- A level, or a number of watts.
pub data PowerLimit : Type 0 where
  level : PoePowerLimit → PowerLimit
  watts : Float → PowerLimit

pub record PortPoeState : Type 0 where
  pub number : ℕ
  pub enabled : Bool
  pub priority : PoePriority
  pub power_limit : PowerLimit
  pub power : Float
  pub current : Value
  pub voltage : Float
  pub pd_class : Option PoeClass
  pub power_status : PoePowerStatus

pub record PoeState : Type 0 where
  pub power_limit : Float
  pub power_limit_min : Float
  pub power_limit_max : Float
  pub power_consumption : Float
  pub power_remain : Float
