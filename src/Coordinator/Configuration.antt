-- ===== src/Coordinator/Configuration.antt =====
-- The commands that a coordinator only passes on to the API.
use hass_tplink_easy_smart.Base.{String, Bool, Option, List}
use hass_tplink_easy_smart.Base.Int.{ℤ}
use hass_tplink_easy_smart.Python.{Value}
use hass_tplink_easy_smart.Core.Session.Monad.{⊤, Action, pure, ◌>>◌ as ◌>>>◌}
use hass_tplink_easy_smart.Api.Mirror.{set_port_mirror}
use hass_tplink_easy_smart.Api.Lag.{set_lag, delete_lag}
use hass_tplink_easy_smart.Api.Limits.{set_bandwidth_control, set_storm_control}
use hass_tplink_easy_smart.Api.Vlan.Mtu.{set_mtu_vlan}
use hass_tplink_easy_smart.Api.Vlan.PortBased.{
  set_port_vlan_enabled, upsert_port_vlan, delete_port_vlan,
}
use hass_tplink_easy_smart.Api.Vlan.Tagged.{
  set_8021q_vlan_enabled, upsert_8021q_vlan, delete_8021q_vlan,
}
use hass_tplink_easy_smart.Api.Vlan.Pvid.{set_pvid}
use hass_tplink_easy_smart.Coordinator.State.{on_switch}
use hass_tplink_easy_smart.Coordinator.Refresh.{Surroundings, Update}

module _ (w : Surroundings) where
  -- `await self._api...`, whose answer is dropped.
  unfoldable pub passed_on : {A : Type 0} → Action A → Update w ⊤
  passed_on m = on_switch m >>> pure tt

  unfoldable pub async_set_port_mirror : Bool → Option ℤ → List Value → List Value → Update w ⊤
  async_set_port_mirror enabled destination_port ingress_ports egress_ports =
      passed_on (set_port_mirror w.client enabled destination_port ingress_ports egress_ports)

  unfoldable pub async_set_lag : ℤ → List Value → Update w ⊤
  async_set_lag group_id ports = passed_on (set_lag w.client group_id ports)

  unfoldable pub async_delete_lag : ℤ → Update w ⊤
  async_delete_lag group_id = passed_on (delete_lag w.client group_id)

  unfoldable pub async_set_mtu_vlan : Bool → Option ℤ → Update w ⊤
  async_set_mtu_vlan enabled uplink_port = passed_on (set_mtu_vlan w.client enabled uplink_port)

  unfoldable pub async_set_port_vlan_enabled : Bool → Update w ⊤
  async_set_port_vlan_enabled enabled = passed_on (set_port_vlan_enabled w.client enabled)

  unfoldable pub async_upsert_port_vlan : ℤ → List Value → Update w ⊤
  async_upsert_port_vlan vlan_id member_ports =
      passed_on (upsert_port_vlan w.client vlan_id member_ports)

  unfoldable pub async_delete_port_vlan : ℤ → Update w ⊤
  async_delete_port_vlan vlan_id = passed_on (delete_port_vlan w.client vlan_id)

  unfoldable pub async_set_8021q_vlan_enabled : Bool → Update w ⊤
  async_set_8021q_vlan_enabled enabled = passed_on (set_8021q_vlan_enabled w.client enabled)

  unfoldable pub async_upsert_8021q_vlan : ℤ → String → List Value → List Value → Update w ⊤
  async_upsert_8021q_vlan vlan_id name tagged_ports untagged_ports =
      passed_on (upsert_8021q_vlan w.client vlan_id name tagged_ports untagged_ports)

  unfoldable pub async_delete_8021q_vlan : ℤ → Update w ⊤
  async_delete_8021q_vlan vlan_id = passed_on (delete_8021q_vlan w.client vlan_id)

  unfoldable pub async_set_pvid : List Value → ℤ → Update w ⊤
  async_set_pvid ports vlan_id = passed_on (set_pvid w.client ports vlan_id)

  unfoldable pub async_set_bandwidth_control : ℤ → ℤ → ℤ → Update w ⊤
  async_set_bandwidth_control port_number ingress_kbps egress_kbps =
      passed_on (set_bandwidth_control w.client port_number ingress_kbps egress_kbps)

  unfoldable pub async_set_storm_control : ℤ → Bool → ℤ → Bool → Bool → Bool → Update w ⊤
  async_set_storm_control port_number enabled rate_kbps unknown_unicast multicast broadcast =
      passed_on (
        set_storm_control w.client port_number enabled rate_kbps unknown_unicast multicast
          broadcast)
