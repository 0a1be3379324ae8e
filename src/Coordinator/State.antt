-- ===== src/Coordinator/State.antt =====
-- The state of a `TpLinkDataUpdateCoordinator`, and how it learns what the switch supports.
use hass_tplink_easy_smart.Base.{ℕ, suc, Bool, true, false, Option, none, some, List, []}
use hass_tplink_easy_smart.Base.Int.{pos, eqb_ℤ}
use hass_tplink_easy_smart.Python.{Result, ok, err, Error, attribute_error, data_format, api_call}
use hass_tplink_easy_smart.Classes.{
  TpLinkSystemInfo, PortState, PortStatistics, PortPoeState, PoeState, IgmpSnoopingState,
  LoopPreventionState, CableDiagnostic, QosState, LagState, MtuVlanState, PortVlanState,
  Vlan8021QState, VlanPvidState,
}
use hass_tplink_easy_smart.Statistics.{Calculator, PortTrafficRates}
use hass_tplink_easy_smart.Core.Session.Monad.{Action, Stateful, ⊤}
use hass_tplink_easy_smart.Api.Features.{ApiState, ApiAction, on_session}

-- An optional part of the switch, such as `_led_state` with `_led_supported`.
pub record Capability (V : Type 0) : Type 0 where
  pub cached : V
  pub supported : Option Bool

-- The fields that change, and how often the listeners were told of it.
pub record Coordinator (F : Type 0) : Type 0 where
  pub api : ApiState
  pub switch_info : Option TpLinkSystemInfo
  pub led : Capability (Option Bool)
  pub port_states : List PortState
  pub port_statistics : Capability (List PortStatistics)
  pub port_traffic_rates : List (ℕ × PortTrafficRates F)
  pub port_poe_states : List PortPoeState
  pub poe_state : Option PoeState
  pub igmp : Capability (Option IgmpSnoopingState)
  pub loop_prevention : Capability (Option LoopPreventionState)
  pub cable_diagnostics : Capability (List CableDiagnostic)
  pub qos : Capability (Option QosState)
  pub lag : Capability (Option LagState)
  pub mtu_vlan : Capability (Option MtuVlanState)
  pub port_vlan : Capability (Option PortVlanState)
  pub vlan_8021q : Capability (Option Vlan8021QState)
  pub pvid : Capability (Option VlanPvidState)
  pub statistics_rate_calculator : Calculator F
  pub listener_updates : ℕ

unfoldable pub undetected : {V : Type 0} → V → Capability V
undetected absent = record { cached = absent; supported = none }

-- `__init__`, with the API and the calculator that it makes.
unfoldable pub new_coordinator : {F : Type 0} → ApiState → Calculator F → Coordinator F
unfolding undetected
new_coordinator api calculator = record {
  api = api;
  switch_info = none;
  led = undetected none;
  port_states = [];
  port_statistics = undetected [];
  port_traffic_rates = [];
  port_poe_states = [];
  poe_state = none;
  igmp = undetected none;
  loop_prevention = undetected none;
  cable_diagnostics = undetected [];
  qos = undetected none;
  lag = undetected none;
  mtu_vlan = undetected none;
  port_vlan = undetected none;
  vlan_8021q = undetected none;
  pvid = undetected none;
  statistics_rate_calculator = calculator;
  listener_updates = 0;
}

-- `supported is False`
unfoldable pub is_ruled_out : Option Bool → Bool
is_ruled_out (some false) = true
is_ruled_out (some true) = false
is_ruled_out none = false

-- `_is_unsupported_error`
unfoldable pub is_unsupported_error : Error → Bool
is_unsupported_error attribute_error = true
is_unsupported_error (data_format problem) = true
is_unsupported_error (api_call code category) = eqb_ℤ code (pos 404)
is_unsupported_error _ = false

-- `supported` after an exception.
unfoldable pub judged : Bool → Option Bool → Option Bool
judged true none = some false
judged true (some b) = some b
judged false supported = supported

-- The `except` clause of the update of an optional part.
unfoldable pub failed : {V : Type 0} → V → Error → Capability V → Capability V
failed absent e capability = record {
  cached = absent;
  supported = judged (is_unsupported_error e) capability.supported;
}

-- What an answer to the update of an optional part makes of it.
unfoldable pub refreshed : {A V : Type 0} → V → (A → V) → Result A → Capability V → Capability V
refreshed absent wrap (ok a) capability = record { cached = wrap a; supported = some true }
refreshed absent wrap (err e) capability = failed absent e capability

module _ {F : Type 0} where
  -- A call of the API.
  unfoldable pub on_api : {A : Type 0} → ApiAction A → Stateful (Coordinator F) A
  on_api m s = let (r, api) = m s.api in (r, record s { api = api })

  unfoldable pub on_switch : {A : Type 0} → Action A → Stateful (Coordinator F) A
  on_switch m = on_api (on_session m)

  unfoldable pub async_update_listeners : Stateful (Coordinator F) ⊤
  async_update_listeners s = (ok tt, record s { listener_updates = suc s.listener_updates })

  -- The update of an optional part that `get` reads and `put` writes.
  unfoldable pub poll :
      {A V : Type 0}
      → V
      → (A → V)
      → Action A
      → (Coordinator F → Capability V)
      → (Capability V → Coordinator F → Coordinator F)
      → Stateful (Coordinator F) ⊤
  poll absent wrap query get put s = elim (is_ruled_out (get s).supported) [
    | true ↦ (ok tt, s)
    | false ↦ let (r, t) = on_switch query s in (ok tt, put (refreshed absent wrap r (get s)) t)
  ]
