-- ===== src/Coordinator/Refresh.antt =====
-- `async_update` and the updates that it runs.
use hass_tplink_easy_smart.Base.{ℕ, Bool, true, false, none, some, List, []}
use hass_tplink_easy_smart.Python.{Result, ok, err, update_failed}
use hass_tplink_easy_smart.Classes.{PortStatistics}
use hass_tplink_easy_smart.Statistics.{Floats, PortTrafficRates, update}
use hass_tplink_easy_smart.Core.Session.Monad.{
  Event, Stateful, ⊤, pure, raise, modify, catch, ◌>>=◌ as ◌>>>=◌, ◌>>◌ as ◌>>>◌,
}
use hass_tplink_easy_smart.Core.Session.Calls.{disconnect}
use hass_tplink_easy_smart.Api.Apply.{Client}
use hass_tplink_easy_smart.Api.Features.{feature_poe, is_feature_available}
use hass_tplink_easy_smart.Api.Poe.{Arithmetic, get_poe_state, get_port_poe_states}
use hass_tplink_easy_smart.Api.Device.{get_device_info}
use hass_tplink_easy_smart.Api.Settings.{
  get_led_state, get_port_states, get_port_statistics, get_igmp_snooping, get_loop_prevention,
}
use hass_tplink_easy_smart.Api.Cable.{get_cable_diagnostics}
use hass_tplink_easy_smart.Api.Limits.{get_qos}
use hass_tplink_easy_smart.Api.Lag.{get_lags}
use hass_tplink_easy_smart.Api.Vlan.Mtu.{get_mtu_vlan}
use hass_tplink_easy_smart.Api.Vlan.PortBased.{get_port_vlans}
use hass_tplink_easy_smart.Api.Vlan.Tagged.{get_8021q_vlans}
use hass_tplink_easy_smart.Api.Vlan.Pvid.{get_pvids}
use hass_tplink_easy_smart.Coordinator.State.{
  Coordinator, on_api, on_switch, poll, refreshed, failed, is_ruled_out,
}

-- A value, or what stands for it after an exception.
unfoldable pub value_or : {A V : Type 0} → V → (A → V) → Result A → V
value_or absent wrap (ok a) = wrap a
value_or absent wrap (err e) = absent

-- What updates work with: the API, float arithmetic, and `monotonic()`, which may depend on all
-- that was done before.
pub record Surroundings : Type 1 where
  pub client : Client
  pub arithmetic : Arithmetic
  pub floats : Floats
  pub monotonic : List Event → floats.F

module _ (w : Surroundings) where
  abbrev pub State : Type 0
  State = Coordinator w.floats.F

  abbrev pub Update : Type 0 → Type 0
  Update A = Stateful State A

  unfoldable pub update_switch_info : Update ⊤
  update_switch_info = on_switch (get_device_info w.client) >>>= λ info.
      modify (λ s. record s { switch_info = some info })

  unfoldable pub update_port_states : Update ⊤
  update_port_states =
      catch (on_switch (get_port_states w.client)) (λ e. raise update_failed) >>>= λ states.
      modify (λ s. record s { port_states = states })

  unfoldable pub update_led_state : Update ⊤
  update_led_state =
      poll none some (get_led_state w.client) (λ s. s.led) (λ k s. record s { led = k })

  -- The cached rates after their calculation; an exception of it is not caught.
  unfoldable pub rated : Result (List (ℕ × PortTrafficRates w.floats.F)) → Update ⊤
  rated (ok rates) s = (ok tt, record s { port_traffic_rates = rates })
  rated (err e) s = (err e, s)

  -- The rest of the update of the counters, after the answer of the switch.
  unfoldable pub sampled : Result (List PortStatistics) → Update ⊤
  sampled (ok statistics) s =
      let (rates, calculator) =
        update w.floats s.statistics_rate_calculator statistics
          (w.monotonic s.api.session.events) in
      rated rates (record s {
        port_statistics = refreshed [] (λ l. l) (ok statistics) s.port_statistics;
        statistics_rate_calculator = calculator;
      })
  sampled (err e) s =
      (ok tt, record s { port_statistics = failed [] e s.port_statistics; port_traffic_rates = [] })

  unfoldable pub update_port_statistics : Update ⊤
  update_port_statistics s = elim (is_ruled_out s.port_statistics.supported) [
    | true ↦ (ok tt, s)
    | false ↦ let (r, t) = on_switch (get_port_statistics w.client) s in sampled r t
  ]

  unfoldable pub update_igmp_state : Update ⊤
  update_igmp_state =
      poll none some (get_igmp_snooping w.client) (λ s. s.igmp) (λ k s. record s { igmp = k })

  unfoldable pub update_loop_prevention_state : Update ⊤
  update_loop_prevention_state =
      poll none some (get_loop_prevention w.client) (λ s. s.loop_prevention)
        (λ k s. record s { loop_prevention = k })

  unfoldable pub update_cable_diagnostics : Update ⊤
  update_cable_diagnostics =
      poll [] (λ l. l) (get_cable_diagnostics w.client) (λ s. s.cable_diagnostics)
        (λ k s. record s { cable_diagnostics = k })

  unfoldable pub update_qos_state : Update ⊤
  update_qos_state = poll none some (get_qos w.client) (λ s. s.qos) (λ k s. record s { qos = k })

  unfoldable pub update_lag_state : Update ⊤
  update_lag_state = poll none some (get_lags w.client) (λ s. s.lag) (λ k s. record s { lag = k })

  unfoldable pub update_mtu_vlan_state : Update ⊤
  update_mtu_vlan_state =
      poll none some (get_mtu_vlan w.client) (λ s. s.mtu_vlan) (λ k s. record s { mtu_vlan = k })

  unfoldable pub update_port_vlan_state : Update ⊤
  update_port_vlan_state =
      poll none some (get_port_vlans w.client) (λ s. s.port_vlan)
        (λ k s. record s { port_vlan = k })

  unfoldable pub update_vlan_8021q_state : Update ⊤
  update_vlan_8021q_state =
      poll none some (get_8021q_vlans w.client) (λ s. s.vlan_8021q)
        (λ k s. record s { vlan_8021q = k })

  unfoldable pub update_pvid_state : Update ⊤
  update_pvid_state =
      poll none some (get_pvids w.client) (λ s. s.pvid) (λ k s. record s { pvid = k })

  -- The rest of an update of PoE, where the feature is available.
  unfoldable pub refresh_poe_state : Bool → Update ⊤
  refresh_poe_state false s = (ok tt, s)
  refresh_poe_state true s =
      let (r, t) = on_api (get_poe_state w.client w.arithmetic) s in
      (ok tt, record t { poe_state = value_or none (λ state. state) r })

  unfoldable pub update_poe_state : Update ⊤
  update_poe_state = on_api (is_feature_available w.client feature_poe) >>>= refresh_poe_state

  unfoldable pub refresh_port_poe_states : Bool → Update ⊤
  refresh_port_poe_states false s = (ok tt, s)
  refresh_port_poe_states true s =
      let (r, t) = on_api (get_port_poe_states w.client w.arithmetic) s in
      (ok tt, record t { port_poe_states = value_or [] (λ states. states) r })

  unfoldable pub update_port_poe_states : Update ⊤
  update_port_poe_states =
      on_api (is_feature_available w.client feature_poe) >>>= refresh_port_poe_states

  unfoldable pub async_update : Update ⊤
  async_update =
      update_switch_info
      >>> (update_led_state
          >>> (update_port_states
              >>> (update_port_statistics
                  >>> (update_igmp_state
                      >>> (update_loop_prevention_state
                          >>> (update_cable_diagnostics
                              >>> (update_qos_state
                                  >>> (update_lag_state
                                      >>> (update_mtu_vlan_state
                                          >>> (update_port_vlan_state
                                              >>> (update_vlan_8021q_state
                                                  >>> (update_pvid_state
                                                      >>> (update_poe_state
                                                          >>> update_port_poe_states)))))))))))))

  -- `async_unload`, whose `_safe_disconnect` only warns of an exception.
  unfoldable pub async_unload : Update ⊤
  async_unload = catch (on_switch disconnect) (λ e. pure tt)
