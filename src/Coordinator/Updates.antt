-- ===== src/Coordinator/Updates.antt =====
-- The updates, and what is cached of the parts that are ruled out.
use hass_tplink_easy_smart.Base.{ℕ, Bool, true, false, ◌≡◌, refl, ap, ◌∙◌, none, some, List, []}
use hass_tplink_easy_smart.Python.{Result, ok, err, update_failed}
use hass_tplink_easy_smart.Classes.{PortStatistics}
use hass_tplink_easy_smart.Statistics.{Calculator, PortTrafficRates, update}
use hass_tplink_easy_smart.Statistics.Update.{update-nil}
use hass_tplink_easy_smart.Core.Session.Monad.{⊤, modify, catch, raise, ◌>>◌ as ◌>>>◌}
use hass_tplink_easy_smart.Core.Session.Moves.{Moves, Moves-catch}
use hass_tplink_easy_smart.Api.Features.{feature_poe, is_feature_available}
use hass_tplink_easy_smart.Api.Device.{get_device_info}
use hass_tplink_easy_smart.Api.Settings.{
  get_led_state, get_igmp_snooping, get_loop_prevention, get_port_states, get_port_statistics,
}
use hass_tplink_easy_smart.Api.Cable.{get_cable_diagnostics}
use hass_tplink_easy_smart.Api.Limits.{get_qos}
use hass_tplink_easy_smart.Api.Lag.{get_lags}
use hass_tplink_easy_smart.Api.Vlan.Mtu.{get_mtu_vlan}
use hass_tplink_easy_smart.Api.Vlan.PortBased.{get_port_vlans}
use hass_tplink_easy_smart.Api.Vlan.Tagged.{get_8021q_vlans}
use hass_tplink_easy_smart.Api.Vlan.Pvid.{get_pvids}
use hass_tplink_easy_smart.Coordinator.State.{on_api, on_switch, is_ruled_out, refreshed, failed}
use hass_tplink_easy_smart.Coordinator.Refresh.{
  Surroundings, State, Update, update_switch_info, update_port_states, update_led_state, sampled,
  rated, update_port_statistics, update_igmp_state, update_loop_prevention_state,
  update_cable_diagnostics, update_qos_state, update_lag_state, update_mtu_vlan_state,
  update_port_vlan_state, update_vlan_8021q_state, update_pvid_state, refresh_poe_state,
  update_poe_state, refresh_port_poe_states, update_port_poe_states, async_update,
}
use hass_tplink_easy_smart.Coordinator.Consistency.{
  consistent, Keeps, Keeps-trans, Keeps-bind, poll-Keeps, on_api-Keeps, on_switch-Keeps,
}

module _ (w : Surroundings) where
  led_state-Keeps : Moves Keeps (update_led_state w)
  unfolding update_led_state
  led_state-Keeps = poll-Keeps none some (get_led_state w.client) _ _ (λ s api k l x.
      consistent l x.port_statistics x.igmp x.loop_prevention x.cable_diagnostics x.qos x.lag
        x.mtu_vlan x.port_vlan x.vlan_8021q x.pvid x.port_traffic_rates)

  igmp_state-Keeps : Moves Keeps (update_igmp_state w)
  unfolding update_igmp_state
  igmp_state-Keeps = poll-Keeps none some (get_igmp_snooping w.client) _ _ (λ s api k l x.
      consistent x.led x.port_statistics l x.loop_prevention x.cable_diagnostics x.qos x.lag
        x.mtu_vlan x.port_vlan x.vlan_8021q x.pvid x.port_traffic_rates)

  loop_prevention_state-Keeps : Moves Keeps (update_loop_prevention_state w)
  unfolding update_loop_prevention_state
  loop_prevention_state-Keeps =
      poll-Keeps none some (get_loop_prevention w.client) _ _ (λ s api k l x.
        consistent x.led x.port_statistics x.igmp l x.cable_diagnostics x.qos x.lag x.mtu_vlan
          x.port_vlan x.vlan_8021q x.pvid x.port_traffic_rates)

  cable_diagnostics-Keeps : Moves Keeps (update_cable_diagnostics w)
  unfolding update_cable_diagnostics
  cable_diagnostics-Keeps =
      poll-Keeps [] (λ l. l) (get_cable_diagnostics w.client) _ _
        (λ s api k l x.
          consistent x.led x.port_statistics x.igmp x.loop_prevention l x.qos x.lag x.mtu_vlan
            x.port_vlan x.vlan_8021q x.pvid x.port_traffic_rates)

  qos_state-Keeps : Moves Keeps (update_qos_state w)
  unfolding update_qos_state
  qos_state-Keeps = poll-Keeps none some (get_qos w.client) _ _ (λ s api k l x.
      consistent x.led x.port_statistics x.igmp x.loop_prevention x.cable_diagnostics l x.lag
        x.mtu_vlan x.port_vlan x.vlan_8021q x.pvid x.port_traffic_rates)

  lag_state-Keeps : Moves Keeps (update_lag_state w)
  unfolding update_lag_state
  lag_state-Keeps = poll-Keeps none some (get_lags w.client) _ _ (λ s api k l x.
      consistent x.led x.port_statistics x.igmp x.loop_prevention x.cable_diagnostics x.qos l
        x.mtu_vlan x.port_vlan x.vlan_8021q x.pvid x.port_traffic_rates)

  mtu_vlan_state-Keeps : Moves Keeps (update_mtu_vlan_state w)
  unfolding update_mtu_vlan_state
  mtu_vlan_state-Keeps = poll-Keeps none some (get_mtu_vlan w.client) _ _ (λ s api k l x.
      consistent x.led x.port_statistics x.igmp x.loop_prevention x.cable_diagnostics x.qos x.lag l
        x.port_vlan x.vlan_8021q x.pvid x.port_traffic_rates)

  port_vlan_state-Keeps : Moves Keeps (update_port_vlan_state w)
  unfolding update_port_vlan_state
  port_vlan_state-Keeps = poll-Keeps none some (get_port_vlans w.client) _ _ (λ s api k l x.
      consistent x.led x.port_statistics x.igmp x.loop_prevention x.cable_diagnostics x.qos x.lag
        x.mtu_vlan l x.vlan_8021q x.pvid x.port_traffic_rates)

  vlan_8021q_state-Keeps : Moves Keeps (update_vlan_8021q_state w)
  unfolding update_vlan_8021q_state
  vlan_8021q_state-Keeps = poll-Keeps none some (get_8021q_vlans w.client) _ _ (λ s api k l x.
      consistent x.led x.port_statistics x.igmp x.loop_prevention x.cable_diagnostics x.qos x.lag
        x.mtu_vlan x.port_vlan l x.pvid x.port_traffic_rates)

  pvid_state-Keeps : Moves Keeps (update_pvid_state w)
  unfolding update_pvid_state
  pvid_state-Keeps = poll-Keeps none some (get_pvids w.client) _ _ (λ s api k l x.
      consistent x.led x.port_statistics x.igmp x.loop_prevention x.cable_diagnostics x.qos x.lag
        x.mtu_vlan x.port_vlan x.vlan_8021q l x.port_traffic_rates)

  switch_info-Keeps : Moves Keeps (update_switch_info w)
  unfolding update_switch_info
  switch_info-Keeps =
      Keeps-bind (on_switch (get_device_info w.client))
        (λ info. modify (λ s. record s { switch_info = some info })) (on_switch-Keeps _)
        (λ info. record {
          at = λ s x.
              consistent x.led x.port_statistics x.igmp x.loop_prevention x.cable_diagnostics x.qos
                x.lag x.mtu_vlan x.port_vlan x.vlan_8021q x.pvid x.port_traffic_rates;
        })

  port_states-Keeps : Moves Keeps (update_port_states w)
  unfolding update_port_states
  port_states-Keeps =
      Keeps-bind (catch (on_switch (get_port_states w.client)) (λ e. raise update_failed))
        (λ states. modify (λ s. record s { port_states = states }))
        (Moves-catch Keeps Keeps-trans (on_switch (get_port_states w.client))
          (λ e. raise update_failed) (on_switch-Keeps _) (λ e. record { at = λ s x. x }))
        (λ info. record {
          at = λ s x.
              consistent x.led x.port_statistics x.igmp x.loop_prevention x.cable_diagnostics x.qos
                x.lag x.mtu_vlan x.port_vlan x.vlan_8021q x.pvid x.port_traffic_rates;
        })

  -- If the rates cannot be calculated there are counters, and then the old rates may stay.
  rated-Keeps :
      (statistics : List PortStatistics) (s : State w)
      (r : Result (List (ℕ × PortTrafficRates w.floats.F)) × Calculator w.floats.F)
      → (statistics ≡ [] → r.0 ≡ ok [])
      → Keeps s
          (rated w r.0 (record s {
            port_statistics = refreshed [] (λ l. l) (ok statistics) s.port_statistics;
            statistics_rate_calculator = r.1;
          })).1
  unfolding rated refreshed
  rated-Keeps statistics s (ok rates, calculator) h x =
      consistent x.led (λ e. cc) x.igmp x.loop_prevention x.cable_diagnostics x.qos x.lag x.mtu_vlan
        x.port_vlan x.vlan_8021q x.pvid (λ e. let none_rated = h e in cc)
  rated-Keeps statistics s (err e, calculator) h x =
      consistent x.led (λ e. cc) x.igmp x.loop_prevention x.cable_diagnostics x.qos x.lag x.mtu_vlan
        x.port_vlan x.vlan_8021q x.pvid (λ e. let none_rated = h e in cc)

  sampled-Keeps : (r : Result (List PortStatistics)) (s : State w) → Keeps s (sampled w r s).1
  unfolding sampled refreshed failed
  sampled-Keeps (ok statistics) s x =
      let at = w.monotonic s.api.session.events in
      rated-Keeps statistics s (update w.floats s.statistics_rate_calculator statistics at)
        (λ e.
          ap (λ l. (update w.floats s.statistics_rate_calculator l at).0) e
          ∙ update-nil w.floats s.statistics_rate_calculator at)
        x
  sampled-Keeps (err e) s x =
      consistent x.led (λ h. refl) x.igmp x.loop_prevention x.cable_diagnostics x.qos x.lag
        x.mtu_vlan x.port_vlan x.vlan_8021q x.pvid (λ h. refl)

  statistics_at :
      (s : State w) (b : Bool)
      → let out : Result ⊤ × State w = elim b [
        | true ↦ (ok tt, s)
        | false ↦ let (r, t) = on_switch (get_port_statistics w.client) s in sampled w r t
      ] in
        Keeps s out.1
  statistics_at s true = λ x. x
  statistics_at s false = λ x.
      let (r, t) = on_switch (get_port_statistics w.client) s in
      sampled-Keeps r t ((on_switch-Keeps (get_port_statistics w.client)).at s x)

  port_statistics-Keeps : Moves Keeps (update_port_statistics w)
  unfolding update_port_statistics
  port_statistics-Keeps = record {
    at = λ s. statistics_at s (is_ruled_out s.port_statistics.supported);
  }

  poe_state_at : (b : Bool) (s : State w) → Keeps s (refresh_poe_state w b s).1
  unfolding refresh_poe_state on_api
  poe_state_at true s x =
      consistent x.led x.port_statistics x.igmp x.loop_prevention x.cable_diagnostics x.qos x.lag
        x.mtu_vlan x.port_vlan x.vlan_8021q x.pvid x.port_traffic_rates
  poe_state_at false s x = x

  port_poe_states_at : (b : Bool) (s : State w) → Keeps s (refresh_port_poe_states w b s).1
  unfolding refresh_port_poe_states on_api
  port_poe_states_at true s x =
      consistent x.led x.port_statistics x.igmp x.loop_prevention x.cable_diagnostics x.qos x.lag
        x.mtu_vlan x.port_vlan x.vlan_8021q x.pvid x.port_traffic_rates
  port_poe_states_at false s x = x

  pub poe_state-Keeps : Moves Keeps (update_poe_state w)
  unfolding update_poe_state
  poe_state-Keeps =
      Keeps-bind (on_api (is_feature_available w.client feature_poe)) (refresh_poe_state w)
        (on_api-Keeps _) (λ b. record { at = poe_state_at b })

  pub port_poe_states-Keeps : Moves Keeps (update_port_poe_states w)
  unfolding update_port_poe_states
  port_poe_states-Keeps =
      Keeps-bind (on_api (is_feature_available w.client feature_poe)) (refresh_port_poe_states w)
        (on_api-Keeps _) (λ b. record { at = port_poe_states_at b })

  and_then : {m k : Update w ⊤} → Moves Keeps m → Moves Keeps k → Moves Keeps (m >>> k)
  and_then {m} {k} x y = Keeps-bind m (λ _. k) x (λ _. y)

  pub async_update-Keeps : Moves Keeps (async_update w)
  unfolding async_update
  async_update-Keeps = and_then switch_info-Keeps (
      and_then led_state-Keeps (
        and_then port_states-Keeps (
          and_then port_statistics-Keeps (
            and_then igmp_state-Keeps (
              and_then loop_prevention_state-Keeps (
                and_then cable_diagnostics-Keeps (
                  and_then qos_state-Keeps (
                    and_then lag_state-Keeps (
                      and_then mtu_vlan_state-Keeps (
                        and_then port_vlan_state-Keeps (
                          and_then vlan_8021q_state-Keeps (
                            and_then pvid_state-Keeps
                              (and_then poe_state-Keeps port_poe_states-Keeps)))))))))))))
