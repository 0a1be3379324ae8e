-- ===== src/Coordinator/Parts.antt =====
-- The update of each optional part, with the page that it reads.
use hass_tplink_easy_smart.Base.{refl, String, none, some, List, []}
use hass_tplink_easy_smart.Core.Variables.{VariableType}
use hass_tplink_easy_smart.Core.Session.Variables.{fetch_variables, fetch_variable}
use hass_tplink_easy_smart.Core.Session.Calls.Trace.{Only, Only-bind, Only-lift}
use hass_tplink_easy_smart.Api.Trace.{fetch_variables-Only, fetch_variable-Only}
use hass_tplink_easy_smart.Api.Apply.{Client}
use hass_tplink_easy_smart.Api.Settings.{get_led_state, get_igmp_snooping, get_loop_prevention}
use hass_tplink_easy_smart.Api.Cable.{get_cable_diagnostics}
use hass_tplink_easy_smart.Api.Limits.{get_qos}
use hass_tplink_easy_smart.Api.Lag.{get_lags}
use hass_tplink_easy_smart.Api.Vlan.Mtu.{get_mtu_vlan}
use hass_tplink_easy_smart.Api.Vlan.PortBased.{get_port_vlans}
use hass_tplink_easy_smart.Api.Vlan.Tagged.{get_8021q_vlans}
use hass_tplink_easy_smart.Api.Vlan.Pvid.{get_pvids}
use hass_tplink_easy_smart.Coordinator.State.{Coordinator}
use hass_tplink_easy_smart.Coordinator.Learning.{
  kept, learns, Asked, login, page, Wanted, led_page, igmp_page, loop_page, cable_page, qos_page,
  lag_page, mtu_page, port_vlan_page, vlan_8021q_page, pvid_page,
}
use hass_tplink_easy_smart.Coordinator.Polling.{Refreshing, poll-IsRefresh}
use hass_tplink_easy_smart.Coordinator.Refresh.{
  Surroundings, update_led_state, update_igmp_state, update_loop_prevention_state,
  update_cable_diagnostics, update_qos_state, update_lag_state, update_mtu_vlan_state,
  update_port_vlan_state, update_vlan_8021q_state, update_pvid_state,
}

module _ {F : Type 0} (c : Client) (s : Coordinator F) {path : String} (w : Wanted s path) where
  pub fetch_variables-Asked :
      (variables : List (String × VariableType))
      → Only (Asked c.account s) (fetch_variables c.library c.device c.account path variables)
  fetch_variables-Asked variables =
      fetch_variables-Only c _ (λ e l. login l) path variables (page path w refl)

  pub fetch_variable-Asked :
      (variable : String) (type : VariableType)
      → Only (Asked c.account s) (fetch_variable c.library c.device c.account path variable type)
  fetch_variable-Asked variable type =
      fetch_variable-Only c _ (λ e l. login l) path variable type (page path w refl)

module _ (w : Surroundings) where
  pub update_led_state-Refreshing : Refreshing w.client.account (update_led_state w)
  unfolding update_led_state get_led_state
  update_led_state-Refreshing = record {
    at = λ s.
        poll-IsRefresh none some (get_led_state w.client) _ _ s
          (λ h. Only-bind _ _ (fetch_variable-Asked w.client s (led_page h) _ _) (λ _. Only-lift _))
          (λ api k l. learns l kept kept kept kept kept kept kept kept kept kept) (λ api k. refl);
  }

  pub update_igmp_state-Refreshing : Refreshing w.client.account (update_igmp_state w)
  unfolding update_igmp_state get_igmp_snooping
  update_igmp_state-Refreshing = record {
    at = λ s.
        poll-IsRefresh none some (get_igmp_snooping w.client) _ _ s
          (λ h.
            Only-bind _ _ (fetch_variable-Asked w.client s (igmp_page h) _ _) (λ _. Only-lift _))
          (λ api k l. learns kept kept l kept kept kept kept kept kept kept kept) (λ api k. refl);
  }

  pub update_loop_prevention_state-Refreshing :
      Refreshing w.client.account (update_loop_prevention_state w)
  unfolding update_loop_prevention_state get_loop_prevention
  update_loop_prevention_state-Refreshing = record {
    at = λ s.
        poll-IsRefresh none some (get_loop_prevention w.client) _ _ s
          (λ h.
            Only-bind _ _ (fetch_variable-Asked w.client s (loop_page h) _ _) (λ _. Only-lift _))
          (λ api k l. learns kept kept kept l kept kept kept kept kept kept kept) (λ api k. refl);
  }

  pub update_cable_diagnostics-Refreshing : Refreshing w.client.account (update_cable_diagnostics w)
  unfolding update_cable_diagnostics get_cable_diagnostics
  update_cable_diagnostics-Refreshing = record {
    at = λ s.
        poll-IsRefresh [] (λ l. l) (get_cable_diagnostics w.client) _ _ s
          (λ h.
            Only-bind _ _ (fetch_variables-Asked w.client s (cable_page h) _) (λ _. Only-lift _))
          (λ api k l. learns kept kept kept kept l kept kept kept kept kept kept) (λ api k. refl);
  }

  pub update_qos_state-Refreshing : Refreshing w.client.account (update_qos_state w)
  unfolding update_qos_state get_qos
  update_qos_state-Refreshing = record {
    at = λ s.
        poll-IsRefresh none some (get_qos w.client) _ _ s
          (λ h. Only-bind _ _ (fetch_variables-Asked w.client s (qos_page h) _) (λ _. Only-lift _))
          (λ api k l. learns kept kept kept kept kept l kept kept kept kept kept) (λ api k. refl);
  }

  pub update_lag_state-Refreshing : Refreshing w.client.account (update_lag_state w)
  unfolding update_lag_state get_lags
  update_lag_state-Refreshing = record {
    at = λ s.
        poll-IsRefresh none some (get_lags w.client) _ _ s
          (λ h. Only-bind _ _ (fetch_variables-Asked w.client s (lag_page h) _) (λ _. Only-lift _))
          (λ api k l. learns kept kept kept kept kept kept l kept kept kept kept) (λ api k. refl);
  }

  pub update_mtu_vlan_state-Refreshing : Refreshing w.client.account (update_mtu_vlan_state w)
  unfolding update_mtu_vlan_state get_mtu_vlan
  update_mtu_vlan_state-Refreshing = record {
    at = λ s.
        poll-IsRefresh none some (get_mtu_vlan w.client) _ _ s
          (λ h. Only-bind _ _ (fetch_variable-Asked w.client s (mtu_page h) _ _) (λ _. Only-lift _))
          (λ api k l. learns kept kept kept kept kept kept kept l kept kept kept) (λ api k. refl);
  }

  pub update_port_vlan_state-Refreshing : Refreshing w.client.account (update_port_vlan_state w)
  unfolding update_port_vlan_state get_port_vlans
  update_port_vlan_state-Refreshing = record {
    at = λ s.
        poll-IsRefresh none some (get_port_vlans w.client) _ _ s
          (λ h.
            Only-bind _ _ (fetch_variable-Asked w.client s (port_vlan_page h) _ _)
              (λ _. Only-lift _))
          (λ api k l. learns kept kept kept kept kept kept kept kept l kept kept) (λ api k. refl);
  }

  pub update_vlan_8021q_state-Refreshing : Refreshing w.client.account (update_vlan_8021q_state w)
  unfolding update_vlan_8021q_state get_8021q_vlans
  update_vlan_8021q_state-Refreshing = record {
    at = λ s.
        poll-IsRefresh none some (get_8021q_vlans w.client) _ _ s
          (λ h.
            Only-bind _ _ (fetch_variable-Asked w.client s (vlan_8021q_page h) _ _)
              (λ _. Only-lift _))
          (λ api k l. learns kept kept kept kept kept kept kept kept kept l kept) (λ api k. refl);
  }

  pub update_pvid_state-Refreshing : Refreshing w.client.account (update_pvid_state w)
  unfolding update_pvid_state get_pvids
  update_pvid_state-Refreshing = record {
    at = λ s.
        poll-IsRefresh none some (get_pvids w.client) _ _ s
          (λ h.
            Only-bind _ _ (fetch_variable-Asked w.client s (pvid_page h) _ _) (λ _. Only-lift _))
          (λ api k l. learns kept kept kept kept kept kept kept kept kept kept l) (λ api k. refl);
  }
