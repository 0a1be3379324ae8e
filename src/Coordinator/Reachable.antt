-- ===== src/Coordinator/Reachable.antt =====
-- The states that a coordinator can reach by updates and commands.
use hass_tplink_easy_smart.Base.{
  ℕ, Bool, true, false, ◌≡◌, ◌≢◌, refl, sym, ap, ◌∙◌, Option, none, some, List, if◌then◌else◌,
}
use hass_tplink_easy_smart.Base.Int.{ℤ, pos, ltb_ℤ, ◌-ℤ◌}
use hass_tplink_easy_smart.Base.Lists.{length}
use hass_tplink_easy_smart.Python.{Result, ok, err, Float, index_error, value_error}
use hass_tplink_easy_smart.Classes.{
  PortSpeed, PortState, QosMode, QosState, PoePriority, PowerLimit,
}
use hass_tplink_easy_smart.Statistics.{Calculator}
use hass_tplink_easy_smart.Core.Session.Monad.{
  ⊤, Action, pure, modify, ◌>>=◌ as ◌>>>=◌, ◌>>◌ as ◌>>>◌,
}
use hass_tplink_easy_smart.Core.Session.Moves.{Moves}
use hass_tplink_easy_smart.Api.Features.{ApiState}
use hass_tplink_easy_smart.Api.Device.{set_port_state}
use hass_tplink_easy_smart.Api.Settings.{reboot}
use hass_tplink_easy_smart.Api.Limits.{set_qos_priority}
use hass_tplink_easy_smart.Coordinator.State.{
  on_api, on_switch, new_coordinator, async_update_listeners,
}
use hass_tplink_easy_smart.Coordinator.Refresh.{Surroundings, State, Update, async_update}
use hass_tplink_easy_smart.Coordinator.Commands.{
  position, modify_at, with_settings, get_port_state, check_known_port, write_port_state,
  async_set_port_state, async_set_igmp_snooping, async_set_led_state, async_reboot,
  async_set_loop_prevention, async_run_cable_diagnostic, with_mode, async_set_qos_mode, prioritized,
  write_qos_priority, async_set_qos_priority, async_set_poe_limit, async_set_port_poe_settings,
}
use hass_tplink_easy_smart.Coordinator.Configuration.{passed_on}
use hass_tplink_easy_smart.Coordinator.Consistency.{
  IsConsistent, consistent, new_coordinator-IsConsistent, Keeps, Keeps-bind, on_api-Keeps,
  on_switch-Keeps, listeners-Keeps,
}
use hass_tplink_easy_smart.Coordinator.Updates.{
  poe_state-Keeps, port_poe_states-Keeps, async_update-Keeps,
}

-- The states after any sequence of updates and commands, also of those that raise. The settings of
-- IGMP snooping and of loop prevention are not changed where they are ruled out.
pub data Reachable (w : Surroundings) : State w → Type 1 where
  made :
      (api : ApiState) (calculator : Calculator w.floats.F)
      → Reachable w (new_coordinator api calculator)
  updated : (s : State w) → Reachable w s → Reachable w (async_update w s).1
  port_changed :
      (number : ℤ) (enabled : Bool) (speed : PortSpeed) (flow_control : Bool) (s : State w)
      → Reachable w s
      → Reachable w (async_set_port_state w number enabled speed flow_control s).1
  led_changed :
      (enabled : Bool) (s : State w)
      → Reachable w s
      → Reachable w (async_set_led_state w enabled s).1
  igmp_changed :
      (enabled suppression : Bool) (s : State w)
      → Reachable w s
      → s.igmp.supported ≢ some false
      → Reachable w (async_set_igmp_snooping w enabled suppression s).1
  loop_changed :
      (enabled : Bool) (s : State w)
      → Reachable w s
      → s.loop_prevention.supported ≢ some false
      → Reachable w (async_set_loop_prevention w enabled s).1
  rebooted : (s : State w) → Reachable w s → Reachable w (async_reboot w s).1
  cable_tested :
      (number : ℤ) (s : State w)
      → Reachable w s
      → Reachable w (async_run_cable_diagnostic w number s).1
  mode_changed :
      (mode : QosMode) (s : State w) → Reachable w s → Reachable w (async_set_qos_mode w mode s).1
  priority_changed :
      (number priority : ℤ) (s : State w)
      → Reachable w s
      → Reachable w (async_set_qos_priority w number priority s).1
  limit_changed :
      (limit : Float) (s : State w) → Reachable w s → Reachable w (async_set_poe_limit w limit s).1
  poe_changed :
      (number : ℤ) (enabled : Bool) (priority : PoePriority) (limit : PowerLimit) (s : State w)
      → Reachable w s
      → Reachable w (async_set_port_poe_settings w number enabled priority limit s).1
  configured :
      {A : Type 0} (m : Action A) (s : State w) → Reachable w s → Reachable w (passed_on w m s).1

some-none : {A : Type 0} {a : A} → some a ≢ none
some-none e = cc

module _ (w : Surroundings) where
  written_at :
      (b : Bool) (at : Option ℕ) (f : List PortState → ℕ → List PortState) (s : State w)
      → let out : Result ⊤ × State w =
          if b
          then elim at [
            | none ↦ (err index_error, s)
            | some i ↦ async_update_listeners (record s { port_states = f s.port_states i })
          ]
          else (ok tt, s) in
        Keeps s out.1
  unfolding async_update_listeners
  written_at true none f s = λ x. x
  written_at true (some i) f s = λ x.
      consistent x.led x.port_statistics x.igmp x.loop_prevention x.cable_diagnostics x.qos x.lag
        x.mtu_vlan x.port_vlan x.vlan_8021q x.pvid x.port_traffic_rates
  written_at false at f s = λ x. x

  port_state-Keeps :
      (number : ℤ) (enabled : Bool) (speed : PortSpeed) (flow_control : Bool)
      → Moves Keeps (async_set_port_state w number enabled speed flow_control)
  unfolding async_set_port_state write_port_state
  port_state-Keeps number enabled speed flow_control =
      Keeps-bind (on_switch (set_port_state w.client number enabled speed flow_control))
        (λ _. write_port_state w (number -ℤ pos 1) enabled speed flow_control) (on_switch-Keeps _)
        (λ _. record {
          at = λ s.
              written_at (ltb_ℤ (number -ℤ pos 1) (pos (length s.port_states)))
                (position (number -ℤ pos 1) (length s.port_states))
                (modify_at (with_settings enabled speed flow_control)) s;
        })

  -- A command that changes the cache once the switch has accepted it.
  answered :
      {A : Type 0} (change : A → State w → State w) (r : Result A) (s t : State w)
      → Keeps s t
      → ((a : A) → Keeps s (change a t))
      → let out : Result ⊤ × State w = elim r [
        | ok a ↦ (modify (change a) >>> async_update_listeners) t
        | err e ↦ (err e, t)
      ] in
        Keeps s out.1
  unfolding ◌>>>=◌
  answered change (ok a) s t keeps k = λ x. listeners-Keeps.at (change a t) (k a x)
  answered change (err e) s t keeps k = keeps

  accepted :
      {A : Type 0} (m : Action A) (change : A → State w → State w) (s : State w)
      → ((a : A) (api : ApiState) → Keeps s (change a (record s { api = api })))
      → Keeps s ((on_switch m >>>= λ a. modify (change a) >>> async_update_listeners) s).1
  unfolding ◌>>>=◌ on_switch on_api
  accepted m change s keeps = answered change _ s _ ((on_switch-Keeps m).at s) (λ a. keeps a _)

  led-Keeps : (enabled : Bool) → Moves Keeps (async_set_led_state w enabled)
  unfolding async_set_led_state
  led-Keeps enabled = record {
    at = λ s. accepted _ _ s (λ a api x.
        consistent (λ e. cc) x.port_statistics x.igmp x.loop_prevention x.cable_diagnostics x.qos
          x.lag x.mtu_vlan x.port_vlan x.vlan_8021q x.pvid x.port_traffic_rates);
  }

  known_at :
      (port : Option PortState) (s : State w)
      → let out : Result ⊤ × State w = elim port [
        | none ↦ (err value_error, s)
        | some state ↦ (ok tt, s)
      ] in
        Keeps s out.1
  known_at none s = λ x. x
  known_at (some state) s = λ x. x

  cable-Keeps : (number : ℤ) → Moves Keeps (async_run_cable_diagnostic w number)
  unfolding async_run_cable_diagnostic check_known_port
  cable-Keeps number =
      Keeps-bind (check_known_port w number) _
        (record { at = λ s. known_at (get_port_state number s) s })
        (λ _. record {
          at = λ s. accepted _ _ s (λ a api x.
              consistent x.led x.port_statistics x.igmp x.loop_prevention (λ e. cc) x.qos x.lag
                x.mtu_vlan x.port_vlan x.vlan_8021q x.pvid x.port_traffic_rates);
        })

  igmp-Keeps :
      (enabled suppression : Bool) (s : State w)
      → s.igmp.supported ≢ some false
      → Keeps s (async_set_igmp_snooping w enabled suppression s).1
  unfolding async_set_igmp_snooping
  igmp-Keeps enabled suppression s h = accepted _ _ s (λ a api x.
      consistent x.led x.port_statistics (λ e. absurd (h e)) x.loop_prevention x.cable_diagnostics
        x.qos x.lag x.mtu_vlan x.port_vlan x.vlan_8021q x.pvid x.port_traffic_rates)

  loop-Keeps :
      (enabled : Bool) (s : State w)
      → s.loop_prevention.supported ≢ some false
      → Keeps s (async_set_loop_prevention w enabled s).1
  unfolding async_set_loop_prevention
  loop-Keeps enabled s h = accepted _ _ s (λ a api x.
      consistent x.led x.port_statistics x.igmp (λ e. absurd (h e)) x.cable_diagnostics x.qos x.lag
        x.mtu_vlan x.port_vlan x.vlan_8021q x.pvid x.port_traffic_rates)

  mode-Keeps : (mode : QosMode) → Moves Keeps (async_set_qos_mode w mode)
  unfolding async_set_qos_mode with_mode
  mode-Keeps mode = record {
    at = λ s. accepted _ _ s (λ a api x.
        consistent x.led x.port_statistics x.igmp x.loop_prevention x.cable_diagnostics
          (λ e. ap (with_mode w mode) (x.qos e)) x.lag x.mtu_vlan x.port_vlan x.vlan_8021q x.pvid
          x.port_traffic_rates);
  }

  prioritized_at :
      (number priority : ℤ) (cached : Option QosState) (s : State w)
      → s.qos.cached ≡ cached
      → let out : Result ⊤ × State w = elim cached [
        | none ↦ (ok tt, s)
        | some state ↦
            let (r, state') = prioritized number priority state in
            (r, record s { qos = record s.qos { cached = some state' } })
      ] in
        Keeps s out.1
  prioritized_at number priority none s e = λ x. x
  prioritized_at number priority (some state) s e = λ x.
      consistent x.led x.port_statistics x.igmp x.loop_prevention x.cable_diagnostics
        (λ z. absurd (some-none (sym e ∙ x.qos z))) x.lag x.mtu_vlan x.port_vlan x.vlan_8021q x.pvid
        x.port_traffic_rates

  priority-Keeps : (number priority : ℤ) → Moves Keeps (async_set_qos_priority w number priority)
  unfolding async_set_qos_priority write_qos_priority
  priority-Keeps number priority =
      Keeps-bind (on_switch (set_qos_priority w.client number priority))
        (λ _. write_qos_priority w number priority >>> async_update_listeners) (on_switch-Keeps _)
        (λ _.
          Keeps-bind (write_qos_priority w number priority) (λ _. async_update_listeners)
            (record { at = λ s. prioritized_at number priority s.qos.cached s refl })
            (λ _. listeners-Keeps))

  -- A command after which the coordinator polls again.
  polled_again :
      {A : Type 0} (m : Update w A) (k : Update w ⊤)
      → Moves Keeps m
      → Moves Keeps k
      → Moves Keeps (m >>> (k >>> async_update_listeners))
  polled_again m k x y =
      Keeps-bind m (λ _. k >>> async_update_listeners) x
        (λ _. Keeps-bind k (λ _. async_update_listeners) y (λ _. listeners-Keeps))

  limit-Keeps : (limit : Float) → Moves Keeps (async_set_poe_limit w limit)
  unfolding async_set_poe_limit
  limit-Keeps limit = polled_again _ _ (on_api-Keeps _) (poe_state-Keeps w)

  poe-Keeps :
      (number : ℤ) (enabled : Bool) (priority : PoePriority) (limit : PowerLimit)
      → Moves Keeps (async_set_port_poe_settings w number enabled priority limit)
  unfolding async_set_port_poe_settings
  poe-Keeps number enabled priority limit =
      polled_again _ _ (on_api-Keeps _) (port_poe_states-Keeps w)

  configured-Keeps : {A : Type 0} (m : Action A) → Moves Keeps (passed_on w m)
  unfolding passed_on
  configured-Keeps m =
      Keeps-bind (on_switch m) (λ _. pure tt) (on_switch-Keeps m) (λ _. record { at = λ s x. x })

-- In every state that is reached, what the switch does not support is not cached: its value is that
-- of an absent one; and if no counters are cached there are no traffic rates either.
pub Reachable-IsConsistent : {w : Surroundings} {s : State w} → Reachable w s → IsConsistent s
unfolding async_reboot
Reachable-IsConsistent (made api calculator) = new_coordinator-IsConsistent api calculator
Reachable-IsConsistent {w} (updated s r) = (async_update-Keeps w).at s (Reachable-IsConsistent r)
Reachable-IsConsistent {w} (port_changed n b v f s r) =
    (port_state-Keeps w n b v f).at s (Reachable-IsConsistent r)
Reachable-IsConsistent {w} (led_changed b s r) = (led-Keeps w b).at s (Reachable-IsConsistent r)
Reachable-IsConsistent {w} (igmp_changed b v s r h) =
    igmp-Keeps w b v s h (Reachable-IsConsistent r)
Reachable-IsConsistent {w} (loop_changed b s r h) = loop-Keeps w b s h (Reachable-IsConsistent r)
Reachable-IsConsistent {w} (rebooted s r) =
    (on_switch-Keeps (reboot w.client)).at s (Reachable-IsConsistent r)
Reachable-IsConsistent {w} (cable_tested n s r) = (cable-Keeps w n).at s (Reachable-IsConsistent r)
Reachable-IsConsistent {w} (mode_changed m s r) = (mode-Keeps w m).at s (Reachable-IsConsistent r)
Reachable-IsConsistent {w} (priority_changed n p s r) =
    (priority-Keeps w n p).at s (Reachable-IsConsistent r)
Reachable-IsConsistent {w} (limit_changed l s r) = (limit-Keeps w l).at s (Reachable-IsConsistent r)
Reachable-IsConsistent {w} (poe_changed n b p l s r) =
    (poe-Keeps w n b p l).at s (Reachable-IsConsistent r)
Reachable-IsConsistent {w} (configured m s r) =
    (configured-Keeps w m).at s (Reachable-IsConsistent r)
