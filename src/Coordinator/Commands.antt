-- ===== src/Coordinator/Commands.antt =====
-- What a coordinator answers from its cache, and the commands that it passes on to the API.
use hass_tplink_easy_smart.Base.{
  ℕ, zero, suc, ◌-◌, Bool, true, false, ◌&&◌, ◌||◌, Option, none, some, List, [], ◌∷◌, ltb,
  if◌then◌else◌,
}
use hass_tplink_easy_smart.Base.Int.{ℤ, pos, negsuc, pos_part, ◌-ℤ◌, ltb_ℤ, leb_ℤ, eqb_ℤ}
use hass_tplink_easy_smart.Base.Lists.{length, get_elem?, set}
use hass_tplink_easy_smart.Base.Assoc.{lookup, nat_eq}
use hass_tplink_easy_smart.Python.{Result, ok, err, index_error, value_error, Float, index}
use hass_tplink_easy_smart.Classes.{
  PortSpeed, PortState, PortPoeState, PortStatistics, CableDiagnostic, QosMode, qos_mode_number,
  QosState, PoePriority, PowerLimit,
}
use hass_tplink_easy_smart.Statistics.{PortTrafficRates}
use hass_tplink_easy_smart.Core.Session.Monad.{⊤, modify, ◌>>=◌ as ◌>>>=◌, ◌>>◌ as ◌>>>◌}
use hass_tplink_easy_smart.Api.Device.{set_port_state}
use hass_tplink_easy_smart.Api.Settings.{
  set_led_state, reboot, set_igmp_snooping, set_loop_prevention,
}
use hass_tplink_easy_smart.Api.Cable.{run_cable_diagnostic}
use hass_tplink_easy_smart.Api.Limits.{set_qos_mode, set_qos_priority}
use hass_tplink_easy_smart.Api.Poe.{set_poe_limit, set_port_poe_settings}
use hass_tplink_easy_smart.Coordinator.State.{
  Coordinator, on_api, on_switch, async_update_listeners,
}
use hass_tplink_easy_smart.Coordinator.Refresh.{
  Surroundings, Update, update_poe_state, update_port_poe_states,
}

-- `items[number - 1]`, or `None` where `number > len(items) or number < 1`.
unfoldable pub item_of : {A : Type 0} → List A → ℤ → Option A
item_of items number =
    if ltb_ℤ (pos (length items)) number || ltb_ℤ number (pos 1)
    then none
    else get_elem? items (pos_part number - 1)

module _ {F : Type 0} where
  unfoldable pub get_port_state : ℤ → Coordinator F → Option PortState
  get_port_state number s = item_of s.port_states number

  unfoldable pub get_port_poe_state : ℤ → Coordinator F → Option PortPoeState
  get_port_poe_state number s = item_of s.port_poe_states number

  unfoldable pub get_cable_diagnostic : ℤ → Coordinator F → Option CableDiagnostic
  get_cable_diagnostic number s = item_of s.cable_diagnostics.cached number

  -- `get_port_statistics` of the coordinator.
  unfoldable pub cached_port_statistics : ℤ → Coordinator F → Option PortStatistics
  cached_port_statistics number s = item_of s.port_statistics.cached number

  unfoldable pub get_port_traffic_rates : ℕ → Coordinator F → Option (PortTrafficRates F)
  get_port_traffic_rates number s = lookup number s.port_traffic_rates

-- The position that `items[index]` means in a list of this length.
unfoldable pub position : ℤ → ℕ → Option ℕ
position (pos i) n = if ltb i n then some i else none
position (negsuc i) n = if ltb i n then some (n - suc i) else none

-- `items[i].field = ...`
unfoldable pub modify_at : {A : Type 0} → (A → A) → List A → ℕ → List A
modify_at f [] i = []
modify_at f (x ∷ xs) zero = f x ∷ xs
modify_at f (x ∷ xs) (suc i) = x ∷ modify_at f xs i

-- The three fields of a port's state that `set_port_state` writes.
unfoldable pub with_settings : Bool → PortSpeed → Bool → PortState → PortState
with_settings enabled speed_config flow_control_config state = record state {
  enabled = enabled;
  speed_config = speed_config;
  flow_control_config = flow_control_config;
}

-- `index + 1 == port_number or (group > 0 and trunk_group == group)`
unfoldable pub is_affected : ℤ → ℤ → ℕ → ℤ → Bool
is_affected port_number group i trunk_group =
    eqb_ℤ (pos (suc i)) port_number || (ltb_ℤ (pos 0) group && eqb_ℤ trunk_group group)

-- `state.priorities[index] = priority`, where the test holds.
unfoldable pub write_priority : Bool → ℤ → ℕ → List ℤ → Result ⊤ × List ℤ
write_priority false priority i priorities = (ok tt, priorities)
write_priority true priority i priorities =
    if ltb i (length priorities)
    then (ok tt, set priorities i priority)
    else (err index_error, priorities)

-- The loop of `async_set_qos_priority`, from index `i` on.
unfoldable pub write_priorities : ℤ → ℤ → ℤ → ℕ → List ℤ → List ℤ → Result ⊤ × List ℤ
write_priorities port_number group priority i [] priorities = (ok tt, priorities)
write_priorities port_number group priority i (trunk_group ∷ trunk_groups) priorities =
    let (r, written) =
      write_priority (is_affected port_number group i trunk_group) priority i priorities in
    elim r [
      | ok done ↦ write_priorities port_number group priority (suc i) trunk_groups written
      | err e ↦ (err e, written)
    ]

-- What `async_set_qos_priority` makes of the cached state, after the switch has it.
unfoldable pub prioritized : ℤ → ℤ → QosState → Result ⊤ × QosState
prioritized port_number priority state =
    if leb_ℤ (pos 1) port_number && leb_ℤ port_number (pos (length state.priorities))
    then elim (index state.trunk_groups (pos_part port_number - 1)) [
      | err e ↦ (err e, state)
      | ok group ↦
          let (r, priorities) =
            write_priorities port_number group priority 0 state.trunk_groups state.priorities in
          (r, record state { priorities = priorities })
    ]
    else (ok tt, state)

module _ (w : Surroundings) where
  -- `set_port_state` of the coordinator, from `index = number - 1` on.
  unfoldable pub write_port_state : ℤ → Bool → PortSpeed → Bool → Update w ⊤
  unfolding modify_at
  write_port_state i enabled speed_config flow_control_config s =
      if ltb_ℤ i (pos (length s.port_states))
      then elim (position i (length s.port_states)) [
        | none ↦ (err index_error, s)
        | some at ↦ async_update_listeners (record s {
          port_states =
              modify_at (with_settings enabled speed_config flow_control_config) s.port_states at;
        })
      ]
      else (ok tt, s)

  -- `set_port_state` of the coordinator.
  unfoldable pub async_set_port_state : ℤ → Bool → PortSpeed → Bool → Update w ⊤
  unfolding ◌-ℤ◌
  async_set_port_state number enabled speed_config flow_control_config =
      on_switch (set_port_state w.client number enabled speed_config flow_control_config)
      >>> write_port_state (number -ℤ pos 1) enabled speed_config flow_control_config

  unfoldable pub async_set_igmp_snooping : Bool → Bool → Update w ⊤
  async_set_igmp_snooping enabled report_suppression =
      on_switch (set_igmp_snooping w.client enabled report_suppression)
      >>> (modify (λ s. record s {
        igmp = record s.igmp {
          cached = some (record { enabled = enabled; report_suppression = report_suppression });
        };
      })
          >>> async_update_listeners)

  unfoldable pub async_set_led_state : Bool → Update w ⊤
  async_set_led_state enabled =
      on_switch (set_led_state w.client enabled)
      >>> (modify (λ s. record s { led = record { cached = some enabled; supported = some true } })
          >>> async_update_listeners)

  unfoldable pub async_reboot : Update w ⊤
  async_reboot = on_switch (reboot w.client)

  unfoldable pub async_set_loop_prevention : Bool → Update w ⊤
  async_set_loop_prevention enabled =
      on_switch (set_loop_prevention w.client enabled)
      >>> (modify (λ s. record s {
        loop_prevention = record s.loop_prevention { cached = some (record { enabled = enabled }) };
      })
          >>> async_update_listeners)

  unfoldable pub check_known_port : ℤ → Update w ⊤
  check_known_port port_number s = elim (get_port_state port_number s) [
    | none ↦ (err value_error, s)
    | some state ↦ (ok tt, s)
  ]

  unfoldable pub async_run_cable_diagnostic : ℤ → Update w ⊤
  async_run_cable_diagnostic port_number =
      check_known_port port_number
      >>> (on_switch (run_cable_diagnostic w.client port_number) >>>= λ diagnostics.
          modify (λ s. record s {
            cable_diagnostics = record { cached = diagnostics; supported = some true };
          })
          >>> async_update_listeners)

  -- `if self._qos_state is not None: ...`
  unfoldable pub with_mode : QosMode → Option QosState → Option QosState
  with_mode mode none = none
  with_mode mode (some state) = some (record state { mode = mode })

  unfoldable pub async_set_qos_mode : QosMode → Update w ⊤
  async_set_qos_mode mode =
      on_switch (set_qos_mode w.client (pos (qos_mode_number mode)))
      >>> (modify (λ s. record s { qos = record s.qos { cached = with_mode mode s.qos.cached } })
          >>> async_update_listeners)

  unfoldable pub write_qos_priority : ℤ → ℤ → Update w ⊤
  write_qos_priority port_number priority s = elim s.qos.cached [
    | none ↦ (ok tt, s)
    | some state ↦
        let (r, state') = prioritized port_number priority state in
        (r, record s { qos = record s.qos { cached = some state' } })
  ]

  unfoldable pub async_set_qos_priority : ℤ → ℤ → Update w ⊤
  async_set_qos_priority port_number priority =
      on_switch (set_qos_priority w.client port_number priority)
      >>> (write_qos_priority port_number priority >>> async_update_listeners)

  unfoldable pub async_set_poe_limit : Float → Update w ⊤
  async_set_poe_limit limit =
      on_api (set_poe_limit w.client w.arithmetic limit)
      >>> (update_poe_state w >>> async_update_listeners)

  unfoldable pub async_set_port_poe_settings : ℤ → Bool → PoePriority → PowerLimit → Update w ⊤
  async_set_port_poe_settings port_number enabled priority power_limit =
      on_api (set_port_poe_settings w.client w.arithmetic port_number enabled priority power_limit)
      >>> (update_port_poe_states w >>> async_update_listeners)
