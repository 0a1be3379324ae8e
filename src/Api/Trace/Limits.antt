-- ===== src/Api/Trace/Limits.antt =====
-- What the writes of QoS priorities, bandwidth limits and storm control send.
use hass_tplink_easy_smart.Base.{◌≡◌, refl, ℕ, Bool, true, false, String, List, map, arith}
use hass_tplink_easy_smart.Base.Int.{ℤ, pos, ◌≤ℤ◌}
use hass_tplink_easy_smart.Base.Lists.{is_empty}
use hass_tplink_easy_smart.Python.{Value, Result, ok}
use hass_tplink_easy_smart.Classes.{port_based, QosState, BandwidthControl, StormControl}
use hass_tplink_easy_smart.Core.Session.Monad.{Request, post_request, Session, Action, lift, ◌>>=◌}
use hass_tplink_easy_smart.Core.Session.Calls.Trace.{
  Extends, Only, Only-lift, Only-bind, Only-bind_from,
}
use hass_tplink_easy_smart.Ports.Trunk.{ports_for_trunk}
use hass_tplink_easy_smart.Ports.Trunk.Affected.{IsWholeLag, ports_for_trunk-IsWholeLag}
use hass_tplink_easy_smart.Api.Apply.{Client, apply_post}
use hass_tplink_easy_smart.Api.Trace.{
  Traffic, login, read, write, fetch_variables-Only, apply_post-Only,
}
use hass_tplink_easy_smart.Api.Limits.{
  priority_ports, priority_form, get_qos, set_qos_priority, not_within, check_rates,
  bandwidth_ports, bandwidth_form, get_bandwidth_controls, set_bandwidth_control, storm_types,
  check_storm, storm_ports, storm_form, get_storm_controls, set_storm_control,
}

-- An operation that reads a state, tests its request against it, and posts the outcome.
module _ (c : Client) (page : String) (W : Request → Type 0) {State Out : Type 0} where
  checked_post :
      (load : Action State) (check : State → Result Out) (path : String)
      (form : Out → List (String × Value))
      → Only (Traffic c.account page W) load
      → ((state : State) (out : Out) (t : Session)
          → (load t).0 ≡ ok state
          → check state ≡ ok out
          → W (post_request path (form out)))
      → Only
          (Traffic c.account page W)
          (load >>= λ state. lift (check state) >>= λ out. apply_post c path (form out))
  checked_post load check path form reads allowed = Only-bind_from _ _ reads (λ state t loaded.
      Only-bind_from (lift (check state)) _ (Only-lift _) (λ out s passed.
        apply_post-Only c _ (λ e i. login i) path (form out)
          (write _ refl (allowed state out t loaded passed))))

-- A write of `set_qos_priority`: a priority from 1 to 4 for a port and its whole LAG, in port-based
-- mode by a state that `get_qos` returned.
pub record PriorityWrite (c : Client) (port_number priority : ℤ) (q : Request) : Type 0 where
  pub state : QosState
  pub session : Session
  pub loaded : (get_qos c session).0 ≡ ok state
  pub mode : state.mode ≡ port_based
  pub range : (pos 1 ≤ℤ priority) × (priority ≤ℤ pos 4)
  pub ports : List ℕ
  pub whole : IsWholeLag port_number state.trunk_groups ports
  pub request : q ≡ post_request "qos_port_priority_set.cgi" (priority_form priority ports)

priority_ports_parts :
    (state : QosState) (port_number priority : ℤ) {ports : List ℕ}
    → priority_ports state port_number priority ≡ ok ports
    → (state.mode ≡ port_based)
      × ((pos 1 ≤ℤ priority) × (priority ≤ℤ pos 4))
      × (ports_for_trunk port_number state.trunk_groups ≡ ok ports)
unfolding priority_ports
priority_ports_parts state n z {ports} h =
    (ground arith, (ground arith, ground arith), ground arith)

get_qos-Only :
    (c : Client) (W : Request → Type 0) → Only (Traffic c.account "QosBasicRpm.htm" W) (get_qos c)
unfolding get_qos
get_qos-Only c W =
    Only-bind _ _ (fetch_variables-Only c _ (λ e i. login i) _ _ (read refl)) (λ data'. Only-lift _)

-- Whatever the switch answers, `set_qos_priority` sends nothing but logins, the read of the QoS page,
-- and the form of a priority from 1 to 4 for the port and its whole LAG, by a state in port-based
-- mode that `get_qos` can return.
pub set_qos_priority-trace :
    (c : Client) (port_number priority : ℤ) (s : Session)
    → Extends
        (Traffic c.account "QosBasicRpm.htm" (PriorityWrite c port_number priority))
        s
        (set_qos_priority c port_number priority s).1
unfolding set_qos_priority
set_qos_priority-trace c n z s =
    (checked_post c _ _ (get_qos c) (λ state. priority_ports state n z) "qos_port_priority_set.cgi"
        (priority_form z) (get_qos-Only c _)
        (λ state ports t loaded passed.
          let (mode, range, chosen) = priority_ports_parts state n z passed in
          record {
            state = state;
            session = t;
            loaded = loaded;
            mode = mode;
            range = range;
            ports = ports;
            whole = ports_for_trunk-IsWholeLag n state.trunk_groups chosen;
            request = refl;
          })).at
      s

-- A write of `set_bandwidth_control`: two limits up to 1000000 for a port and its whole LAG, by a
-- state that `get_bandwidth_controls` returned.
pub record BandwidthWrite (c : Client) (port_number ingress egress : ℤ) (q : Request) : Type 0 where
  pub state : List BandwidthControl
  pub session : Session
  pub loaded : (get_bandwidth_controls c session).0 ≡ ok state
  pub rates :
      ((pos 0 ≤ℤ ingress) × (ingress ≤ℤ pos 1000000))
      × ((pos 0 ≤ℤ egress) × (egress ≤ℤ pos 1000000))
  pub ports : List ℕ
  pub whole :
      IsWholeLag port_number (map (λ (item : BandwidthControl). item.trunk_group) state) ports
  pub request : q ≡ post_request "qos_bandwidth_set.cgi" (bandwidth_form ingress egress ports)

check_rates_parts :
    (ingress egress : ℤ)
    → check_rates ingress egress ≡ ok tt
    → ((pos 0 ≤ℤ ingress) × (ingress ≤ℤ pos 1000000))
      × ((pos 0 ≤ℤ egress) × (egress ≤ℤ pos 1000000))
unfolding check_rates not_within
check_rates_parts ingress egress h = ((ground arith, ground arith), (ground arith, ground arith))

get_bandwidth_controls-Only :
    (c : Client) (W : Request → Type 0)
    → Only (Traffic c.account "QosBandWidthControlRpm.htm" W) (get_bandwidth_controls c)
unfolding get_bandwidth_controls
get_bandwidth_controls-Only c W =
    Only-bind _ _ (fetch_variables-Only c _ (λ e i. login i) _ _ (read refl)) (λ data'. Only-lift _)

-- Whatever the switch answers, `set_bandwidth_control` sends nothing but logins, the read of the
-- bandwidth page, and the form of two limits from 0 to 1000000 for the port and its whole LAG, by a
-- state that `get_bandwidth_controls` can return.
pub set_bandwidth_control-trace :
    (c : Client) (port_number ingress egress : ℤ) (s : Session)
    → Extends
        (Traffic c.account "QosBandWidthControlRpm.htm"
          (BandwidthWrite c port_number ingress egress))
        s
        (set_bandwidth_control c port_number ingress egress s).1
unfolding set_bandwidth_control bandwidth_ports
set_bandwidth_control-trace c n ingress egress s =
    (Only-bind_from (lift (check_rates ingress egress)) _ (Only-lift _) (λ _ _ checked.
        checked_post c _ _ (get_bandwidth_controls c) (bandwidth_ports n) "qos_bandwidth_set.cgi"
          (bandwidth_form ingress egress) (get_bandwidth_controls-Only c _)
          (λ state ports t loaded chosen. record {
            state = state;
            session = t;
            loaded = loaded;
            rates = check_rates_parts ingress egress checked;
            ports = ports;
            whole =
                ports_for_trunk-IsWholeLag n
                  (map (λ (item : BandwidthControl). item.trunk_group) state) chosen;
            request = refl;
          }))).at
      s

-- A write of `set_storm_control`: for a port and its whole LAG, by a state that `get_storm_controls`
-- returned; with a rate from 1 to 1000000 and some type of storm if it enables the control.
pub record StormWrite (c : Client) (port_number : ℤ) (enabled : Bool) (rate : ℤ) (types : List ℤ)
    (q : Request) : Type 0 where
  pub state : List StormControl
  pub session : Session
  pub loaded : (get_storm_controls c session).0 ≡ ok state
  pub limit : enabled ≡ true → (pos 1 ≤ℤ rate) × (rate ≤ℤ pos 1000000)
  pub chosen : enabled ≡ true → is_empty types ≡ false
  pub ports : List ℕ
  pub whole : IsWholeLag port_number (map (λ (item : StormControl). item.trunk_group) state) ports
  pub request : q ≡ post_request "qos_storm_set.cgi" (storm_form enabled rate types ports)

check_storm_parts :
    (enabled : Bool) (rate : ℤ) (types : List ℤ)
    → check_storm enabled rate types ≡ ok tt
    → (enabled ≡ true → (pos 1 ≤ℤ rate) × (rate ≤ℤ pos 1000000))
      × (enabled ≡ true → is_empty types ≡ false)
unfolding check_storm not_within
check_storm_parts enabled rate types h = ((λ e. (ground arith, ground arith)), λ e. ground arith)

get_storm_controls-Only :
    (c : Client) (W : Request → Type 0)
    → Only (Traffic c.account "QosStormControlRpm.htm" W) (get_storm_controls c)
unfolding get_storm_controls
get_storm_controls-Only c W =
    Only-bind _ _ (fetch_variables-Only c _ (λ e i. login i) _ _ (read refl)) (λ data'. Only-lift _)

-- Whatever the switch answers, `set_storm_control` sends nothing but logins, the read of the storm
-- page, and a form for the port and its whole LAG, by a state that `get_storm_controls` can return;
-- if it enables the control, the rate is from 1 to 1000000 and some type of storm is chosen.
pub set_storm_control-trace :
    (c : Client) (port_number : ℤ) (enabled : Bool) (rate : ℤ)
    (unknown_unicast multicast broadcast : Bool) (s : Session)
    → Extends
        (Traffic c.account "QosStormControlRpm.htm"
          (StormWrite c port_number enabled rate (storm_types unknown_unicast multicast broadcast)))
        s
        (set_storm_control c port_number enabled rate unknown_unicast multicast broadcast s).1
unfolding set_storm_control storm_ports
set_storm_control-trace c n enabled rate u m b s =
    let types = storm_types u m b in
    (Only-bind_from (lift (check_storm enabled rate types)) _ (Only-lift _) (λ _ _ checked.
        checked_post c _ _ (get_storm_controls c) (storm_ports n) "qos_storm_set.cgi"
          (storm_form enabled rate types) (get_storm_controls-Only c _)
          (λ state ports t loaded found. record {
            state = state;
            session = t;
            loaded = loaded;
            limit = (check_storm_parts enabled rate types checked).0;
            chosen = (check_storm_parts enabled rate types checked).1;
            ports = ports;
            whole =
                ports_for_trunk-IsWholeLag n (map (λ (item : StormControl). item.trunk_group) state)
                  found;
            request = refl;
          }))).at
      s
