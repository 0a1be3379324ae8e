-- ===== src/Coordinator/Tests.antt =====
-- A coordinator with concrete switches.
use hass_tplink_easy_smart.Coordinator.Commands.{item_of}
use hass_tplink_easy_smart.Classes.{PortState, auto, full_100m, full_10m}
use hass_tplink_easy_smart.Coordinator.Commands.{get_port_state, async_set_port_state}
use hass_tplink_easy_smart.Api.Device.{set_port_state}
use hass_tplink_easy_smart.Coordinator.PortCache.{Outcome, async_set_port_state-Outcome}
use hass_tplink_easy_smart.Ports.Trunk.{ports_where}
use hass_tplink_easy_smart.Ports.Trunk.{group_of}
use hass_tplink_easy_smart.Ports.Validate.{is_invalid}
use hass_tplink_easy_smart.Base.Order.{insert}
use hass_tplink_easy_smart.Base.Order.{sorted_set}
use hass_tplink_easy_smart.Ports.Validate.{check_range}
use hass_tplink_easy_smart.Python.{to_int}
use hass_tplink_easy_smart.Ports.Validate.{to_ints}
use hass_tplink_easy_smart.Python.{replace_conversion_error}
use hass_tplink_easy_smart.Ports.Validate.{unique_ports}
use hass_tplink_easy_smart.Ports.Validate.{validate_ports}
use hass_tplink_easy_smart.Base.{
  ℕ, zero, suc, ◌≡◌, refl, arith, String, true, false, none, some, List, [], ◌∷◌,
}
use hass_tplink_easy_smart.Python.{authentication, cannot_connect}
use hass_tplink_easy_smart.Core.Session.Monad.{◌>>=◌}
use hass_tplink_easy_smart.Coordinator.Refresh.{update_switch_info}
use hass_tplink_easy_smart.Coordinator.State.{on_switch, on_api}
use hass_tplink_easy_smart.Api.Features.{on_session}
use hass_tplink_easy_smart.Api.Device.{get_device_info}
use hass_tplink_easy_smart.Core.Session.Variables.{fetch_variables, fetch_variable}
use hass_tplink_easy_smart.Core.Session.Calls.{get, call, ensure_initialized, initialize}
use hass_tplink_easy_smart.Core.Session.Login.{
  authenticate, log_on, refresh_session, send, received, clear_cookies, create_missing,
  authentication_failure,
}
use hass_tplink_easy_smart.Base.Int.{ℤ, pos}
use hass_tplink_easy_smart.Base.Lists.{length}
use hass_tplink_easy_smart.Python.{ok, err}
use hass_tplink_easy_smart.Classes.{QosState, port_based}
use hass_tplink_easy_smart.Statistics.{Floats, Calculator}
use hass_tplink_easy_smart.Core.Variables.{Library}
use hass_tplink_easy_smart.Core.Session.Monad.{
  get_request, post_request, response, connection_lost, Device,
}
use hass_tplink_easy_smart.Core.Session.Login.{Credentials}
use hass_tplink_easy_smart.Ports.Trunk.{ports_for_trunk}
use hass_tplink_easy_smart.Api.Features.{ApiState}
use hass_tplink_easy_smart.Api.Poe.{Arithmetic}
use hass_tplink_easy_smart.Coordinator.State.{Coordinator, new_coordinator}
use hass_tplink_easy_smart.Coordinator.Refresh.{Surroundings, async_update}
use hass_tplink_easy_smart.Coordinator.Commands.{async_set_qos_priority, async_set_led_state}
use hass_tplink_easy_smart.Coordinator.Learning.{IsRefresh}
use hass_tplink_easy_smart.Coordinator.Updating.{async_update-IsRefresh}
use hass_tplink_easy_smart.Coordinator.Consistency.{IsConsistent}
use hass_tplink_easy_smart.Coordinator.Reachable.{
  made, updated, led_changed, Reachable-IsConsistent,
}
use hass_tplink_easy_smart.Coordinator.Failure.{Fails, async_update-Fails}
use hass_tplink_easy_smart.Coordinator.PriorityCache.{
  PriorityOutcome, async_set_qos_priority-Outcome,
}
use hass_tplink_easy_smart.Api.Limits.{set_qos_priority}

-- Pages are told apart by their first byte.
abbrev page : List ℕ → String
page [] = ""
page (zero ∷ _) = "<script>var logonInfo = new Array(\n0, 0, 0);</script>"
page (suc _ ∷ _) = "<script>var led = 1;</script>"

abbrev library : Library
library = record {
  loads = λ s. none;
  str_of = λ v. "0";
  unicode_word = λ c. false;
  utf8 = λ bytes. some (page bytes);
  gb18030 = λ bytes. none;
  gb18030_replace = λ bytes. "";
}

-- A switch that accepts the login and has a page that only knows an LED.
abbrev switch : Device
switch events (post_request path form) = response 200 (some (0 ∷ []))
switch events (get_request path) = response 200 (some (1 ∷ []))

abbrev account : Credentials
account = record { user = "admin"; password = "secret" }

-- Integers in the place of floats.
abbrev floats : Floats
floats = record {
  F = ℤ;
  minus = λ a b. a;
  is_positive = λ a. true;
  int_over = λ a b. some a;
  times_int = λ a b. some a;
  over_million = λ a. a;
}

abbrev arithmetic : Arithmetic
arithmetic = record {
  int_tenth = λ z. none;
  float_tenth = λ x. x;
  less = λ x y. false;
  at_most = λ x y. true;
}

abbrev around : Device → Surroundings
around device = record {
  client = record { library = library; device = device; account = account };
  arithmetic = arithmetic;
  floats = floats;
  monotonic = λ events. pos (length events);
}

abbrev api : ApiState
api = record {
  is_features_updated = false;
  available_features = [];
  session = record {
    has_session = false;
    session_injected = false;
    is_initialized = false;
    events = [];
  };
}

abbrev calculator : Calculator ℤ
calculator = record { assumed_packet_size = 1000; previous = []; previous_sample_time = none }

abbrev start : Coordinator ℤ
start = new_coordinator api calculator

async_update-IsRefresh_example : IsRefresh account start (async_update (around switch) start).1
async_update-IsRefresh_example = async_update-IsRefresh (around switch) start

Reachable-IsConsistent_example :
    IsConsistent (async_set_led_state (around switch) true (async_update (around switch) start).1).1
Reachable-IsConsistent_example =
    Reachable-IsConsistent (
      led_changed true (async_update (around switch) start).1 (updated start (made api calculator)))

-- A switch that drops every connection.
abbrev dead : Device
dead events q = connection_lost

dead_run : (async_update (around dead) start).0 ≡ err (authentication cannot_connect)
unfolding async_update ◌>>=◌ update_switch_info on_switch on_api on_session get_device_info
    fetch_variable fetch_variables get call ensure_initialized new_coordinator authenticate log_on
    refresh_session send received clear_cookies create_missing initialize authentication_failure
dead_run = refl

async_update-Fails_example : Fails (around dead) (authentication cannot_connect)
async_update-Fails_example = async_update-Fails (around dead) start dead_run

abbrev qos : QosState
qos = record {
  mode = port_based;
  priorities = pos 1 ∷ pos 2 ∷ pos 1 ∷ [];
  trunk_groups = pos 1 ∷ pos 0 ∷ pos 1 ∷ [];
}

lag_run : ports_for_trunk (pos 3) qos.trunk_groups ≡ ok (1 ∷ 3 ∷ [])
unfolding ports_for_trunk validate_ports unique_ports replace_conversion_error to_ints to_int
    check_range sorted_set insert is_invalid group_of ports_where
lag_run = refl

abbrev with_qos : Coordinator ℤ
with_qos = record start { qos = record { cached = some qos; supported = some true } }

async_set_qos_priority-Outcome_example :
    let (answer, session) =
      set_qos_priority (around switch).client (pos 3) (pos 4) with_qos.api.session in
    let out = async_set_qos_priority (around switch) (pos 3) (pos 4) with_qos in
    PriorityOutcome (around switch) (pos 3) (pos 4) (1 ∷ 3 ∷ []) qos with_qos answer out
    × (out.1.api.session ≡ session)
async_set_qos_priority-Outcome_example =
    async_set_qos_priority-Outcome (around switch) (pos 3) (pos 4) with_qos qos refl lag_run refl
      (omega arith)

abbrev first_port : PortState
first_port = record {
  number = 1;
  enabled = true;
  flow_control_config = false;
  flow_control_actual = false;
  speed_config = auto;
  speed_actual = full_100m;
}

abbrev with_port : Coordinator ℤ
with_port = record start { port_states = first_port ∷ [] }

known_run : get_port_state (pos 1) with_port ≡ some first_port
unfolding get_port_state item_of
known_run = refl

async_set_port_state-Outcome_example :
    let (answer, session) =
      set_port_state (around switch).client (pos 1) false full_10m true with_port.api.session in
    let out = async_set_port_state (around switch) (pos 1) false full_10m true with_port in
    Outcome (around switch) (pos 1) false full_10m true first_port with_port answer out
    × (out.1.api.session ≡ session)
async_set_port_state-Outcome_example =
    async_set_port_state-Outcome (around switch) (pos 1) false full_10m true with_port known_run
