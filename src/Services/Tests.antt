-- ===== src/Services/Tests.antt =====
-- Entries and services in concrete cases.
use hass_tplink_easy_smart.Services.Calls.{normalized}
use hass_tplink_easy_smart.Services.Calls.{same_codes}
use hass_tplink_easy_smart.Services.Calls.{has_address}
use hass_tplink_easy_smart.Services.Calls.{found_first}
use hass_tplink_easy_smart.Services.Calls.{find_coordinator}
use hass_tplink_easy_smart.Services.Calls.{serve}
use hass_tplink_easy_smart.Services.Calls.{is_known}
use hass_tplink_easy_smart.Base.Assoc.{insert}
use hass_tplink_easy_smart.Services.Lifecycle.{present_coordinator}
use text.Mathlib.Text.{◌==◌ as str_eq}
use hass_tplink_easy_smart.Base.{
  ℕ, String, Bool, true, false, not, ◌&&◌, ◌||◌, ◌≡◌, refl, sym, ap, Option, none, some, [], ◌∷◌,
  if◌then◌else◌,
}
use hass_tplink_easy_smart.Base.Int.{ℤ, pos}
use hass_tplink_easy_smart.Base.Assoc.{lookup, string_eq}
use hass_tplink_easy_smart.Python.{ok, err, home_assistant_error, configuration_error}
use hass_tplink_easy_smart.Statistics.{Floats}
use hass_tplink_easy_smart.Api.Poe.{Arithmetic}
use hass_tplink_easy_smart.Classes.{TpLinkSystemInfo}
use hass_tplink_easy_smart.Core.Variables.{Library}
use hass_tplink_easy_smart.Core.Session.Monad.{connection_lost}
use hass_tplink_easy_smart.Api.Apply.{Client}
use hass_tplink_easy_smart.Api.Features.{ApiState}
use hass_tplink_easy_smart.Coordinator.State.{new_coordinator}
use hass_tplink_easy_smart.Services.Calls.{
  ServiceCall, Managed, find_coordinator, lag_setting, Entries, async_call_service,
}
use hass_tplink_easy_smart.Services.Isolation.{
  Served, async_call_service-Served, IsServiceError, async_call_service-IsServiceError,
}
use hass_tplink_easy_smart.Services.Lifecycle.{
  Registry, Hass, async_setup_entry, get_coordinator, set_coordinator, pop_coordinator, domain_of,
}
use hass_tplink_easy_smart.Services.Entries.{IsBalanced, SetUp, async_setup_entry-SetUp}
use hass_tplink_easy_smart.Services.Running.{started, entered, Running-IsBalanced}
use hass_tplink_easy_smart.Services.Store.{pop_coordinator-set_coordinator}

abbrev add_name : String → (String → Bool) → String → Bool
add_name name r other = str_eq other name || r other

abbrev register_name : Bool → String → (String → Bool) → Option (String → Bool)
register_name true name r = none
register_name false name r = some (add_name name r)

unwrap : (String → Bool) → Option (String → Bool) → String → Bool
unwrap d none = d
unwrap d (some f) = f

add_name-of_register :
    (b : Bool) (name other : String) (r s : String → Bool)
    → register_name b name r ≡ some s
    → s other ≡ add_name name r other
unfolding unwrap
add_name-of_register true name other r s e = cc
add_name-of_register false name other r s e = ap (λ o. unwrap s o other) (sym e)

-- A registry as a test of names, which accepts every name but "set_lag".
abbrev names : Registry (String → Bool)
names = record {
  has = λ r name. r name;
  register = λ name. register_name (str_eq name "set_lag") name;
  unregister = λ name r other. not (str_eq other name) && r other;
  has-register = λ name. add_name-of_register (str_eq name "set_lag") name;
  has-unregister = λ name other r. refl;
}

abbrev start : Hass (String → Bool) ℕ
start = record { domain = none; registry = λ name. false; unloaded = [] }

async_setup_entry-SetUp_example :
    SetUp names "entry" 5 start (async_setup_entry names true true "entry" 5 start)
unfolding domain_of lookup
async_setup_entry-SetUp_example =
    async_setup_entry-SetUp names true true "entry" 5 start
      (Running-IsBalanced names (started (λ name. false) [] (λ name. refl))) refl

set_up_run : get_coordinator "entry" (set_coordinator "entry" 5 start) ≡ ok 5
unfolding get_coordinator present_coordinator lookup domain_of set_coordinator insert
set_up_run = refl

Running-IsBalanced_example : IsBalanced names (async_setup_entry names true true "entry" 5 start).1
unfolding domain_of lookup
Running-IsBalanced_example =
    Running-IsBalanced names
      (entered true true "entry" 5 start (started (λ name. false) [] (λ name. refl)) refl)

pop_coordinator-set_coordinator_example :
    ((other : String)
      → get_coordinator other (set_coordinator "entry" 5 start)
        ≡ (if string_eq.beq "entry" other then ok 5 else get_coordinator other start))
    × ((pop_coordinator "entry" (set_coordinator "entry" 5 start)).0 ≡ some 5)
    × ((other : String)
        → get_coordinator other (pop_coordinator "entry" (set_coordinator "entry" 5 start)).1 ≡ (
            if string_eq.beq "entry" other
            then err configuration_error
            else get_coordinator other start))
unfolding domain_of
pop_coordinator-set_coordinator_example = pop_coordinator-set_coordinator "entry" 5 start tt

abbrev arithmetic : Arithmetic
arithmetic = record {
  int_tenth = λ z. none;
  float_tenth = λ x. x;
  less = λ x y. false;
  at_most = λ x y. true;
}

abbrev floats : Floats
floats = record {
  F = ℤ;
  minus = λ a b. a;
  is_positive = λ a. true;
  int_over = λ a b. some a;
  times_int = λ a b. some a;
  over_million = λ a. a;
}

abbrev lag_call : ServiceCall
lag_call = record {
  mac_address = "50:d4:f7:aa:bb:0c";
  operation = lag_setting (pos 1) (pos 3 ∷ pos 4 ∷ []);
}

-- An entry whose setup has not come to its coordinator.
abbrev entries : Entries ℤ
entries = ("entry", none) ∷ []

abbrev library : Library
library = record {
  loads = λ s. none;
  str_of = λ v. "0";
  unicode_word = λ c. false;
  utf8 = λ bytes. none;
  gb18030 = λ bytes. none;
  gb18030_replace = λ bytes. "";
}

abbrev client : Client
client = record {
  library = library;
  device = λ events q. connection_lost;
  account = record { user = "admin"; password = "secret" };
}

abbrev api : ApiState
api = record {
  is_features_updated = false;
  available_features = [];
  session = record {
    has_session = false;
    session_injected = false;
    is_initialized = false;
    events = [];
  };
}

abbrev info : TpLinkSystemInfo
info = record {
  name = "switch";
  mac = "50:D4:F7:AA:BB:0C";
  ip = none;
  netmask = none;
  gateway = none;
  firmware = none;
  hardware = none;
}

abbrev managed : Managed ℤ
managed = record {
  client = client;
  coordinator =
      record (new_coordinator api
        (record { assumed_packet_size = 1000; previous = []; previous_sample_time = none })) {
          switch_info = some info;
        };
}

abbrev two_entries : Entries ℤ
two_entries = ("entry", none) ∷ ("office", some managed) ∷ []

-- The address of the call is that of the second entry.
find_run : find_coordinator "50:d4:f7:aa:bb:0c" two_entries ≡ some ("office", managed)
unfolding find_coordinator found_first has_address same_codes normalized
find_run = refl

async_call_service-Served_example :
    Served arithmetic floats
      (λ events. pos 0)
      lag_call
      two_entries
      (async_call_service arithmetic floats (λ events. pos 0) lag_call two_entries)
unfolding lookup
async_call_service-Served_example =
    async_call_service-Served arithmetic floats (λ events. pos 0) lag_call two_entries
      (refl, (refl, tt))

refused_run :
    (async_call_service arithmetic floats (λ events. pos 0) lag_call entries).0
    ≡ err home_assistant_error
unfolding async_call_service is_known serve find_coordinator found_first
refused_run = refl

async_call_service-IsServiceError_example : IsServiceError home_assistant_error
unfolding lookup
async_call_service-IsServiceError_example =
    async_call_service-IsServiceError arithmetic floats (λ events. pos 0) lag_call entries
      (refl, tt) refused_run
