-- ===== src/ConfigFlow/Tests.antt =====
-- A flow with a concrete switch.
use hass_tplink_easy_smart.ConfigFlow.{
  async_step_reconfigure, finish_reconfigure, given_text, entry_updated,
}
use hass_tplink_easy_smart.ConfigFlow.Reconfigure.{IsSame, async_step_reconfigure-IsSame}
use hass_tplink_easy_smart.Api.Device.{
  get_device_info, parse_device_info, compact, digit_text, hex_value, info_value, normalize_mac,
  pairs,
}
use hass_tplink_easy_smart.Core.Session.Variables.{
  fetch_variable, fetch_variables, convert_all, value_of,
}
use hass_tplink_easy_smart.Core.Session.Calls.{
  get, call, ensure_initialized, perform, exchange, unexpected_status, retry, check_authorized,
  disconnect, initialize, relative_url,
}
use hass_tplink_easy_smart.Python.{truthy, parse_int}
use hass_tplink_easy_smart.Core.Variables.{dict_of}
use hass_tplink_easy_smart.Api.Fields.{require_dict, get_default}
use hass_tplink_easy_smart.ConfigFlow.{
  formatted, has_text, has_unique_id, is_configured, is_wrong, name_error, validation_error,
}
use hass_tplink_easy_smart.Core.Regex.{first_chars, is_word, size}
use hass_tplink_easy_smart.Core.Session.Login.{
  authentication_failure, clear_cookies, create_missing,
}
use hass_tplink_easy_smart.Core.Session.Login.{logon_failure}
use hass_tplink_easy_smart.Core.Variables.{list_of}
use hass_tplink_easy_smart.Core.Session.Login.{check_logon}
use hass_tplink_easy_smart.Core.Variables.{strip}
use hass_tplink_easy_smart.Base.Assoc.{insert}
use hass_tplink_easy_smart.Core.Regex.{at_end}
use hass_tplink_easy_smart.Core.Regex.{look_ahead}
use hass_tplink_easy_smart.Core.Regex.{many}
use hass_tplink_easy_smart.Core.Regex.{word_boundary}
use hass_tplink_easy_smart.Core.Regex.{many_lazy}
use hass_tplink_easy_smart.Core.Regex.{capture}
use hass_tplink_easy_smart.Python.{is_space}
use hass_tplink_easy_smart.Core.Regex.{same_ignoring_case}
use hass_tplink_easy_smart.Core.Regex.{char_if}
use hass_tplink_easy_smart.Core.Regex.{literal}
use hass_tplink_easy_smart.Core.Regex.{find_all}
use hass_tplink_easy_smart.Core.Variables.{get_variables}
use hass_tplink_easy_smart.Base.Assoc.{lookup}
use hass_tplink_easy_smart.Core.Variables.{convert_value}
use hass_tplink_easy_smart.Core.Variables.{get_variable}
use hass_tplink_easy_smart.Core.Session.Login.{response_text}
use hass_tplink_easy_smart.Core.Session.Login.{received}
use hass_tplink_easy_smart.Core.Session.Login.{send}
use hass_tplink_easy_smart.Core.Session.Login.{refresh_session}
use hass_tplink_easy_smart.Core.Session.Login.{log_on}
use hass_tplink_easy_smart.Core.Session.Login.{authenticate}
use hass_tplink_easy_smart.Core.Session.Monad.{◌>>=◌}
use hass_tplink_easy_smart.ConfigFlow.{validation_of}
use hass_tplink_easy_smart.ConfigFlow.{validate_switch}
use hass_tplink_easy_smart.ConfigFlow.{form_errors}
use hass_tplink_easy_smart.ConfigFlow.{finish_config}
use hass_tplink_easy_smart.Base.{
  ℕ, zero, suc, ◌≡◌, refl, String, true, false, none, some, List, [], ◌∷◌, Option,
}
use hass_tplink_easy_smart.Python.{Value, str, list, item, no_items, dict, field, no_fields}
use hass_tplink_easy_smart.Core.Session.Monad.{get_request, post_request, response, Device, Session}
use hass_tplink_easy_smart.Api.Apply.{Client}
use hass_tplink_easy_smart.ConfigFlow.{UserInput, Entry, entry_created, async_process_config}
use hass_tplink_easy_smart.ConfigFlow.Laws.{IsNew, async_process_config-IsNew}

abbrev page : List ℕ → String
page [] = ""
page (zero ∷ _) = "<script>var logonInfo = new Array(\n0, 0, 0);</script>"
page (suc _ ∷ _) = "<script>var info_ds = {};</script>"

abbrev one : String → Value
one s = list (item (str s) no_items)

-- What the system page says.
abbrev info_ds : Value
info_ds = dict (
    field "descriStr" (one "switch") (
      field "macStr" (one "50:D4:F7:AA:BB:0C") (
        field "ipStr" (one "192.168.1.10") (
          field "netmaskStr" (one "255.255.255.0") (
            field "gatewayStr" (one "192.168.1.1")
              (field "firmwareStr" (one "1.0") (field "hardwareStr" (one "TL") no_fields)))))))

-- A switch that accepts the login and shows its system page.
abbrev switch : Device
switch events (post_request path form) = response 200 (some (0 ∷ []))
switch events (get_request path) = response 200 (some (1 ∷ []))

abbrev client : Client
client = record {
  library = record {
    loads = λ s. some info_ds;
    str_of = λ v. "0";
    unicode_word = λ c. false;
    utf8 = λ bytes. some (page bytes);
    gb18030 = λ bytes. none;
    gb18030_replace = λ bytes. "";
  };
  device = switch;
  account = record { user = "admin"; password = "secret" };
}

abbrev start : Session
start = record { has_session = true; session_injected = true; is_initialized = false; events = [] }

abbrev user_input : UserInput
user_input = record { name = "office"; host = "192.168.1.10" }

abbrev others : List Entry
others = record { entry_id = "1"; unique_id = some "50:D4:F7:00:00:01"; name = "hall" } ∷ []

abbrev selected_mac : Option String
selected_mac = some "50:D4:F7:AA:BB:0C"

created_run :
    (async_process_config (λ mac. mac) client others user_input "user" selected_mac start).0
    ≡ entry_created "50:D4:F7:AA:BB:0C" user_input
unfolding async_process_config finish_config form_errors validate_switch validation_of ◌>>=◌
    authenticate log_on refresh_session send received response_text get_variable convert_value
    lookup get_variables find_all literal char_if same_ignoring_case is_space capture many_lazy
    word_boundary many look_ahead at_end insert strip check_logon list_of logon_failure
    get_device_info fetch_variable fetch_variables get call ensure_initialized perform exchange
    unexpected_status retry check_authorized truthy convert_all dict_of parse_device_info
    require_dict value_of compact digit_text hex_value info_value normalize_mac pairs get_default
    formatted has_text has_unique_id is_configured is_wrong name_error validation_error first_chars
    is_word size disconnect initialize relative_url authentication_failure clear_cookies
    create_missing parse_int
created_run = refl

async_process_config-IsNew_example :
    IsNew (λ mac. mac) client others start "office" selected_mac "50:D4:F7:AA:BB:0C"
async_process_config-IsNew_example =
    async_process_config-IsNew (λ mac. mac) client others user_input "user" selected_mac start
      created_run

abbrev configured : Entry
configured = record { entry_id = "2"; unique_id = some "50:D4:F7:AA:BB:0C"; name = "desk" }

updated_run :
    (async_step_reconfigure (λ mac. mac) client (configured ∷ others) configured user_input start).0
    ≡ entry_updated "2" user_input
unfolding async_step_reconfigure finish_reconfigure form_errors validate_switch validation_of ◌>>=◌
    authenticate log_on refresh_session send received response_text get_variable convert_value
    lookup get_variables find_all literal char_if same_ignoring_case is_space capture many_lazy
    word_boundary many look_ahead at_end insert strip check_logon list_of logon_failure
    get_device_info fetch_variable fetch_variables get call ensure_initialized perform exchange
    unexpected_status retry check_authorized truthy convert_all dict_of parse_device_info
    require_dict value_of compact digit_text hex_value info_value normalize_mac pairs get_default
    given_text has_text is_configured is_wrong name_error validation_error first_chars is_word size
    disconnect initialize relative_url authentication_failure clear_cookies create_missing parse_int
updated_run = refl

async_step_reconfigure-IsSame_example :
    IsSame (λ mac. mac) client (configured ∷ others) configured user_input start "2" user_input
async_step_reconfigure-IsSame_example =
    async_step_reconfigure-IsSame (λ mac. mac) client (configured ∷ others) configured user_input
      start updated_run
