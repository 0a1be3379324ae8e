-- ===== src/ConfigFlow.antt =====
-- config_flow.py: how an address and an account become an entry, and the options of an entry.
pub mod Laws
pub mod Reconfigure
mod Tests
use text.Mathlib.Text.{◌==◌ as str_eq}
use hass_tplink_easy_smart.Base.{
  ℕ, String, Bool, true, false, not, ◌&&◌, ◌||◌, Option, none, some, List, [], ◌∷◌, if◌then◌else◌,
}
use hass_tplink_easy_smart.Python.{
  Result, ok, err, Error, authentication, data_format, Reason, general, cannot_connect, credentials,
  user_blocked, too_many_users, session_timeout, invalid_mac,
}
use hass_tplink_easy_smart.Classes.{TpLinkSystemInfo}
use hass_tplink_easy_smart.Core.Session.Monad.{
  Session, Action, ⊤, raise_when, ◌>>=◌ as ◌>>>=◌, ◌>>◌ as ◌>>>◌,
}
use hass_tplink_easy_smart.Core.Session.Login.{authenticate}
use hass_tplink_easy_smart.Core.Session.Calls.{disconnect}
use hass_tplink_easy_smart.Api.Apply.{Client}
use hass_tplink_easy_smart.Api.Device.{get_device_info}

-- The error keys of the forms.
pub data FormError : Type 0 where
  name_exists wrong_device invalid_response : FormError
  login_failed : Reason → FormError

-- What the user has put in, as far as the flow looks at it.
pub record UserInput : Type 0 where
  pub name : String
  pub host : String

-- What a step of the flow ends with.
pub data FlowResult : Type 0 where
  form_shown : (step_id : String) (user_input : UserInput) (errors : Option FormError) → FlowResult
  entry_created : (unique_id : String) (user_input : UserInput) → FlowResult
  already_configured : (unique_id host : String) → FlowResult
  entry_updated : (entry_id : String) (user_input : UserInput) → FlowResult

-- An entry of the integration: `entry_id`, `unique_id`, and `data.get(CONF_NAME, title)`.
pub record Entry : Type 0 where
  pub entry_id : String
  pub unique_id : Option String
  pub name : String

-- `name in configured_instances(hass, exclude_entry_id)`
unfoldable pub is_configured : String → Option String → List Entry → Bool
is_configured name exclude [] = false
is_configured name none (e ∷ entries) = str_eq e.name name || is_configured name none entries
is_configured name (some entry_id) (e ∷ entries) =
    (not (str_eq e.entry_id entry_id) && str_eq e.name name)
    || is_configured name (some entry_id) entries

unfoldable pub has_unique_id : String → List Entry → Bool
has_unique_id unique_id [] = false
has_unique_id unique_id (e ∷ entries) =
    elim e.unique_id [ none ↦ false | some u ↦ str_eq u unique_id ]
    || has_unique_id unique_id entries

-- The `except` clauses of `_async_validate_switch`.
unfoldable pub validation_error : Error → FormError
validation_error (authentication reason) = login_failed reason
validation_error (data_format problem) = invalid_response
validation_error _ = login_failed general

unfoldable pub name_error : Bool → Option FormError
name_error true = some name_exists
name_error false = none

unfoldable pub has_text : String → Bool
has_text s = not (str_eq s "")

-- `switch_info` and `error`: a switch that gives no address has its information all the same.
unfoldable pub validation_of : Result TpLinkSystemInfo → Option TpLinkSystemInfo × Option FormError
validation_of (err e) = (none, some (validation_error e))
validation_of (ok info) =
    if has_text info.mac then (some info, none) else (some info, some invalid_response)

-- `_async_validate_switch`; the `finally` clause runs on every path.
unfoldable pub validate_switch :
    Client → Session → (Option TpLinkSystemInfo × Option FormError) × Session
validate_switch c s =
    let (r, t) = (authenticate c.library c.device c.account >>> get_device_info c) s in
    (validation_of r, (disconnect t).1)

-- `entry.unique_id and ...`
unfoldable pub given_text : Option String → Option String
given_text none = none
given_text (some s) = if has_text s then some s else none

-- The end of `async_step_reconfigure`.
unfoldable pub finish_reconfigure : Entry → UserInput → Option FormError → FlowResult
finish_reconfigure entry user_input (some e) = form_shown "reconfigure" user_input (some e)
finish_reconfigure entry user_input none = entry_updated entry.entry_id user_input

-- `format_mac` of Home Assistant.
module _ (format_mac : String → String) where
  -- `switch_info and switch_info.mac and format_mac(switch_info.mac) != expected`, where an address
  -- is expected.
  unfoldable pub is_wrong : Option TpLinkSystemInfo → Option String → Bool
  is_wrong none expected = false
  is_wrong (some info) none = false
  is_wrong (some info) (some expected) =
      has_text info.mac && not (str_eq (format_mac info.mac) expected)

  -- `errors["base"]`; a later error replaces the one of the name.
  unfoldable pub form_errors :
      Option FormError
      → Option TpLinkSystemInfo × Option FormError
      → Option String
      → Option FormError
  form_errors name (info, some e) expected = some e
  form_errors name (info, none) expected =
      if is_wrong info expected then some wrong_device else name

  -- The end of `_async_process_config`.
  unfoldable pub finish_config :
      List Entry → UserInput → String → Option FormError → Option TpLinkSystemInfo → FlowResult
  finish_config entries user_input step_id (some e) info = form_shown step_id user_input (some e)
  finish_config entries user_input step_id none none = form_shown step_id user_input none
  finish_config entries user_input step_id none (some info) =
      if has_text info.mac
      then (if has_unique_id (format_mac info.mac) entries
          then already_configured (format_mac info.mac) user_input.host
          else entry_created (format_mac info.mac) user_input)
      else form_shown step_id user_input none

  -- `expected_mac and ... format_mac(expected_mac)`
  unfoldable pub formatted : Option String → Option String
  formatted none = none
  formatted (some mac) = if has_text mac then some (format_mac mac) else none

  unfoldable pub async_process_config :
      Client → List Entry → UserInput → String → Option String → Session → FlowResult × Session
  async_process_config c entries user_input step_id expected_mac s =
      let (answer, t) = validate_switch c s in
      let errors =
        form_errors (name_error (is_configured user_input.name none entries)) answer
          (formatted expected_mac) in
      (finish_config entries user_input step_id errors answer.0, t)

  -- `async_step_reconfigure`, with user input.
  unfoldable pub async_step_reconfigure :
      Client → List Entry → Entry → UserInput → Session → FlowResult × Session
  async_step_reconfigure c entries entry user_input s =
      let (answer, t) = validate_switch c s in
      let errors =
        form_errors (name_error (is_configured user_input.name (some entry.entry_id) entries))
          answer (given_text entry.unique_id) in
      (finish_reconfigure entry user_input errors, t)
