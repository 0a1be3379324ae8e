-- ===== src/ConfigFlow/Laws.antt =====
-- When the flow makes or changes an entry.
use text.Mathlib.TextEquality.{eq_iff as str_eq_iff}
use hass_tplink_easy_smart.Base.{
  ◌≡◌, refl, sym, ap, subst, ◌∙◌, String, Bool, true, false, Option, none, some, List, arith,
  if◌then◌else◌,
}
use hass_tplink_easy_smart.Python.{Result, ok, err}
use hass_tplink_easy_smart.Classes.{TpLinkSystemInfo}
use hass_tplink_easy_smart.Core.Session.Monad.{Session, ◌>>◌ as ◌>>>◌}
use hass_tplink_easy_smart.Core.Session.Login.{authenticate}
use hass_tplink_easy_smart.Api.Apply.{Client}
use hass_tplink_easy_smart.Api.Device.{get_device_info}
use hass_tplink_easy_smart.ConfigFlow.{
  UserInput, FlowResult, entry_created, Entry, is_configured, has_unique_id, name_error, has_text,
  validation_of, validate_switch, is_wrong, form_errors, finish_config, formatted,
  async_process_config,
}

-- What is true of the switch and of the other entries when an entry is made.
pub record IsNew (format_mac : String → String) (c : Client) (entries : List Entry) (s : Session)
    (name : String) (expected : Option String) (unique_id : String) : Type 0 where
  pub info : TpLinkSystemInfo
  pub answered : ((authenticate c.library c.device c.account >>> get_device_info c) s).0 ≡ ok info
  pub address : has_text info.mac ≡ true
  pub identified : format_mac info.mac ≡ unique_id
  pub as_expected :
      (mac : String)
      → expected ≡ some mac
      → has_text mac ≡ true
      → format_mac info.mac ≡ format_mac mac
  pub new_address : has_unique_id unique_id entries ≡ false
  pub new_name : is_configured name none entries ≡ false

module _ (format_mac : String → String) (entries : List Entry) (user_input : UserInput)
    (step_id : String) (expected : Option String) where
  -- The end of the step, from what the switch answered.
  abbrev Outcome : Result TpLinkSystemInfo → FlowResult
  Outcome r =
      finish_config format_mac entries user_input step_id
        (form_errors format_mac (name_error (is_configured user_input.name none entries))
          (validation_of r) (formatted format_mac expected))
        (validation_of r).0

  created_info :
      (r : Result TpLinkSystemInfo) {unique_id : String} {input : UserInput}
      → Outcome r ≡ entry_created unique_id input
      → (info : TpLinkSystemInfo) × (r ≡ ok info)
  unfolding validation_of finish_config form_errors
  created_info (ok info) h = (info, refl)
  created_info (err e) h = cc

  created_facts :
      (info : TpLinkSystemInfo) {unique_id : String} {input : UserInput}
      (text wrong known named : Bool)
      → has_text info.mac ≡ text
      → is_wrong format_mac (some info) (formatted format_mac expected) ≡ wrong
      → has_unique_id (format_mac info.mac) entries ≡ known
      → is_configured user_input.name none entries ≡ named
      → Outcome (ok info) ≡ entry_created unique_id input
      → (text ≡ true)
        × (wrong ≡ false)
        × (known ≡ false)
        × (named ≡ false)
        × (format_mac info.mac ≡ unique_id)
  unfolding validation_of finish_config form_errors name_error
  created_facts info true true known named a b d e h = ground arith
  created_facts info true false true true a b d e h = ground arith
  created_facts info true false true false a b d e h = ground arith
  created_facts info true false false true a b d e h = ground arith
  created_facts info true false false false a b d e h = ground arith
  created_facts info false wrong known named a b d e h = ground arith

  expected_address :
      (info : TpLinkSystemInfo) (mac : String)
      → has_text info.mac ≡ true
      → is_wrong format_mac (some info) (formatted format_mac expected) ≡ false
      → expected ≡ some mac
      → has_text mac ≡ true
      → format_mac info.mac ≡ format_mac mac
  unfolding is_wrong formatted
  expected_address info mac text h e known =
      let given : formatted format_mac expected ≡ some (format_mac mac) =
        ap (formatted format_mac) e ∙ ap (λ b. if b then some (format_mac mac) else none) known in
      let right : is_wrong format_mac (some info) (some (format_mac mac)) ≡ false =
        sym (ap (is_wrong format_mac (some info)) given) ∙ h in
      ground (arith, right, str_eq_iff (format_mac info.mac) (format_mac mac))

-- If the flow makes an entry, the login and the read of the system page succeeded, the entry has the
-- switch's own address and that is the one that was selected, and neither the address nor the name
-- is that of another entry.
pub async_process_config-IsNew :
    (format_mac : String → String) (c : Client) (entries : List Entry) (user_input : UserInput)
    (step_id : String) (expected : Option String) (s : Session) {unique_id : String}
    {input : UserInput}
    → (async_process_config format_mac c entries user_input step_id expected s).0
      ≡ entry_created unique_id input
    → IsNew format_mac c entries s user_input.name expected unique_id
unfolding async_process_config validate_switch
async_process_config-IsNew format_mac c entries user_input step_id expected s {unique_id} {input}
      h =
    let (info, answered) =
      created_info format_mac entries user_input step_id expected
        ((authenticate c.library c.device c.account >>> get_device_info c) s).0 h in
    let made =
      subst
        (λ r.
          Outcome format_mac entries user_input step_id expected r ≡ entry_created unique_id input)
        answered h in
    let (text, right, fresh, unnamed, same) =
      created_facts format_mac entries user_input step_id expected info _ _ _ _ refl refl refl refl
        made in
    record {
      info = info;
      answered = answered;
      address = text;
      identified = same;
      as_expected = λ mac e known.
          expected_address format_mac entries user_input step_id expected info mac text right e
            known;
      new_address = ap (λ u. has_unique_id u entries) (sym same) ∙ fresh;
      new_name = unnamed;
    }
