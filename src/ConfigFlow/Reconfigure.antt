-- ===== src/ConfigFlow/Reconfigure.antt =====
-- When the flow changes an entry.
use text.Mathlib.TextEquality.{eq_iff as str_eq_iff}
use hass_tplink_easy_smart.Base.{
  ◌≡◌, refl, sym, ap, subst, ◌∙◌, String, Bool, true, false, Option, none, some, List, arith,
  if◌then◌else◌,
}
use hass_tplink_easy_smart.Python.{Result, ok, err}
use hass_tplink_easy_smart.Classes.{TpLinkSystemInfo}
use hass_tplink_easy_smart.Core.Session.Monad.{Session, ◌>>◌ as ◌>>>◌}
use hass_tplink_easy_smart.Core.Session.Login.{authenticate}
use hass_tplink_easy_smart.Api.Apply.{Client}
use hass_tplink_easy_smart.Api.Device.{get_device_info}
use hass_tplink_easy_smart.ConfigFlow.{
  UserInput, FormError, FlowResult, entry_updated, Entry, is_configured, name_error, has_text,
  validation_of, validate_switch, is_wrong, form_errors, given_text, finish_reconfigure,
  async_step_reconfigure,
}

-- What is true of the switch and of the other entries when an entry is changed.
pub record IsSame (format_mac : String → String) (c : Client) (entries : List Entry) (entry : Entry)
    (user_input : UserInput) (s : Session) (entry_id : String) (input : UserInput) : Type 0 where
  pub same_entry : entry_id ≡ entry.entry_id
  pub given_input : input ≡ user_input
  pub info : TpLinkSystemInfo
  pub answered : ((authenticate c.library c.device c.account >>> get_device_info c) s).0 ≡ ok info
  pub address : has_text info.mac ≡ true
  pub same_device :
      (unique_id : String)
      → entry.unique_id ≡ some unique_id
      → has_text unique_id ≡ true
      → format_mac info.mac ≡ unique_id
  pub free_name : is_configured user_input.name (some entry.entry_id) entries ≡ false

module _ (format_mac : String → String) (entries : List Entry) (entry : Entry)
    (user_input : UserInput) where
  -- The end of a reconfiguration, from what the switch answered.
  abbrev Ending : Result TpLinkSystemInfo → FlowResult
  Ending r = finish_reconfigure entry user_input (
      form_errors format_mac
        (name_error (is_configured user_input.name (some entry.entry_id) entries)) (validation_of r)
        (given_text entry.unique_id))

  updated_target :
      (e : Option FormError) {entry_id : String} {input : UserInput}
      → finish_reconfigure entry user_input e ≡ entry_updated entry_id input
      → (entry_id ≡ entry.entry_id) × (input ≡ user_input)
  unfolding finish_reconfigure
  updated_target none h = (cc, cc)
  updated_target (some e) h = cc

  updated_info :
      (r : Result TpLinkSystemInfo) {entry_id : String} {input : UserInput}
      → Ending r ≡ entry_updated entry_id input
      → (info : TpLinkSystemInfo) × (r ≡ ok info)
  unfolding validation_of finish_reconfigure form_errors
  updated_info (ok info) h = (info, refl)
  updated_info (err e) h = cc

  updated_facts :
      (info : TpLinkSystemInfo) {entry_id : String} {input : UserInput} (text wrong named : Bool)
      → has_text info.mac ≡ text
      → is_wrong format_mac (some info) (given_text entry.unique_id) ≡ wrong
      → is_configured user_input.name (some entry.entry_id) entries ≡ named
      → Ending (ok info) ≡ entry_updated entry_id input
      → (text ≡ true) × (wrong ≡ false) × (named ≡ false)
  unfolding validation_of finish_reconfigure form_errors name_error
  updated_facts info true true named a b d h = ground arith
  updated_facts info true false true a b d h = ground arith
  updated_facts info true false false a b d h = ground arith
  updated_facts info false wrong named a b d h = ground arith

  own_address :
      (info : TpLinkSystemInfo) (unique_id : String)
      → has_text info.mac ≡ true
      → is_wrong format_mac (some info) (given_text entry.unique_id) ≡ false
      → entry.unique_id ≡ some unique_id
      → has_text unique_id ≡ true
      → format_mac info.mac ≡ unique_id
  unfolding is_wrong given_text
  own_address info unique_id text h e known =
      let given : given_text entry.unique_id ≡ some unique_id =
        ap given_text e ∙ ap (λ b. if b then some unique_id else none) known in
      let right : is_wrong format_mac (some info) (some unique_id) ≡ false =
        sym (ap (is_wrong format_mac (some info)) given) ∙ h in
      ground (arith, right, str_eq_iff (format_mac info.mac) unique_id)

-- If a reconfiguration changes an entry, that is the entry it was started for, and it gets the
-- input; the login and the read of the system page succeeded, with an address; if the entry has a
-- unique id that is not empty, this is the address of the switch; and no other entry has the name.
pub async_step_reconfigure-IsSame :
    (format_mac : String → String) (c : Client) (entries : List Entry) (entry : Entry)
    (user_input : UserInput) (s : Session) {entry_id : String} {input : UserInput}
    → (async_step_reconfigure format_mac c entries entry user_input s).0
      ≡ entry_updated entry_id input
    → IsSame format_mac c entries entry user_input s entry_id input
unfolding async_step_reconfigure validate_switch
async_step_reconfigure-IsSame format_mac c entries entry user_input s {entry_id} {input} h =
    let (info, answered) =
      updated_info format_mac entries entry user_input
        ((authenticate c.library c.device c.account >>> get_device_info c) s).0 h in
    let made =
      subst (λ r. Ending format_mac entries entry user_input r ≡ entry_updated entry_id input)
        answered h in
    let (same, given) = updated_target format_mac entries entry user_input _ h in
    let (text, right, free) =
      updated_facts format_mac entries entry user_input info _ _ _ refl refl refl made in
    record {
      same_entry = same;
      given_input = given;
      info = info;
      answered = answered;
      address = text;
      same_device =
          λ u e known. own_address format_mac entries entry user_input info u text right e known;
      free_name = free;
    }
