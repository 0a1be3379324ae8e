-- ===== src/Api/Device.antt =====
-- `_normalize_mac`, `get_device_info` and `set_port_state`.
pub mod Laws
use Prim.Native.Char.{code}
use Prim.Native.String.{◌++◌ as str_append}
use hass_tplink_easy_smart.Base.{
  ℕ, suc, ◌+◌, ◌-◌, ◌*◌, ◌/◌, String, Bool, true, false, not, ◌&&◌, Option, none, some, List, [],
  ◌∷◌, ltb, leb, ◌==◌, if◌then◌else◌,
}
use hass_tplink_easy_smart.Base.Int.{ℤ, pos}
use hass_tplink_easy_smart.Base.Lists.{length, get_or}
use hass_tplink_easy_smart.Base.Assoc.{lookup, string_eq}
use hass_tplink_easy_smart.Python.{
  Value, list, str, Items, no_items, item, Result, ok, err, data_format, invalid_mac, ◌>>=◌,
}
use hass_tplink_easy_smart.Classes.{PortSpeed, port_speed_number, TpLinkSystemInfo}
use hass_tplink_easy_smart.Core.Variables.{Library, dict_type}
use hass_tplink_easy_smart.Core.Session.Monad.{Action, lift, ◌>>=◌ as ◌>>>=◌}
use hass_tplink_easy_smart.Core.Session.Variables.{fetch_variable}
use hass_tplink_easy_smart.Api.Query.{digit_texts, str_of_int}
use hass_tplink_easy_smart.Api.Apply.{Client, apply_text}
use hass_tplink_easy_smart.Api.Fields.{Fields, get_default, require_dict}

-- The value of a hexadecimal digit.
unfoldable pub hex_value : ℕ → Option ℕ
hex_value c =
    if leb b'0' c && leb c b'9'
    then some (c - b'0')
    else if leb b'A' c && leb c b'F'
    then some (c - 55)
    else if leb b'a' c && leb c b'f'
    then some (c - 87)
    else none

also : Option ℕ → List ℕ → List ℕ
also none digits = digits
also (some d) digits = d ∷ digits

-- `re.sub(r"[^0-9A-Fa-f]", "", value)`, as the values of the digits.
unfoldable pub compact : String → List ℕ
unfolding also
compact String.[] = []
compact (String.◌∷◌ c s) = also (hex_value (code c)) (compact s)

-- The upper-case text of a digit.
unfoldable pub digit_text : ℕ → String
digit_text d = get_or digit_texts d ""

-- Pairs of digits joined by colons, in upper case.
unfoldable pub pairs : List ℕ → String
pairs [] = ""
pairs (a ∷ []) = digit_text a
pairs (a ∷ b ∷ []) = str_append (digit_text a) (digit_text b)
pairs (a ∷ b ∷ c ∷ digits) =
    str_append (digit_text a) (str_append (digit_text b) (str_append ":" (pairs (c ∷ digits))))

unfoldable pub normalize_mac : Option String → Option String
normalize_mac none = none
normalize_mac (some value) =
    let digits = compact value in if length digits == 12 then some (pairs digits) else none

-- `str(array[0])` of the only item of an array.
only_item : Library → Value → Option String
only_item library (list (item (str s) no_items)) = some s
only_item library (list (item v no_items)) = some (library.str_of v)
only_item library _ = none

unfoldable pub info_value : Library → Fields → String → Option String
unfolding only_item
info_value library d key = only_item library (get_default d key (list no_items))

-- `value or default`
or_text : Option String → String → String
or_text none default = default
or_text (some String.[]) default = default
or_text (some (String.◌∷◌ c s)) default = String.◌∷◌ c s

-- `get_device_info`, from the variable of the page on.
unfoldable pub parse_device_info : Library → Value → Result TpLinkSystemInfo
unfolding or_text
parse_device_info library data' = do
  d ← require_dict data' "info_ds"
  elim (normalize_mac (info_value library d "macStr")) [
    | none ↦ err (data_format invalid_mac)
    | some mac ↦ ok (record {
      name = or_text (info_value library d "descriStr") "TP-Link Easy Smart";
      mac = mac;
      ip = info_value library d "ipStr";
      netmask = info_value library d "netmaskStr";
      gateway = info_value library d "gatewayStr";
      firmware = info_value library d "firmwareStr";
      hardware = info_value library d "hardwareStr";
    })
  ]

flag_text : Bool → String
flag_text true = "1"
flag_text false = "0"

-- The query of `set_port_state`, which is written out there.
unfoldable pub port_state_query : ℤ → Bool → PortSpeed → Bool → String
unfolding flag_text
port_state_query number enabled speed_config flow_control_config = str_append "portid=" (
    str_append (str_of_int number) (
      str_append "&state=" (
        str_append (flag_text enabled) (
          str_append "&speed=" (
            str_append (str_of_int (pos (port_speed_number speed_config))) (
              str_append "&flowcontrol="
                (str_append (flag_text flow_control_config) "&apply=Apply")))))))

module _ (c : Client) where
  unfoldable pub get_device_info : Action TpLinkSystemInfo
  get_device_info =
      fetch_variable c.library c.device c.account "SystemInfoRpm.htm" "info_ds" dict_type
      >>>= λ data'. lift (parse_device_info c.library data')

  unfoldable pub set_port_state : ℤ → Bool → PortSpeed → Bool → Action (Option String)
  set_port_state number enabled speed_config flow_control_config =
      apply_text c "port_setting.cgi"
        (port_state_query number enabled speed_config flow_control_config)
