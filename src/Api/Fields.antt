-- ===== src/Api/Fields.antt =====
-- `_require_list`, `_port_speed`, `_int_list`, and how the getters read the values of a page.
use hass_tplink_easy_smart.Base.{
  ℕ, String, Bool, true, Option, none, some, List, ltb, if◌then◌else◌,
}
use hass_tplink_easy_smart.Base.Int.{ℤ, pos, pos_part, ltb_ℤ}
use hass_tplink_easy_smart.Base.Lists.{length, take, replicate}
use hass_tplink_easy_smart.Base.Assoc.{lookup, string_eq}
use hass_tplink_easy_smart.Python.{
  Value, nil, bool, int, list, dict, to_list, entries, Result, ok, err, data_format, type_error,
  value_error, FormatProblem, invalid_array, invalid_integer, missing, to_int, truthy,
  replace_conversion_error, ◌>>=◌,
}
use hass_tplink_easy_smart.Classes.{PortSpeed, unknown, port_speed_of}
use hass_tplink_easy_smart.Ports.Validate.{to_ints}

abbrev pub Fields : Type 0
Fields = List (String × Value)

-- `d.get(key, default)`
unfoldable pub get_default : Fields → String → Value → Value
get_default d key default = elim (lookup key d) [ none ↦ default | some v ↦ v ]

-- `d.get(key)`
unfoldable pub get_value : Fields → String → Value
get_value d key = get_default d key nil

unfoldable pub require_list : Fields → String → ℕ → Result (List Value)
require_list d key minimum_length = elim (get_value d key) [
  | list items ↦
      if ltb (length (to_list items)) minimum_length
      then err (data_format (invalid_array key minimum_length))
      else ok (to_list items)
  | _ ↦ err (data_format (invalid_array key minimum_length))
]

or_unknown : Option PortSpeed → PortSpeed
or_unknown none = unknown
or_unknown (some speed) = speed

-- `PortSpeed(int(value))`; a `TypeError` or `ValueError` gives `UNKNOWN`.
unfoldable pub port_speed : Value → Result PortSpeed
unfolding or_unknown
port_speed value = elim (to_int value) [
  | ok z ↦ ok (or_unknown (port_speed_of z))
  | err e ↦ elim e [ type_error ↦ ok unknown | value_error ↦ ok unknown | other ↦ err other ]
]

unfoldable pub int_list : Value → String → ℕ → Result (List ℤ)
int_list (list items) name minimum_length =
    if ltb (length (to_list items)) minimum_length
    then err (data_format (invalid_array name minimum_length))
    else replace_conversion_error (data_format (invalid_integer name)) (to_ints (to_list items))
int_list _ name minimum_length = err (data_format (invalid_array name minimum_length))

-- `isinstance(value, dict)`, or the getter's `DataFormatError`.
unfoldable pub require_dict : Value → String → Result Fields
require_dict (dict d) name = ok (entries d)
require_dict _ name = err (data_format (missing name))

-- `isinstance(value, int) and value >= 1`, or the getter's `DataFormatError`; `True` is an `int`.
unfoldable pub require_count : Value → FormatProblem → Result ℕ
require_count (int z) problem =
    if ltb_ℤ z (pos 1) then err (data_format problem) else ok (pos_part z)
require_count (bool true) problem = ok 1
require_count _ problem = err (data_format problem)

-- The trunk groups of a page, no group for every port where the page has none.
unfoldable pub trunk_groups_of : Value → String → ℕ → Result (List ℤ)
trunk_groups_of (list items) name port_count = do
  groups ← int_list (list items) name port_count
  ok (take port_count groups)
trunk_groups_of _ name port_count = ok (replicate port_count (pos 0))

-- `bool(d.get(key, 0))`
unfoldable pub flag : Fields → String → Bool
flag d key = truthy (get_default d key (int (pos 0)))

-- `int(d.get(key, 0))`
unfoldable pub number_field : Fields → String → Result ℤ
number_field d key = to_int (get_default d key (int (pos 0)))
