-- ===== src/Ports/Validate.antt =====
-- `_unique_ports` and `_validate_ports`
pub mod Laws
use hass_tplink_easy_smart.Base.{ℕ, Bool, ◌&&◌, ◌||◌, not, List, [], ◌∷◌, map}
use hass_tplink_easy_smart.Base.Int.{ℤ, pos, pos_part, ltb_ℤ}
use hass_tplink_easy_smart.Base.Lists.{keep, is_empty}
use hass_tplink_easy_smart.Base.Order.{sorted_set, int_ord}
use hass_tplink_easy_smart.Python.{
  Value, Result, ok, err, action, ports_not_integers, no_port_selected, ports_out_of_range, to_int,
  replace_conversion_error, raise_if, ◌>>=◌, ◌>>◌,
}

-- `int(item) for item in values`
unfoldable pub to_ints : List Value → Result (List ℤ)
to_ints [] = ok []
to_ints (v ∷ values) = do z ← to_int v; zs ← to_ints values; ok (z ∷ zs)

unfoldable pub unique_ports : List Value → Result (List ℤ)
unique_ports ports =
    replace_conversion_error (action ports_not_integers)
      (do numbers ← to_ints ports; ok (sorted_set numbers))

-- `port < 1 or port > port_count`
unfoldable pub is_invalid : ℕ → ℤ → Bool
is_invalid port_count port = ltb_ℤ port (pos 1) || ltb_ℤ (pos port_count) port

-- The tests of `_validate_ports` on the sorted numbers.
unfoldable pub check_range : List ℤ → ℕ → Bool → Result (List ℕ)
check_range result port_count allow_empty = do
  raise_if (not allow_empty && is_empty result) (action no_port_selected)
  let invalid = keep (is_invalid port_count) result
  raise_if (not (is_empty invalid)) (action (ports_out_of_range port_count invalid))
  ok (map pos_part result)

unfoldable pub validate_ports : List Value → ℕ → Bool → Result (List ℕ)
validate_ports ports port_count allow_empty = do
  result ← unique_ports ports
  check_range result port_count allow_empty
