-- ===== src/Ports/Tests.antt =====
-- Ports at concrete numbers: what the theorems say of a five-port and an eight-port switch.
use hass_tplink_easy_smart.Ports.Trunk.Affected.{IsWholeLag, ports_for_trunk-IsWholeLag}
use hass_tplink_easy_smart.Ports.Trunk.{selected_groups}
use hass_tplink_easy_smart.Ports.Trunk.{ports_where}
use hass_tplink_easy_smart.Ports.Trunk.{expand}
use hass_tplink_easy_smart.Python.{replace_conversion_error}
use hass_tplink_easy_smart.Base.{ℕ, ◌≡◌, refl, ◌↔◌, ◌⊎◌, inr, true, false, List, [], ◌∷◌, arith}
use hass_tplink_easy_smart.Base.Int.{ℤ, pos}
use hass_tplink_easy_smart.Base.Lists.{keep}
use hass_tplink_easy_smart.Base.Order.{contains, insert, sorted_set, IsAscending, nat_ord, int_ord}
use hass_tplink_easy_smart.Python.{Value, int, ok, err, action, ports_out_of_range}
use hass_tplink_easy_smart.Python.{to_int}
use hass_tplink_easy_smart.Ports.Mask.{ports_of_mask, decode_port_mask, encode_port_mask}
use hass_tplink_easy_smart.Ports.Mask.Laws.{decode-encode, encode-decode}
use hass_tplink_easy_smart.Ports.Validate.{
  to_ints, is_invalid, check_range, validate_ports, unique_ports,
}
use hass_tplink_easy_smart.Ports.Validate.Laws.{
  IsValidated, AllValid, validate_ports-accepts, validate_ports-refuses, validate_ports-returns,
}
use hass_tplink_easy_smart.Ports.Trunk.{expand_trunk_ports, ports_for_trunk, group_of}
use hass_tplink_easy_smart.Ports.Trunk.Laws.{
  SharesLag, expand_trunk_ports-returns, ports_for_trunk-eq-expand,
}

-- Ports 1, 3 and 5.
abbrev chosen : List ℕ
chosen = 1 ∷ 3 ∷ 5 ∷ []

abbrev requested : List Value
requested = int (pos 3) ∷ int (pos 1) ∷ int (pos 3) ∷ []

abbrev requested_numbers : List ℤ
requested_numbers = pos 3 ∷ pos 1 ∷ pos 3 ∷ []

-- Ports 2 and 3 form LAG 1, port 5 is in LAG 2 alone.
abbrev trunk_groups : List ℤ
trunk_groups = pos 0 ∷ pos 1 ∷ pos 1 ∷ pos 0 ∷ pos 2 ∷ []

decode-encode_example :
    (mask : ℕ) × (encode_port_mask chosen ≡ ok mask)
    × (decode_port_mask (int (pos mask)) 5 ≡ ok chosen)
decode-encode_example = decode-encode 5 chosen (refl, (refl, tt)) (ground arith)

encode-decode_example : encode_port_mask (ports_of_mask (pos 117) 5) ≡ ok 21
encode-decode_example = encode-decode 117 5

converted : to_ints requested ≡ ok requested_numbers
unfolding to_ints to_int
converted = refl

in_range : AllValid 5 requested_numbers
in_range = ground arith

validate_ports-accepts_example :
    (result : List ℕ) × (validate_ports requested 5 false ≡ ok result)
    × IsValidated 5 false requested_numbers result
validate_ports-accepts_example =
    validate_ports-accepts requested 5 false converted in_range (inr refl)

validate_ports-refuses_example :
    validate_ports requested 2 false
    ≡ err (action (ports_out_of_range 2 (keep (is_invalid 2) (sorted_set requested_numbers))))
unfolding is_invalid contains
validate_ports-refuses_example =
    validate_ports-refuses requested 2 false converted (pos 3) refl refl

accepted_run : validate_ports requested 5 false ≡ ok (1 ∷ 3 ∷ [])
unfolding validate_ports to_ints to_int unique_ports check_range is_invalid replace_conversion_error
    sorted_set insert
accepted_run = refl

validate_ports-returns_example :
    (numbers : List ℤ) × (to_ints requested ≡ ok numbers)
    × AllValid 5 numbers
    × IsValidated 5 false numbers (1 ∷ 3 ∷ [])
validate_ports-returns_example = validate_ports-returns requested 5 false accepted_run

expanded_run : expand_trunk_ports requested trunk_groups ≡ ok (1 ∷ 2 ∷ 3 ∷ [])
unfolding expand_trunk_ports validate_ports unique_ports replace_conversion_error to_ints to_int
    check_range sorted_set insert is_invalid expand ports_where contains selected_groups group_of
expanded_run = refl

expand_trunk_ports-returns_example :
    (selected : List ℕ) × (validate_ports requested 5 true ≡ ok selected)
    × IsAscending {A = ℕ} (1 ∷ 2 ∷ 3 ∷ [])
    × ((q : ℕ)
        → (contains q (1 ∷ 2 ∷ 3 ∷ []) ≡ true)
          ↔ ((contains q selected ≡ true) ⊎ SharesLag selected trunk_groups q))
expand_trunk_ports-returns_example = expand_trunk_ports-returns requested trunk_groups expanded_run

ports_for_trunk-eq-expand_example :
    ports_for_trunk (pos 2) trunk_groups ≡ expand_trunk_ports (int (pos 2) ∷ []) trunk_groups
unfolding group_of
ports_for_trunk-eq-expand_example =
    ports_for_trunk-eq-expand 2 trunk_groups (ground arith) (omega arith)

affected_run : ports_for_trunk (pos 2) trunk_groups ≡ ok (2 ∷ 3 ∷ [])
unfolding ports_for_trunk validate_ports unique_ports replace_conversion_error to_ints to_int
    check_range sorted_set insert is_invalid group_of ports_where
affected_run = refl

ports_for_trunk-IsWholeLag_example : IsWholeLag (pos 2) trunk_groups (2 ∷ 3 ∷ [])
ports_for_trunk-IsWholeLag_example = ports_for_trunk-IsWholeLag (pos 2) trunk_groups affected_run
