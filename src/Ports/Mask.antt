-- ===== src/Ports/Mask.antt =====
-- `_decode_port_mask` and `_encode_port_mask`: port number p is bit p - 1 of a mask.
pub mod Laws
use hass_tplink_easy_smart.Base.{ℕ, zero, suc, ◌-◌, ◌^◌, bit_or, Bool, not, List, [], ◌∷◌}
use hass_tplink_easy_smart.Base.Bits.{test_bit}
use hass_tplink_easy_smart.Base.Int.{ℤ, pos, negsuc}
use hass_tplink_easy_smart.Base.Lists.{keep, range_from}
use hass_tplink_easy_smart.Python.{
  Value, Result, ok, err, type_error, value_error, Error, to_int, ◌>>=◌,
}

-- `bool(value & (1 << k))` in two's complement: -(n + 1) has the digits that n has not.
unfoldable pub has_bit : ℤ → ℕ → Bool
has_bit (pos value) k = test_bit value k
has_bit (negsuc value) k = not (test_bit value k)

-- `try: int(mask)` with its `except (TypeError, ValueError): value = 0`
unfoldable pub zero_if_refused : Result ℤ → Result ℤ
zero_if_refused (err type_error) = ok (pos 0)
zero_if_refused (err value_error) = ok (pos 0)
zero_if_refused (err other) = err other
zero_if_refused (ok value) = ok value

unfoldable pub ports_of_mask : ℤ → ℕ → List ℕ
ports_of_mask value port_count =
    keep (λ number. has_bit value (number - 1)) (range_from 1 port_count)

unfoldable pub decode_port_mask : Value → ℕ → Result (List ℕ)
decode_port_mask mask port_count = do
  value ← zero_if_refused (to_int mask)
  ok (ports_of_mask value port_count)

-- The loop of `_encode_port_mask`; a shift by -1 raises `ValueError`.
unfoldable pub encode_from : ℕ → List ℕ → Result ℕ
encode_from result [] = ok result
encode_from result (zero ∷ ports) = err value_error
encode_from result (suc bit ∷ ports) = encode_from (bit_or result (2 ^ bit)) ports

unfoldable pub encode_port_mask : List ℕ → Result ℕ
encode_port_mask ports = encode_from 0 ports
