-- ===== src/Ports/Mask/Laws.antt =====
-- Encoding and decoding of port masks are inverse to one another.
use native.Mathlib.Nat.{mod-lt, one-le-pow}
use hass_tplink_easy_smart.Base.{
  ℕ, zero, suc, ◌-◌, ◌%◌, ◌^◌, ◌≤◌, bit_or, ◌≡◌, refl, ap, ◌∙◌, ◌&&◌, ◌||◌, List, [], ◌∷◌, arith,
  leb,
}
use hass_tplink_easy_smart.Base.Bits.{
  test_bit, test_bit-bit_or, test_bit-pow, test_bit-zero, test_bit_high, test_bit-mod, test_bit_ext,
}
use hass_tplink_easy_smart.Base.Int.{ℤ, pos}
use hass_tplink_easy_smart.Base.Lists.{All, range_from}
use hass_tplink_easy_smart.Base.Order.{contains, IsAscending, nat_ord}
use hass_tplink_easy_smart.Base.Order.Ascending.{
  contains-keep, contains-range_from, keep-IsAscending, range_from-IsAscending, IsAscending-ext,
  All-of_contains, contains-All,
}
use hass_tplink_easy_smart.Python.{int, ok, to_int}
use hass_tplink_easy_smart.Ports.Mask.{
  has_bit, zero_if_refused, ports_of_mask, decode_port_mask, encode_from, encode_port_mask,
}

-- A decoded mask lists exactly the port numbers in range whose bit is set.
contains-ports_of_mask :
    (value : ℤ) (port_count p : ℕ)
    → contains p (ports_of_mask value port_count)
      ≡ (leb 1 p && leb p port_count && has_bit value (p - 1))
unfolding ports_of_mask
contains-ports_of_mask value port_count p = ground (
  arith,
  contains-keep (λ number. has_bit value (number - 1)) p (range_from 1 port_count),
  contains-range_from p 1 port_count,
)

pub ports_of_mask-IsAscending :
    (value : ℤ) (port_count : ℕ) → IsAscending (ports_of_mask value port_count)
unfolding ports_of_mask
ports_of_mask-IsAscending value port_count =
    keep-IsAscending (λ number. has_bit value (number - 1)) (range_from 1 port_count)
      (range_from-IsAscending 1 port_count)

abbrev pub InRange : ℕ → ℕ → Type 0
InRange port_count p = (1 ≤ p) × (p ≤ port_count)

-- Encoding returns, and sets the bits of the listed ports and keeps those that were set.
encode_from_bits :
    (result port_count : ℕ) (ports : List ℕ)
    → All (InRange port_count) ports
    → (mask : ℕ) × (encode_from result ports ≡ ok mask)
      × ((k : ℕ) → test_bit mask k ≡ (test_bit result k || contains (suc k) ports))
unfolding encode_from contains
encode_from_bits result n [] h = (result, refl, λ k. ground arith)
encode_from_bits result n (zero ∷ ports) h = absurd (omega arith)
encode_from_bits result n (suc bit ∷ ports) h =
    let (mask, returns, bits) = encode_from_bits (bit_or result (2 ^ bit)) n ports h.1 in
    (
      mask,
      returns,
      λ k. ground (arith, bits k, test_bit-bit_or result (2 ^ bit) k, test_bit-pow bit k),
    )

-- A list of ports in range that is ascending is the decoding of any mask with its bits.
ports_of_mask_eq :
    (mask port_count : ℕ) (ports : List ℕ)
    → IsAscending ports
    → All (InRange port_count) ports
    → ((k : ℕ) → test_bit mask k ≡ contains (suc k) ports)
    → ports_of_mask (pos mask) port_count ≡ ports
unfolding has_bit
ports_of_mask_eq mask n ports asc h bits =
    IsAscending-ext (ports_of_mask (pos mask) n) ports (ports_of_mask-IsAscending (pos mask) n) asc
      same
  where
    same : (p : ℕ) → contains p (ports_of_mask (pos mask) n) ≡ contains p ports
    same zero =
        ground
          (arith, contains-ports_of_mask (pos mask) n zero, contains-All (InRange n) zero ports h)
    same (suc k) = ground (
      arith,
      bits k,
      contains-ports_of_mask (pos mask) n (suc k),
      contains-All (InRange n) (suc k) ports h,
    )

-- A list of ports that is ascending and in range has an encoding, and decoding it gives the list
-- back.
pub decode-encode :
    (port_count : ℕ) (ports : List ℕ)
    → IsAscending ports
    → All (InRange port_count) ports
    → (mask : ℕ) × (encode_port_mask ports ≡ ok mask)
      × (decode_port_mask (int (pos mask)) port_count ≡ ok ports)
unfolding encode_port_mask decode_port_mask zero_if_refused to_int
decode-encode n ports asc h =
    let (mask, returns, bits) = encode_from_bits 0 n ports h in
    let decoded =
      ports_of_mask_eq mask n ports asc h (λ k. ground (arith, bits k, test_bit-zero k)) in
    (mask, returns, ap ok decoded)

ports_of_mask-InRange :
    (mask port_count : ℕ) → All (InRange port_count) (ports_of_mask (pos mask) port_count)
ports_of_mask-InRange mask n =
    All-of_contains (InRange n) (ports_of_mask (pos mask) n)
      λ p m. ground (arith, contains-ports_of_mask (pos mask) n p)

-- Encoding the ports of a mask that is not negative gives the mask modulo 2 ^ port count.
pub encode-decode :
    (mask port_count : ℕ)
    → encode_port_mask (ports_of_mask (pos mask) port_count) ≡ ok (mask % 2 ^ port_count)
unfolding encode_port_mask has_bit
encode-decode mask n =
    let (result, returns, bits) =
      encode_from_bits 0 n (ports_of_mask (pos mask) n) (ports_of_mask-InRange mask n) in
    returns ∙ ap ok (test_bit_ext result (mask % 2 ^ n) (same result bits))
  where
    same :
        (result : ℕ)
        → ((k : ℕ)
            → test_bit result k ≡ (test_bit 0 k || contains (suc k) (ports_of_mask (pos mask) n)))
        → (k : ℕ) → test_bit result k ≡ test_bit (mask % 2 ^ n) k
    same result bits k = ground (
      arith,
      bits k,
      test_bit-zero k,
      contains-ports_of_mask (pos mask) n (suc k),
      test_bit-mod n mask k,
      test_bit_high n (mask % 2 ^ n) k,
      mod-lt mask {m = 2 ^ n} (one-le-pow n 2 (omega arith)),
    )
