-- ===== src/Discovery/Packet/Laws.antt =====
-- Requests and answers of the discovery protocol.
use hass_tplink_easy_smart.Base.{
  ℕ, zero, suc, ◌+◌, ◌*◌, ◌/◌, ◌%◌, ◌≤◌, ◌<◌, ◌≡◌, refl, String, false, none, some, List, [], ◌∷◌,
  ◌++◌, arith, ltb,
}
use hass_tplink_easy_smart.Base.Lists.{length, take, drop, All}
use hass_tplink_easy_smart.Base.Assoc.{insert, nat_eq}
use hass_tplink_easy_smart.Python.{ok}
use hass_tplink_easy_smart.Discovery.Cipher.{crypt, crypt-crypt}
use hass_tplink_easy_smart.Discovery.Packet.{
  Bytes, Platform, short, values_from, values_of, is_response, request_bytes,
  build_discovery_packet, parse_discovery_response,
}

-- A payload with the values of a list, in its order.
abbrev pub payload_of : List (ℕ × Bytes) → Bytes
payload_of [] = []
payload_of ((key, value) ∷ values) =
    short key ++ (short (length value) ++ (value ++ payload_of values))

-- The length is a 16-bit number.
abbrev pub IsEncodable : ℕ × Bytes → Type 0
IsEncodable v = length v.1 < 65536

-- The dictionary of a list, to which the later of two values with one key belongs.
abbrev pub dictionary : List (ℕ × Bytes) → List (ℕ × Bytes) → List (ℕ × Bytes)
dictionary [] found = found
dictionary ((key, value) ∷ values) found = dictionary values (insert key value found)

take-append : (xs ys : Bytes) → take (length xs) (xs ++ ys) ≡ xs
take-append [] ys = refl
take-append (x ∷ xs) ys = rw (take-append xs ys) refl

drop-append : (xs ys : Bytes) → drop (length xs) (xs ++ ys) ≡ ys
drop-append [] ys = refl
drop-append (x ∷ xs) ys = drop-append xs ys

length-append : (xs ys : Bytes) → length (xs ++ ys) ≡ length xs + length ys
length-append [] ys = omega arith
length-append (x ∷ xs) ys = omega (arith, length-append xs ys)

values_from-payload_of :
    (fuel : ℕ) (values found : List (ℕ × Bytes))
    → length (payload_of values) ≤ fuel
    → All IsEncodable values
    → values_from fuel (payload_of values) found ≡ some (dictionary values found)
unfolding values_from short
values_from-payload_of fuel [] found h v = refl
values_from-payload_of zero ((key, value) ∷ values) found h v = absurd (omega arith)
values_from-payload_of (suc fuel) ((key, value) ∷ values) found h v =
    let n = length value in
    let size : n / 256 * 256 + n % 256 ≡ n = omega arith in
    let name : key / 256 * 256 + key % 256 ≡ key = omega arith in
    let room = length-append value (payload_of values) in
    let fits : ltb (length (value ++ payload_of values)) n ≡ false = ground arith in
    let ih =
      values_from-payload_of fuel values (insert key value found) (omega (arith, room)) v.1 in
    rw
      (
        size,
        name,
        fits,
        take-append value (payload_of values),
        drop-append value (payload_of values),
      )
      ih

-- Values of fewer than 65536 bytes each are read back from their payload, the later of two with one
-- key.
pub values_of-payload_of :
    (values : List (ℕ × Bytes))
    → All IsEncodable values
    → values_of (payload_of values) ≡ some (dictionary values [])
unfolding values_of
values_of-payload_of values v =
    values_from-payload_of (length (payload_of values)) values [] (omega arith) v

built :
    (mac : Bytes) (sequence : ℕ) {packet : Bytes}
    → build_discovery_packet mac sequence ≡ ok packet
    → packet ≡ crypt (request_bytes mac sequence)
unfolding build_discovery_packet
built mac sequence {packet} h = ground arith

request-not-response :
    (mac client_mac : Bytes) (sequence expected : ℕ)
    → is_response (request_bytes mac sequence) client_mac expected ≡ false
unfolding is_response request_bytes
request-not-response mac client_mac sequence expected = ground arith

refused :
    (platform : Platform) (host : String) (data' client_mac : Bytes) (expected : ℕ)
    → is_response (crypt data') client_mac expected ≡ false
    → parse_discovery_response platform data' host client_mac expected ≡ none
unfolding parse_discovery_response
refused platform host data' client_mac expected h = rw h refl

-- A request is never taken for an answer, whichever client and sequence number an answer is
-- expected for.
pub parse-build :
    (platform : Platform) (mac client_mac : Bytes) (sequence expected : ℕ) (host : String)
    {packet : Bytes}
    → build_discovery_packet mac sequence ≡ ok packet
    → parse_discovery_response platform packet host client_mac expected ≡ none
parse-build platform mac client_mac sequence expected host {packet} h =
    refused platform host packet client_mac expected (
      rw (built mac sequence h, crypt-crypt (request_bytes mac sequence))
        (request-not-response mac client_mac sequence expected))
