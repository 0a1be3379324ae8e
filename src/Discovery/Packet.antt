-- ===== src/Discovery/Packet.antt =====
-- `_build_discovery_packet`, `_parse_discovery_response` and the functions that they call.
pub mod Laws
use Prim.Native.String.{◌++◌ as str_append}
use hass_tplink_easy_smart.Base.{
  ℕ, zero, suc, ◌+◌, ◌-◌, ◌*◌, ◌/◌, ◌%◌, String, Bool, true, false, not, ◌&&◌, ◌||◌, Option, none,
  some, List, [], ◌∷◌, ◌++◌, ltb, leb, ◌==◌, if◌then◌else◌,
}
use hass_tplink_easy_smart.Base.Lists.{length, get_or, take, drop, replicate}
use hass_tplink_easy_smart.Base.Assoc.{lookup, insert, nat_eq}
use hass_tplink_easy_smart.Python.{
  Result, ok, err, value_error, struct_error, raise_if, ◌>>=◌, ◌>>◌,
}
use hass_tplink_easy_smart.Api.Query.{digit_texts}
use hass_tplink_easy_smart.Discovery.Cipher.{crypt}

abbrev pub Bytes : Type 0
Bytes = List ℕ

-- `IPv4Address`, and the codecs; `none` is `AddressValueError` and `UnicodeDecodeError`.
pub record Platform : Type 1 where
  pub Address : Type 0
  pub address_of_text : String → Option Address
  pub address_of_bytes : Bytes → Address
  pub text_of_address : Address → String
  pub is_unspecified : Address → Bool
  pub is_multicast : Address → Bool
  pub is_loopback : Address → Bool
  pub utf8 : Bytes → Option String
  pub gb18030 : Bytes → Option String
  pub latin1 : Bytes → String

pub record DiscoveredSwitch : Type 0 where
  pub host : String
  pub mac : String
  pub model : String
  pub name : String
  pub firmware : Option String
  pub hardware : Option String

-- `_HEADER_LENGTH`, the size of "!BB6s6sHIHHHHI".
abbrev pub header_length : ℕ
header_length = 32

abbrev pub packet_end : Bytes
packet_end = 255 ∷ 255 ∷ 0 ∷ 0 ∷ []

-- The big-endian `H` and `I` of `struct`.
unfoldable pub short : ℕ → Bytes
short n = n / 256 ∷ n % 256 ∷ []

unfoldable pub short_at : Bytes → ℕ → ℕ
short_at bytes i = get_or bytes i 0 * 256 + get_or bytes (i + 1) 0

unfoldable pub long_at : Bytes → ℕ → ℕ
long_at bytes i = short_at bytes i * 65536 + short_at bytes (i + 2)

-- `header + _PACKET_END`
unfoldable pub request_bytes : Bytes → ℕ → Bytes
request_bytes client_mac sequence =
    1
    ∷ 0
    ∷ (replicate 6 0
        ++ (client_mac
            ++ (short sequence ++ (replicate 4 0 ++ (short 36 ++ (replicate 10 0 ++ packet_end))))))

-- `struct.error` for a sequence that is no 16-bit number.
unfoldable pub build_discovery_packet : Bytes → ℕ → Result Bytes
build_discovery_packet client_mac sequence = do
  raise_if (not (length client_mac == 6)) value_error
  raise_if (not (ltb sequence 65536)) struct_error
  ok (crypt (request_bytes client_mac sequence))

-- `==` of bytes.
unfoldable pub same_bytes : Bytes → Bytes → Bool
same_bytes [] [] = true
same_bytes [] (b ∷ ys) = false
same_bytes (a ∷ xs) [] = false
same_bytes (a ∷ xs) (b ∷ ys) = a == b && same_bytes xs ys

-- `value.split(b"\x00", 1)[0]`
before_null : Bytes → Bytes
before_null [] = []
before_null (zero ∷ value) = []
before_null (suc b ∷ value) = suc b ∷ before_null value

first_of : Option String → Option String → String → String
first_of (some a) b c = a
first_of none (some b) c = b
first_of none none c = c

unfoldable pub decode_text : Platform → Bytes → String
unfolding before_null first_of
decode_text platform value =
    let text = before_null value in
    first_of (platform.utf8 text) (platform.gb18030 text) (platform.latin1 text)

hex : ℕ → String
hex b = str_append (get_or digit_texts (b / 16) "") (get_or digit_texts (b % 16) "")

colon_joined : Bytes → String
unfolding hex
colon_joined [] = ""
colon_joined (b ∷ []) = hex b
colon_joined (b ∷ c ∷ rest) = str_append (hex b) (str_append ":" (colon_joined (c ∷ rest)))

-- `_format_mac`; `none` is its `ValueError`.
unfoldable pub format_mac : Bytes → Option String
unfolding colon_joined
format_mac value =
    if not (length value == 6)
      || (same_bytes value (replicate 6 0) || same_bytes value (replicate 6 255))
    then none
    else some (colon_joined value)

usable : (platform : Platform) → Option platform.Address → Option String
usable platform none = none
usable platform (some address) =
    if platform.is_unspecified address
      || (platform.is_multicast address || platform.is_loopback address)
    then none
    else some (platform.text_of_address address)

unfoldable pub valid_host : Platform → String → Option String
unfolding usable
valid_host platform value = usable platform (platform.address_of_text value)

-- The loop over the values of a payload; each round takes four bytes at least.
unfoldable pub values_from : ℕ → Bytes → List (ℕ × Bytes) → Option (List (ℕ × Bytes))
values_from fuel [] values = some values
values_from (suc fuel) (t ∷ u ∷ m ∷ n ∷ rest) values =
    let value_length = m * 256 + n in
    let more =
      values_from fuel (drop value_length rest)
        (insert (t * 256 + u) (take value_length rest) values) in
    if ltb (length rest) value_length then none else more
values_from fuel payload values = none

unfoldable pub values_of : Bytes → Option (List (ℕ × Bytes))
values_of payload = values_from (length payload) payload []

-- The tests on the length, the end and the header.
unfoldable pub is_response : Bytes → Bytes → ℕ → Bool
is_response decoded client_mac sequence =
    leb (header_length + 4) (length decoded)
    && (same_bytes (drop (length decoded - 4) decoded) packet_end
        && (get_or decoded 0 0 == 1
            && (get_or decoded 1 0 == 2
                && (same_bytes (take 6 (drop 8 decoded)) client_mac
                    && (short_at decoded 14 == sequence
                        && (long_at decoded 16 == 0
                            && (short_at decoded 20 == length decoded
                                && short_at decoded 22 == 0)))))))

-- `values.get(key, default)`
value_or : ℕ → Bytes → List (ℕ × Bytes) → Bytes
value_or key default values = elim (lookup key values) [ none ↦ default | some v ↦ v ]

-- `host or _valid_host(source_host)`; the text of an address is not empty.
host_of : Platform → List (ℕ × Bytes) → String → Option String
unfolding value_or
host_of platform values source_host =
    let ip_value = value_or 4 [] values in
    let own =
      if length ip_value == 4
      then valid_host platform (platform.text_of_address (platform.address_of_bytes ip_value))
      else none in
    elim own [ none ↦ valid_host platform source_host | some host ↦ some host ]

is_nothing : String → Bool
is_nothing String.[] = true
is_nothing (String.◌∷◌ _ _) = false

text_at : Platform → ℕ → List (ℕ × Bytes) → Option String
text_at platform key values = elim (lookup key values) [
  | none ↦ none
  | some v ↦ some (decode_text platform v)
]

-- From the MAC address on.
unfoldable pub identify : Platform → Bytes → List (ℕ × Bytes) → String → Option DiscoveredSwitch
unfolding value_or host_of is_nothing text_at
identify platform header_switch_mac values source_host =
    elim (format_mac (value_or 3 header_switch_mac values)) [
      | none ↦ none
      | some mac ↦
          if not (same_bytes (value_or 3 header_switch_mac values) header_switch_mac)
          then none
          else elim (host_of platform values source_host) [
            | none ↦ none
            | some host ↦
                let model = decode_text platform (value_or 1 [] values) in
                let name = decode_text platform (value_or 2 [] values) in
                if is_nothing model
                then none
                else some (record {
                  host = host;
                  mac = mac;
                  model = model;
                  name = if is_nothing name then model else name;
                  firmware = text_at platform 7 values;
                  hardware = text_at platform 8 values;
                })
          ]
    ]

unfoldable pub parse_discovery_response :
    Platform → Bytes → String → Bytes → ℕ → Option DiscoveredSwitch
parse_discovery_response platform data' source_host client_mac sequence =
    let decoded = crypt data' in
    if is_response decoded client_mac sequence
    then elim (values_of
        (take (length decoded - (header_length + 4)) (drop header_length decoded))) [
          | none ↦ none
          | some values ↦ identify platform (take 6 (drop 2 decoded)) values source_host
        ]
    else none
