-- ===== src/Discovery/Tests.antt =====
-- Discovery at a concrete request and payload.
use hass_tplink_easy_smart.Base.{ℕ, ◌≡◌, refl, false, none, some, List, [], ◌∷◌, arith}
use hass_tplink_easy_smart.Python.{ok}
use hass_tplink_easy_smart.Discovery.Cipher.{crypt, crypt-crypt}
use hass_tplink_easy_smart.Discovery.Packet.{
  Bytes, Platform, request_bytes, values_of, build_discovery_packet, parse_discovery_response,
}
use hass_tplink_easy_smart.Discovery.Packet.Laws.{
  payload_of, dictionary, values_of-payload_of, parse-build,
}

abbrev platform : Platform
platform = record {
  Address = Bytes;
  address_of_text = λ s. some (192 ∷ 168 ∷ 0 ∷ 1 ∷ []);
  address_of_bytes = λ b. b;
  text_of_address = λ b. "192.168.0.1";
  is_unspecified = λ b. false;
  is_multicast = λ b. false;
  is_loopback = λ b. false;
  utf8 = λ b. some "TL-SG108E";
  gb18030 = λ b. none;
  latin1 = λ b. "";
}

abbrev client_mac : Bytes
client_mac = 2 ∷ 1 ∷ 2 ∷ 3 ∷ 4 ∷ 5 ∷ []

abbrev payload : List (ℕ × Bytes)
payload = (1, 84 ∷ 76 ∷ []) ∷ (4, 192 ∷ 168 ∷ 0 ∷ 1 ∷ []) ∷ (1, 65 ∷ []) ∷ []

crypt-crypt_example : crypt (crypt (1 ∷ 0 ∷ 255 ∷ [])) ≡ 1 ∷ 0 ∷ 255 ∷ []
crypt-crypt_example = crypt-crypt (1 ∷ 0 ∷ 255 ∷ [])

values_of-payload_of_example : values_of (payload_of payload) ≡ some (dictionary payload [])
values_of-payload_of_example = values_of-payload_of payload (ground arith)

built_run : build_discovery_packet client_mac 4660 ≡ ok (crypt (request_bytes client_mac 4660))
unfolding build_discovery_packet
built_run = refl

parse-build_example :
    parse_discovery_response platform
      (crypt (request_bytes client_mac 4660))
      "192.168.0.9"
      client_mac
      4660
    ≡ none
parse-build_example = parse-build platform client_mac client_mac 4660 4660 "192.168.0.9" built_run
