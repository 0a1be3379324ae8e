-- ===== src/Api/Cable.antt =====
-- `get_cable_diagnostics` and `run_cable_diagnostic`.
use Prim.Native.String.{◌++◌ as str_append}
use hass_tplink_easy_smart.Base.{
  ℕ, zero, suc, ◌+◌, ◌-◌, String, ◌&&◌, Option, none, some, List, [], ◌∷◌, leb, ◌==◌, if◌then◌else◌,
}
use hass_tplink_easy_smart.Base.Int.{ℤ, pos, ltb_ℤ, leb_ℤ}
use hass_tplink_easy_smart.Python.{
  Result, ok, err, action, not_positive, value_error, invalid_port_count, parse_int, index,
  raise_if, is_space, ◌>>=◌,
}
use hass_tplink_easy_smart.Classes.{CableStatus, unknown_cable, cable_status_of, CableDiagnostic}
use hass_tplink_easy_smart.Core.Regex.{
  Matcher, start, size, char_if, ◌then_match◌, many, some_of, capture, literal, same_ignoring_case,
  word_boundary, find_all,
}
use hass_tplink_easy_smart.Core.Variables.{Library, int_type, list_type}
use hass_tplink_easy_smart.Core.Session.Monad.{
  Action, lift, emit, slept, ◌>>=◌ as ◌>>>=◌, ◌>>◌ as ◌>>>◌,
}
use hass_tplink_easy_smart.Core.Session.Variables.{fetch_variables}
use hass_tplink_easy_smart.Api.Query.{number, text, str_of_int}
use hass_tplink_easy_smart.Api.Apply.{Client, apply_get}
use hass_tplink_easy_smart.Api.Fields.{Fields, get_value, int_list, require_count}

-- `CableStatus(...)`, with `UNKNOWN` for its `ValueError`.
status_of : ℤ → CableStatus
status_of z = elim (cable_status_of z) [ none ↦ unknown_cable | some status ↦ status ]

-- The results from port `n` on, `count` of them.
diagnostics_from : List ℤ → List ℤ → ℕ → ℕ → Result (List CableDiagnostic)
unfolding status_of
diagnostics_from statuses lengths n zero = ok []
diagnostics_from statuses lengths n (suc count) = do
  status ← index statuses (n - 1)
  raw_length ← index lengths (n - 1)
  rest ← diagnostics_from statuses lengths (n + 1) count
  ok (
      record {
        number = n;
        status = status_of status;
        length_m = if leb_ℤ (pos 0) raw_length then some raw_length else none;
      }
      ∷ rest)

-- `get_cable_diagnostics`, from the variables of the page on.
unfoldable pub parse_cable : Fields → Result (List CableDiagnostic)
unfolding diagnostics_from
parse_cable data' = do
  port_count ← require_count (get_value data' "maxPort") (invalid_port_count "Cable diagnostics")
  statuses ← int_list (get_value data' "cablestate") "cablestate" port_count
  lengths ← int_list (get_value data' "cablelength") "cablelength" port_count
  diagnostics_from statuses lengths 1 port_count

-- `\bvar\s+delayTime\s*=\s*(\d+)` without case; `\d` is an ASCII digit, as for `int`.
delay_regex : Library → Matcher
delay_regex library =
    word_boundary library.unicode_word
    then_match literal same_ignoring_case "var"
    then_match some_of (char_if is_space)
    then_match literal same_ignoring_case "delaytime"
    then_match many (char_if is_space)
    then_match literal (λ c d. c == d) "="
    then_match many (char_if is_space)
    then_match capture (some_of (char_if (λ c. leb b'0' c && leb c b'9')))

-- `int(delay_match.group(1)) if delay_match else 1`, by the first match.
first_delay : List (List String) → Result ℤ
first_delay ((digits ∷ _) ∷ _) = elim (parse_int digits) [ none ↦ err value_error | some z ↦ ok z ]
first_delay _ = ok (pos 1)

unfoldable pub delay_of : Library → Option String → Result ℤ
unfolding delay_regex first_delay
delay_of library none = ok (pos 1)
delay_of library (some response) =
    first_delay (find_all (suc (size response)) (delay_regex library) (start response))

module _ (c : Client) where
  unfoldable pub get_cable_diagnostics : Action (List CableDiagnostic)
  get_cable_diagnostics =
      fetch_variables c.library c.device c.account "CableDiagRpm.htm"
        (("maxPort", int_type) ∷ ("cablestate", list_type) ∷ ("cablelength", list_type) ∷ [])
      >>>= λ data'. lift (parse_cable data')

  unfoldable pub run_cable_diagnostic : ℤ → Action (List CableDiagnostic)
  run_cable_diagnostic port_number =
      lift (raise_if (ltb_ℤ port_number (pos 1)) (action (not_positive "Port number")))
      >>> (apply_get c "cable_diag_get.cgi" (
            (str_append "chk_" (str_of_int port_number), number port_number)
            ∷ ("Apply", text "Apply")
            ∷ [])
          >>>= λ response. lift (delay_of c.library response) >>>= λ seconds.
              emit (slept seconds) >>> get_cable_diagnostics)
