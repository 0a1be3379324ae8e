-- ===== src/Core/Session/Login.antt =====
-- `_get_response_text`, `_get_raw`, `_post_raw`, `_refresh_session` and `authenticate`.
use text.Mathlib.Text.{◌==◌ as str_eq}
use hass_tplink_easy_smart.Base.{
  ℕ, String, Bool, true, false, not, Option, none, some, List, [], ◌∷◌, ◌==◌, if◌then◌else◌,
}
use hass_tplink_easy_smart.Base.Int.{negsuc}
use hass_tplink_easy_smart.Python.{
  Value, str, list, item, Result, ok, err, Error, api_call, authentication, other_error, request,
  disconnected, Reason, general, cannot_connect, credentials, user_blocked, too_many_users,
  session_timeout,
}
use hass_tplink_easy_smart.Core.Variables.{Library, get_variable, list_type}
use hass_tplink_easy_smart.Core.Session.Monad.{
  Action, Session, sent, cookies_cleared, session_created, Request, post_request, Reply, response,
  connection_lost, failure, Device, ⊤, raise, lift, modify, raise_when, catch, ◌>>=◌, ◌>>◌,
}

-- `ClientResponse`: the status and the body.
abbrev pub Response : Type 0
Response = ℕ × Option (List ℕ)

text_or_replace : Library → List ℕ → Option String → String
text_or_replace library bytes (some text) = text
text_or_replace library bytes none = library.gb18030_replace bytes

-- `_get_response_text`
unfoldable pub response_text : Library → Option (List ℕ) → Result String
unfolding text_or_replace
response_text library none = err other_error
response_text library (some bytes) = ok (text_or_replace library bytes (library.utf8 bytes))

-- The `except` clauses of `_get_raw` and `_post_raw`.
unfoldable pub received : Reply → Result Response
received (response status body) = ok (status, body)
received connection_lost = err (api_call (negsuc 3) disconnected)
received failure = err (api_call (negsuc 2) request)

-- `_get_raw` and `_post_raw`; with no session the `RuntimeError` is caught too, and nothing is sent.
unfoldable pub send : Device → Request → Action Response
send device r s = (
  if s.has_session then received (device s.events r) else err (api_call (negsuc 2) request),
  if s.has_session then record s { events = sent r ∷ s.events } else s,
)

-- `if self._session is None: ...`
unfoldable pub create_missing : Session → Session
create_missing s = if s.has_session then s else record s {
  has_session = true;
  session_injected = false;
  events = session_created ∷ s.events;
}

unfoldable pub clear_cookies : Session → Session
clear_cookies s = record s { events = cookies_cleared ∷ s.events }

unfoldable pub refresh_session : Action ⊤
unfolding create_missing clear_cookies
refresh_session = modify (λ s. clear_cookies (create_missing s))

-- What the first item of `logonInfo` says: `none` is success.
unfoldable pub logon_failure : String → Option Reason
logon_failure code =
    if str_eq code "0"
    then none
    else if str_eq code "1"
    then some credentials
    else if str_eq code "2"
    then some user_blocked
    else if str_eq code "3"
    then some too_many_users
    else if str_eq code "4"
    then some too_many_users
    else if str_eq code "5"
    then some session_timeout
    else some general

-- From the tests on `array_items` on.
unfoldable pub check_logon : Value → Result ⊤
check_logon (list (item (str code) _)) = elim (logon_failure code) [
  | none ↦ ok tt
  | some reason ↦ err (authentication reason)
]
check_logon _ = err (authentication general)

-- The `except` clauses of `authenticate`.
unfoldable pub authentication_failure : Error → Error
authentication_failure (authentication reason) = authentication reason
authentication_failure (api_call code category) = authentication cannot_connect
authentication_failure other = authentication general

pub record Credentials : Type 0 where
  pub user : String
  pub password : String

abbrev pub logon_form : Credentials → List (String × Value)
logon_form c =
    ("username", str c.user)
    ∷ ("password", str c.password)
    ∷ ("cpassword", str "")
    ∷ ("logon", str "Login")
    ∷ []

is_nothing : String → Bool
is_nothing String.[] = true
is_nothing (String.◌∷◌ _ _) = false

module _ (library : Library) (device : Device) (account : Credentials) where
  -- The `try` block of `authenticate`.
  unfoldable pub log_on : Action ⊤
  unfolding is_nothing
  log_on = do
    refresh_session
    answer ← send device (post_request "logon.cgi" (logon_form account))
    raise_when (not (answer.0 == 200)) (authentication general)
    text ← lift (response_text library answer.1)
    raise_when (is_nothing text) (authentication general)
    array_items ← lift (get_variable library text "logonInfo" list_type)
    lift (check_logon array_items)
    modify (λ s. record s { is_initialized = true })

  unfoldable pub authenticate : Action ⊤
  authenticate = do
    modify (λ s. record s { is_initialized = false })
    catch log_on (λ e. raise (authentication_failure e))
