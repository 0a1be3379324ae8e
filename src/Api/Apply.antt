-- ===== src/Api/Apply.antt =====
-- `_apply_get` and `_apply_post`: a write that the switch answers by closing the connection counts
-- as applied, and forces a new login.
use hass_tplink_easy_smart.Base.{String, Option, none, some, List, false}
use hass_tplink_easy_smart.Python.{
  Value, Result, ok, err, api_call, disconnected, request, unauthorized,
}
use hass_tplink_easy_smart.Core.Variables.{Library}
use hass_tplink_easy_smart.Core.Session.Monad.{Action, Session, Device}
use hass_tplink_easy_smart.Core.Session.Login.{Credentials}
use hass_tplink_easy_smart.Core.Session.Calls.{get, post}
use hass_tplink_easy_smart.Api.Query.{Param, query}

-- What an API object works with.
pub record Client : Type 0 where
  pub library : Library
  pub device : Device
  pub account : Credentials

-- The `except ApiCallError` clause.
unfoldable pub accept_disconnect : Result String × Session → Result (Option String) × Session
accept_disconnect (ok text, s) = (ok (some text), s)
accept_disconnect (err (api_call code disconnected), s) =
    (ok none, record s { is_initialized = false })
accept_disconnect (err (api_call code request), s) = (err (api_call code request), s)
accept_disconnect (err (api_call code unauthorized), s) = (err (api_call code unauthorized), s)
accept_disconnect (err other, s) = (err other, s)

-- `_apply_get` on the text of a query.
unfoldable pub apply_text : Client → String → String → Action (Option String)
apply_text c path q s = accept_disconnect (get c.library c.device c.account path (some q) s)

unfoldable pub apply_get : Client → String → List (String × Param) → Action (Option String)
apply_get c path params s =
    accept_disconnect (get c.library c.device c.account path (some (query params)) s)

unfoldable pub apply_post : Client → String → List (String × Value) → Action (Option String)
apply_post c path form s = accept_disconnect (post c.library c.device c.account path form s)
