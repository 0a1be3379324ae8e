-- ===== src/Api/Trace.antt =====
-- What the operations of the API send, besides the login.
pub mod Writes
pub mod Limits
pub mod Mirror
use hass_tplink_easy_smart.Base.{false, ◌≡◌, refl, ◌⊎◌, inl, inr, String, List, Option, some, none}
use hass_tplink_easy_smart.Python.{
  Value, Result, ok, err, Error, api_call, authentication, action, data_format, attribute_error,
  type_error, value_error, overflow_error, index_error, struct_error, other_error, update_failed,
  configuration_error, home_assistant_error, service_not_found, disconnected, request, unauthorized,
}
use hass_tplink_easy_smart.Core.Variables.{VariableType}
use hass_tplink_easy_smart.Core.Session.Monad.{
  Event, sent, Request, get_request, post_request, Session,
}
use hass_tplink_easy_smart.Core.Session.Login.{Credentials}
use hass_tplink_easy_smart.Core.Session.Calls.{relative_url, get, post}
use hass_tplink_easy_smart.Core.Session.Calls.Trace.{
  Extends, Extends-trans, Extends-refl, Only, IsLogin, Only-lift, Only-pure, Only-bind, call-Only,
}
use hass_tplink_easy_smart.Core.Session.Variables.{fetch_variables, fetch_variable}
use hass_tplink_easy_smart.Api.Query.{Param, query}
use hass_tplink_easy_smart.Core.Session.Calls.{post}
use hass_tplink_easy_smart.Core.Session.Monad.{post_request}
use hass_tplink_easy_smart.Api.Apply.{apply_post}
use hass_tplink_easy_smart.Python.{Value}
use hass_tplink_easy_smart.Api.Apply.{Client, accept_disconnect, apply_get, apply_post}

-- An event of a login, the read of `page`, or a request that `W` allows.
pub data Traffic (account : Credentials) (page : String) (W : Request → Type 0) (e : Event)
    : Type 0 where
  login : IsLogin account e → Traffic account page W e
  read : e ≡ sent (get_request page) → Traffic account page W e
  write : (q : Request) → e ≡ sent q → W q → Traffic account page W e

-- The request of `_apply_get`.
abbrev pub get_write : String → List (String × Param) → Request
get_write path params = get_request (relative_url path (some (query params)))

module _ (c : Client) (P : Event → Type 0) (permit : (e : Event) → IsLogin c.account e → P e) where
  pub fetch_variables-Only :
      (path : String) (variables : List (String × VariableType))
      → P (sent (get_request path))
      → Only P (fetch_variables c.library c.device c.account path variables)
  unfolding fetch_variables get relative_url
  fetch_variables-Only path variables p =
      Only-bind _ _ (call-Only c.library c.device c.account P permit _ p) (λ text. Only-lift _)

  pub fetch_variable-Only :
      (path variable : String) (type : VariableType)
      → P (sent (get_request path))
      → Only P (fetch_variable c.library c.device c.account path variable type)
  unfolding fetch_variable
  fetch_variable-Only path variable type p =
      Only-bind _ _ (fetch_variables-Only path _ p) (λ result. Only-pure _)

  accepted :
      (s : Session) (out : Result String × Session)
      → Extends P s out.1
      → Extends P s (accept_disconnect out).1
  unfolding accept_disconnect
  accepted s (ok text, t) x = x
  accepted s (err (api_call code disconnected), t) x =
      Extends-trans x (Extends-refl t (record t { is_initialized = false }) refl)
  accepted s (err (api_call code request), t) x = x
  accepted s (err (api_call code unauthorized), t) x = x
  accepted s (err (authentication reason), t) x = x
  accepted s (err (action problem), t) x = x
  accepted s (err (data_format problem), t) x = x
  accepted s (err attribute_error, t) x = x
  accepted s (err type_error, t) x = x
  accepted s (err value_error, t) x = x
  accepted s (err overflow_error, t) x = x
  accepted s (err index_error, t) x = x
  accepted s (err struct_error, t) x = x
  accepted s (err other_error, t) x = x
  accepted s (err update_failed, t) x = x
  accepted s (err configuration_error, t) x = x
  accepted s (err home_assistant_error, t) x = x
  accepted s (err service_not_found, t) x = x

  pub apply_get-Only :
      (path : String) (params : List (String × Param))
      → P (sent (get_write path params))
      → Only P (apply_get c path params)
  unfolding apply_get get
  apply_get-Only path params p = record {
    at = λ s.
        accepted s (get c.library c.device c.account path (some (query params)) s)
          ((call-Only c.library c.device c.account P permit _ p).at s);
  }

  pub apply_post-Only :
      (path : String) (form : List (String × Value))
      → P (sent (post_request path form))
      → Only P (apply_post c path form)
  unfolding apply_post post
  apply_post-Only path form p = record {
    at = λ s.
        accepted s (post c.library c.device c.account path form s)
          ((call-Only c.library c.device c.account P permit _ p).at s);
  }
