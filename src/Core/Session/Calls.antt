-- ===== src/Core/Session/Calls.antt =====
-- `_check_authorized`, `_raise_on_unexpected_status`, `get`, `post` and `disconnect`.
pub mod Laws
pub mod Trace
use Prim.Native.String.{◌++◌ as str_append}
use hass_tplink_easy_smart.Base.{
  ℕ, String, Bool, true, false, not, ◌&&◌, ◌||◌, Option, none, some, List, [], ◌∷◌, ◌==◌,
  if◌then◌else◌,
}
use hass_tplink_easy_smart.Base.Int.{pos, negsuc}
use hass_tplink_easy_smart.Python.{
  Value, nil, str, Result, ok, err, Error, api_call, request, unauthorized, truthy,
}
use hass_tplink_easy_smart.Core.Variables.{Library, get_variable, str_type}
use hass_tplink_easy_smart.Core.Session.Monad.{
  Action, Session, session_closed, session_detached, Request, get_request, post_request, Device, ⊤,
  pure, raise, lift, modify, emit, raise_when, ◌>>=◌, ◌>>◌,
}
use hass_tplink_easy_smart.Core.Session.Login.{
  Response, response_text, send, Credentials, authenticate,
}

-- `not logon_info`; the conversion to a text raises nothing.
no_logon_info : Result Value → Bool
no_logon_info (ok v) = not (truthy v)
no_logon_info (err e) = false

unfoldable pub check_authorized : Library → ℕ → String → Bool
unfolding no_logon_info
check_authorized library status text =
    (status == 200) && no_logon_info (get_variable library text "logonInfo" str_type)

unfoldable pub unexpected_status : ℕ → Bool
unexpected_status status = not (status == 200 || (status == 401 || status == 403))

-- `path if not query else f"{path}?{query}"`
unfoldable pub relative_url : String → Option String → String
relative_url path none = path
relative_url path (some String.[]) = path
relative_url path (some (String.◌∷◌ c q)) = str_append path (str_append "?" (String.◌∷◌ c q))

module _ (library : Library) (device : Device) (account : Credentials) where
  unfoldable pub initialize : Bool → Action ⊤
  initialize true = pure tt
  initialize false = do
    authenticate library device account
    modify (λ t. record t { is_initialized = true })

  unfoldable pub ensure_initialized : Action ⊤
  unfolding initialize
  ensure_initialized s = initialize s.is_initialized s

  -- One request with its response read and its status checked; the text and whether it is
  -- authorized.
  unfoldable pub exchange : Request → Action (String × Bool)
  exchange r = do
    answer ← send device r
    text ← lift (response_text library answer.1)
    raise_when (unexpected_status answer.0) (api_call (pos answer.0) request)
    pure (text, check_authorized library answer.0 text)

  -- The second attempt, after a new login.
  unfoldable pub retry : Request → String × Bool → Action String
  retry r (text, true) = pure text
  retry r (_, false) = do
    authenticate library device account
    second ← exchange r
    raise_when (not second.1) (api_call (negsuc 1) unauthorized)
    pure second.0

  unfoldable pub perform : Request → Action String
  perform r = do first ← exchange r; retry r first

  -- The common body of `get` and `post`, which differ in the request alone.
  unfoldable pub call : Request → Action String
  call r = do ensure_initialized; perform r

  -- `get(path, query)`
  unfoldable pub get : String → Option String → Action String
  get path query = call (get_request (relative_url path query))

  unfoldable pub post : String → List (String × Value) → Action String
  post path form = call (post_request path form)

unfoldable pub invalidate_authentication : Action ⊤
invalidate_authentication = modify (λ s. record s { is_initialized = false })

-- `if self._session is not None: ...`
close : Session → Session
close s =
    if s.has_session
    then record s {
      has_session = false;
      session_injected = false;
      events = (if s.session_injected then session_detached else session_closed) ∷ s.events;
    }
    else s

unfoldable pub disconnect : Action ⊤
unfolding close
disconnect = modify (λ s. record (close s) { is_initialized = false })
