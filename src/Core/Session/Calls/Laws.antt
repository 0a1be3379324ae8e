-- ===== src/Core/Session/Calls/Laws.antt =====
-- The login session over any switch: what each call leaves behind, on every branch.
use hass_tplink_easy_smart.Base.{
  ℕ, suc, ◌+◌, ◌≤◌, ◌≡◌, refl, ◌∙◌, String, Bool, true, false, ◌||◌, List, [], ◌∷◌, arith,
}
use hass_tplink_easy_smart.Python.{Result, ok, err, Error, api_call, authentication}
use hass_tplink_easy_smart.Core.Variables.{Library}
use hass_tplink_easy_smart.Core.Session.Monad.{
  ◌>>=◌, Session, Event, sent, slept, cookies_cleared, session_created, session_closed,
  session_detached, Request, Device, ⊤,
}
use hass_tplink_easy_smart.Core.Session.Login.{
  send, refresh_session, log_on, authenticate, authentication_failure, Credentials,
}
use hass_tplink_easy_smart.Core.Session.Calls.{
  initialize, check_authorized, ensure_initialized, exchange, retry, perform, call,
}

-- How many requests a list of events holds.
abbrev pub requests : List Event → ℕ
requests [] = 0
requests (sent _ ∷ events) = suc (requests events)
requests (slept _ ∷ events) = requests events
requests (cookies_cleared ∷ events) = requests events
requests (session_created ∷ events) = requests events
requests (session_closed ∷ events) = requests events
requests (session_detached ∷ events) = requests events

abbrev pub Is_ok : {A : Type 0} → Result A → Bool
Is_ok (ok _) = true
Is_ok (err _) = false

-- `isinstance(ex, AuthenticationError)`
abbrev pub is_authentication : Error → Bool
is_authentication (authentication _) = true
is_authentication _ = false

failure_is_authentication : (e : Error) → is_authentication (authentication_failure e) ≡ true
unfolding authentication_failure
failure_is_authentication (api_call code category) = refl
failure_is_authentication (authentication reason) = refl
failure_is_authentication _ = refl

-- A client that counts as logged in has a session to talk with.
pub record IsValid (s : Session) : Type 0 where
  pub logged_in : s.is_initialized ≡ true → s.has_session ≡ true

module _ (library : Library) (device : Device) (account : Credentials) where
  -- How a login ends.
  record LoggedOn (s : Session) (r : Result ⊤) (after : Session) : Type 0 where
    session : after.has_session ≡ true
    initialized : after.is_initialized ≡ (Is_ok r || s.is_initialized)
    count : requests after.events ≡ requests s.events + 1

  log_on_lem :
      (s : Session) → let (r, after) = log_on library device account s in LoggedOn s r after
  unfolding log_on refresh_session send ◌>>=◌
  log_on_lem s = ground arith

  -- What `authenticate` leaves behind.
  pub record Authenticated (s : Session) (r : Result ⊤) (after : Session) : Type 0 where
    pub session : after.has_session ≡ true
    pub initialized : after.is_initialized ≡ Is_ok r
    pub count : requests after.events ≡ requests s.events + 1
    pub raises : (e : Error) → r ≡ err e → is_authentication e ≡ true

  -- From any session, a login ends with the client logged in, or with an `AuthenticationError` and
  -- the client not logged in; it sends one request, and leaves a session to talk with.
  pub authenticate_lem :
      (s : Session)
      → let (r, after) = authenticate library device account s in Authenticated s r after
  unfolding authenticate ◌>>=◌
  authenticate_lem s =
      let t : Session = record s { is_initialized = false } in
      let h = log_on_lem t in
      grind (arith, h.session, h.initialized, h.count, failure_is_authentication)

  abbrev Judged : Result (String × Bool) → Type 0
  Judged (ok (text, flag)) = flag ≡ true → check_authorized library 200 text ≡ true
  Judged (err e) = Unit

  -- A returned text passed the test for an authorized page, and the client is logged in.
  abbrev pub IsReturned : Result String → Session → Type 0
  IsReturned (ok text) after =
      (after.is_initialized ≡ true) × (check_authorized library 200 text ≡ true)
  IsReturned (err e) after = Unit

  -- One request is sent, and nothing else of the session changes. A text that counts as authorized
  -- came with status 200 and is no login page.
  record Exchanged (s : Session) (r : Result (String × Bool)) (after : Session) : Type 0 where
    session : after.has_session ≡ s.has_session
    initialized : after.is_initialized ≡ s.is_initialized
    count : requests after.events ≤ requests s.events + 1
    authorized : Judged r

  exchange_lem :
      (r : Request) (s : Session)
      → let (result, after) = exchange library device account r s in Exchanged s result after
  unfolding exchange send check_authorized ◌>>=◌
  exchange_lem r s = ground arith

  record Ensured (s : Session) (r : Result ⊤) (after : Session) : Type 0 where
    ready : Is_ok r ≡ true → (after.is_initialized ≡ true) × (after.has_session ≡ true)
    valid : IsValid after
    count : requests after.events ≤ requests s.events + 1

  ensure_lem :
      (s : Session)
      → IsValid s
      → let (r, after) = ensure_initialized library device account s in Ensured s r after
  unfolding ensure_initialized initialize ◌>>=◌
  ensure_lem s v =
      let h = authenticate_lem s in ground (arith, h.session, h.initialized, h.count, v.logged_in)

  -- What a call of `get` or `post` leaves behind.
  pub record Called (s : Session) (r : Result String) (after : Session) : Type 0 where
    pub valid : IsValid after
    pub count : requests after.events ≤ requests s.events + 4
    pub returns : IsReturned r after

  record Retried (s : Session) (r : Result String) (after : Session) : Type 0 where
    valid : IsValid after
    count : requests after.events ≤ requests s.events + 2
    returns : IsReturned r after

  retry_lem :
      (q : Request) (text : String) (flag : Bool) (s : Session)
      → s.is_initialized ≡ true
      → s.has_session ≡ true
      → (flag ≡ true → check_authorized library 200 text ≡ true)
      → let (r, after) = retry library device account q (text, flag) s in Retried s r after
  unfolding retry ◌>>=◌
  retry_lem q text true s i h a = ground (arith, a refl)
  retry_lem q text false s i h a =
      let first = authenticate_lem s in
      let t : Session = (authenticate library device account s).1 in
      let second = exchange_lem q t in
      ground (
        arith, first.session, first.initialized, first.count, second.session, second.initialized,
        second.count, second.authorized,
      )

  record Performed (s : Session) (r : Result String) (after : Session) : Type 0 where
    valid : IsValid after
    count : requests after.events ≤ requests s.events + 3
    returns : IsReturned r after

  continue_lem :
      (q : Request) (s t : Session) (r : Result (String × Bool))
      → s.is_initialized ≡ true
      → s.has_session ≡ true
      → Exchanged s r t
      → let out : Result String × Session = elim r [
        | ok a ↦ retry library device account q a t
        | err e ↦ (err e, t)
      ] in
        Performed s out.0 out.1
  continue_lem q s t (ok (text, flag)) i h x =
      let y = retry_lem q text flag t (x.initialized ∙ i) (x.session ∙ h) x.authorized in
      record { valid = y.valid; count = omega (arith, x.count, y.count); returns = y.returns }
  continue_lem q s t (err e) i h x = record {
    valid = ground (arith, x.session);
    count = omega (arith, x.count);
    returns = tt;
  }

  perform_lem :
      (q : Request) (s : Session)
      → s.is_initialized ≡ true
      → s.has_session ≡ true
      → let (r, after) = perform library device account q s in Performed s r after
  unfolding perform ◌>>=◌
  perform_lem q s i h =
      let (r, t) = exchange library device account q s in
      continue_lem q s t r i h (exchange_lem q s)

  -- From a valid session a call sends four requests at most, and leaves a valid session. If it
  -- returns a text, the client is logged in, and the text passed the test for an authorized page.
  pub call_lem :
      (q : Request) (s : Session)
      → IsValid s
      → let (r, after) = call library device account q s in Called s r after
  unfolding call ◌>>=◌
  call_lem q s v =
      let first = ensure_lem s v in
      finish (ensure_initialized library device account s).0
        (ensure_initialized library device account s).1 first
    where
      finish :
          (r : Result ⊤) (t : Session)
          → Ensured s r t
          → let out : Result String × Session = elim r [
            | ok a ↦ perform library device account q t
            | err e ↦ (err e, t)
          ] in
            Called s out.0 out.1
      finish (ok a) t x =
          let y = perform_lem q t (x.ready refl).0 (x.ready refl).1 in
          record { valid = y.valid; count = omega (arith, x.count, y.count); returns = y.returns }
      finish (err e) t x = record { valid = x.valid; count = omega (arith, x.count); returns = tt }
