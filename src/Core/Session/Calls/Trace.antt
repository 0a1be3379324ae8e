-- ===== src/Core/Session/Calls/Trace.antt =====
-- What a call can do beside its own request: log in.
use mathlib.Core.List.{append_assoc}
use hass_tplink_easy_smart.Base.{
  ◌≡◌, refl, sym, ap, ◌∙◌, ◌⊎◌, inl, inr, String, Bool, true, false, List, [], ◌∷◌, ◌++◌,
  if◌then◌else◌,
}
use hass_tplink_easy_smart.Base.Lists.{All, All-append}
use hass_tplink_easy_smart.Python.{Result, ok, err, Error}
use hass_tplink_easy_smart.Core.Variables.{Library}
use hass_tplink_easy_smart.Core.Session.Monad.{
  Action, Session, Event, sent, cookies_cleared, session_created, Request, post_request, Device,
  pure, raise, lift, modify, raise_when, catch, ◌>>=◌,
}
use hass_tplink_easy_smart.Core.Session.Login.{
  send, create_missing, clear_cookies, refresh_session, log_on, authenticate, logon_form,
  Credentials,
}
use hass_tplink_easy_smart.Core.Session.Calls.{
  ensure_initialized, exchange, initialize, retry, perform, call,
}

-- The events between two sessions all satisfy `P`.
pub record Extends {κ} (P : Event → Type κ) (s t : Session) : Type κ where
  pub new : List Event
  pub grown : t.events ≡ new ++ s.events
  pub allowed : All P new

module _ {κ} {P : Event → Type κ} where
  pub Extends-refl : (s t : Session) → t.events ≡ s.events → Extends P s t
  Extends-refl s t e = record { new = []; grown = e; allowed = tt }

  pub Extends-one : (s t : Session) (e : Event) → t.events ≡ e ∷ s.events → P e → Extends P s t
  Extends-one s t e g p = record { new = e ∷ []; grown = g; allowed = (p, tt) }

  pub Extends-trans : {s t u : Session} → Extends P s t → Extends P t u → Extends P s u
  Extends-trans {s} {t} {u} x y = record {
    new = y.new ++ x.new;
    grown = y.grown ∙ ap (λ l. y.new ++ l) x.grown ∙ sym (append_assoc y.new x.new s.events);
    allowed = All-append P y.new x.new y.allowed x.allowed;
  }

-- An event of a login.
abbrev pub IsLogin : Credentials → Event → Type 0
IsLogin account e =
    (e ≡ cookies_cleared)
    ⊎ (e ≡ session_created)
    ⊎ (e ≡ sent (post_request "logon.cgi" (logon_form account)))

-- Whatever the session, what an action does satisfies `P`.
pub record Only {κ} {A : Type 0} (P : Event → Type κ) (m : Action A) : Type κ where
  pub at : (s : Session) → Extends P s (m s).1

module _ {κ} {P : Event → Type κ} {A : Type 0} where
  pub Only-pure : (a : A) → Only P (pure a)
  Only-pure a = record { at = λ s. Extends-refl s s refl }

  pub Only-raise : (e : Error) → Only P (raise {A = A} e)
  Only-raise e = record { at = λ s. Extends-refl s s refl }

  pub Only-lift : (r : Result A) → Only P (lift r)
  Only-lift r = record { at = λ s. Extends-refl s s refl }

module _ {κ} {P : Event → Type κ} where
  pub Only-raise_when : (b : Bool) (e : Error) → Only P (raise_when b e)
  Only-raise_when true e = record { at = λ s. Extends-refl s s refl }
  Only-raise_when false e = record { at = λ s. Extends-refl s s refl }

  pub Only-flag : (b : Bool) → Only P (modify (λ s. record s { is_initialized = b }))
  Only-flag b = record { at = λ s. Extends-refl s (record s { is_initialized = b }) refl }

module _ {κ} {P : Event → Type κ} {A B : Type 0} where
  after_result :
      (f : A → Action B) (r : Result A) (s t : Session)
      → Extends P s t
      → ((a : A) → r ≡ ok a → Only P (f a))
      → let out : Result B × Session = elim r [ ok a ↦ f a t | err e ↦ (err e, t) ] in
        Extends P s out.1
  after_result f (ok a) s t x k = Extends-trans x ((k a refl).at t)
  after_result f (err e) s t x k = x

  pub Only-bind :
      (m : Action A) (f : A → Action B) → Only P m → ((a : A) → Only P (f a)) → Only P (m >>= f)
  unfolding ◌>>=◌
  Only-bind m f km kf = record {
    at = λ s. let (r, t) = m s in after_result f r s t (km.at s) (λ a _. kf a);
  }

  -- The rest of the block may use that `m` returned `a`.
  pub Only-bind_from :
      (m : Action A) (f : A → Action B)
      → Only P m
      → ((a : A) (s : Session) → (m s).0 ≡ ok a → Only P (f a))
      → Only P (m >>= f)
  unfolding ◌>>=◌
  Only-bind_from m f km kf = record {
    at = λ s. let (r, t) = m s in after_result f r s t (km.at s) (λ a e. kf a s e);
  }

module _ {κ} {P : Event → Type κ} {A : Type 0} where
  handled :
      (handler : Error → Action A) (r : Result A) (s t : Session)
      → Extends P s t
      → ((e : Error) → Only P (handler e))
      → let out : Result A × Session = elim r [ ok a ↦ (ok a, t) | err e ↦ handler e t ] in
        Extends P s out.1
  handled handler (ok a) s t x k = x
  handled handler (err e) s t x k = Extends-trans x ((k e).at t)

  pub Only-catch :
      (m : Action A) (handler : Error → Action A)
      → Only P m
      → ((e : Error) → Only P (handler e))
      → Only P (catch m handler)
  Only-catch m handler km kh = record {
    at = λ s. let (r, t) = m s in handled handler r s t (km.at s) kh;
  }

module _ (library : Library) (device : Device) (account : Credentials) (P : Event → Type 0)
    (login : (e : Event) → IsLogin account e → P e) where
  created :
      (b : Bool) (s : Session)
      → Extends P s (
          clear_cookies (
            if b then s else record s {
              has_session = true;
              session_injected = false;
              events = session_created ∷ s.events;
            }))
  unfolding clear_cookies
  created true s = Extends-one s _ cookies_cleared refl (login cookies_cleared (inl refl))
  created false s = record {
    new = cookies_cleared ∷ session_created ∷ [];
    grown = refl;
    allowed = (login cookies_cleared (inl refl), (login session_created (inr (inl refl)), tt));
  }

  refresh-Only : Only P refresh_session
  unfolding refresh_session create_missing clear_cookies
  refresh-Only = record { at = λ s. created s.has_session s }

  sent_only :
      (b : Bool) (s : Session) (q : Request)
      → P (sent q)
      → Extends P s (if b then record s { events = sent q ∷ s.events } else s)
  sent_only true s q p = Extends-one s _ (sent q) refl p
  sent_only false s q p = Extends-refl s s refl

  pub send-Only : (q : Request) → P (sent q) → Only P (send device q)
  unfolding send
  send-Only q p = record { at = λ s. sent_only s.has_session s q p }

  logon-Only : Only P (send device (post_request "logon.cgi" (logon_form account)))
  logon-Only = send-Only _ (login _ (inr (inr refl)))

  log_on-Only : Only P (log_on library device account)
  unfolding log_on
  log_on-Only = Only-bind _ _ refresh-Only (λ _. Only-bind _ _ logon-Only (λ answer.
      Only-bind _ _ (Only-raise_when _ _) (λ _. Only-bind _ _ (Only-lift _) (λ text.
        Only-bind _ _ (Only-raise_when _ _) (λ _.
          Only-bind _ _ (Only-lift _)
            (λ items. Only-bind _ _ (Only-lift _) (λ _. Only-flag true)))))))

  authenticate-Only : Only P (authenticate library device account)
  unfolding authenticate
  authenticate-Only =
      Only-bind _ _ (Only-flag false) (λ _. Only-catch _ _ log_on-Only (λ e. Only-raise _))

  initialize-Only : (b : Bool) → Only P (initialize library device account b)
  unfolding initialize
  initialize-Only true = Only-pure tt
  initialize-Only false = Only-bind _ _ authenticate-Only (λ _. Only-flag true)

  ensure-Only : Only P (ensure_initialized library device account)
  unfolding ensure_initialized
  ensure-Only = record { at = λ s. (initialize-Only s.is_initialized).at s }

  module _ (q : Request) (p : P (sent q)) where
    exchange-Only : Only P (exchange library device account q)
    unfolding exchange
    exchange-Only = Only-bind _ _ (send-Only q p) (λ answer.
        Only-bind _ _ (Only-lift _)
          (λ text. Only-bind _ _ (Only-raise_when _ _) (λ _. Only-pure _)))

    retry-Only : (first : String × Bool) → Only P (retry library device account q first)
    unfolding retry
    retry-Only (text, true) = Only-pure text
    retry-Only (text, false) = Only-bind _ _ authenticate-Only (λ _.
        Only-bind _ _ exchange-Only
          (λ second. Only-bind _ _ (Only-raise_when _ _) (λ _. Only-pure second.0)))

    perform-Only : Only P (perform library device account q)
    unfolding perform
    perform-Only = Only-bind _ _ exchange-Only retry-Only

    pub call-Only : Only P (call library device account q)
    unfolding call
    call-Only = Only-bind _ _ ensure-Only (λ _. perform-Only)
