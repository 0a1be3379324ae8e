-- ===== src/Core/Session/Monad.antt =====
-- Methods that read and write the session, talk to the switch, and may raise.
use hass_tplink_easy_smart.Base.{ℕ, String, Bool, true, false, Option, List, ◌∷◌}
use hass_tplink_easy_smart.Base.Int.{ℤ}
use hass_tplink_easy_smart.Python.{Value, Result, ok, err, Error}

-- A request to the switch: its address below the base address, and the form of a POST.
pub data Request : Type 0 where
  get_request : String → Request
  post_request : String → List (String × Value) → Request

-- What the client has done, in order.
pub data Event : Type 0 where
  sent : Request → Event
  slept : ℤ → Event
  cookies_cleared session_created session_closed session_detached : Event

-- The response's status and body (`none`: reading the body raises), `ServerDisconnectedError`, or
-- another exception of the HTTP library.
pub data Reply : Type 0 where
  response : ℕ → Option (List ℕ) → Reply
  connection_lost : Reply
  failure : Reply

abbrev pub Device : Type 0
Device = List Event → Request → Reply

-- `_session is not None`, `_session_injected`, `_is_initialized`, and the events, latest first.
pub record Session : Type 0 where
  pub has_session : Bool
  pub session_injected : Bool
  pub is_initialized : Bool
  pub events : List Event

-- Code that reads and writes a state and may raise.
abbrev pub Stateful : Type 0 → Type 0 → Type 0
Stateful S A = S → Result A × S

abbrev pub Action : Type 0 → Type 0
Action A = Stateful Session A

abbrev pub ⊤ : Type 0
⊤ = Unit

module _ {S A : Type 0} where
  abbrev pub pure : A → Stateful S A
  pure a s = (ok a, s)

  abbrev pub raise : Error → Stateful S A
  raise e s = (err e, s)

  abbrev pub lift : Result A → Stateful S A
  lift r s = (r, s)

infixl 5 ◌>>=◌ ◌>>◌
unfoldable pub ◌>>=◌ : {S A B : Type 0} → Stateful S A → (A → Stateful S B) → Stateful S B
◌>>=◌ m f s = let (r, s') = m s in elim r [ ok a ↦ f a s' | err e ↦ (err e, s') ]

abbrev pub ◌>>◌ : {S A B : Type 0} → Stateful S A → Stateful S B → Stateful S B
m >> k = m >>= λ _. k

abbrev pub raise_when : {S : Type 0} → Bool → Error → Stateful S ⊤
raise_when true e s = (err e, s)
raise_when false e s = (ok tt, s)

abbrev pub modify : {S : Type 0} → (S → S) → Stateful S ⊤
modify f s = (ok tt, f s)

abbrev pub emit : Event → Action ⊤
emit e = modify (λ s. record s { events = e ∷ s.events })

-- `try: m` with `except ... as ex:` on every exception.
abbrev pub catch : {S A : Type 0} → Stateful S A → (Error → Stateful S A) → Stateful S A
catch m handler s = let (r, s') = m s in elim r [ ok a ↦ (ok a, s') | err e ↦ handler e s' ]
