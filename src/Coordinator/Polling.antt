-- ===== src/Coordinator/Polling.antt =====
-- What the updates of a coordinator read, and what they learn from it.
use hass_tplink_easy_smart.Base.{
  Bool, true, false, ◌≡◌, ◌≢◌, refl, sym, subst, ap, Option, none, some,
}
use hass_tplink_easy_smart.Base.Lists.{All-map}
use hass_tplink_easy_smart.Python.{Result, ok, err}
use hass_tplink_easy_smart.Core.Session.Monad.{Session, Action, ⊤, Stateful, ◌>>=◌ as ◌>>>=◌}
use hass_tplink_easy_smart.Core.Session.Login.{Credentials}
use hass_tplink_easy_smart.Core.Session.Calls.Trace.{Extends, Extends-refl, Extends-trans, Only}
use hass_tplink_easy_smart.Core.Session.Moves.{Moves, Moves-bind}
use hass_tplink_easy_smart.Api.Features.{ApiState, on_session}
use hass_tplink_easy_smart.Coordinator.State.{
  Coordinator, Capability, on_api, on_switch, poll, refreshed, failed, is_ruled_out,
  is_unsupported_error, judged,
}
use hass_tplink_easy_smart.Coordinator.Learning.{
  Learned, kept, found, Learns, Learns-refl, Learns-trans, Asked, Asked-earlier, IsRefresh,
}

module _ {F : Type 0} {account : Credentials} where
  pub IsRefresh-trans :
      {s t u : Coordinator F}
      → IsRefresh account s t
      → IsRefresh account t u
      → IsRefresh account s u
  IsRefresh-trans x y = record {
    learns = Learns-trans x.learns y.learns;
    reads = Extends-trans x.reads (record {
      new = y.reads.new;
      grown = y.reads.grown;
      allowed = All-map (λ e. Asked-earlier e x.learns) y.reads.new y.reads.allowed;
    });
  }

  -- A step that touches neither the switch nor what is known of it.
  pub IsRefresh-same :
      {s t : Coordinator F} → Learns s t → t.api.session ≡ s.api.session → IsRefresh account s t
  IsRefresh-same {s} {t} x e = record {
    learns = x;
    reads = Extends-refl s.api.session t.api.session (ap (λ (u : Session). u.events) e);
  }

-- An operation of a coordinator that only refreshes it.
abbrev pub Refreshing : {F A : Type 0} → Credentials → Stateful (Coordinator F) A → Type 0
Refreshing account m = Moves (IsRefresh account) m

module _ {F A B : Type 0} {account : Credentials} where
  pub Refreshing-bind :
      (m : Stateful (Coordinator F) A) (f : A → Stateful (Coordinator F) B)
      → Refreshing account m
      → ((a : A) → Refreshing account (f a))
      → Refreshing account (m >>>= f)
  Refreshing-bind = Moves-bind (IsRefresh account) (λ s t u x y. IsRefresh-trans x y)

judged-Learned :
    (b : Bool) (known : Option Bool) → is_ruled_out known ≡ false → Learned known (judged b known)
unfolding is_ruled_out judged
judged-Learned true none h = found false
judged-Learned true (some b) h = kept
judged-Learned false known h = kept

answered-Learned : (known : Option Bool) → is_ruled_out known ≡ false → Learned known (some true)
unfolding is_ruled_out
answered-Learned none h = found true
answered-Learned (some true) h = kept
answered-Learned (some false) h = cc

pub refreshed-Learned :
    {A V : Type 0} (absent : V) (wrap : A → V) (r : Result A) (k : Capability V)
    → is_ruled_out k.supported ≡ false
    → Learned k.supported (refreshed absent wrap r k).supported
unfolding refreshed failed
refreshed-Learned absent wrap (ok a) k h = answered-Learned k.supported h
refreshed-Learned absent wrap (err e) k h = judged-Learned (is_unsupported_error e) k.supported h

pub not_false : {known : Option Bool} → is_ruled_out known ≡ false → known ≢ some false
unfolding is_ruled_out
not_false h = λ e. cc

module _ {F : Type 0} {account : Credentials} {A V : Type 0} where
  polled :
      (absent : V) (wrap : A → V) (query : Action A) (get : Coordinator F → Capability V)
      (put : Capability V → Coordinator F → Coordinator F) (s : Coordinator F) (b : Bool)
      → (b ≡ false → Only (Asked account s) query)
      → ((api : ApiState) (k : Capability V)
          → Learned (get s).supported k.supported
          → Learns s (put k (record s { api = api })))
      → ((api : ApiState) (k : Capability V) → (put k (record s { api = api })).api ≡ api)
      → is_ruled_out (get s).supported ≡ b
      → let out : Result ⊤ × Coordinator F = elim b [
        | true ↦ (ok tt, s)
        | false ↦ let (r, t) = on_switch query s in (ok tt, put (refreshed absent wrap r (get s)) t)
      ] in
        IsRefresh account s out.1
  unfolding on_switch on_api on_session
  polled absent wrap query get put s true only frame same h = IsRefresh-same (Learns-refl s) refl
  polled absent wrap query get put s false only frame same h =
      let api : ApiState = record s.api { session = (query s.api.session).1 } in
      let k : Capability V = refreshed absent wrap (query s.api.session).0 (get s) in
      record {
        learns = frame api k (refreshed-Learned absent wrap _ (get s) h);
        reads =
            subst (λ (a : ApiState). Extends (Asked account s) s.api.session a.session)
              (sym (same api k)) ((only refl).at s.api.session);
      }

  pub poll-IsRefresh :
      (absent : V) (wrap : A → V) (query : Action A) (get : Coordinator F → Capability V)
      (put : Capability V → Coordinator F → Coordinator F) (s : Coordinator F)
      → ((get s).supported ≢ some false → Only (Asked account s) query)
      → ((api : ApiState) (k : Capability V)
          → Learned (get s).supported k.supported
          → Learns s (put k (record s { api = api })))
      → ((api : ApiState) (k : Capability V) → (put k (record s { api = api })).api ≡ api)
      → IsRefresh account s (poll absent wrap query get put s).1
  unfolding poll
  poll-IsRefresh absent wrap query get put s only frame same =
      polled absent wrap query get put s (is_ruled_out (get s).supported) (λ e. only (not_false e))
        frame same refl
