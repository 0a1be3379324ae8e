-- ===== src/Coordinator/Consistency.antt =====
-- What a coordinator caches of the parts of the switch that are ruled out.
use hass_tplink_easy_smart.Base.{Bool, true, false, ◌≡◌, refl, none, some, []}
use hass_tplink_easy_smart.Python.{Result, ok, err}
use hass_tplink_easy_smart.Statistics.{Calculator}
use hass_tplink_easy_smart.Core.Session.Monad.{⊤, Action, Stateful, ◌>>=◌ as ◌>>>=◌}
use hass_tplink_easy_smart.Core.Session.Moves.{Moves, Moves-bind}
use hass_tplink_easy_smart.Api.Features.{ApiState, ApiAction, on_session}
use hass_tplink_easy_smart.Coordinator.State.{
  Coordinator, Capability, on_api, on_switch, poll, refreshed, failed, is_ruled_out,
  new_coordinator, undetected, async_update_listeners,
}

-- A ruled out part has the value of an absent one.
abbrev pub IsEmpty : {V : Type 0} → V → Capability V → Type 0
IsEmpty absent k = k.supported ≡ some false → k.cached ≡ absent

pub record IsConsistent {F : Type 0} (s : Coordinator F) : Type 0 where
  pub led : IsEmpty none s.led
  pub port_statistics : IsEmpty [] s.port_statistics
  pub igmp : IsEmpty none s.igmp
  pub loop_prevention : IsEmpty none s.loop_prevention
  pub cable_diagnostics : IsEmpty [] s.cable_diagnostics
  pub qos : IsEmpty none s.qos
  pub lag : IsEmpty none s.lag
  pub mtu_vlan : IsEmpty none s.mtu_vlan
  pub port_vlan : IsEmpty none s.port_vlan
  pub vlan_8021q : IsEmpty none s.vlan_8021q
  pub pvid : IsEmpty none s.pvid
  pub port_traffic_rates : s.port_statistics.cached ≡ [] → s.port_traffic_rates ≡ []

abbrev pub consistent :
    {F : Type 0} {s : Coordinator F}
    → IsEmpty none s.led
    → IsEmpty [] s.port_statistics
    → IsEmpty none s.igmp
    → IsEmpty none s.loop_prevention
    → IsEmpty [] s.cable_diagnostics
    → IsEmpty none s.qos
    → IsEmpty none s.lag
    → IsEmpty none s.mtu_vlan
    → IsEmpty none s.port_vlan
    → IsEmpty none s.vlan_8021q
    → IsEmpty none s.pvid
    → (s.port_statistics.cached ≡ [] → s.port_traffic_rates ≡ [])
    → IsConsistent s
consistent a b c d e f g h i j k l = record {
  led = a;
  port_statistics = b;
  igmp = c;
  loop_prevention = d;
  cable_diagnostics = e;
  qos = f;
  lag = g;
  mtu_vlan = h;
  port_vlan = i;
  vlan_8021q = j;
  pvid = k;
  port_traffic_rates = l;
}

-- A new coordinator knows nothing.
pub new_coordinator-IsConsistent :
    {F : Type 0} (api : ApiState) (calculator : Calculator F)
    → IsConsistent (new_coordinator api calculator)
unfolding new_coordinator undetected
new_coordinator-IsConsistent api calculator =
    consistent (λ e. refl) (λ e. refl) (λ e. refl) (λ e. refl) (λ e. refl) (λ e. refl) (λ e. refl)
      (λ e. refl) (λ e. refl) (λ e. refl) (λ e. refl) (λ e. refl)

pub refreshed-IsEmpty :
    {A V : Type 0} (absent : V) (wrap : A → V) (r : Result A) (k : Capability V)
    → IsEmpty absent (refreshed absent wrap r k)
unfolding refreshed failed
refreshed-IsEmpty absent wrap (ok a) k = λ e. cc
refreshed-IsEmpty absent wrap (err e) k = λ h. refl

module _ {F : Type 0} where
  -- Consistency is kept.
  abbrev pub Keeps : Coordinator F → Coordinator F → Type 0
  Keeps s t = IsConsistent s → IsConsistent t

  pub Keeps-trans : (s t u : Coordinator F) → Keeps s t → Keeps t u → Keeps s u
  Keeps-trans s t u x y c = y (x c)

  polled :
      {A V : Type 0} (absent : V) (wrap : A → V) (query : Action A)
      (get : Coordinator F → Capability V) (put : Capability V → Coordinator F → Coordinator F)
      (s : Coordinator F) (b : Bool)
      → ((api : ApiState) (k : Capability V)
          → IsEmpty absent k
          → Keeps s (put k (record s { api = api })))
      → let out : Result ⊤ × Coordinator F = elim b [
        | true ↦ (ok tt, s)
        | false ↦ let (r, t) = on_switch query s in (ok tt, put (refreshed absent wrap r (get s)) t)
      ] in
        Keeps s out.1
  unfolding on_switch on_api on_session
  polled absent wrap query get put s true frame = λ x. x
  polled absent wrap query get put s false frame =
      let api : ApiState = record s.api { session = (query s.api.session).1 } in
      frame api (refreshed absent wrap (query s.api.session).0 (get s))
        (refreshed-IsEmpty absent wrap _ (get s))

  pub poll-Keeps :
      {A V : Type 0} (absent : V) (wrap : A → V) (query : Action A)
      (get : Coordinator F → Capability V) (put : Capability V → Coordinator F → Coordinator F)
      → ((s : Coordinator F) (api : ApiState) (k : Capability V)
          → IsEmpty absent k
          → Keeps s (put k (record s { api = api })))
      → Moves Keeps (poll absent wrap query get put)
  unfolding poll
  poll-Keeps absent wrap query get put frame = record {
    at = λ s. polled absent wrap query get put s (is_ruled_out (get s).supported) (frame s);
  }

  pub on_api-Keeps : {A : Type 0} (m : ApiAction A) → Moves (Keeps) (on_api m)
  unfolding on_api
  on_api-Keeps m = record {
    at = λ s x.
        consistent x.led x.port_statistics x.igmp x.loop_prevention x.cable_diagnostics x.qos x.lag
          x.mtu_vlan x.port_vlan x.vlan_8021q x.pvid x.port_traffic_rates;
  }

  pub on_switch-Keeps : {A : Type 0} (m : Action A) → Moves (Keeps) (on_switch m)
  unfolding on_switch
  on_switch-Keeps m = on_api-Keeps (on_session m)

  pub listeners-Keeps : Moves Keeps async_update_listeners
  unfolding async_update_listeners
  listeners-Keeps = record {
    at = λ s x.
        consistent x.led x.port_statistics x.igmp x.loop_prevention x.cable_diagnostics x.qos x.lag
          x.mtu_vlan x.port_vlan x.vlan_8021q x.pvid x.port_traffic_rates;
  }

  module _ {A B : Type 0} where
    pub Keeps-bind :
        (m : Stateful (Coordinator F) A) (f : A → Stateful (Coordinator F) B)
        → Moves Keeps m
        → ((a : A) → Moves Keeps (f a))
        → Moves Keeps (m >>>= f)
    Keeps-bind = Moves-bind Keeps Keeps-trans
