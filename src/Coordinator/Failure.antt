-- ===== src/Coordinator/Failure.antt =====
-- When `async_update` raises.
use hass_tplink_easy_smart.Base.{ℕ, Bool, true, false, ◌≡◌, refl, subst, List}
use hass_tplink_easy_smart.Python.{Result, ok, err, Error, update_failed}
use hass_tplink_easy_smart.Classes.{PortState, PortStatistics}
use hass_tplink_easy_smart.Statistics.{Calculator, PortTrafficRates, update}
use hass_tplink_easy_smart.Statistics.Update.{IsUpdate, IsRefused, update_lem}
use hass_tplink_easy_smart.Core.Session.Monad.{
  Session, Stateful, Action, ⊤, modify, catch, raise, ◌>>=◌ as ◌>>>=◌, ◌>>◌ as ◌>>>◌,
}
use hass_tplink_easy_smart.Api.Features.{ApiState, on_session, feature_poe, is_feature_available}
use hass_tplink_easy_smart.Api.Device.{get_device_info}
use hass_tplink_easy_smart.Api.Settings.{get_port_states, get_port_statistics}
use hass_tplink_easy_smart.Coordinator.State.{
  Coordinator, Capability, on_api, on_switch, poll, refreshed, is_ruled_out,
}
use hass_tplink_easy_smart.Coordinator.Refresh.{
  Surroundings, State, Update, rated, sampled, update_switch_info, update_led_state,
  update_port_states, update_port_statistics, update_igmp_state, update_loop_prevention_state,
  update_cable_diagnostics, update_qos_state, update_lag_state, update_mtu_vlan_state,
  update_port_vlan_state, update_vlan_8021q_state, update_pvid_state, refresh_poe_state,
  update_poe_state, refresh_port_poe_states, update_port_poe_states, async_update,
}

-- The exceptions of the reads that an update cannot do without, and of the rates of the counters
-- that it has read.
pub data Fails (w : Surroundings) (e : Error) : Type 0 where
  no_device_info : (s : Session) → (get_device_info w.client s).0 ≡ err e → Fails w e
  no_port_states :
      (s : Session) (d : Error)
      → (get_port_states w.client s).0 ≡ err d
      → e ≡ update_failed
      → Fails w e
  no_rates :
      (s : Session) (statistics : List PortStatistics) (calculator : Calculator w.floats.F)
      → (get_port_statistics w.client s).0 ≡ ok statistics
      → IsRefused w.floats calculator statistics
          (w.monotonic (get_port_statistics w.client s).1.events)
          e
          calculator
      → Fails w e
  no_features : (s : ApiState) → (is_feature_available w.client feature_poe s).0 ≡ err e → Fails w e

-- Whatever `m` raises satisfies `P`.
pub record Raises {S A : Type 0} (P : Error → Type 0) (m : Stateful S A) : Type 0 where
  pub at : (s : S) (e : Error) → (m s).0 ≡ err e → P e

module _ {S A B : Type 0} (P : Error → Type 0) where
  next :
      (f : A → Stateful S B) (r : Result A) (t : S)
      → ((e : Error) → r ≡ err e → P e)
      → ((a : A) → Raises P (f a))
      → (e : Error)
      → let out : Result B × S = elim r [ ok a ↦ f a t | err x ↦ (err x, t) ] in out.0 ≡ err e → P e
  next f (ok a) t first rest e h = (rest a).at t e h
  next f (err x) t first rest e h = first e (cc)

  Raises-bind :
      (m : Stateful S A) (f : A → Stateful S B)
      → Raises P m
      → ((a : A) → Raises P (f a))
      → Raises P (m >>>= f)
  unfolding ◌>>>=◌
  Raises-bind m f first rest = record { at = λ s e h. next f (m s).0 (m s).1 (first.at s) rest e h }

module _ {F A V : Type 0} (P : Error → Type 0) where
  polled :
      (absent : V) (wrap : A → V) (query : Action A) (get : Coordinator F → Capability V)
      (put : Capability V → Coordinator F → Coordinator F) (s : Coordinator F) (b : Bool)
      (e : Error)
      → let out : Result ⊤ × Coordinator F = elim b [
        | true ↦ (ok tt, s)
        | false ↦ let (r, t) = on_switch query s in (ok tt, put (refreshed absent wrap r (get s)) t)
      ] in
        out.0 ≡ err e → P e
  polled absent wrap query get put s true e h = cc
  polled absent wrap query get put s false e h = cc

  poll-Raises :
      (absent : V) (wrap : A → V) (query : Action A) (get : Coordinator F → Capability V)
      (put : Capability V → Coordinator F → Coordinator F)
      → Raises P (poll absent wrap query get put)
  unfolding poll
  poll-Raises absent wrap query get put = record {
    at = λ s e. polled absent wrap query get put s (is_ruled_out (get s).supported) e;
  }

modify-Raises : {S : Type 0} (P : Error → Type 0) (f : S → S) → Raises P (modify f)
modify-Raises P f = record { at = λ s e h. cc }

module _ (w : Surroundings) where
  abbrev Failing : Error → Type 0
  Failing = Fails w

  switch_info-Raises : Raises Failing (update_switch_info w)
  unfolding update_switch_info on_switch on_api on_session
  switch_info-Raises =
      Raises-bind Failing (on_switch (get_device_info w.client)) _
        (record { at = λ s e h. no_device_info s.api.session h }) (λ info. modify-Raises Failing _)

  replaced :
      (r : Result (List PortState)) (s : Session) (t : State w) (e : Error)
      → r ≡ (get_port_states w.client s).0
      → let out : Result (List PortState) × State w = elim r [
        | ok a ↦ (ok a, t)
        | err x ↦ (err update_failed, t)
      ] in
        out.0 ≡ err e → Failing e
  replaced (ok a) s t e k h = cc
  replaced (err x) s t e k h = no_port_states s x (cc) (cc)

  port_states-Raises : Raises Failing (update_port_states w)
  unfolding update_port_states on_switch on_api on_session
  port_states-Raises =
      Raises-bind Failing (catch (on_switch (get_port_states w.client)) (λ e. raise update_failed))
        _
        (record {
          at =
              λ s e h. replaced (get_port_states w.client s.api.session).0 s.api.session _ e refl h;
        })
        (λ states. modify-Raises Failing _)

  rated_at :
      (s : Session) (statistics : List PortStatistics) (calculator : Calculator w.floats.F)
      (out : Result (List (ℕ × PortTrafficRates w.floats.F)) × Calculator w.floats.F) (t : State w)
      (e : Error)
      → (get_port_statistics w.client s).0 ≡ ok statistics
      → IsUpdate w.floats calculator statistics
          (w.monotonic (get_port_statistics w.client s).1.events)
          out
      → (rated w out.0 t).0 ≡ err e
      → Failing e
  unfolding rated
  rated_at s statistics calculator (ok rates, after) t e loaded updated h = cc
  rated_at s statistics calculator (err x, after) t e loaded updated h =
      let at = w.monotonic (get_port_statistics w.client s).1.events in
      let same : x ≡ e = cc in
      no_rates s statistics calculator loaded (
        subst (λ d. IsRefused w.floats calculator statistics at d calculator) same
          (subst (λ c. IsRefused w.floats calculator statistics at x c) updated.same updated))

  sampled_at :
      (s : Session) (r : Result (List PortStatistics)) (t : State w) (e : Error)
      → (get_port_statistics w.client s).0 ≡ r
      → t.api.session ≡ (get_port_statistics w.client s).1
      → (sampled w r t).0 ≡ err e
      → Failing e
  unfolding sampled
  sampled_at s (ok statistics) t e loaded same h =
      let calculator = t.statistics_rate_calculator in
      let out = update w.floats calculator statistics (w.monotonic t.api.session.events) in
      rated_at s statistics calculator out _ e loaded
        (subst (λ (u : Session). IsUpdate w.floats calculator statistics (w.monotonic u.events) out)
          same (update_lem w.floats calculator statistics (w.monotonic t.api.session.events)))
        h
  sampled_at s (err x) t e loaded same h = cc

  statistics_at :
      (s : State w) (b : Bool) (e : Error)
      → let out : Result ⊤ × State w = elim b [
        | true ↦ (ok tt, s)
        | false ↦ let (r, t) = on_switch (get_port_statistics w.client) s in sampled w r t
      ] in
        out.0 ≡ err e → Failing e
  unfolding on_switch on_api on_session
  statistics_at s true e h = cc
  statistics_at s false e h =
      sampled_at s.api.session (get_port_statistics w.client s.api.session).0 _ e refl refl h

  port_statistics-Raises : Raises Failing (update_port_statistics w)
  unfolding update_port_statistics
  port_statistics-Raises = record {
    at = λ s. statistics_at s (is_ruled_out s.port_statistics.supported);
  }

  poe_available-Raises :
      Raises {S = State w} Failing (on_api (is_feature_available w.client feature_poe))
  unfolding on_api
  poe_available-Raises = record { at = λ s e h. no_features s.api h }

  poe_state_at :
      (b : Bool) (s : State w) (e : Error) → (refresh_poe_state w b s).0 ≡ err e → Failing e
  unfolding refresh_poe_state
  poe_state_at true s e h = cc
  poe_state_at false s e h = cc

  poe_state-Raises : Raises Failing (update_poe_state w)
  unfolding update_poe_state
  poe_state-Raises =
      Raises-bind Failing (on_api (is_feature_available w.client feature_poe)) (refresh_poe_state w)
        poe_available-Raises (λ b. record { at = poe_state_at b })

  port_poe_states_at :
      (b : Bool) (s : State w) (e : Error) → (refresh_port_poe_states w b s).0 ≡ err e → Failing e
  unfolding refresh_port_poe_states
  port_poe_states_at true s e h = cc
  port_poe_states_at false s e h = cc

  port_poe_states-Raises : Raises Failing (update_port_poe_states w)
  unfolding update_port_poe_states
  port_poe_states-Raises =
      Raises-bind Failing (on_api (is_feature_available w.client feature_poe))
        (refresh_port_poe_states w) poe_available-Raises (λ b. record { at = port_poe_states_at b })

  and_then : {m k : Update w ⊤} → Raises Failing m → Raises Failing k → Raises Failing (m >>> k)
  and_then {m} {k} x y = Raises-bind Failing m (λ _. k) x (λ _. y)

  -- If an update raises, then the system page, the port states (and it is `UpdateFailed`) or the
  -- detection of features failed, or (and it is `OverflowError`) the rates of counters that the
  -- switch reported are too large for a float: no failed read of an optional part stops it.
  pub async_update-Fails : (s : State w) {e : Error} → (async_update w s).0 ≡ err e → Fails w e
  unfolding async_update update_led_state update_igmp_state update_loop_prevention_state
      update_cable_diagnostics update_qos_state update_lag_state update_mtu_vlan_state
      update_port_vlan_state update_vlan_8021q_state update_pvid_state
  async_update-Fails s {e} h =
      (and_then switch_info-Raises (
          and_then (poll-Raises Failing _ _ _ _ _) (
            and_then port_states-Raises (
              and_then port_statistics-Raises (
                and_then (poll-Raises Failing _ _ _ _ _) (
                  and_then (poll-Raises Failing _ _ _ _ _) (
                    and_then (poll-Raises Failing _ _ _ _ _) (
                      and_then (poll-Raises Failing _ _ _ _ _) (
                        and_then (poll-Raises Failing _ _ _ _ _) (
                          and_then (poll-Raises Failing _ _ _ _ _) (
                            and_then (poll-Raises Failing _ _ _ _ _) (
                              and_then (poll-Raises Failing _ _ _ _ _) (
                                and_then (poll-Raises Failing _ _ _ _ _)
                                  (and_then poe_state-Raises port_poe_states-Raises)))))))))))))).at
        s e h
