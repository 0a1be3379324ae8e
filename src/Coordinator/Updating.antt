-- ===== src/Coordinator/Updating.antt =====
-- `async_update` as a whole, and what it reads of PoE, ports and counters.
use hass_tplink_easy_smart.Base.{
  ℕ, Bool, true, false, ◌≡◌, refl, sym, subst, String, none, some, List, [], arith,
}
use hass_tplink_easy_smart.Python.{Result, ok, err, Error, update_failed}
use hass_tplink_easy_smart.Classes.{PortStatistics}
use hass_tplink_easy_smart.Statistics.{PortTrafficRates}
use hass_tplink_easy_smart.Core.Session.Monad.{
  Event, Action, ⊤, pure, catch, raise, modify, ◌>>◌ as ◌>>>◌,
}
use hass_tplink_easy_smart.Core.Session.Moves.{Moves, Moves-bind, Moves-catch}
use hass_tplink_easy_smart.Core.Session.Calls.Trace.{
  Extends, Extends-refl, Extends-trans, Only, Only-bind, Only-lift, Only-pure, Only-catch,
}
use hass_tplink_easy_smart.Api.Apply.{Client}
use hass_tplink_easy_smart.Api.Features.{
  ApiState, ApiAction, feature_poe, on_session, as_false, is_poe_available, update_features,
  add_feature, find_features, ensure_features_updated, is_feature_available,
}
use hass_tplink_easy_smart.Api.Poe.{Arithmetic, get_poe_state, get_port_poe_states}
use hass_tplink_easy_smart.Api.Device.{get_device_info}
use hass_tplink_easy_smart.Api.Settings.{get_port_states, get_port_statistics}
use hass_tplink_easy_smart.Coordinator.State.{
  Coordinator, on_api, on_switch, is_ruled_out, refreshed, failed,
}
use hass_tplink_easy_smart.Coordinator.Learning.{
  kept, learns, Learns, Learns-refl, Asked, IsRefresh, system_page, ports_page, poe_page,
  statistics_page,
}
use hass_tplink_easy_smart.Coordinator.Polling.{
  Refreshing, Refreshing-bind, IsRefresh-trans, IsRefresh-same, refreshed-Learned, not_false,
}
use hass_tplink_easy_smart.Coordinator.Refresh.{
  Surroundings, State, Update, update_switch_info, update_port_states, rated, sampled,
  update_port_statistics, refresh_poe_state, update_poe_state, refresh_port_poe_states,
  update_port_poe_states, async_update,
}
use hass_tplink_easy_smart.Coordinator.Parts.{
  fetch_variables-Asked, fetch_variable-Asked, update_led_state-Refreshing,
  update_igmp_state-Refreshing, update_loop_prevention_state-Refreshing,
  update_cable_diagnostics-Refreshing, update_qos_state-Refreshing, update_lag_state-Refreshing,
  update_mtu_vlan_state-Refreshing, update_port_vlan_state-Refreshing,
  update_vlan_8021q_state-Refreshing, update_pvid_state-Refreshing,
}

as_false-Only : {P : Event → Type 0} (e : Error) → Only P (as_false e)
unfolding as_false
as_false-Only e = record { at = λ s. Extends-refl s _ (ground arith) }

module _ {F : Type 0} (c : Client) (s : Coordinator F) where
  -- The API asks for no more than the coordinator `s` wants.
  abbrev Asks : ApiState → ApiState → Type 0
  Asks a b = Extends (Asked c.account s) a.session b.session

  Asks-trans : (a b d : ApiState) → Asks a b → Asks b d → Asks a d
  Asks-trans a b d x y = Extends-trans x y

  on_session-Asks :
      {A : Type 0} (m : Action A) → Only (Asked c.account s) m → Moves Asks (on_session m)
  unfolding on_session
  on_session-Asks m only = record { at = λ a. only.at a.session }

  is_poe_available-Only : Only (Asked c.account s) (is_poe_available c)
  unfolding is_poe_available
  is_poe_available-Only =
      Only-catch _ _ (Only-bind _ _ (fetch_variables-Asked c s poe_page _) (λ _. Only-pure _))
        as_false-Only

  add_feature-Asks : (b : Bool) (a : ApiState) → Asks a (add_feature b a)
  unfolding add_feature
  add_feature-Asks true a = Extends-refl a.session a.session refl
  add_feature-Asks false a = Extends-refl a.session a.session refl

  find_features-Asks : (b : Bool) → Moves Asks (find_features c b)
  unfolding find_features update_features
  find_features-Asks true = record { at = λ a. Extends-refl a.session a.session refl }
  find_features-Asks false =
      Moves-bind Asks Asks-trans _ _
        (Moves-bind Asks Asks-trans _ _ (on_session-Asks _ is_poe_available-Only)
          (λ b. record { at = add_feature-Asks b }))
        (λ _. record { at = λ a. Extends-refl a.session a.session refl })

  is_feature_available-Asks : (feature : String) → Moves Asks (is_feature_available c feature)
  unfolding is_feature_available ensure_features_updated
  is_feature_available-Asks feature =
      Moves-bind Asks Asks-trans _ _
        (record { at = λ a. (find_features-Asks a.is_features_updated).at a })
        (λ _. record { at = λ a. Extends-refl a.session a.session refl })

  where_available :
      {A : Type 0} (m : Action A) (a : A) (b : Bool)
      → Only (Asked c.account s) m
      → Moves Asks (elim b [ true ↦ on_session m | false ↦ pure a ])
  where_available m a true only = on_session-Asks m only
  where_available m a false only = record { at = λ t. Extends-refl t.session t.session refl }

  get_poe_state-Asks : (arithmetic : Arithmetic) → Moves Asks (get_poe_state c arithmetic)
  unfolding get_poe_state
  get_poe_state-Asks arithmetic =
      Moves-bind Asks Asks-trans _ _ (is_feature_available-Asks feature_poe) (λ b.
        where_available _ none b
          (Only-bind _ _ (fetch_variable-Asked c s poe_page _ _) (λ _. Only-lift _)))

  get_port_poe_states-Asks :
      (arithmetic : Arithmetic) → Moves Asks (get_port_poe_states c arithmetic)
  unfolding get_port_poe_states
  get_port_poe_states-Asks arithmetic =
      Moves-bind Asks Asks-trans _ _ (is_feature_available-Asks feature_poe) (λ b.
        where_available _ [] b
          (Only-bind _ _ (fetch_variables-Asked c s poe_page _) (λ _. Only-lift _)))

module _ (w : Surroundings) where
  on_api-IsRefresh :
      {A : Type 0} (m : ApiAction A) (s : State w)
      → Moves (Asks w.client s) m
      → IsRefresh w.client.account s (on_api m s).1
  unfolding on_api
  on_api-IsRefresh m s moves = record {
    learns = learns kept kept kept kept kept kept kept kept kept kept kept;
    reads = moves.at s.api;
  }

  on_switch-IsRefresh :
      {A : Type 0} (m : Action A) (s : State w)
      → Only (Asked w.client.account s) m
      → IsRefresh w.client.account s (on_switch m s).1
  unfolding on_switch
  on_switch-IsRefresh m s only =
      on_api-IsRefresh (on_session m) s (on_session-Asks w.client s m only)

  unchanged : (s : State w) → IsRefresh w.client.account s s
  unchanged s = IsRefresh-same (Learns-refl s) refl

  switch_info-Refreshing : Refreshing w.client.account (update_switch_info w)
  unfolding update_switch_info get_device_info
  switch_info-Refreshing =
      Refreshing-bind (on_switch (get_device_info w.client))
        (λ info. modify (λ s. record s { switch_info = some info }))
        (record {
          at = λ s.
              on_switch-IsRefresh (get_device_info w.client) s (
                Only-bind _ _ (fetch_variable-Asked w.client s system_page _ _) (λ _. Only-lift _));
        })
        (λ info. record {
          at = λ s.
              IsRefresh-same (learns kept kept kept kept kept kept kept kept kept kept kept) refl;
        })

  port_states-Refreshing : Refreshing w.client.account (update_port_states w)
  unfolding update_port_states get_port_states
  port_states-Refreshing =
      Refreshing-bind (catch (on_switch (get_port_states w.client)) (λ e. raise update_failed))
        (λ states. modify (λ s. record s { port_states = states }))
        (Moves-catch (IsRefresh w.client.account) (λ s t u x y. IsRefresh-trans x y)
          (on_switch (get_port_states w.client)) (λ e. raise update_failed)
          (record {
            at = λ s.
                on_switch-IsRefresh (get_port_states w.client) s (
                  Only-bind _ _ (fetch_variables-Asked w.client s ports_page _) (λ _. Only-lift _));
          })
          (λ e. record { at = unchanged }))
        (λ states. record {
          at = λ s.
              IsRefresh-same (learns kept kept kept kept kept kept kept kept kept kept kept) refl;
        })

  get_port_statistics-Asked :
      (s : State w)
      → is_ruled_out s.port_statistics.supported ≡ false
      → Only (Asked w.client.account s) (get_port_statistics w.client)
  unfolding get_port_statistics
  get_port_statistics-Asked s h =
      Only-bind _ _ (fetch_variables-Asked w.client s (statistics_page (not_false h)) _)
        (λ data'. Only-lift _)

  rated-Learns :
      (s : State w) (r : Result (List (ℕ × PortTrafficRates w.floats.F))) (t : State w)
      → Learns s t
      → Learns s (rated w r t).1
  unfolding rated
  rated-Learns s (ok rates) t x =
      learns x.led x.port_statistics x.igmp x.loop_prevention x.cable_diagnostics x.qos x.lag
        x.mtu_vlan x.port_vlan x.vlan_8021q x.pvid
  rated-Learns s (err e) t x = x

  rated-api :
      (r : Result (List (ℕ × PortTrafficRates w.floats.F))) (s : State w)
      → (rated w r s).1.api ≡ s.api
  unfolding rated
  rated-api (ok rates) s = refl
  rated-api (err e) s = refl

  sampled-Learns :
      (s : State w) (r : Result (List PortStatistics)) (api : ApiState)
      → is_ruled_out s.port_statistics.supported ≡ false
      → Learns s (sampled w r (record s { api = api })).1
  unfolding sampled refreshed failed
  sampled-Learns s (ok statistics) api h = rated-Learns s _ _ (
      learns kept (refreshed-Learned [] (λ l. l) (ok statistics) s.port_statistics h) kept kept kept
        kept kept kept kept kept kept)
  sampled-Learns s (err e) api h =
      learns kept
        (refreshed-Learned {A = List PortStatistics} [] (λ l. l) (err e) s.port_statistics h) kept
        kept kept kept kept kept kept kept kept

  sampled-api : (r : Result (List PortStatistics)) (s : State w) → (sampled w r s).1.api ≡ s.api
  unfolding sampled
  sampled-api (ok statistics) s = rated-api _ _
  sampled-api (err e) s = refl

  statistics_at :
      (s : State w) (b : Bool)
      → is_ruled_out s.port_statistics.supported ≡ b
      → let out : Result ⊤ × State w = elim b [
        | true ↦ (ok tt, s)
        | false ↦ let (r, t) = on_switch (get_port_statistics w.client) s in sampled w r t
      ] in
        IsRefresh w.client.account s out.1
  unfolding on_switch on_api on_session
  statistics_at s true h = unchanged s
  statistics_at s false h =
      let (r, t) = get_port_statistics w.client s.api.session in
      let api : ApiState = record s.api { session = t } in
      record {
        learns = sampled-Learns s r api h;
        reads =
            subst (λ (a : ApiState). Extends (Asked w.client.account s) s.api.session a.session)
              (sym (sampled-api r (record s { api = api })))
              ((get_port_statistics-Asked s h).at s.api.session);
      }

  port_statistics-Refreshing : Refreshing w.client.account (update_port_statistics w)
  unfolding update_port_statistics
  port_statistics-Refreshing = record {
    at = λ s. statistics_at s (is_ruled_out s.port_statistics.supported) refl;
  }

  poe_available-Refreshing :
      Refreshing {F = w.floats.F} w.client.account
        (on_api (is_feature_available w.client feature_poe))
  poe_available-Refreshing = record {
    at = λ s. on_api-IsRefresh _ s (is_feature_available-Asks w.client s feature_poe);
  }

  poe_state_at : (b : Bool) (s : State w) → IsRefresh w.client.account s (refresh_poe_state w b s).1
  unfolding refresh_poe_state on_api
  poe_state_at true s = record {
    learns = learns kept kept kept kept kept kept kept kept kept kept kept;
    reads = (get_poe_state-Asks w.client s w.arithmetic).at s.api;
  }
  poe_state_at false s = unchanged s

  port_poe_states_at :
      (b : Bool) (s : State w) → IsRefresh w.client.account s (refresh_port_poe_states w b s).1
  unfolding refresh_port_poe_states on_api
  port_poe_states_at true s = record {
    learns = learns kept kept kept kept kept kept kept kept kept kept kept;
    reads = (get_port_poe_states-Asks w.client s w.arithmetic).at s.api;
  }
  port_poe_states_at false s = unchanged s

  pub poe_state-Refreshing : Refreshing w.client.account (update_poe_state w)
  unfolding update_poe_state
  poe_state-Refreshing =
      Refreshing-bind (on_api (is_feature_available w.client feature_poe)) (refresh_poe_state w)
        poe_available-Refreshing (λ b. record { at = poe_state_at b })

  pub port_poe_states-Refreshing : Refreshing w.client.account (update_port_poe_states w)
  unfolding update_port_poe_states
  port_poe_states-Refreshing =
      Refreshing-bind (on_api (is_feature_available w.client feature_poe))
        (refresh_port_poe_states w) poe_available-Refreshing
        (λ b. record { at = port_poe_states_at b })

  -- One update after another.
  and_then :
      {m k : Update w ⊤}
      → Refreshing w.client.account m
      → Refreshing w.client.account k
      → Refreshing w.client.account (m >>> k)
  and_then {m} {k} x y = Refreshing-bind m (λ _. k) x (λ _. y)

  -- An update sends nothing but logins and reads of pages, and reads the page of an optional part
  -- only if that part is not ruled out; whatever the switch answers, what is known of an optional
  -- part is kept, or is found out once.
  pub async_update-IsRefresh : (s : State w) → IsRefresh w.client.account s (async_update w s).1
  unfolding async_update
  async_update-IsRefresh s =
      (and_then switch_info-Refreshing (
          and_then (update_led_state-Refreshing w) (
            and_then port_states-Refreshing (
              and_then port_statistics-Refreshing (
                and_then (update_igmp_state-Refreshing w) (
                  and_then (update_loop_prevention_state-Refreshing w) (
                    and_then (update_cable_diagnostics-Refreshing w) (
                      and_then (update_qos_state-Refreshing w) (
                        and_then (update_lag_state-Refreshing w) (
                          and_then (update_mtu_vlan_state-Refreshing w) (
                            and_then (update_port_vlan_state-Refreshing w) (
                              and_then (update_vlan_8021q_state-Refreshing w) (
                                and_then (update_pvid_state-Refreshing w) (
                                  and_then poe_state-Refreshing
                                    port_poe_states-Refreshing)))))))))))))).at
        s
