-- ===== src/Coordinator/PriorityCache.antt =====
-- The cached QoS state after `async_set_qos_priority`.
use hass_tplink_easy_smart.Base.{
  ℕ, suc, ◌≡◌, refl, ap, ◌∙◌, subst, sym, String, Option, none, some, List,
}
use hass_tplink_easy_smart.Base.Int.{ℤ, pos, ◌≤ℤ◌}
use hass_tplink_easy_smart.Base.Lists.{length, All}
use hass_tplink_easy_smart.Python.{Result, ok, err}
use hass_tplink_easy_smart.Classes.{QosState}
use hass_tplink_easy_smart.Core.Session.Monad.{⊤, Session, ◌>>=◌, ◌>>◌}
use hass_tplink_easy_smart.Ports.Trunk.{ports_for_trunk}
use hass_tplink_easy_smart.Api.Features.{on_session}
use hass_tplink_easy_smart.Api.Limits.{set_qos_priority}
use hass_tplink_easy_smart.Coordinator.State.{on_api, on_switch, async_update_listeners}
use hass_tplink_easy_smart.Coordinator.Refresh.{Surroundings, State}
use hass_tplink_easy_smart.Coordinator.Commands.{
  prioritized, write_qos_priority, async_set_qos_priority,
}
use hass_tplink_easy_smart.Coordinator.Priorities.{Agrees, prioritized-Agrees}

module _ (w : Surroundings) (port priority : ℤ) where
  -- The state after the loop wrote `after`.
  cached_as : QosState → State w → State w
  cached_as after s = record s {
    qos = record s.qos { cached = some after };
    listener_updates = suc s.listener_updates;
  }

  write_qos_priority-eq :
      (s : State w) (state : QosState)
      → s.qos.cached ≡ some state
      → (prioritized port priority state).0 ≡ ok tt
      → (write_qos_priority w port priority >> async_update_listeners) s
        ≡ (ok tt, cached_as (prioritized port priority state).1 s)
  unfolding write_qos_priority ◌>>=◌ async_update_listeners cached_as
  write_qos_priority-eq s state known done =
      let told : Result ⊤ × State w → Result ⊤ × State w =
        λ out. elim out.0 [ ok a ↦ async_update_listeners out.1 | err e ↦ (err e, out.1) ] in
      let written : Option QosState → Result ⊤ × State w = λ cached. elim cached [
        | none ↦ (ok tt, s)
        | some state ↦
            let (r, state') = prioritized port priority state in
            (r, record s { qos = record s.qos { cached = some state' } })
      ] in
      ap (λ c. told (written c)) known
      ∙ ap
          (λ r. told (
            r,
            record s { qos = record s.qos { cached = some (prioritized port priority state).1 } },
          ))
          done

  -- The cached state has the priority for `ports`.
  pub record IsPrioritized (ports : List ℕ) (before : QosState) (s t : State w) : Type 0 where
    pub after : QosState
    pub cached : t.qos.cached ≡ some after
    pub agrees : Agrees priority ports before after
    pub told : t.listener_updates ≡ suc s.listener_updates

  -- The outcome, by the answer of the switch.
  abbrev pub PriorityOutcome :
      List ℕ → QosState → State w → Result (Option String) → Result ⊤ × State w → Type 0
  PriorityOutcome ports state s (ok text) (r, t) = (r ≡ ok tt) × IsPrioritized ports state s t
  PriorityOutcome ports state s (err e) (r, t) =
      (r ≡ err e) × (t.qos ≡ s.qos) × (t.listener_updates ≡ s.listener_updates)

  module _ (s : State w) (state : QosState) {ports : List ℕ} (known : s.qos.cached ≡ some state)
      (affected : ports_for_trunk port state.trunk_groups ≡ ok ports)
      (same : length state.priorities ≡ length state.trunk_groups)
      (positive : All (λ g. pos 0 ≤ℤ g) state.trunk_groups) where
    answered :
        (answer : Result (Option String)) (session : Session)
        → let t : State w = record s { api = record s.api { session = session } } in
          let out : Result ⊤ × State w = elim answer [
            | ok text ↦ (write_qos_priority w port priority >> async_update_listeners) t
            | err e ↦ (err e, t)
          ] in
          PriorityOutcome ports state s answer out × (out.1.api.session ≡ session)
    unfolding cached_as
    answered (ok text) session =
        let t : State w = record s { api = record s.api { session = session } } in
        let (done, agrees) = prioritized-Agrees port priority state affected same positive in
        subst
          (λ (out : Result ⊤ × State w).
            PriorityOutcome ports state s (ok text) out × (out.1.api.session ≡ session))
          (sym (write_qos_priority-eq t state known done))
          (
            (
              refl,
              record {
                after = (prioritized port priority state).1;
                cached = refl;
                agrees = agrees;
                told = refl;
              },
            ),
            refl,
          )
    answered (err e) session = ((refl, refl, refl), refl)

    -- If the switch takes a priority, the port may be set by the cached LAG numbers, and there is
    -- one cached priority and one LAG number for each port, no LAG number negative, then the cache
    -- gives the priority to exactly the ports that `_ports_for_trunk` returns for the port and the
    -- cached LAG numbers, keeps the rest of the QoS state, and the listeners are told once. If the
    -- request raises, so does the method, and neither the cache nor the listeners notice. Nothing
    -- but `set_qos_priority` is done on the switch.
    pub async_set_qos_priority-Outcome :
        let (answer, session) = set_qos_priority w.client port priority s.api.session in
        let out = async_set_qos_priority w port priority s in
        PriorityOutcome ports state s answer out × (out.1.api.session ≡ session)
    unfolding async_set_qos_priority ◌>>=◌ on_switch on_api on_session
    async_set_qos_priority-Outcome =
        let (answer, session) = set_qos_priority w.client port priority s.api.session in
        answered answer session
