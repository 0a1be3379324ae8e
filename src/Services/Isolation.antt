-- ===== src/Services/Isolation.antt =====
-- Which coordinator a service call reaches, and what it raises.
use hass_tplink_easy_smart.Base.{
  ◌≡◌, refl, sym, ◌∙◌, ◌⊎◌, inl, inr, Bool, true, false, Bool-cases, String, Option, none, some,
  List, [], ◌∷◌, arith, if◌then◌else◌,
}
use hass_tplink_easy_smart.Base.Assoc.{string_eq, lookup, IsDistinct, lookup-insert}
use hass_tplink_easy_smart.Python.{Result, err, Error, home_assistant_error, service_not_found}
use hass_tplink_easy_smart.Statistics.{Floats}
use hass_tplink_easy_smart.Core.Session.Monad.{Event, ⊤}
use hass_tplink_easy_smart.Api.Poe.{Arithmetic}
use hass_tplink_easy_smart.Coordinator.State.{Coordinator}
use hass_tplink_easy_smart.Services.Calls.{
  ServiceCall, Managed, Entries, normalized, has_address, found_first, find_coordinator,
  run_operation, is_known, wrapped, surroundings, serve, async_call_service,
}
open string_eq use {beq, beq_iff}

module _ {V : Type 0} (test : V → Bool) where
  found_first-holds :
      (entries : List (String × Option V)) {key : String} {v : V}
      → IsDistinct entries
      → found_first test entries ≡ some (key, v)
      → (lookup key entries ≡ some (some v)) × (test v ≡ true)
  unfolding found_first lookup
  found_first-holds [] d h = cc
  found_first-holds ((k, none) ∷ entries) {key} {v} d h =
      let ih = found_first-holds entries d.1 h in ground (arith, beq_iff k key)
  found_first-holds ((k, some n) ∷ entries) {key} {v} d h = elim (Bool-cases (test n)) [
    | inl here ↦ ground (arith, beq_iff k key)
    | inr there ↦
        let rest : found_first test entries ≡ some (key, v) = ground arith in
        let ih = found_first-holds entries d.1 rest in ground (arith, beq_iff k key)
  ]

  found_first-fails :
      (entries : List (String × Option V))
      → found_first test entries ≡ none
      → (key : String) (v : V) → lookup key entries ≡ some (some v)
      → test v ≡ false
  unfolding found_first lookup
  found_first-fails [] h key v e = cc
  found_first-fails ((k, none) ∷ entries) h key v e =
      ground (arith, beq_iff k key, found_first-fails entries h key v)
  found_first-fails ((k, some n) ∷ entries) h key v e = elim (Bool-cases (test n)) [
    | inl here ↦ ground arith
    | inr there ↦ ground (arith, beq_iff k key, found_first-fails entries (ground arith) key v)
  ]

module _ (arithmetic : Arithmetic) (floats : Floats) (monotonic : List Event → floats.F) where
  abbrev pub executed : ServiceCall → Managed floats.F → Result ⊤ × Coordinator floats.F
  executed call managed =
      run_operation (surroundings arithmetic floats monotonic managed.client) call.operation
        managed.coordinator

  -- The outcome of a call with these coordinators: the service or the coordinator is not there and
  -- nothing changes, or the operation runs on one coordinator with the address of the call.
  pub data Served (call : ServiceCall) (before : Entries floats.F)
      (out : Result ⊤ × Entries floats.F) : Type 0 where
    unknown :
        is_known call.operation ≡ false
        → out ≡ (err service_not_found, before)
        → Served call before out
    absent :
        ((key : String) (managed : Managed floats.F)
          → lookup key before ≡ some (some managed)
          → has_address (normalized call.mac_address) managed.coordinator.switch_info ≡ false)
        → out ≡ (err home_assistant_error, before)
        → Served call before out
    ran :
        (key : String) (managed : Managed floats.F)
        → lookup key before ≡ some (some managed)
        → has_address (normalized call.mac_address) managed.coordinator.switch_info ≡ true
        → out.0 ≡ wrapped (executed call managed).0
        → ((j : String)
            → lookup j out.1 ≡ (
                if beq key j
                then some (some (record managed { coordinator = (executed call managed).1 }))
                else lookup j before))
        → Served call before out

  served :
      (call : ServiceCall) (entries : Entries floats.F) (found : Option (String × Managed floats.F))
      → IsDistinct entries
      → find_coordinator call.mac_address entries ≡ found
      → Served call entries (serve arithmetic floats monotonic call.operation entries found)
  unfolding serve find_coordinator
  served call entries none d e =
      absent (λ key managed. found_first-fails _ entries e key managed) refl
  served call entries (some (key, managed)) d e =
      let (at, holds) = found_first-holds _ entries d e in
      ran key managed at holds refl (λ j. lookup-insert key j _ entries)

  called :
      (call : ServiceCall) (entries : Entries floats.F) (b : Bool)
      → IsDistinct entries
      → is_known call.operation ≡ b
      → Served call entries (
          if b
          then serve arithmetic floats monotonic call.operation entries
              (find_coordinator call.mac_address entries)
          else (err service_not_found, entries))
  called call entries true d e = served call entries _ d refl
  called call entries false d e = unknown e refl

  -- A service call finds a coordinator with the address whenever there is one, runs its operation on
  -- that one only, and leaves every other coordinator as it was.
  pub async_call_service-Served :
      (call : ServiceCall) (entries : Entries floats.F)
      → IsDistinct entries
      → Served call entries (async_call_service arithmetic floats monotonic call entries)
  unfolding async_call_service
  async_call_service-Served call entries d = called call entries (is_known call.operation) d refl

-- What a service raises is `HomeAssistantError` or `ServiceNotFound`.
abbrev pub IsServiceError : Error → Type 0
IsServiceError e = (e ≡ home_assistant_error) ⊎ (e ≡ service_not_found)

wrapped-IsServiceError : (r : Result ⊤) {e : Error} → wrapped r ≡ err e → IsServiceError e
unfolding wrapped
wrapped-IsServiceError r h = ground arith

-- Whatever goes wrong in a service call, it raises `HomeAssistantError` or `ServiceNotFound`.
pub async_call_service-IsServiceError :
    (arithmetic : Arithmetic) (floats : Floats) (monotonic : List Event → floats.F)
    (call : ServiceCall) (entries : Entries floats.F) {e : Error}
    → IsDistinct entries
    → (async_call_service arithmetic floats monotonic call entries).0 ≡ err e
    → IsServiceError e
async_call_service-IsServiceError arithmetic floats monotonic call entries {e} d h =
    raised (async_call_service-Served arithmetic floats monotonic call entries d)
  where
    raised :
        Served arithmetic floats monotonic call entries
          (async_call_service arithmetic floats monotonic call entries)
        → IsServiceError e
    raised (unknown u out) = inr (cc)
    raised (absent u out) = inl (cc)
    raised (ran key managed at holds out others) = wrapped-IsServiceError _ (sym out ∙ h)
