-- ===== src/Services/Lifecycle.antt =====
-- helpers.py, the setup and unloading of services in services.py, and of an entry in __init__.py:
-- what is kept in `hass.data` and in Home Assistant's registry of services.
use text.Mathlib.Text.{◌==◌ as str_eq}
use hass_tplink_easy_smart.Base.{
  ℕ, String, Bool, true, false, not, ◌&&◌, ◌||◌, ◌≡◌, Option, none, some, List, [], ◌∷◌, ◌++◌, ltb,
  if◌then◌else◌,
}
use hass_tplink_easy_smart.Base.Int.{ℤ, pos, negsuc, pos_part, ◌+ℤ◌}
use hass_tplink_easy_smart.Base.Assoc.{lookup, insert, remove, string_eq}
use hass_tplink_easy_smart.Python.{Result, ok, err, configuration_error, other_error}
use hass_tplink_easy_smart.Core.Session.Monad.{⊤}

-- The services of the integration's domain that Home Assistant knows. `register` may raise.
pub record Registry (R : Type 0) : Type 0 where
  pub has : R → String → Bool
  pub register : String → R → Option R
  pub unregister : String → R → R
  pub has-register :
      (name other : String) (r s : R)
      → register name r ≡ some s
      → has s other ≡ (str_eq other name || has r other)
  pub has-unregister :
      (name other : String) (r : R)
      → has (unregister name r) other ≡ (not (str_eq other name) && has r other)

-- `hass.data[DOMAIN]`: the dictionary of each entry, which has a coordinator or nothing, and
-- `DATA_KEY_SERVICES`, which is no entry's key.
pub record Domain (E : Type 0) : Type 0 where
  pub entries : List (String × Option E)
  pub instances : Option ℕ

-- `hass.data.get(DOMAIN)`, the registry, and the coordinators that were unloaded, latest first.
pub record Hass (R E : Type 0) : Type 0 where
  pub domain : Option (Domain E)
  pub registry : R
  pub unloaded : List E

-- `setdefault(DATA_KEY_SERVICES, 0)`
unfoldable pub instances_of : Option ℕ → ℕ
instances_of none = 0
instances_of (some n) = n

module _ {E : Type 0} where
  -- `hass.data.setdefault(DOMAIN, {})`
  unfoldable pub domain_of : Option (Domain E) → Domain E
  domain_of none = record { entries = []; instances = none }
  domain_of (some d) = d

  -- `if not result: raise ConfigurationError`
  unfoldable pub present_coordinator : Option (Option E) → Result E
  present_coordinator (some (some c)) = ok c
  present_coordinator (some none) = err configuration_error
  present_coordinator none = err configuration_error

  -- `data.pop(DATA_KEY_COORDINATOR, None)` of `domain_data.get(entry_id, {})`
  unfoldable pub popped : Option (Option E) → Option E
  popped (some c) = c
  popped none = none

  unfoldable pub without_entry : String → Option (Domain E) → Option (Domain E)
  without_entry entry none = none
  without_entry entry (some d) = some (record d { entries = remove entry d.entries })

  -- `hass.data[DOMAIN].pop(DATA_KEY_SERVICES, None)`
  unfoldable pub forget_instances : Option (Domain E) → Option (Domain E)
  forget_instances none = none
  forget_instances (some d) = some (record d { instances = none })

module _ {R E : Type 0} where
  unfoldable pub get_coordinator : String → Hass R E → Result E
  get_coordinator entry hass = present_coordinator (lookup entry (domain_of hass.domain).entries)

  unfoldable pub set_coordinator : String → E → Hass R E → Hass R E
  set_coordinator entry c hass =
      let d = domain_of hass.domain in
      record hass { domain = some (record d { entries = insert entry (some c) d.entries }) }

  -- The dictionary of an entry has no other key, so it is empty without its coordinator.
  unfoldable pub pop_coordinator : String → Hass R E → Option E × Hass R E
  pop_coordinator entry hass = (
    popped (lookup entry (domain_of hass.domain).entries),
    record hass { domain = without_entry entry hass.domain },
  )

  -- `_change_instances_count`
  unfoldable pub change_instances_count : ℤ → Hass R E → ℕ × Hass R E
  unfolding ◌+ℤ◌
  change_instances_count delta hass =
      let d = domain_of hass.domain in
      let result = pos_part (pos (instances_of d.instances) +ℤ delta) in
      (result, record hass { domain = some (record d { instances = some result }) })

  -- `coordinator.async_unload()`
  unfoldable pub unload_coordinator : E → Hass R E → Hass R E
  unload_coordinator c hass = record hass { unloaded = c ∷ hass.unloaded }

  -- What `async_setup_services` does after the loop.
  unfoldable pub keep_registered : Hass R E → Result ⊤ × R → Result ⊤ × Hass R E
  keep_registered hass (ok done, r) = (ok tt, record hass { registry = r })
  keep_registered hass (err e, r) =
      (err e, (change_instances_count (negsuc 0) (record hass { registry = r })).1)

  -- The `except` clause of `async_setup_entry`: `services_loaded` is false there.
  unfoldable pub roll_back : String → E → Result ⊤ × Hass R E → Result ⊤ × Hass R E
  roll_back entry c (ok done, hass) = (ok tt, hass)
  roll_back entry c (err e, hass) = (err e, unload_coordinator c (pop_coordinator entry hass).1)

  unfoldable pub unload_popped : Option E × Hass R E → Hass R E
  unload_popped (none, hass) = hass
  unload_popped (some c, hass) = unload_coordinator c hass

-- The names of `SERVICES`.
abbrev pub service_names : List String
service_names =
    "set_general_poe_limit" ∷ "set_port_poe_settings" ∷ "set_igmp_snooping" ∷ "set_loop_prevention"
    ∷ "run_cable_diagnostic" ∷ "set_port_mirror" ∷ "set_lag" ∷ "delete_lag" ∷ "set_mtu_vlan"
    ∷ "set_port_vlan_mode" ∷ "upsert_port_vlan" ∷ "delete_port_vlan" ∷ "set_8021q_vlan_mode"
    ∷ "upsert_8021q_vlan" ∷ "delete_8021q_vlan" ∷ "set_pvid" ∷ "set_qos_mode" ∷ "set_qos_priority"
    ∷ "set_bandwidth_control" ∷ "set_storm_control" ∷ []

module _ {R : Type 0} (registry : Registry R) where
  open registry use {register, unregister}

  unfoldable pub remove_services : List String → R → R
  remove_services [] r = r
  remove_services (name ∷ names) r = remove_services names (unregister name r)

  -- The loop over `SERVICES`, with `registered_services`.
  unfoldable pub register_services : List String → List String → R → Result ⊤ × R
  register_services [] registered r = (ok tt, r)
  register_services (name ∷ names) registered r = elim (register name r) [
    | some s ↦ register_services names (registered ++ (name ∷ [])) s
    | none ↦ (err other_error, remove_services registered r)
  ]

module _ {R E : Type 0} (registry : Registry R) where
  unfoldable pub async_setup_services : Hass R E → Result ⊤ × Hass R E
  async_setup_services hass =
      let (active, counted) = change_instances_count (pos 1) hass in
      if ltb 1 active
      then (ok tt, counted)
      else keep_registered counted (register_services registry service_names [] counted.registry)

  unfoldable pub async_unload_services : Hass R E → Hass R E
  async_unload_services hass =
      let (active, counted) = change_instances_count (negsuc 0) hass in
      if ltb 0 active then counted else record counted {
        domain = forget_instances counted.domain;
        registry = remove_services registry service_names counted.registry;
      }

  -- `async_setup_entry` with its new coordinator; `refreshed` and `forwarded` say whether the first
  -- refresh and the setup of the platforms return. `async_unload_platforms` returns.
  unfoldable pub async_setup_entry :
      (refreshed forwarded : Bool) → String → E → Hass R E → Result ⊤ × Hass R E
  async_setup_entry false forwarded entry c hass = (err other_error, unload_coordinator c hass)
  async_setup_entry true false entry c hass =
      roll_back entry c (err other_error, set_coordinator entry c hass)
  async_setup_entry true true entry c hass =
      roll_back entry c (async_setup_services (set_coordinator entry c hass))

  -- `async_unload_entry`; `unload_ok` says whether the platforms unloaded.
  unfoldable pub async_unload_entry : Bool → String → Hass R E → Hass R E
  async_unload_entry false entry hass = hass
  async_unload_entry true entry hass =
      async_unload_services (unload_popped (pop_coordinator entry hass))
