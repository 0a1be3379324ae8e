-- ===== src/Services/Entries.antt =====
-- Setting up and unloading the entries of the integration.
use hass_tplink_easy_smart.Base.{
  ℕ, suc, String, Bool, true, false, ◌&&◌, ◌≡◌, refl, sym, ap, ◌∙◌, subst, Option, none, some, List,
  [], ◌∷◌, ltb, arith, if◌then◌else◌,
}
use hass_tplink_easy_smart.Base.Int.{pos, negsuc, pos_part, ◌+ℤ◌}
use hass_tplink_easy_smart.Base.Lists.{length}
use hass_tplink_easy_smart.Base.Assoc.{
  lookup, insert, IsDistinct, string_eq, insert-IsDistinct, remove-insert, length-insert,
}
use hass_tplink_easy_smart.Python.{Result, ok, err, Error, other_error}
use hass_tplink_easy_smart.Core.Session.Monad.{⊤}
use hass_tplink_easy_smart.Services.Balance.{is_listed, Registered, register_services-Registered}
use hass_tplink_easy_smart.Services.Lifecycle.{
  Registry, Hass, domain_of, instances_of, set_coordinator, pop_coordinator, without_entry,
  change_instances_count, unload_coordinator, service_names, register_services, keep_registered,
  async_setup_services, roll_back, async_setup_entry,
}

-- The entries of `hass.data[DOMAIN]`.
abbrev pub entries_of : {R E : Type 0} → Hass R E → List (String × Option E)
entries_of hass = (domain_of hass.domain).entries

module _ {R E : Type 0} (registry : Registry R) where
  open registry use {has}

  -- No entry is there twice, the instances are counted, and all services are registered if there is
  -- an entry, and none if there is not.
  pub record IsBalanced (hass : Hass R E) : Type 0 where
    pub distinct : IsDistinct (entries_of hass)
    pub counted : instances_of (domain_of hass.domain).instances ≡ length (entries_of hass)
    pub services :
        (name : String)
        → has hass.registry name
          ≡ (ltb 0 (length (entries_of hass)) && is_listed name service_names)

  -- What the setup of a new entry leads to.
  pub data SetUp (entry : String) (c : E) (before : Hass R E) (out : Result ⊤ × Hass R E)
      : Type 0 where
    done :
        out.0 ≡ ok tt
        → entries_of out.1 ≡ insert entry (some c) (entries_of before)
        → out.1.unloaded ≡ before.unloaded
        → IsBalanced out.1
        → SetUp entry c before out
    undone :
        (e : Error)
        → out.0 ≡ err e
        → entries_of out.1 ≡ entries_of before
        → out.1.unloaded ≡ c ∷ before.unloaded
        → IsBalanced out.1
        → SetUp entry c before out

more : (n : ℕ) → pos_part (pos n +ℤ pos 1) ≡ suc n
unfolding ◌+ℤ◌
more n = ground arith

pub fewer : (n : ℕ) → pos_part (pos (suc n) +ℤ negsuc 0) ≡ n
unfolding ◌+ℤ◌
fewer n = ground arith

pub above_zero : (n : ℕ) (b : Bool) → b ≡ (ltb 0 (suc n) && b)
above_zero n b = ground arith

module _ {R E : Type 0} (registry : Registry R) (entry : String) (c : E) (hass : Hass R E)
    (balanced : IsBalanced registry hass) (new : lookup entry (entries_of hass) ≡ none) where
  open registry use {has}

  SetUp-first_service :
      (out : Result ⊤ × R)
      → length (entries_of hass) ≡ 0
      → Registered registry service_names out
      → SetUp registry entry c hass (
          roll_back entry c
            (keep_registered (change_instances_count (pos 1) (set_coordinator entry c hass)).1 out))
  unfolding roll_back keep_registered change_instances_count set_coordinator unload_coordinator
      pop_coordinator domain_of instances_of without_entry
  SetUp-first_service (ok u, r) h known = done refl refl refl (record {
    distinct = insert-IsDistinct entry (some c) (entries_of hass) balanced.distinct;
    counted =
        more (instances_of (domain_of hass.domain).instances)
        ∙ ap suc balanced.counted
        ∙ sym (length-insert entry (some c) (entries_of hass) new);
    services = λ name.
        known name
        ∙ above_zero (length (entries_of hass)) (is_listed name service_names)
        ∙ ap (λ k. ltb 0 k && is_listed name service_names)
            (sym (length-insert entry (some c) (entries_of hass) new));
  })
  SetUp-first_service (err e, r) h known =
      let same = remove-insert entry (some c) (entries_of hass) new in
      undone e refl same refl (record {
        distinct = subst (IsDistinct ⦃e = string_eq⦄) (sym same) balanced.distinct;
        counted =
            ap (λ k. pos_part (pos k +ℤ negsuc 0))
              (more (instances_of (domain_of hass.domain).instances))
            ∙ fewer (instances_of (domain_of hass.domain).instances)
            ∙ balanced.counted
            ∙ ap length (sym same);
        services = λ name.
            known name
            ∙ ap (λ k. ltb 0 k && is_listed name service_names) (sym (ap length same ∙ h));
      })

  -- Nothing is registered where there is no entry.
  unregistered :
      length (entries_of hass) ≡ 0 → (other : String) → has hass.registry other ≡ is_listed other []
  unregistered h other =
      balanced.services other ∙ ap (λ k. ltb 0 k && is_listed other service_names) h

  others :
      ltb 1 (pos_part (pos (instances_of (domain_of hass.domain).instances) +ℤ pos 1)) ≡ true
      → ltb 0 (length (entries_of hass)) ≡ ltb 0 (suc (length (entries_of hass)))
  others h = ground (arith, more (instances_of (domain_of hass.domain).instances), balanced.counted)

  SetUp-services :
      (b : Bool)
      → ltb 1 (pos_part (pos (instances_of (domain_of hass.domain).instances) +ℤ pos 1)) ≡ b
      → let counted = (change_instances_count (pos 1) (set_coordinator entry c hass)).1 in
        SetUp registry entry c hass (
          roll_back entry c (
            if b
            then (ok tt, counted)
            else keep_registered counted
                (register_services registry service_names [] hass.registry)))
  unfolding roll_back change_instances_count set_coordinator domain_of instances_of
  SetUp-services true h = done refl refl refl (record {
    distinct = insert-IsDistinct entry (some c) (entries_of hass) balanced.distinct;
    counted =
        more (instances_of (domain_of hass.domain).instances)
        ∙ ap suc balanced.counted
        ∙ sym (length-insert entry (some c) (entries_of hass) new);
    services = λ name.
        balanced.services name
        ∙ ap (λ b. b && is_listed name service_names)
            (others h ∙ ap (ltb 0) (sym (length-insert entry (some c) (entries_of hass) new)));
  })
  SetUp-services false h =
      let none_yet : length (entries_of hass) ≡ 0 =
        ground (arith, more (instances_of (domain_of hass.domain).instances), balanced.counted) in
      SetUp-first_service _ none_yet (
        register_services-Registered registry service_names [] hass.registry
          (unregistered none_yet))

  SetUp-not_forwarded :
      SetUp registry entry c hass
        (roll_back entry c (err other_error, set_coordinator entry c hass))
  unfolding roll_back set_coordinator unload_coordinator pop_coordinator domain_of without_entry
  SetUp-not_forwarded =
      let same = remove-insert entry (some c) (entries_of hass) new in
      undone other_error refl same refl (record {
        distinct = subst (IsDistinct ⦃e = string_eq⦄) (sym same) balanced.distinct;
        counted = balanced.counted ∙ ap length (sym same);
        services = λ name.
            balanced.services name
            ∙ ap (λ k. ltb 0 k && is_listed name service_names) (ap length (sym same));
      })

  SetUp-entry :
      (refreshed forwarded : Bool)
      → SetUp registry entry c hass (async_setup_entry registry refreshed forwarded entry c hass)
  unfolding async_setup_entry unload_coordinator async_setup_services change_instances_count
      set_coordinator domain_of instances_of
  SetUp-entry false forwarded = undone other_error refl refl refl (record {
    distinct = balanced.distinct;
    counted = balanced.counted;
    services = balanced.services;
  })
  SetUp-entry true false = SetUp-not_forwarded
  SetUp-entry true true = SetUp-services _ refl

-- Setting up an entry that is not there either adds it with its coordinator, or raises, leaves the
-- entries as they were and unloads the coordinator. The services stay registered exactly while there
-- is an entry.
pub async_setup_entry-SetUp :
    {R E : Type 0} (registry : Registry R) (refreshed forwarded : Bool) (entry : String) (c : E)
    (hass : Hass R E)
    → IsBalanced registry hass
    → lookup entry (entries_of hass) ≡ none
    → SetUp registry entry c hass (async_setup_entry registry refreshed forwarded entry c hass)
async_setup_entry-SetUp registry refreshed forwarded entry c hass balanced new =
    SetUp-entry registry entry c hass balanced new refreshed forwarded
