-- ===== src/Services/Running.antt =====
-- Everything that can happen to the entries of the integration.
use hass_tplink_easy_smart.Base.{
  ℕ, suc, String, Bool, true, false, not, ◌&&◌, ◌≡◌, refl, sym, ap, ◌∙◌, Option, none, some, List,
  ◌∷◌, ltb, arith, if◌then◌else◌,
}
use hass_tplink_easy_smart.Base.Int.{pos, negsuc, pos_part, ◌+ℤ◌}
use hass_tplink_easy_smart.Base.Lists.{length}
use hass_tplink_easy_smart.Base.Assoc.{
  lookup, remove, IsDistinct, string_eq, remove-IsDistinct, length-remove,
}
use hass_tplink_easy_smart.Python.{Result}
use hass_tplink_easy_smart.Core.Session.Monad.{⊤}
use hass_tplink_easy_smart.Services.Balance.{is_listed, has-remove_services}
use hass_tplink_easy_smart.Services.Entries.{
  entries_of, IsBalanced, SetUp, done, undone, fewer, above_zero, async_setup_entry-SetUp,
}
use hass_tplink_easy_smart.Services.Lifecycle.{
  Registry, Domain, Hass, domain_of, instances_of, pop_coordinator, popped, without_entry,
  change_instances_count, unload_coordinator, service_names, remove_services, forget_instances,
  async_unload_services, async_setup_entry, unload_popped, async_unload_entry,
}

cleared : (l : Bool) → (not l && l) ≡ false
cleared l = ground arith

last : (n : ℕ) → ltb 0 n ≡ false → n ≡ 0
last n h = ground arith

module _ {R E : Type 0} (registry : Registry R) where
  open registry use {has}

  -- The last entry takes the services with it.
  IsBalanced-unloaded_services :
      (hass : Hass R E) (n : ℕ) (b : Bool)
      → IsDistinct (entries_of hass)
      → instances_of (domain_of hass.domain).instances ≡ suc n
      → length (entries_of hass) ≡ n
      → ((name : String) → has hass.registry name ≡ is_listed name service_names)
      → ltb 0 (pos_part (pos (instances_of (domain_of hass.domain).instances) +ℤ negsuc 0)) ≡ b
      → let counted = (change_instances_count (negsuc 0) hass).1 in
        IsBalanced registry (
          if b then counted else record counted {
            domain = forget_instances counted.domain;
            registry = remove_services registry service_names counted.registry;
          })
  unfolding change_instances_count domain_of instances_of forget_instances
  IsBalanced-unloaded_services hass n true d counted len known h = record {
    distinct = d;
    counted = ap (λ k. pos_part (pos k +ℤ negsuc 0)) counted ∙ fewer n ∙ sym len;
    services = λ name.
        known name
        ∙ sym (
            ap (λ b. b && is_listed name service_names)
              (ap (ltb 0) (len ∙ sym (ap (λ k. pos_part (pos k +ℤ negsuc 0)) counted ∙ fewer n))
                ∙ h));
  }
  IsBalanced-unloaded_services hass n false d counted len known h = record {
    distinct = d;
    counted = sym (
        len
        ∙ last n (ap (ltb 0) (sym (ap (λ k. pos_part (pos k +ℤ negsuc 0)) counted ∙ fewer n)) ∙ h));
    services = λ name.
        has-remove_services registry service_names hass.registry name
        ∙ ap (λ b. not (is_listed name service_names) && b) (known name)
        ∙ cleared (is_listed name service_names)
        ∙ sym (
            ap (λ k. ltb 0 k && is_listed name service_names)
              (len
                ∙ last n (
                    ap (ltb 0) (sym (ap (λ k. pos_part (pos k +ℤ negsuc 0)) counted ∙ fewer n))
                    ∙ h)));
  }

  unload_services-IsBalanced :
      (hass : Hass R E) (n : ℕ)
      → IsDistinct (entries_of hass)
      → instances_of (domain_of hass.domain).instances ≡ suc n
      → length (entries_of hass) ≡ n
      → ((name : String) → has hass.registry name ≡ is_listed name service_names)
      → IsBalanced registry (async_unload_services registry hass)
  unfolding async_unload_services change_instances_count
  unload_services-IsBalanced hass n d counted len known =
      IsBalanced-unloaded_services hass n _ d counted len known refl

  -- The end of the unloading of an entry, whether a coordinator was found or not.
  unload_popped-IsBalanced :
      (o : Option E) (hass : Hass R E) (n : ℕ)
      → IsDistinct (entries_of hass)
      → instances_of (domain_of hass.domain).instances ≡ suc n
      → length (entries_of hass) ≡ n
      → ((name : String) → has hass.registry name ≡ is_listed name service_names)
      → IsBalanced registry (async_unload_services registry (unload_popped (o, hass)))
  unfolding unload_popped unload_coordinator
  unload_popped-IsBalanced none hass n = unload_services-IsBalanced hass n
  unload_popped-IsBalanced (some c) hass n =
      unload_services-IsBalanced (record hass { unloaded = c ∷ hass.unloaded }) n

  IsBalanced-unload_entry :
      (entry : String) (k : Option E) (domain : Option (Domain E)) (r : R) (unloaded : List E)
      → let hass : Hass R E = record { domain = domain; registry = r; unloaded = unloaded } in
        IsBalanced registry hass
        → lookup entry (entries_of hass) ≡ some k
        → IsBalanced registry (async_unload_entry registry true entry hass)
  unfolding async_unload_entry pop_coordinator without_entry domain_of lookup
  IsBalanced-unload_entry entry k none r unloaded balanced h = cc
  IsBalanced-unload_entry entry k (some d) r unloaded balanced h =
      let one_less = length-remove entry k d.entries h in
      unload_popped-IsBalanced (popped (lookup entry d.entries))
        (record {
          domain = some (record d { entries = remove entry d.entries });
          registry = r;
          unloaded = unloaded;
        })
        (length (remove entry d.entries)) (remove-IsDistinct entry d.entries balanced.distinct)
        (balanced.counted ∙ sym one_less) refl
        (λ name.
          balanced.services name
          ∙ ap (λ n. ltb 0 n && is_listed name service_names) (sym one_less)
          ∙ sym (above_zero (length (remove entry d.entries)) (is_listed name service_names)))

  -- All that happens: a start without entries, the setup of an entry that is not there, which may
  -- fail at each step, and the unloading of one that is, which the platforms may refuse.
  pub data Running : Hass R E → Type 0 where
    started :
        (r : R) (unloaded : List E)
        → ((name : String) → has r name ≡ false)
        → Running (record { domain = none; registry = r; unloaded = unloaded })
    entered :
        (refreshed forwarded : Bool) (entry : String) (c : E) (hass : Hass R E)
        → Running hass
        → lookup entry (entries_of hass) ≡ none
        → Running (async_setup_entry registry refreshed forwarded entry c hass).1
    left :
        (unload_ok : Bool) (entry : String) (k : Option E) (hass : Hass R E)
        → Running hass
        → lookup entry (entries_of hass) ≡ some k
        → Running (async_unload_entry registry unload_ok entry hass)

  SetUp-IsBalanced :
      {entry : String} {c : E} {hass : Hass R E} {out : Result ⊤ × Hass R E}
      → SetUp registry entry c hass out
      → IsBalanced registry out.1
  SetUp-IsBalanced (done r e u b) = b
  SetUp-IsBalanced (undone x r e u b) = b

  -- Whatever is set up and unloaded, and whatever fails on the way: the instances are counted, and
  -- the services are all registered if there is an entry, and none is if there is not.
  pub Running-IsBalanced : {hass : Hass R E} → Running hass → IsBalanced registry hass
  unfolding async_unload_entry domain_of instances_of
  Running-IsBalanced (started r unloaded empty) = record {
    distinct = tt;
    counted = refl;
    services = empty;
  }
  Running-IsBalanced (entered refreshed forwarded entry c hass run new) = SetUp-IsBalanced (
      async_setup_entry-SetUp registry refreshed forwarded entry c hass (Running-IsBalanced run)
        new)
  Running-IsBalanced (left true entry k hass run present) =
      IsBalanced-unload_entry entry k hass.domain hass.registry hass.unloaded
        (Running-IsBalanced run) present
  Running-IsBalanced (left false entry k hass run present) = Running-IsBalanced run
