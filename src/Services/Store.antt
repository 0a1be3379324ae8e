-- ===== src/Services/Store.antt =====
-- The coordinators that are kept for the entries.
use hass_tplink_easy_smart.Base.{
  String, ◌≡◌, refl, ap, ◌∙◌, none, some, Bool-cases, inl, inr, if◌then◌else◌,
}
use hass_tplink_easy_smart.Base.Assoc.{
  lookup, insert, IsDistinct, string_eq, lookup-insert, lookup-remove, insert-IsDistinct,
}
use hass_tplink_easy_smart.Python.{ok, err, configuration_error}
use hass_tplink_easy_smart.Services.Entries.{entries_of}
use hass_tplink_easy_smart.Services.Lifecycle.{
  Hass, domain_of, present_coordinator, popped, without_entry, get_coordinator, set_coordinator,
  pop_coordinator,
}
open string_eq use {beq, beq_iff}

module _ {R E : Type 0} (entry : String) (c : E) (hass : Hass R E) where
  get-set :
      (other : String)
      → get_coordinator other (set_coordinator entry c hass)
        ≡ (if beq entry other then ok c else get_coordinator other hass)
  unfolding get_coordinator set_coordinator present_coordinator domain_of
  get-set other =
      ap present_coordinator (lookup-insert entry other (some c) (entries_of hass))
      ∙ elim (Bool-cases (beq entry other)) [ inl e ↦ rw e refl | inr e ↦ rw e refl ]

  popped-set : (pop_coordinator entry (set_coordinator entry c hass)).0 ≡ some c
  unfolding pop_coordinator set_coordinator popped domain_of
  popped-set =
      ap popped (lookup-insert entry entry (some c) (entries_of hass))
      ∙ ap (λ b. popped (if b then some (some c) else lookup entry (entries_of hass)))
          ((beq_iff entry entry).1 refl)

  get-pop :
      (other : String)
      → IsDistinct (entries_of hass)
      → get_coordinator other (pop_coordinator entry (set_coordinator entry c hass)).1
        ≡ (if beq entry other then err configuration_error else get_coordinator other hass)
  unfolding get_coordinator pop_coordinator set_coordinator present_coordinator domain_of
      without_entry
  get-pop other d =
      ap present_coordinator (
        lookup-remove entry other (insert entry (some c) (entries_of hass))
          (insert-IsDistinct entry (some c) (entries_of hass) d))
      ∙ ap (λ o. present_coordinator (if beq entry other then none else o))
          (lookup-insert entry other (some c) (entries_of hass))
      ∙ elim (Bool-cases (beq entry other)) [ inl e ↦ rw e refl | inr e ↦ rw e refl ]

-- After a coordinator is set for an entry, it is what the entry gives and what popping it returns;
-- once it is popped, the entry gives an error. The other entries give what they gave before.
pub pop_coordinator-set_coordinator :
    {R E : Type 0} (entry : String) (c : E) (hass : Hass R E)
    → IsDistinct (entries_of hass)
    → ((other : String)
        → get_coordinator other (set_coordinator entry c hass)
          ≡ (if beq entry other then ok c else get_coordinator other hass))
      × ((pop_coordinator entry (set_coordinator entry c hass)).0 ≡ some c)
      × ((other : String)
          → get_coordinator other (pop_coordinator entry (set_coordinator entry c hass)).1
            ≡ (if beq entry other then err configuration_error else get_coordinator other hass))
pop_coordinator-set_coordinator entry c hass d =
    (get-set entry c hass, popped-set entry c hass, λ other. get-pop entry c hass other d)
