-- ===== src/Services/Balance.antt =====
-- What is registered after the loops over the services.
use text.Mathlib.Text.{◌==◌ as str_eq}
use text.Mathlib.TextEquality.{eq_iff as str_eq_iff}
use hass_tplink_easy_smart.Base.{
  String, Bool, false, not, ◌&&◌, ◌||◌, ◌≡◌, refl, sym, ◌∙◌, subst, Option, none, some, List, [],
  ◌∷◌, ◌++◌, arith,
}
use mathlib.Core.List.{append_assoc, append-nil}
use hass_tplink_easy_smart.Base.Assoc.{string_eq}
use hass_tplink_easy_smart.Python.{Result, ok, err, other_error}
use hass_tplink_easy_smart.Core.Session.Monad.{⊤}
use hass_tplink_easy_smart.Services.Lifecycle.{Registry, remove_services, register_services}

abbrev pub is_listed : String → List String → Bool
is_listed name [] = false
is_listed name (n ∷ names) = str_eq n name || is_listed name names

is_listed-append :
    (name other : String) (names : List String)
    → is_listed other (names ++ (name ∷ [])) ≡ (str_eq name other || is_listed other names)
is_listed-append name other [] = refl
is_listed-append name other (n ∷ names) = ground (arith, is_listed-append name other names)

module _ {R : Type 0} (registry : Registry R) where
  open registry use {has, register, unregister, has-register, has-unregister}

  pub has-remove_services :
      (names : List String) (r : R) (other : String)
      → has (remove_services registry names r) other ≡ (not (is_listed other names) && has r other)
  unfolding remove_services
  has-remove_services [] r other = refl
  has-remove_services (name ∷ names) r other =
      has-remove_services names (unregister name r) other
      ∙ ground (arith, has-unregister name other r, str_eq_iff name other, str_eq_iff other name)

  -- What the registry has after the loop: every service, or none.
  abbrev pub Registered : List String → Result ⊤ × R → Type 0
  Registered names (ok done, r) = (other : String) → has r other ≡ is_listed other names
  Registered names (err e, r) = (other : String) → has r other ≡ false

  registered :
      (name : String) (names done : List String) (r : R) (answer : Option R)
      → register name r ≡ answer
      → ((other : String) → has r other ≡ is_listed other done)
      → ((s : R)
          → ((other : String) → has s other ≡ is_listed other (done ++ (name ∷ [])))
          → Registered
              ((done ++ (name ∷ [])) ++ names)
              (register_services registry names (done ++ (name ∷ [])) s))
      → let out : Result ⊤ × R = elim answer [
        | some s ↦ register_services registry names (done ++ (name ∷ [])) s
        | none ↦ (err other_error, remove_services registry done r)
      ] in
        Registered ((done ++ (name ∷ [])) ++ names) out
  registered name names done r none e known rest =
      λ other. has-remove_services done r other ∙ ground (arith, known other)
  registered name names done r (some s) e known rest = rest s (λ other.
      has-register name other r s e
      ∙ ground (
        arith,
        known other,
        is_listed-append name other done,
        str_eq_iff name other,
        str_eq_iff other name,
      ))

  pub register_services-Registered :
      (names done : List String) (r : R)
      → ((other : String) → has r other ≡ is_listed other done)
      → Registered (done ++ names) (register_services registry names done r)
  unfolding register_services
  register_services-Registered [] done r known =
      subst (λ l. (other : String) → has r other ≡ is_listed other l) (sym (append-nil done)) known
  register_services-Registered (name ∷ names) done r known =
      subst (λ l. Registered l (register_services registry (name ∷ names) done r))
        (append_assoc done (name ∷ []) names)
        (registered name names done r (register name r) refl known
          (λ s k. register_services-Registered names (done ++ (name ∷ [])) s k))
