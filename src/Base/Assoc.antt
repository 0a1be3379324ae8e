-- ===== src/Base/Assoc.antt =====
-- A Python dict as an association list in insertion order, over keys with a Boolean equality.
use Prim.Native.Nat.{ℕ, suc}
use hass_tplink_easy_smart.Base.Lists.{length}
use Prim.Native.String.{String}
use mathlib.Core.Path.{◌≡◌, refl}
use mathlib.Core.Logic.{◌↔◌}
use mathlib.Core.Bool.{Bool, true}
use mathlib.Core.Option.{Option, none, some}
use mathlib.Core.List.{List, [], ◌∷◌}
use native.Mathlib.Omega.{arith}
use text.Mathlib.Text.{◌==◌ as str_eq}
use text.Mathlib.TextEquality.{eq_iff as str_eq_iff}
use hass_tplink_easy_smart.Base.Tests.{◌==◌ as nat_beq, ==_iff, if◌then◌else◌}

pub record Eq (A : Type 0) : Type 0 where
  pub beq : A → A → Bool
  pub beq_iff : (a b : A) → (beq a b ≡ true) ↔ (a ≡ b)

instance abbrev pub nat_eq : Eq ℕ
nat_eq = record { beq = nat_beq; beq_iff = ==_iff }

instance abbrev pub string_eq : Eq String
string_eq = record { beq = str_eq; beq_iff = str_eq_iff }

module _ {ℓ} {K : Type 0} ⦃e : Eq K⦄ {V : Type ℓ} where
  -- `d.get(k)`
  unfoldable pub lookup : K → List (K × V) → Option V
  lookup k [] = none
  lookup k ((j, v) ∷ d) = if e.beq j k then some v else lookup k d

  -- `d[k] = v`
  unfoldable pub insert : K → V → List (K × V) → List (K × V)
  insert k v [] = (k, v) ∷ []
  insert k v ((j, w) ∷ d) = if e.beq j k then (j, v) ∷ d else (j, w) ∷ insert k v d

  -- No key stands twice.
  abbrev pub IsDistinct : List (K × V) → Type ℓ
  IsDistinct [] = Unit
  IsDistinct ((k, v) ∷ d) = (lookup k d ≡ none) × IsDistinct d

  pub lookup-insert :
      (k j : K) (v : V) (d : List (K × V))
      → lookup j (insert k v d) ≡ (if e.beq k j then some v else lookup j d)
  unfolding lookup insert
  lookup-insert k j v [] = refl
  lookup-insert k j v ((i, w) ∷ d) =
      ground (arith, e.beq_iff k j, e.beq_iff i k, e.beq_iff i j, lookup-insert k j v d)

  pub insert-IsDistinct :
      (k : K) (v : V) (d : List (K × V)) → IsDistinct d → IsDistinct (insert k v d)
  unfolding lookup insert
  insert-IsDistinct k v [] h = (refl, tt)
  insert-IsDistinct k v ((j, w) ∷ d) h =
      ground
        (arith, e.beq_iff j k, e.beq_iff k j, lookup-insert k j v d, insert-IsDistinct k v d h.1)

  -- `d.pop(k, None)`
  unfoldable pub remove : K → List (K × V) → List (K × V)
  remove k [] = []
  remove k ((j, v) ∷ d) = if e.beq j k then d else (j, v) ∷ remove k d

  pub lookup-remove :
      (k j : K) (d : List (K × V))
      → IsDistinct d
      → lookup j (remove k d) ≡ (if e.beq k j then none else lookup j d)
  unfolding lookup remove
  lookup-remove k j [] h = ground arith
  lookup-remove k j ((i, w) ∷ d) h =
      ground (arith, e.beq_iff k j, e.beq_iff i k, e.beq_iff i j, lookup-remove k j d h.1)

  pub remove-IsDistinct : (k : K) (d : List (K × V)) → IsDistinct d → IsDistinct (remove k d)
  unfolding lookup remove
  remove-IsDistinct k [] h = tt
  remove-IsDistinct k ((j, w) ∷ d) h =
      ground
        (arith, e.beq_iff j k, e.beq_iff k j, lookup-remove k j d h.1, remove-IsDistinct k d h.1)

  -- A key that is not there is added, and removing it again gives the dictionary back.
  pub remove-insert :
      (k : K) (v : V) (d : List (K × V)) → lookup k d ≡ none → remove k (insert k v d) ≡ d
  unfolding lookup insert remove
  remove-insert k v [] h = ground (arith, e.beq_iff k k)
  remove-insert k v ((j, w) ∷ d) h = ground (arith, e.beq_iff j k, remove-insert k v d)

  pub length-insert :
      (k : K) (v : V) (d : List (K × V))
      → lookup k d ≡ none
      → length (insert k v d) ≡ suc (length d)
  unfolding lookup insert
  length-insert k v [] h = refl
  length-insert k v ((j, w) ∷ d) h = ground (arith, e.beq_iff j k, length-insert k v d)

  pub length-remove :
      (k : K) (v : V) (d : List (K × V))
      → lookup k d ≡ some v
      → suc (length (remove k d)) ≡ length d
  unfolding lookup remove
  length-remove k v [] h = cc
  length-remove k v ((j, w) ∷ d) h = ground (arith, e.beq_iff j k, length-remove k v d)
