-- ===== src/Base/Order.antt =====
-- Keys with a decidable strict order, membership, and Python's `sorted(set(...))`.
pub mod Ascending
use mathlib.Core.Path.{◌≡◌, refl}
use mathlib.Core.Logic.{◌↔◌}
use mathlib.Core.Bool.{Bool, true, false, ◌||◌}
use mathlib.Core.List.{List, [], ◌∷◌}
use native.Mathlib.Omega.{arith}
use Prim.Native.Nat.{ℕ}
use hass_tplink_easy_smart.Base.Tests.{ltb, ◌==◌ as nat_beq, ==_iff, if◌then◌else◌}
use hass_tplink_easy_smart.Base.Int.{ℤ, ltb_ℤ, eqb_ℤ, eqb_ℤ_iff}

pub record Ord (A : Type 0) : Type 0 where
  pub lt : A → A → Bool
  pub eq : A → A → Bool
  pub eq_iff : (a b : A) → (eq a b ≡ true) ↔ (a ≡ b)
  pub lt_irrefl : (a : A) → lt a a ≡ false
  pub lt_trans : (a b c : A) → lt a b ≡ true → lt b c ≡ true → lt a c ≡ true
  pub lt_connex : (a b : A) → lt a b ≡ false → lt b a ≡ false → a ≡ b

pub ltb_irrefl : (a : ℕ) → ltb a a ≡ false
ltb_irrefl a = ground arith

pub ltb_trans : (a b c : ℕ) → ltb a b ≡ true → ltb b c ≡ true → ltb a c ≡ true
ltb_trans a b c h k = ground arith

pub ltb_connex : (a b : ℕ) → ltb a b ≡ false → ltb b a ≡ false → a ≡ b
ltb_connex a b h k = ground arith

instance abbrev pub nat_ord : Ord ℕ
nat_ord = record {
  lt = ltb;
  eq = nat_beq;
  eq_iff = ==_iff;
  lt_irrefl = ltb_irrefl;
  lt_trans = ltb_trans;
  lt_connex = ltb_connex;
}

pub ltb_ℤ_irrefl : (a : ℤ) → ltb_ℤ a a ≡ false
ltb_ℤ_irrefl a = ground arith

pub ltb_ℤ_trans : (a b c : ℤ) → ltb_ℤ a b ≡ true → ltb_ℤ b c ≡ true → ltb_ℤ a c ≡ true
ltb_ℤ_trans a b c h k = ground arith

pub ltb_ℤ_connex : (a b : ℤ) → ltb_ℤ a b ≡ false → ltb_ℤ b a ≡ false → a ≡ b
ltb_ℤ_connex a b h k = ground arith

instance abbrev pub int_ord : Ord ℤ
int_ord = record {
  lt = ltb_ℤ;
  eq = eqb_ℤ;
  eq_iff = eqb_ℤ_iff;
  lt_irrefl = ltb_ℤ_irrefl;
  lt_trans = ltb_ℤ_trans;
  lt_connex = ltb_ℤ_connex;
}

module _ {A : Type 0} ⦃o : Ord A⦄ where
  -- `a in xs`
  unfoldable pub contains : A → List A → Bool
  contains a [] = false
  contains a (x ∷ xs) = o.eq a x || contains a xs

  -- Adds one item to a sorted list without repetitions.
  unfoldable pub insert : A → List A → List A
  insert a [] = a ∷ []
  insert a (x ∷ xs) =
      let rest = insert a xs in
      if o.lt a x then a ∷ x ∷ xs else if o.lt x a then x ∷ rest else x ∷ xs

  -- `sorted(set(xs))`
  unfoldable pub sorted_set : List A → List A
  sorted_set [] = []
  sorted_set (x ∷ xs) = insert x (sorted_set xs)

  -- Strictly ascending: each item is below the next.
  abbrev pub IsAscending : List A → Type 0
  IsAscending [] = Unit
  IsAscending (x ∷ []) = Unit
  IsAscending (x ∷ y ∷ r) = (o.lt x y ≡ true) × IsAscending (y ∷ r)

  pub contains-insert :
      (a b : A) (xs : List A) → contains a (insert b xs) ≡ (o.eq a b || contains a xs)
  unfolding contains insert
  contains-insert a b [] = refl
  contains-insert a b (x ∷ xs) = ground (arith, contains-insert a b xs, o.lt_connex b x)

  pub contains-sorted_set : (a : A) (xs : List A) → contains a (sorted_set xs) ≡ contains a xs
  unfolding contains sorted_set
  contains-sorted_set a [] = refl
  contains-sorted_set a (x ∷ xs) =
      ground (arith, contains-insert a x (sorted_set xs), contains-sorted_set a xs)

  insert-IsAscending : (a : A) (xs : List A) → IsAscending xs → IsAscending (insert a xs)
  unfolding insert
  insert-IsAscending a [] h = tt
  insert-IsAscending a (x ∷ []) h = ground arith
  insert-IsAscending a (x ∷ y ∷ r) h = ground (arith, insert-IsAscending a (y ∷ r) h.1)

  pub sorted_set-IsAscending : (xs : List A) → IsAscending (sorted_set xs)
  unfolding sorted_set
  sorted_set-IsAscending [] = tt
  sorted_set-IsAscending (x ∷ xs) = insert-IsAscending x (sorted_set xs) (sorted_set-IsAscending xs)
