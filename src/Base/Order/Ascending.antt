-- ===== src/Base/Order/Ascending.antt =====
-- Filtered lists and ranges of an ordered type, and that an ascending list is determined by its
-- members.
use hass_tplink_easy_smart.Base.Tests.{ltb, leb, Bool-cases}
use hass_tplink_easy_smart.Base.Lists.{All, is_empty, keep, range_from}
use hass_tplink_easy_smart.Base.Order.{Ord, nat_ord, contains, IsAscending}
use mathlib.Core.Path.{◌≡◌, refl, subst, ap₂, sym, ◌∙◌}
use mathlib.Core.Logic.{inl, inr}
use mathlib.Core.Bool.{Bool, true, false, false≢true, ◌&&◌, ◌||◌}
use mathlib.Core.List.{List, [], ◌∷◌, ◌++◌}
use native.Mathlib.Omega.{arith}
use Prim.Native.Nat.{ℕ, zero, suc, ◌+◌}

module _ {A : Type 0} ⦃o : Ord A⦄ where
  pub eq_refl : (a : A) → o.eq a a ≡ true
  eq_refl a = (o.eq_iff a a).1 refl

  pub contains-is_empty : (a : A) (xs : List A) → contains a xs ≡ true → is_empty xs ≡ false
  unfolding contains
  contains-is_empty a [] h = cc
  contains-is_empty a (x ∷ xs) h = refl

  pub contains-append :
      (a : A) (xs ys : List A) → contains a (xs ++ ys) ≡ (contains a xs || contains a ys)
  unfolding contains
  contains-append a [] ys = refl
  contains-append a (x ∷ xs) ys = ground (arith, contains-append a xs ys)

  pub contains-keep :
      (p : A → Bool) (a : A) (xs : List A) → contains a (keep p xs) ≡ (contains a xs && p a)
  unfolding contains
  contains-keep p a [] = refl
  contains-keep p a (x ∷ xs) = ground (arith, o.eq_iff a x, contains-keep p a xs)

  -- Nothing before the first item of an ascending list is in it.
  head_least :
      (x a : A) (xs : List A) → IsAscending (x ∷ xs) → contains a xs ≡ true → o.lt x a ≡ true
  unfolding contains
  head_least x a [] h m = cc
  head_least x a (y ∷ r) h m = ground (arith, o.eq_iff a y, head_least y a r h.1, o.lt_trans x y a)

  IsAscending-tail : (x : A) (xs : List A) → IsAscending (x ∷ xs) → IsAscending xs
  IsAscending-tail x [] h = tt
  IsAscending-tail x (y ∷ r) h = h.1

  head-eq :
      (x y : A) (xs ys : List A)
      → IsAscending (x ∷ xs)
      → IsAscending (y ∷ ys)
      → ((a : A) → contains a (x ∷ xs) ≡ contains a (y ∷ ys))
      → x ≡ y
  unfolding contains
  head-eq x y xs ys hx hy same = ground (
    arith,
    same x,
    same y,
    eq_refl x,
    eq_refl y,
    o.eq_iff x y,
    o.eq_iff y x,
    head_least x y xs hx,
    head_least y x ys hy,
    o.lt_trans x y x,
    o.lt_irrefl x,
  )

  not-contains-head : (x : A) (xs : List A) → IsAscending (x ∷ xs) → contains x xs ≡ false
  not-contains-head x xs h = ground (arith, head_least x x xs h, o.lt_irrefl x)

  tail-eq :
      (x : A) (xs ys : List A)
      → IsAscending (x ∷ xs)
      → IsAscending (x ∷ ys)
      → ((a : A) → contains a (x ∷ xs) ≡ contains a (x ∷ ys))
      → (a : A) → contains a xs ≡ contains a ys
  unfolding contains
  tail-eq x xs ys hx hy same a = elim (Bool-cases (o.eq a x)) [
    | inl e ↦
        let p : a ≡ x = (o.eq_iff a x).0 e in
        rw p (not-contains-head x xs hx ∙ sym (not-contains-head x ys hy))
    | inr n ↦ ground (arith, same a)
  ]

  -- Ascending lists with the same members are equal.
  pub IsAscending-ext :
      (xs ys : List A)
      → IsAscending xs
      → IsAscending ys
      → ((a : A) → contains a xs ≡ contains a ys)
      → xs ≡ ys
  unfolding contains
  IsAscending-ext [] [] hx hy same = refl
  IsAscending-ext [] (y ∷ ys) hx hy same = ground (arith, same y, eq_refl y)
  IsAscending-ext (x ∷ xs) [] hx hy same = ground (arith, same x, eq_refl x)
  IsAscending-ext (x ∷ xs) (y ∷ ys) hx hy same =
      let e : y ≡ x = sym (head-eq x y xs ys hx hy same) in
      let hy' : IsAscending (x ∷ ys) = subst (λ z. IsAscending (z ∷ ys)) e hy in
      let same' : (a : A) → contains a (x ∷ xs) ≡ contains a (x ∷ ys) =
        subst (λ z. (a : A) → contains a (x ∷ xs) ≡ contains a (z ∷ ys)) e same in
      ap₂ ◌∷◌ (sym e) (
        IsAscending-ext xs ys (IsAscending-tail x xs hx) (IsAscending-tail y ys hy)
          (tail-eq x xs ys hx hy' same'))

  -- What holds of every member holds of every item.
  pub All-of_contains {κ} :
      (P : A → Type κ) (xs : List A) → ((a : A) → contains a xs ≡ true → P a) → All P xs
  unfolding contains
  All-of_contains P [] h = tt
  All-of_contains P (x ∷ xs) h =
      (h x (ground (arith, eq_refl x)), All-of_contains P xs (λ a m. h a (ground arith)))

  pub contains-All {κ} :
      (P : A → Type κ) (a : A) (xs : List A) → All P xs → contains a xs ≡ true → P a
  unfolding contains
  contains-All P a [] h m = absurd (false≢true m)
  contains-All P a (x ∷ xs) h m = elim (Bool-cases (o.eq a x)) [
    | inl e ↦ subst P (sym ((o.eq_iff a x).0 e)) h.0
    | inr e ↦ contains-All P a xs h.1 (ground arith)
  ]

  pub IsAscending-cons :
      (x : A) (xs : List A)
      → ((a : A) → contains a xs ≡ true → o.lt x a ≡ true)
      → IsAscending xs
      → IsAscending (x ∷ xs)
  unfolding contains
  IsAscending-cons x [] below h = tt
  IsAscending-cons x (y ∷ r) below h = (below y (ground (arith, eq_refl y)), h)

  keep-cons-IsAscending :
      (p : A → Bool) (x : A) (xs : List A)
      → IsAscending (x ∷ xs)
      → IsAscending (keep p xs)
      → IsAscending (x ∷ keep p xs)
  keep-cons-IsAscending p x xs h k =
      IsAscending-cons x (keep p xs)
        (λ a m. ground (arith, contains-keep p a xs, head_least x a xs h)) k

  pub keep-IsAscending : (p : A → Bool) (xs : List A) → IsAscending xs → IsAscending (keep p xs)
  keep-IsAscending p [] h = tt
  keep-IsAscending p (x ∷ xs) h =
      let rest = keep-IsAscending p xs (IsAscending-tail x xs h) in
      elim (Bool-cases (p x)) [
        | inl e ↦ rw e (keep-cons-IsAscending p x xs h rest)
        | inr e ↦ rw e rest
      ]

pub contains-range_from :
    (a start count : ℕ)
    → contains a (range_from start count) ≡ (leb start a && ltb a (start + count))
unfolding contains
contains-range_from a start zero = ground arith
contains-range_from a start (suc count) = ground (arith, contains-range_from a (start + 1) count)

pub range_from-IsAscending : (start count : ℕ) → IsAscending (range_from start count)
range_from-IsAscending start zero = tt
range_from-IsAscending start (suc zero) = tt
range_from-IsAscending start (suc (suc count)) =
    (ground arith, range_from-IsAscending (start + 1) (suc count))
