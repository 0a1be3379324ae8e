-- ===== src/Ports/Validate/Laws.antt =====
-- `_validate_ports` accepts exactly the numbers in range, and returns them ascending.
use hass_tplink_easy_smart.Base.{
  ℕ, ◌≡◌, ◌⊎◌, refl, ap, subst, sym, ◌∙◌, Bool, true, false, List, [], ◌∷◌, map, arith,
}
use hass_tplink_easy_smart.Base.Int.{ℤ, pos, pos_part, ◌≤ℤ◌}
use hass_tplink_easy_smart.Base.Lists.{All, keep, is_empty}
use hass_tplink_easy_smart.Base.Order.{
  contains, insert, sorted_set, IsAscending, nat_ord, int_ord, contains-sorted_set,
  sorted_set-IsAscending,
}
use hass_tplink_easy_smart.Base.Order.Ascending.{
  All-of_contains, contains-All, contains-keep, contains-is_empty,
}
use hass_tplink_easy_smart.Python.{
  Value, int, ok, err, action, ports_out_of_range, ports_not_integers, to_int,
  replace_conversion_error, replace_conversion_error-ok, >>=-eq-ok,
}
use hass_tplink_easy_smart.Ports.Mask.Laws.{InRange}
use hass_tplink_easy_smart.Ports.Validate.{
  to_ints, unique_ports, is_invalid, check_range, validate_ports,
}

pub to_ints-map : (numbers : List ℤ) → to_ints (map int numbers) ≡ ok numbers
unfolding to_ints to_int
to_ints-map [] = refl
to_ints-map (z ∷ numbers) = rw (to_ints-map numbers)

-- Every number is a port of a device with that many ports.
abbrev pub AllValid : ℕ → List ℤ → Type 0
AllValid port_count = All (λ port. (pos 1 ≤ℤ port) × (port ≤ℤ pos port_count))

AllValid-keep : (n : ℕ) (xs : List ℤ) → AllValid n xs → keep (is_invalid n) xs ≡ []
unfolding is_invalid
AllValid-keep n [] h = refl
AllValid-keep n (x ∷ xs) h = ground (arith, AllValid-keep n xs h.1)

AllValid-of_keep : (n : ℕ) (xs : List ℤ) → is_empty (keep (is_invalid n) xs) ≡ true → AllValid n xs
unfolding is_invalid
AllValid-of_keep n [] h = tt
AllValid-of_keep n (x ∷ xs) h = ground (arith, AllValid-of_keep n xs)

map-pos_part-IsAscending :
    (n : ℕ) (xs : List ℤ) → AllValid n xs → IsAscending xs → IsAscending (map pos_part xs)
map-pos_part-IsAscending n [] v h = tt
map-pos_part-IsAscending n (x ∷ []) v h = tt
map-pos_part-IsAscending n (x ∷ y ∷ r) v h =
    (ground arith, map-pos_part-IsAscending n (y ∷ r) v.1 h.1)

map-pos_part-InRange : (n : ℕ) (xs : List ℤ) → AllValid n xs → All (InRange n) (map pos_part xs)
map-pos_part-InRange n [] v = tt
map-pos_part-InRange n (x ∷ xs) v = (ground arith, map-pos_part-InRange n xs v.1)

contains-map-pos_part :
    (n p : ℕ) (xs : List ℤ) → AllValid n xs → contains p (map pos_part xs) ≡ contains (pos p) xs
unfolding contains
contains-map-pos_part n p [] v = refl
contains-map-pos_part n p (x ∷ xs) v = ground (arith, contains-map-pos_part n p xs v.1)

-- A returned list is ascending, in range, not empty where that is asked for, and has the members
-- of the numbers given.
pub record IsValidated (port_count : ℕ) (allow_empty : Bool) (numbers : List ℤ) (result : List ℕ)
    : Type 0 where
  pub ascending : IsAscending result
  pub in_range : All (InRange port_count) result
  pub filled : (allow_empty ≡ true) ⊎ (is_empty result ≡ false)
  pub members : (p : ℕ) → contains p result ≡ contains (pos p) numbers

sorted-AllValid : (n : ℕ) (xs : List ℤ) → AllValid n xs → AllValid n (sorted_set xs)
sorted-AllValid n xs v =
    All-of_contains (λ port. (pos 1 ≤ℤ port) × (port ≤ℤ pos n)) (sorted_set xs)
      λ z m.
        contains-All (λ port. (pos 1 ≤ℤ port) × (port ≤ℤ pos n)) z xs v
          (sym (contains-sorted_set z xs) ∙ m)

AllValid-of_sorted : (n : ℕ) (xs : List ℤ) → AllValid n (sorted_set xs) → AllValid n xs
AllValid-of_sorted n xs v =
    All-of_contains (λ port. (pos 1 ≤ℤ port) × (port ≤ℤ pos n)) xs
      λ z m.
        contains-All (λ port. (pos 1 ≤ℤ port) × (port ≤ℤ pos n)) z (sorted_set xs) v
          (contains-sorted_set z xs ∙ m)

insert-ne-nil : (x : ℤ) (xs : List ℤ) → is_empty (insert x xs) ≡ false
unfolding insert
insert-ne-nil x [] = refl
insert-ne-nil x (y ∷ xs) = ground arith

is_empty-sorted_set : (xs : List ℤ) → is_empty (sorted_set xs) ≡ is_empty xs
unfolding sorted_set
is_empty-sorted_set [] = refl
is_empty-sorted_set (x ∷ xs) = insert-ne-nil x (sorted_set xs)

is_empty-map : (xs : List ℤ) → is_empty (map pos_part xs) ≡ is_empty xs
is_empty-map [] = refl
is_empty-map (x ∷ xs) = refl

validated :
    (n : ℕ) (allow_empty : Bool) (xs : List ℤ)
    → AllValid n xs
    → ((allow_empty ≡ true) ⊎ (is_empty xs ≡ false))
    → IsValidated n allow_empty xs (map pos_part (sorted_set xs))
validated n a xs v f = record {
  ascending =
      map-pos_part-IsAscending n (sorted_set xs) (sorted-AllValid n xs v)
        (sorted_set-IsAscending xs);
  in_range = map-pos_part-InRange n (sorted_set xs) (sorted-AllValid n xs v);
  filled = ground (arith, is_empty-map (sorted_set xs), is_empty-sorted_set xs);
  members = λ p.
      contains-map-pos_part n p (sorted_set xs) (sorted-AllValid n xs v)
      ∙ contains-sorted_set (pos p) xs;
}

check_range_returns :
    (xs : List ℤ) (n : ℕ) (a : Bool) {result : List ℕ}
    → check_range xs n a ≡ ok result
    → (is_empty (keep (is_invalid n) xs) ≡ true)
      × ((a ≡ true) ⊎ (is_empty xs ≡ false))
      × (result ≡ map pos_part xs)
unfolding check_range
check_range_returns xs n a h = (ground arith, ground arith, ground arith)

module _ (ports : List Value) (port_count : ℕ) (allow_empty : Bool) {numbers : List ℤ}
    (converted : to_ints ports ≡ ok numbers) where
  pub validate_ports_of_ints :
      validate_ports ports port_count allow_empty
      ≡ check_range (sorted_set numbers) port_count allow_empty
  unfolding validate_ports unique_ports replace_conversion_error
  validate_ports_of_ints = rw converted

  -- If the values convert to numbers that are all in range, and there is one unless none is
  -- allowed, they are accepted, and returned ascending and without repetitions.
  pub validate_ports-accepts :
      AllValid port_count numbers
      → ((allow_empty ≡ true) ⊎ (is_empty numbers ≡ false))
      → (result : List ℕ) × (validate_ports ports port_count allow_empty ≡ ok result)
        × IsValidated port_count allow_empty numbers result
  unfolding check_range
  validate_ports-accepts v f = (
    map pos_part (sorted_set numbers),
    ground (
      arith,
      validate_ports_of_ints,
      AllValid-keep port_count (sorted_set numbers) (sorted-AllValid port_count numbers v),
      is_empty-sorted_set numbers,
    ),
    validated port_count allow_empty numbers v f,
  )

  -- If the values convert to numbers and one of them is out of range, they are refused, with all
  -- numbers out of range in the message.
  pub validate_ports-refuses :
      (port : ℤ)
      → contains port numbers ≡ true
      → is_invalid port_count port ≡ true
      → validate_ports ports port_count allow_empty
        ≡ err (
            action
              (ports_out_of_range port_count (keep (is_invalid port_count) (sorted_set numbers))))
  unfolding check_range
  validate_ports-refuses port m bad = ground (
    arith,
    validate_ports_of_ints,
    contains-sorted_set port numbers,
    contains-keep (is_invalid port_count) port (sorted_set numbers),
    contains-is_empty port (sorted_set numbers),
    contains-is_empty port (keep (is_invalid port_count) (sorted_set numbers)),
  )

-- A list that is returned comes from values that convert to numbers in range; it is ascending, in
-- range, not empty unless that is allowed, and has the members of the numbers.
pub validate_ports-returns :
    (ports : List Value) (port_count : ℕ) (allow_empty : Bool) {result : List ℕ}
    → validate_ports ports port_count allow_empty ≡ ok result
    → (numbers : List ℤ) × (to_ints ports ≡ ok numbers)
      × AllValid port_count numbers
      × IsValidated port_count allow_empty numbers result
unfolding validate_ports unique_ports
validate_ports-returns ports n a h =
    let (sorted, unique, checked) = >>=-eq-ok (unique_ports ports) (λ xs. check_range xs n a) h in
    let (numbers, converted, is_sorted) =
      >>=-eq-ok (to_ints ports) (λ numbers. ok (sorted_set numbers))
        (replace_conversion_error-ok (action ports_not_integers) _ unique) in
    let (none_invalid, filled, out) = check_range_returns sorted n a checked in
    let same : sorted ≡ sorted_set numbers = cc in
    let valid : AllValid n numbers =
      AllValid-of_sorted n numbers
        (AllValid-of_keep n (sorted_set numbers) (rw same at none_invalid)) in
    let here : IsValidated n a numbers (map pos_part (sorted_set numbers)) =
      validated n a numbers valid (ground (arith, is_empty-sorted_set numbers)) in
    let returned = out ∙ ap (map pos_part) same in
    (numbers, converted, valid, subst (λ r. IsValidated n a numbers r) (sym returned) here)

-- One port in range is returned as it is.
pub validate_ports_one :
    (port port_count : ℕ) (allow_empty : Bool)
    → InRange port_count port
    → validate_ports (int (pos port) ∷ []) port_count allow_empty ≡ ok (port ∷ [])
unfolding check_range is_invalid sorted_set insert
validate_ports_one port n a h =
    ground (arith, validate_ports_of_ints (int (pos port) ∷ []) n a (to_ints-map (pos port ∷ [])))
