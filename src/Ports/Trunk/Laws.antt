-- ===== src/Ports/Trunk/Laws.antt =====
-- A selection is closed under static LAGs, and no wider than that.
use hass_tplink_easy_smart.Base.{
  ℕ, suc, ◌+◌, ◌-◌, ◌≤◌, ◌≡◌, ◌↔◌, ◌⊎◌, ap, subst, Bool, true, false, ◌&&◌, ◌||◌, List, [], ◌∷◌,
  ◌++◌, arith, ltb, leb, ◌==◌, Bool-cases, inl, inr, if◌then◌else◌,
}
use hass_tplink_easy_smart.Base.Int.{ℤ, pos, ltb_ℤ, eqb_ℤ, ◌≤ℤ◌}
use hass_tplink_easy_smart.Base.Lists.{All, get_or, length}
use hass_tplink_easy_smart.Base.Order.{
  contains, IsAscending, nat_ord, int_ord, contains-sorted_set, sorted_set-IsAscending,
}
use hass_tplink_easy_smart.Base.Order.Ascending.{
  contains-append, IsAscending-cons, IsAscending-ext, contains-All, All-of_contains,
}
use hass_tplink_easy_smart.Python.{Value, int, ok, >>=-eq-ok}
use hass_tplink_easy_smart.Ports.Mask.Laws.{InRange}
use hass_tplink_easy_smart.Ports.Validate.{validate_ports}
use hass_tplink_easy_smart.Ports.Validate.Laws.{validate_ports_one, validate_ports-returns}
use hass_tplink_easy_smart.Ports.Trunk.{
  group_of, ports_where, selected_groups, expand, expand_trunk_ports, ports_for_trunk,
}

contains-ports_where :
    (test : ℤ → Bool) (q start : ℕ) (groups : List ℤ)
    → contains q (ports_where test start groups)
      ≡ (leb start q && ltb q (start + length groups) && test (get_or groups (q - start) (pos 0)))
unfolding contains ports_where
contains-ports_where test q start [] = ground arith
contains-ports_where test q start (group ∷ groups) =
    let ih = contains-ports_where test q (start + 1) groups in
    elim (Bool-cases (ltb start q)) [
      | inl later ↦
          let e : q - start ≡ suc (q - (start + 1)) = ground arith in rw e (ground (arith, ih))
      | inr first ↦ let e : q - start ≡ 0 = ground arith in rw e (ground (arith, ih))
    ]

contains-selected_groups :
    (z : ℤ) (selected : List ℕ) (groups : List ℤ)
    → contains z (selected_groups selected groups) ≡ true
    → (p : ℕ) × (contains p selected ≡ true) × (group_of groups p ≡ z) × (pos 1 ≤ℤ z)
unfolding contains selected_groups
contains-selected_groups z [] groups h = cc
contains-selected_groups z (p ∷ selected) groups h =
    elim (Bool-cases (ltb_ℤ (pos 0) (group_of groups p) && eqb_ℤ z (group_of groups p))) [
      | inl here ↦ (p, ground arith, ground arith, ground arith)
      | inr there ↦
          let (x, m, e, k) = contains-selected_groups z selected groups (ground arith) in
          (x, ground arith, e, k)
    ]

selected_groups-contains :
    (p : ℕ) (selected : List ℕ) (groups : List ℤ)
    → contains p selected ≡ true
    → pos 1 ≤ℤ group_of groups p
    → contains (group_of groups p) (selected_groups selected groups) ≡ true
unfolding contains selected_groups
selected_groups-contains p [] groups h k = cc
selected_groups-contains p (x ∷ selected) groups h k = elim (Bool-cases (p == x)) [
  | inl here ↦ let e : x ≡ p = ground arith in rw e (ground arith)
  | inr there ↦ ground (arith, selected_groups-contains p selected groups)
]

-- The port is in range, and in the LAG of some selected port.
abbrev pub SharesLag : List ℕ → List ℤ → ℕ → Type 0
SharesLag selected groups q =
    InRange (length groups) q
    × ((p : ℕ) × (contains p selected ≡ true) × (group_of groups p ≡ group_of groups q))
    × (pos 1 ≤ℤ group_of groups q)

contains-expand :
    (q : ℕ) (selected : List ℕ) (groups : List ℤ)
    → contains q (expand selected groups) ≡ (
        contains q selected
        || (leb 1 q
            && ltb q (1 + length groups)
            && contains (group_of groups q) (selected_groups selected groups)))
unfolding expand group_of
contains-expand q selected groups = ground (
  arith,
  contains-sorted_set q (
      selected ++ ports_where (λ group. contains group (selected_groups selected groups)) 1 groups),
  contains-append q selected
      (ports_where (λ group. contains group (selected_groups selected groups)) 1 groups),
  contains-ports_where (λ group. contains group (selected_groups selected groups)) q 1 groups,
)

-- The expansion of a selection has its ports, those that share a LAG with one, and no other.
pub contains-expand_iff :
    (q : ℕ) (selected : List ℕ) (groups : List ℤ)
    → (contains q (expand selected groups) ≡ true)
      ↔ ((contains q selected ≡ true) ⊎ SharesLag selected groups q)
contains-expand_iff q selected groups = (there, back)
  where
    there :
        contains q (expand selected groups) ≡ true
        → (contains q selected ≡ true) ⊎ SharesLag selected groups q
    there h = elim (Bool-cases (contains q selected)) [
      | inl e ↦ inl e
      | inr e ↦
          let m : contains (group_of groups q) (selected_groups selected groups) ≡ true =
            ground (arith, contains-expand q selected groups) in
          let (p, chosen, same, positive) =
            contains-selected_groups (group_of groups q) selected groups m in
          inr (ground (arith, contains-expand q selected groups), (p, chosen, same), positive)
    ]

    back :
        (contains q selected ≡ true) ⊎ SharesLag selected groups q
        → contains q (expand selected groups) ≡ true
    back (inl e) = ground (arith, contains-expand q selected groups)
    back (inr (range, (p, chosen, same), positive)) =
        let m = selected_groups-contains p selected groups chosen (rw same positive) in
        let m' : contains (group_of groups q) (selected_groups selected groups) ≡ true =
          rw same at m in
        ground (arith, contains-expand q selected groups)

expand-IsAscending : (selected : List ℕ) (groups : List ℤ) → IsAscending (expand selected groups)
unfolding expand
expand-IsAscending selected groups =
    sorted_set-IsAscending
      (selected ++ ports_where (λ group. contains group (selected_groups selected groups)) 1 groups)

-- `_expand_trunk_ports` returns, in ascending order, the validated selection with all ports that
-- share a LAG with one of it.
pub expand_trunk_ports-returns :
    (ports : List Value) (groups : List ℤ) {result : List ℕ}
    → expand_trunk_ports ports groups ≡ ok result
    → (selected : List ℕ) × (validate_ports ports (length groups) true ≡ ok selected)
      × IsAscending result
      × ((q : ℕ)
          → (contains q result ≡ true)
            ↔ ((contains q selected ≡ true) ⊎ SharesLag selected groups q))
unfolding expand_trunk_ports
expand_trunk_ports-returns ports groups {result} h =
    let (selected, validated, e) =
      >>=-eq-ok (validate_ports ports (length groups) true) (λ s. ok (expand s groups)) h in
    let same : expand selected groups ≡ result = cc in
    (
      selected,
      validated,
      subst IsAscending same (expand-IsAscending selected groups),
      λ q.
          subst
            (λ r.
              (contains q r ≡ true) ↔ ((contains q selected ≡ true) ⊎ SharesLag selected groups q))
            same (contains-expand_iff q selected groups),
    )

ports_where-lower :
    (test : ℤ → Bool) (q start : ℕ) (groups : List ℤ)
    → contains q (ports_where test start groups) ≡ true
    → start ≤ q
ports_where-lower test q start groups h = ground (arith, contains-ports_where test q start groups)

ports_where-IsAscending :
    (test : ℤ → Bool) (start : ℕ) (groups : List ℤ) → IsAscending (ports_where test start groups)
unfolding ports_where
ports_where-IsAscending test start [] = tt
ports_where-IsAscending test start (group ∷ groups) =
    let ih = ports_where-IsAscending test (start + 1) groups in
    elim (Bool-cases (test group)) [
      | inl e ↦ rw e (
          IsAscending-cons start (ports_where test (start + 1) groups)
            (λ q m. ground (arith, ports_where-lower test q (start + 1) groups m)) ih)
      | inr e ↦ rw e ih
    ]

contains-selected_one :
    (z : ℤ) (port : ℕ) (groups : List ℤ)
    → contains z (selected_groups (port ∷ []) groups)
      ≡ (ltb_ℤ (pos 0) (group_of groups port) && eqb_ℤ z (group_of groups port))
unfolding contains selected_groups
contains-selected_one z port groups = ground arith

pub contains_one : (q port : ℕ) → contains q (port ∷ []) ≡ (q == port)
unfolding contains
contains_one q port = ground arith

pub contains-members :
    (q port : ℕ) (groups : List ℤ)
    → contains q (ports_where (eqb_ℤ (group_of groups port)) 1 groups)
      ≡ (leb 1 q && ltb q (1 + length groups) && eqb_ℤ (group_of groups port) (group_of groups q))
unfolding group_of
contains-members q port groups = contains-ports_where (eqb_ℤ (group_of groups port)) q 1 groups

-- The ports that `_ports_for_trunk` lists, once its port is validated.
affected-eq-expand :
    (port : ℕ) (groups : List ℤ)
    → InRange (length groups) port
    → pos 0 ≤ℤ group_of groups port
    → (if eqb_ℤ (group_of groups port) (pos 0)
        then port ∷ []
        else ports_where (eqb_ℤ (group_of groups port)) 1 groups)
      ≡ expand (port ∷ []) groups
affected-eq-expand port groups h k = elim (Bool-cases (eqb_ℤ (group_of groups port) (pos 0))) [
  | inl alone ↦ rw alone (
      IsAscending-ext (port ∷ []) (expand (port ∷ []) groups) tt
        (expand-IsAscending (port ∷ []) groups)
        λ q. ground (
          arith,
          contains-expand q (port ∷ []) groups,
          contains-selected_one (group_of groups q) port groups,
          contains_one q port,
        ))
  | inr shared ↦ rw shared (
      IsAscending-ext (ports_where (eqb_ℤ (group_of groups port)) 1 groups)
        (expand (port ∷ []) groups)
        (ports_where-IsAscending (eqb_ℤ (group_of groups port)) 1 groups)
        (expand-IsAscending (port ∷ []) groups)
        λ q. ground (
          arith,
          contains-expand q (port ∷ []) groups,
          contains-selected_one (group_of groups q) port groups,
          contains_one q port,
          contains-members q port groups,
        ))
]

-- On a port of the device whose LAG number is not negative, `_ports_for_trunk` and
-- `_expand_trunk_ports` find the same ports.
pub ports_for_trunk-eq-expand :
    (port : ℕ) (groups : List ℤ)
    → InRange (length groups) port
    → pos 0 ≤ℤ group_of groups port
    → ports_for_trunk (pos port) groups ≡ expand_trunk_ports (int (pos port) ∷ []) groups
unfolding ports_for_trunk expand_trunk_ports
ports_for_trunk-eq-expand port groups h k = rw (validate_ports_one port (length groups) false h) (
    rw (validate_ports_one port (length groups) true h)
      (ap ok (affected-eq-expand port groups h k)))

-- What `_expand_trunk_ports` returns are ports of the device.
pub expand_trunk_ports-InRange :
    (ports : List Value) (groups : List ℤ) {result : List ℕ}
    → expand_trunk_ports ports groups ≡ ok result
    → All (InRange (length groups)) result
expand_trunk_ports-InRange ports groups {result} h =
    let (selected, validated, ascending, members) = expand_trunk_ports-returns ports groups h in
    let (numbers, converted, all_valid, v) =
      validate_ports-returns ports (length groups) true validated in
    All-of_contains (InRange (length groups)) result λ q m. elim ((members q).0 m) [
      | inl chosen ↦ contains-All (InRange (length groups)) q selected v.in_range chosen
      | inr (range, _, _) ↦ range
    ]
