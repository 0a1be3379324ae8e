-- ===== src/Ports/Trunk/Affected.antt =====
-- The ports that a setting of one port affects: its whole LAG.
use hass_tplink_easy_smart.Base.{
  ℕ, ◌≡◌, ◌≢◌, refl, ◌↔◌, ◌⊎◌, inl, inr, true, false, List, [], ◌∷◌, arith, Bool-cases,
  if◌then◌else◌, subst,
}
use hass_tplink_easy_smart.Base.Int.{ℤ, pos, negsuc, eqb_ℤ, pos_part, ◌≤ℤ◌}
use hass_tplink_easy_smart.Base.Lists.{length}
use hass_tplink_easy_smart.Base.Order.{contains, nat_ord, int_ord}
use hass_tplink_easy_smart.Python.{int, ok, >>=-eq-ok}
use hass_tplink_easy_smart.Ports.Mask.Laws.{InRange}
use hass_tplink_easy_smart.Ports.Validate.{validate_ports}
use hass_tplink_easy_smart.Ports.Validate.Laws.{to_ints-map, AllValid, validate_ports-returns}
use hass_tplink_easy_smart.Ports.Trunk.{group_of, ports_where, ports_for_trunk}
use hass_tplink_easy_smart.Ports.Trunk.Laws.{contains_one, contains-members}

-- `result` is a port of the device, and the other ports of its LAG if it is in one.
pub record IsWholeLag (port : ℤ) (groups : List ℤ) (result : List ℕ) : Type 0 where
  pub number : ℕ
  pub is_port : port ≡ pos number
  pub in_range : InRange (length groups) number
  pub members :
      (q : ℕ)
      → (contains q result ≡ true) ↔ (
          (q ≡ number)
          ⊎ (InRange (length groups) q
              × (group_of groups q ≡ group_of groups number)
              × (group_of groups number ≢ pos 0)))

-- A single port that is accepted is one of the device.
pub one_valid :
    (port : ℤ) (port_count : ℕ) {result : List ℕ}
    → validate_ports (int port ∷ []) port_count false ≡ ok result
    → (pos 1 ≤ℤ port) × (port ≤ℤ pos port_count)
one_valid port n h =
    let (numbers, converted, all_valid, v) = validate_ports-returns (int port ∷ []) n false h in
    let same : numbers ≡ port ∷ [] = ground (arith, to_ints-map (port ∷ [])) in
    (subst (AllValid n) same all_valid).0

affected : (number : ℕ) (groups : List ℤ) → List ℕ
affected number groups =
    if eqb_ℤ (group_of groups number) (pos 0)
    then number ∷ []
    else ports_where (eqb_ℤ (group_of groups number)) 1 groups

contains-affected :
    (number : ℕ) (groups : List ℤ)
    → InRange (length groups) number
    → (q : ℕ)
    → (contains q (affected number groups) ≡ true) ↔ (
        (q ≡ number)
        ⊎ (InRange (length groups) q
            × (group_of groups q ≡ group_of groups number)
            × (group_of groups number ≢ pos 0)))
unfolding affected
contains-affected n groups r q = elim (Bool-cases (eqb_ℤ (group_of groups n) (pos 0))) [
  | inl alone ↦ rw alone (ground (arith, contains_one q n), ground (arith, contains_one q n))
  | inr shared ↦
      rw shared
        (ground (arith, contains-members q n groups), ground (arith, contains-members q n groups))
]

-- If `_ports_for_trunk` returns, its port is one of the device, and the result has this port, the
-- ports with the same LAG number unless that is 0, and no other.
pub ports_for_trunk-IsWholeLag :
    (port : ℤ) (groups : List ℤ) {result : List ℕ}
    → ports_for_trunk port groups ≡ ok result
    → IsWholeLag port groups result
unfolding ports_for_trunk affected
ports_for_trunk-IsWholeLag (negsuc n) groups {result} h =
    let (v, valid, e) =
      >>=-eq-ok (validate_ports (int (negsuc n) ∷ []) (length groups) false)
        (λ _. ok (affected (pos_part (negsuc n)) groups)) h in
    let range = one_valid (negsuc n) (length groups) valid in absurd (ground arith)
ports_for_trunk-IsWholeLag (pos n) groups {result} h =
    let (v, valid, e) =
      >>=-eq-ok (validate_ports (int (pos n) ∷ []) (length groups) false)
        (λ _. ok (affected (pos_part (pos n)) groups)) h in
    let range = one_valid (pos n) (length groups) valid in
    let r : InRange (length groups) n = ground arith in
    let same : affected n groups ≡ result = cc in
    record {
      number = n;
      is_port = refl;
      in_range = r;
      members = λ q.
          subst
            (λ l. (contains q l ≡ true) ↔ (
              (q ≡ n)
              ⊎ (InRange (length groups) q
                  × (group_of groups q ≡ group_of groups n)
                  × (group_of groups n ≢ pos 0))))
            same (contains-affected n groups r q);
    }
