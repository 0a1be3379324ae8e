-- ===== src/Ports/Trunk.antt =====
-- `_expand_trunk_ports` and `_ports_for_trunk`: settings of a port apply to its whole static LAG.
pub mod Laws
pub mod Affected
pub mod Expansion
use hass_tplink_easy_smart.Base.{
  ℕ, ◌+◌, ◌-◌, Bool, true, false, List, [], ◌∷◌, ◌++◌, map, if◌then◌else◌,
}
use hass_tplink_easy_smart.Base.Int.{ℤ, pos, pos_part, ltb_ℤ, eqb_ℤ}
use hass_tplink_easy_smart.Base.Lists.{keep, get_or, length}
use hass_tplink_easy_smart.Base.Order.{contains, sorted_set, int_ord, nat_ord}
use hass_tplink_easy_smart.Python.{Value, int, Result, ok, ◌>>=◌}
use hass_tplink_easy_smart.Ports.Validate.{validate_ports}

-- `trunk_groups[port - 1]`, for a port that has been validated against `len(trunk_groups)`.
unfoldable pub group_of : List ℤ → ℕ → ℤ
group_of trunk_groups port = get_or trunk_groups (port - 1) (pos 0)

-- `index + 1 for index, group in enumerate(trunk_groups) if test(group)`, from port `number` on.
unfoldable pub ports_where : (ℤ → Bool) → ℕ → List ℤ → List ℕ
ports_where test number [] = []
ports_where test number (group ∷ groups) =
    let rest = ports_where test (number + 1) groups in if test group then number ∷ rest else rest

unfoldable pub selected_groups : List ℕ → List ℤ → List ℤ
selected_groups selected trunk_groups = keep (ltb_ℤ (pos 0)) (map (group_of trunk_groups) selected)

unfoldable pub expand : List ℕ → List ℤ → List ℕ
expand selected trunk_groups =
    let groups = selected_groups selected trunk_groups in
    sorted_set (selected ++ ports_where (λ group. contains group groups) 1 trunk_groups)

unfoldable pub expand_trunk_ports : List Value → List ℤ → Result (List ℕ)
expand_trunk_ports ports trunk_groups = do
  selected ← validate_ports ports (length trunk_groups) true
  ok (expand selected trunk_groups)

unfoldable pub ports_for_trunk : ℤ → List ℤ → Result (List ℕ)
ports_for_trunk port trunk_groups = do
  validated ← validate_ports (int port ∷ []) (length trunk_groups) false
  let group = group_of trunk_groups (pos_part port)
  ok (if eqb_ℤ group (pos 0) then pos_part port ∷ [] else ports_where (eqb_ℤ group) 1 trunk_groups)
