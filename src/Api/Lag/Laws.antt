-- ===== src/Api/Lag/Laws.antt =====
-- What `set_lag` lets through.
use hass_tplink_easy_smart.Base.{ℕ, ◌-◌, ◌*◌, ◌≤◌, ◌<◌, ◌≡◌, true, false, List, [], ◌∷◌, arith}
use hass_tplink_easy_smart.Base.Int.{ℤ, pos, pos_part, ◌≤ℤ◌}
use hass_tplink_easy_smart.Base.Lists.{length, keep, is_empty, All}
use hass_tplink_easy_smart.Base.Order.{contains, IsAscending, nat_ord}
use hass_tplink_easy_smart.Base.Order.Ascending.{contains-All}
use hass_tplink_easy_smart.Python.{Value, ok}
use hass_tplink_easy_smart.Classes.{LagState}
use hass_tplink_easy_smart.Ports.Validate.{validate_ports}
use hass_tplink_easy_smart.Ports.Validate.Laws.{validate_ports-returns}
use hass_tplink_easy_smart.Api.Lag.{bad_group, minimum, maximum, outside, lag_members}

-- The ports of group `group_id`'s block, at most `ports_per_group` of them.
abbrev pub InBlock : LagState → ℤ → ℕ → Type 0
InBlock state group_id p =
    ((pos_part group_id - 1) * state.ports_per_group < p)
    × (p ≤ pos_part group_id * state.ports_per_group)
    × (p ≤ state.port_count)

-- The members of a LAG that may be written.
pub record IsLag (state : LagState) (group_id : ℤ) (members : List ℕ) : Type 0 where
  pub known : (pos 1 ≤ℤ group_id) × (group_id ≤ℤ pos state.max_groups)
  pub ascending : IsAscending members
  pub enough : 2 ≤ length members
  pub few : length members ≤ state.ports_per_group
  pub block : All (InBlock state group_id) members

lag_members_parts :
    (state : LagState) (group_id : ℤ) (ports : List Value) {members : List ℕ}
    → lag_members state group_id ports ≡ ok members
    → (validate_ports ports state.port_count false ≡ ok members)
      × (bad_group state group_id ≡ false)
      × (2 ≤ length members)
      × (length members ≤ state.ports_per_group)
      × (is_empty (keep (outside state group_id) members) ≡ true)
unfolding lag_members
lag_members_parts state g ports h =
    (ground arith, ground arith, ground arith, ground arith, ground arith)

none_outside :
    (state : LagState) (group_id : ℤ) (members : List ℕ)
    → is_empty (keep (outside state group_id) members) ≡ true
    → All (InBlock state group_id) members
unfolding outside minimum maximum
none_outside state g [] h = tt
none_outside state g (p ∷ members) h = ground (arith, none_outside state g members)

-- Members that `set_lag` accepts form a LAG: the group exists, the ports are ascending, between
-- two and the group's size in number, and lie in the group's block.
pub lag_members-IsLag :
    (state : LagState) (group_id : ℤ) (ports : List Value) {members : List ℕ}
    → lag_members state group_id ports ≡ ok members
    → IsLag state group_id members
unfolding bad_group
lag_members-IsLag state g ports {members} h =
    let (valid, good, enough, few, inside) = lag_members_parts state g ports h in
    let (numbers, converted, all_valid, v) =
      validate_ports-returns ports state.port_count false valid in
    record {
      known = ground arith;
      ascending = v.ascending;
      enough = enough;
      few = few;
      block = none_outside state g members inside;
    }

later_block : (a b n p : ℕ) → a < b → p ≤ a * n → (b - 1) * n < p → ⊥
later_block a b n p lt up down =
    let h : a ≤ b - 1 = omega arith in let k : a * n ≤ (b - 1) * n = grind arith in omega arith

-- Blocks of different groups do not meet.
block_unique :
    (state : LagState) (g h : ℤ) (p : ℕ)
    → pos 1 ≤ℤ g
    → pos 1 ≤ℤ h
    → InBlock state g p
    → InBlock state h p
    → g ≡ h
block_unique state g h p pg ph bg bh =
    let n = state.ports_per_group in
    ground
      (arith, later_block (pos_part g) (pos_part h) n p, later_block (pos_part h) (pos_part g) n p)

-- If `set_lag` accepts members for two groups by the same state, and the lists share a port, the
-- groups are the same.
pub lag_members_disjoint :
    (state : LagState) (g h : ℤ) (ports others : List Value) {xs ys : List ℕ}
    → lag_members state g ports ≡ ok xs
    → lag_members state h others ≡ ok ys
    → (p : ℕ) → contains p xs ≡ true
    → contains p ys ≡ true
    → g ≡ h
lag_members_disjoint state g h ports others {xs} {ys} e f p mx my =
    let x = lag_members-IsLag state g ports e in
    let y = lag_members-IsLag state h others f in
    block_unique state g h p x.known.0 y.known.0 (contains-All (InBlock state g) p xs x.block mx)
      (contains-All (InBlock state h) p ys y.block my)
