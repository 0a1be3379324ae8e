-- ===== src/Ports/Trunk/Expansion.antt =====
-- The ports of a request with their whole LAGs.
use hass_tplink_easy_smart.Base.{ℕ, ◌≡◌, true, ◌⊎◌, ◌↔◌, List}
use hass_tplink_easy_smart.Base.Int.{ℤ, pos}
use hass_tplink_easy_smart.Base.Lists.{length, All}
use hass_tplink_easy_smart.Base.Order.{contains, IsAscending, nat_ord, int_ord}
use hass_tplink_easy_smart.Python.{Value, ok}
use hass_tplink_easy_smart.Ports.Mask.Laws.{InRange}
use hass_tplink_easy_smart.Ports.Validate.{to_ints}
use hass_tplink_easy_smart.Ports.Validate.Laws.{AllValid, validate_ports-returns}
use hass_tplink_easy_smart.Ports.Trunk.{expand_trunk_ports}
use hass_tplink_easy_smart.Ports.Trunk.Laws.{
  SharesLag, expand_trunk_ports-returns, expand_trunk_ports-InRange,
}

-- The requested ports, all of them ports of the device, and the ports that share a LAG with one of
-- them, each once and in ascending order.
pub record IsExpansion (ports : List Value) (groups : List ℤ) (result : List ℕ) : Type 0 where
  pub numbers : List ℤ
  pub requested : to_ints ports ≡ ok numbers
  pub valid : AllValid (length groups) numbers
  pub chosen : List ℕ
  pub selection : (q : ℕ) → contains q chosen ≡ contains (pos q) numbers
  pub in_range : All (InRange (length groups)) result
  pub ascending : IsAscending result
  pub members :
      (q : ℕ)
      → (contains q result ≡ true) ↔ ((contains q chosen ≡ true) ⊎ SharesLag chosen groups q)

pub expand_trunk_ports-IsExpansion :
    (ports : List Value) (groups : List ℤ) {result : List ℕ}
    → expand_trunk_ports ports groups ≡ ok result
    → IsExpansion ports groups result
expand_trunk_ports-IsExpansion ports groups h =
    let (selected, validated, ascending, members) = expand_trunk_ports-returns ports groups h in
    let (numbers, converted, all_valid, v) =
      validate_ports-returns ports (length groups) true validated in
    record {
      numbers = numbers;
      requested = converted;
      valid = all_valid;
      chosen = selected;
      selection = v.members;
      in_range = expand_trunk_ports-InRange ports groups h;
      ascending = ascending;
      members = members;
    }
