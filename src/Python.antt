-- ===== src/Python.antt =====
-- The values and exceptions of Python that the client handles: what `json5.loads` returns for a
-- page's variable, `int(...)`, `bool(...)`, `== 1` and indexing.
mod Errors
mod Numbers
pub use Errors.*
unfoldable pub use Errors.{replace_conversion_error, or_overflow}
pub use Numbers.{Float, finite, infinity, nan}
unfoldable pub use Numbers.{truncate, parse_int, is_space}
use hass_tplink_easy_smart.Base.{
  ℕ, zero, suc, ◌*◌, ◌^◌, String, Bool, true, false, not, Option, none, some, List, [], ◌∷◌, ◌==◌,
  if◌then◌else◌,
}
use hass_tplink_easy_smart.Base.Int.{ℤ, pos, negsuc, eqb_ℤ}
use hass_tplink_easy_smart.Base.Lists.{is_empty}

mutual
  -- A parsed value. `nil` and `bool` to `dict` are Python's `None` and its types of these names.
  pub data Value : Type 0 where
    nil : Value
    bool : Bool → Value
    int : ℤ → Value
    float : Float → Value
    str : String → Value
    list : Items → Value
    dict : Fields → Value

  pub data Items : Type 0 where
    no_items : Items
    item : Value → Items → Items

  pub data Fields : Type 0 where
    no_fields : Fields
    field : String → Value → Fields → Fields

abbrev pub to_list : Items → List Value
to_list no_items = []
to_list (item v r) = v ∷ to_list r

abbrev pub of_list : List Value → Items
of_list [] = no_items
of_list (v ∷ r) = item v (of_list r)

abbrev pub entries : Fields → List (String × Value)
entries no_fields = []
entries (field k v r) = (k, v) ∷ entries r

-- `int(value)`, with the exception that it raises.
unfoldable pub to_int : Value → Result ℤ
to_int nil = err type_error
to_int (bool true) = ok (pos 1)
to_int (bool false) = ok (pos 0)
to_int (int z) = ok z
to_int (float (finite m e)) = ok (truncate m e)
to_int (float (infinity negative)) = err overflow_error
to_int (float nan) = err value_error
to_int (str s) = elim (parse_int s) [ none ↦ err value_error | some z ↦ ok z ]
to_int (list _) = err type_error
to_int (dict _) = err type_error

-- `bool(value)`
unfoldable pub truthy : Value → Bool
truthy nil = false
truthy (bool b) = b
truthy (int z) = not (eqb_ℤ z (pos 0))
truthy (float (finite m e)) = not (eqb_ℤ m (pos 0))
truthy (float _) = true
truthy (str String.[]) = false
truthy (str (String.◌∷◌ _ _)) = true
truthy (list xs) = not (is_empty (to_list xs))
truthy (dict d) = not (is_empty (entries d))

-- `value == 1`: a float m * 2 ^ e equals 1 if m is 2 ^ -e.
unfoldable pub equals_one : Value → Bool
equals_one (bool b) = b
equals_one (int z) = eqb_ℤ z (pos 1)
equals_one (float (finite (pos m) (pos e))) = m * 2 ^ e == 1
equals_one (float (finite (pos m) (negsuc e))) = m == 2 ^ suc e
equals_one (float _) = false
equals_one _ = false

-- `items[i]` for an index of zero or more.
unfoldable pub index {ℓ} : {A : Type ℓ} → List A → ℕ → Result A
index [] i = err index_error
index (x ∷ xs) zero = ok x
index (x ∷ xs) (suc i) = index xs i
