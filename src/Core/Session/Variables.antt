-- ===== src/Core/Session/Variables.antt =====
-- `get_variables` and `get_variable` of `TpLinkWebApi`.
use hass_tplink_easy_smart.Base.{String, none, some, List, [], ◌∷◌}
use hass_tplink_easy_smart.Base.Assoc.{lookup, insert, string_eq}
use hass_tplink_easy_smart.Python.{Value, nil, Result, ok, ◌>>=◌}
use hass_tplink_easy_smart.Core.Variables.{Library, VariableType, convert_value, get_variables}
use hass_tplink_easy_smart.Core.Session.Monad.{Action, Device, lift, ◌>>=◌ as ◌>>>=◌}
use hass_tplink_easy_smart.Core.Session.Login.{Credentials}
use hass_tplink_easy_smart.Core.Session.Calls.{get}

-- The loop over the requested variables; the first that cannot be converted raises.
unfoldable pub convert_all :
    Library
    → List (String × String)
    → List (String × VariableType)
    → List (String × Value)
    → Result (List (String × Value))
convert_all library found [] result = ok result
convert_all library found ((variable, type) ∷ variables) result = do
  value ← convert_value library (lookup variable found) type
  convert_all library found variables (insert variable value result)

-- `d.get(key)` with `None` for a missing key.
unfoldable pub value_of : List (String × Value) → String → Value
value_of data' key = elim (lookup key data') [ none ↦ nil | some v ↦ v ]

module _ (library : Library) (device : Device) (account : Credentials) where
  unfoldable pub fetch_variables :
      String → List (String × VariableType) → Action (List (String × Value))
  fetch_variables path variables = get library device account path none >>>= λ text.
      lift (convert_all library (get_variables library text) variables [])

  unfoldable pub fetch_variable : String → String → VariableType → Action Value
  fetch_variable path variable type = fetch_variables path ((variable, type) ∷ []) >>>= λ result.
      λ s. (ok (value_of result variable), s)
