-- ===== src/Api/Features.antt =====
-- client/utils.py, and how `TpLinkApi` asks for an optional feature: the answer is found out once.
use text.Mathlib.Text.{◌==◌ as str_eq}
use hass_tplink_easy_smart.Base.{
  String, Bool, true, false, ◌&&◌, ◌||◌, List, [], ◌∷◌, if◌then◌else◌,
}
use hass_tplink_easy_smart.Base.Int.{pos, ltb_ℤ, eqb_ℤ}
use hass_tplink_easy_smart.Python.{
  Value, nil, int, bool, ok, err, Error, api_call, Category, disconnected,
}
use hass_tplink_easy_smart.Core.Variables.{dict_type, int_type}
use hass_tplink_easy_smart.Core.Session.Monad.{
  Session, Action, Stateful, ⊤, pure, modify, catch, ◌>>=◌ as ◌>>>=◌, ◌>>◌ as ◌>>>◌,
}
use hass_tplink_easy_smart.Core.Session.Variables.{fetch_variables}
use hass_tplink_easy_smart.Api.Apply.{Client}
use hass_tplink_easy_smart.Api.Fields.{Fields, get_value}

-- `_is_features_updated`, `_available_features` and the session of a `TpLinkApi`.
pub record ApiState : Type 0 where
  pub is_features_updated : Bool
  pub available_features : List String
  pub session : Session

abbrev pub ApiAction : Type 0 → Type 0
ApiAction A = Stateful ApiState A

-- An operation that needs the session alone.
unfoldable pub on_session : {A : Type 0} → Action A → ApiAction A
on_session m s = let (r, t) = m s.session in (r, record s { session = t })

abbrev pub feature_poe : String
feature_poe = "feature_poe"

-- `feature in self._available_features`
unfoldable pub is_available : String → List String → Bool
is_available feature [] = false
is_available feature (f ∷ features) = str_eq f feature || is_available feature features

is_false : Category → Bool
is_false disconnected = true
is_false _ = false

-- The `except` clause of `disconnected_as_false`.
unfoldable pub as_false : Error → Action Bool
unfolding is_false
as_false (api_call code category) s =
    if is_false category || eqb_ℤ code (pos 404)
    then (ok false, s)
    else (err (api_call code category), s)
as_false other s = (err other, s)

is_given : Value → Bool
is_given nil = false
is_given _ = true

-- `isinstance(value, int) and value > 0`
is_positive_int : Value → Bool
is_positive_int (int z) = ltb_ℤ (pos 0) z
is_positive_int (bool b) = b
is_positive_int _ = false

unfoldable pub has_poe : Fields → Bool
unfolding is_given is_positive_int
has_poe data' =
    is_given (get_value data' "portConfig") && is_positive_int (get_value data' "poe_port_num")

unfoldable pub add_feature : Bool → ApiState → ApiState
add_feature true s = record s { available_features = feature_poe ∷ s.available_features }
add_feature false s = s

module _ (c : Client) where
  unfoldable pub is_poe_available : Action Bool
  is_poe_available =
      catch
        (fetch_variables c.library c.device c.account "PoeConfigRpm.htm"
            (("portConfig", dict_type) ∷ ("poe_port_num", int_type) ∷ [])
          >>>= λ data'. pure (has_poe data'))
        as_false

  -- `_features.update()`
  unfoldable pub update_features : ApiAction ⊤
  unfolding add_feature
  update_features = on_session is_poe_available >>>= λ found. modify (add_feature found)

  unfoldable pub find_features : Bool → ApiAction ⊤
  find_features true = pure tt
  find_features false = update_features >>> modify (λ s. record s { is_features_updated = true })

  unfoldable pub ensure_features_updated : ApiAction ⊤
  unfolding find_features
  ensure_features_updated s = find_features s.is_features_updated s

  unfoldable pub is_feature_available : String → ApiAction Bool
  is_feature_available feature =
      ensure_features_updated >>> λ s. (ok (is_available feature s.available_features), s)
