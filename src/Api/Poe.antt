-- ===== src/Api/Poe.antt =====
-- PoE: `get_port_poe_states`, `get_poe_state`, `set_poe_limit` and `set_port_poe_settings`.
use Prim.Native.String.{◌++◌ as str_append}
use hass_tplink_easy_smart.Base.{
  ℕ, zero, suc, ◌+◌, ◌-◌, ◌%◌, ◌^◌, String, Bool, true, false, not, ◌&&◌, Option, none, some, List,
  [], ◌∷◌, ◌==◌, if◌then◌else◌,
}
use hass_tplink_easy_smart.Base.Int.{ℤ, pos, negsuc, pos_part, ltb_ℤ}
use hass_tplink_easy_smart.Python.{
  Value, nil, bool, int, float, str, list, dict, entries, Float, finite, truncate, Result, ok, err,
  action, poe_unsupported, no_poe_state, no_poe_ports, below_minimum, above_maximum,
  invalid_poe_limit, above_port_count, not_positive, attribute_error, type_error, value_error,
  or_overflow, truthy, equals_one, index, raise_if, ◌>>=◌, ◌>>◌,
}
use hass_tplink_easy_smart.Classes.{
  PoePriority, high_priority, middle_priority, low_priority, poe_priority_of, PoePowerLimit,
  auto_limit, limit_1, limit_2, limit_3, limit_4, poe_power_limit_of, poe_class_of,
  poe_power_status_of, PowerLimit, level, watts, PortPoeState, PoeState,
}
use hass_tplink_easy_smart.Core.Variables.{dict_type, int_type}
use hass_tplink_easy_smart.Core.Session.Monad.{⊤, pure, lift, ◌>>=◌ as ◌>>>=◌, ◌>>◌ as ◌>>>◌}
use hass_tplink_easy_smart.Core.Session.Variables.{fetch_variables, fetch_variable}
use hass_tplink_easy_smart.Api.Query.{str_of_int}
use hass_tplink_easy_smart.Api.Apply.{Client, apply_post}
use hass_tplink_easy_smart.Api.Fields.{Fields, get_default, get_value, require_list}
use hass_tplink_easy_smart.Api.Features.{ApiAction, on_session, feature_poe, is_feature_available}

-- Python's arithmetic on floats: `z / 10` of an integer (`none` is `OverflowError`) and of a float,
-- `<` and `<=`.
pub record Arithmetic : Type 0 where
  pub int_tenth : ℤ → Option Float
  pub float_tenth : Float → Float
  pub less : Float → Float → Bool
  pub at_most : Float → Float → Bool

-- `value / 10`
unfoldable pub tenth : Arithmetic → Value → Result Float
unfolding or_overflow
tenth arithmetic (int z) = or_overflow (arithmetic.int_tenth z)
tenth arithmetic (bool true) = or_overflow (arithmetic.int_tenth (pos 1))
tenth arithmetic (bool false) = or_overflow (arithmetic.int_tenth (pos 0))
tenth arithmetic (float x) = ok (arithmetic.float_tenth x)
tenth arithmetic _ = err type_error

-- The integer that a float equals.
whole : ℤ → ℤ → Option ℤ
whole m (pos e) = some (truncate m (pos e))
whole (pos m) (negsuc e) = if m % 2 ^ suc e == 0 then some (truncate (pos m) (negsuc e)) else none
whole (negsuc m) (negsuc e) =
    if suc m % 2 ^ suc e == 0 then some (truncate (negsuc m) (negsuc e)) else none

-- The integer that a value is equal to, as a key of a dictionary.
unfoldable pub as_integer : Value → Option ℤ
unfolding whole
as_integer (int z) = some z
as_integer (bool true) = some (pos 1)
as_integer (bool false) = some (pos 0)
as_integer (float (finite m e)) = whole m e
as_integer _ = none

and_then : {A : Type 0} → Option ℤ → (ℤ → Option A) → Option A
and_then none f = none
and_then (some z) f = f z

-- `Kind(value)`
by_value : {A : Type 0} → (ℤ → Option A) → Value → Result A
unfolding and_then
by_value of value = elim (and_then (as_integer value) of) [ none ↦ err value_error | some a ↦ ok a ]

-- `Kind.try_parse(value)`; a list or dictionary is no key of a dictionary.
try_parse : {A : Type 0} → (ℤ → Option A) → Value → Result (Option A)
unfolding and_then
try_parse of (list items) = err type_error
try_parse of (dict d) = err type_error
try_parse of value = ok (and_then (as_integer value) of)

-- `PoePowerLimit.try_parse(value) or value / 10`
unfoldable pub power_limit_of : Arithmetic → Value → Result PowerLimit
unfolding try_parse
power_limit_of arithmetic value = do
  parsed ← try_parse poe_power_limit_of value
  elim parsed [
    | some limit ↦ ok (level limit)
    | none ↦ tenth arithmetic value >>= λ x. ok (watts x)
  ]

-- The lists of a page of PoE ports.
pub record PoeColumns : Type 0 where
  pub states : List Value
  pub priorities : List Value
  pub power_limits : List Value
  pub powers : List Value
  pub currents : List Value
  pub voltages : List Value
  pub pd_classes : List Value
  pub power_statuses : List Value

-- The body of the loop of `get_port_poe_states`.
unfoldable pub port_poe_state : Arithmetic → PoeColumns → ℕ → Result PortPoeState
unfolding by_value try_parse
port_poe_state arithmetic columns n = do
  enabled ← index columns.states (n - 1)
  raw_priority ← index columns.priorities (n - 1)
  priority ← by_value poe_priority_of raw_priority
  current ← index columns.currents (n - 1)
  raw_voltage ← index columns.voltages (n - 1)
  voltage ← tenth arithmetic raw_voltage
  raw_limit ← index columns.power_limits (n - 1)
  power_limit ← power_limit_of arithmetic raw_limit
  raw_status ← index columns.power_statuses (n - 1)
  power_status ← by_value poe_power_status_of raw_status
  raw_class ← index columns.pd_classes (n - 1)
  pd_class ← try_parse poe_class_of raw_class
  raw_power ← index columns.powers (n - 1)
  power ← tenth arithmetic raw_power
  ok (record {
    number = n;
    enabled = equals_one enabled;
    priority = priority;
    power_limit = power_limit;
    power = power;
    current = current;
    voltage = voltage;
    pd_class = pd_class;
    power_status = power_status;
  })

unfoldable pub port_poe_states_from : Arithmetic → PoeColumns → ℕ → ℕ → Result (List PortPoeState)
port_poe_states_from arithmetic columns n zero = ok []
port_poe_states_from arithmetic columns n (suc count) = do
  state ← port_poe_state arithmetic columns n
  rest ← port_poe_states_from arithmetic columns (n + 1) count
  ok (state ∷ rest)

port_poe_states_of : Arithmetic → Fields → ℕ → Result (List PortPoeState)
port_poe_states_of arithmetic port_config max_port_num = do
  states ← require_list port_config "state" max_port_num
  priorities ← require_list port_config "priority" max_port_num
  power_limits ← require_list port_config "powerlimit" max_port_num
  powers ← require_list port_config "power" max_port_num
  currents ← require_list port_config "current" max_port_num
  voltages ← require_list port_config "voltage" max_port_num
  pd_classes ← require_list port_config "pdclass" max_port_num
  power_statuses ← require_list port_config "powerstatus" max_port_num
  port_poe_states_from arithmetic
      (record {
        states = states;
        priorities = priorities;
        power_limits = power_limits;
        powers = powers;
        currents = currents;
        voltages = voltages;
        pd_classes = pd_classes;
        power_statuses = power_statuses;
      })
      1 max_port_num

-- An `int` that is not zero; a negative one asks for no item and no port.
nonzero_count : Value → Option ℕ
nonzero_count (int z) = if truthy (int z) then some (pos_part z) else none
nonzero_count (bool true) = some 1
nonzero_count _ = none

-- `get_port_poe_states`, from the variables of the page on.
unfoldable pub parse_port_poe_states : Arithmetic → Fields → Result (List PortPoeState)
unfolding port_poe_states_of nonzero_count
parse_port_poe_states arithmetic data' = elim (get_value data' "portConfig") [
  | dict d ↦ elim (nonzero_count (get_value data' "poe_port_num")) [
    | none ↦ ok []
    | some max_port_num ↦ port_poe_states_of arithmetic (entries d) max_port_num
  ]
  | _ ↦ ok []
]

poe_state_of : Arithmetic → Fields → Result PoeState
poe_state_of arithmetic d = do
  power_limit ← tenth arithmetic (get_default d "system_power_limit" (int (pos 0)))
  power_remain ← tenth arithmetic (get_default d "system_power_remain" (int (pos 0)))
  power_limit_min ← tenth arithmetic (get_default d "system_power_limit_min" (int (pos 0)))
  power_limit_max ← tenth arithmetic (get_default d "system_power_limit_max" (int (pos 0)))
  power_consumption ← tenth arithmetic (get_default d "system_power_consumption" (int (pos 0)))
  ok (record {
    power_limit = power_limit;
    power_limit_min = power_limit_min;
    power_limit_max = power_limit_max;
    power_consumption = power_consumption;
    power_remain = power_remain;
  })

given_state : Arithmetic → Value → Result (Option PoeState)
unfolding poe_state_of
given_state arithmetic (dict d) = poe_state_of arithmetic (entries d) >>= λ state. ok (some state)
given_state arithmetic _ = err attribute_error

-- `get_poe_state`, from the variable of the page on.
unfoldable pub parse_poe_state : Arithmetic → Value → Result (Option PoeState)
unfolding given_state
parse_poe_state arithmetic poe_config =
    if truthy poe_config then given_state arithmetic poe_config else ok none

-- The tests of `set_poe_limit` on the limit.
unfoldable pub check_poe_limit : Arithmetic → Float → Option PoeState → Result PoeState
check_poe_limit arithmetic limit none = err (action no_poe_state)
check_poe_limit arithmetic limit (some state) = do
  raise_if (arithmetic.less limit state.power_limit_min) (action below_minimum)
  raise_if (arithmetic.less state.power_limit_max limit) (action above_maximum)
  ok state

unfoldable pub poe_limit_form : Float → PoeState → List (String × Value)
poe_limit_form limit state =
    ("name_powerlimit", float limit)
    ∷ ("name_powerconsumption", float state.power_consumption)
    ∷ ("name_powerremain", float state.power_remain)
    ∷ ("applay", str "Apply")
    ∷ []

-- `_POE_PRIORITIES_SET_MAP`
unfoldable pub priority_code : PoePriority → ℕ
priority_code high_priority = 1
priority_code middle_priority = 2
priority_code low_priority = 3

-- `_POE_POWER_LIMITS_SET_MAP`
unfoldable pub level_code : PoePowerLimit → ℕ × Value
level_code auto_limit = (1, nil)
level_code limit_1 = (2, str "(4w)")
level_code limit_2 = (3, str "(7w)")
level_code limit_3 = (4, str "(15.4w)")
level_code limit_4 = (5, str "(30w)")

-- The floats 0.1 and 30.0.
abbrev pub lowest_watts : Float
lowest_watts = finite (pos 3602879701896397) (negsuc 54)

abbrev pub highest_watts : Float
highest_watts = finite (pos 15) (pos 1)

-- `ppowerlimit` and `ppowerlimit2`.
unfoldable pub limit_code : Arithmetic → PowerLimit → Result (ℕ × Value)
limit_code arithmetic (level limit) = ok (level_code limit)
limit_code arithmetic (watts x) =
    if arithmetic.at_most lowest_watts x && arithmetic.at_most x highest_watts
    then ok (6, float x)
    else err (action invalid_poe_limit)

-- The count of PoE ports; `None` and 0 are refused.
check_poe_port : ℤ → Value → Result ⊤
check_poe_port port_number (int z) = do
  raise_if (not (truthy (int z))) (action no_poe_ports)
  raise_if (ltb_ℤ z port_number) (action (above_port_count z))
check_poe_port port_number _ = err (action no_poe_ports)

unfoldable pub poe_port_form :
    Arithmetic → ℤ → Bool → PoePriority → PowerLimit → Value → Result (List (String × Value))
unfolding check_poe_port
poe_port_form arithmetic port_number enabled priority power_limit poe_ports_count = do
  check_poe_port port_number poe_ports_count
  limit ← limit_code arithmetic power_limit
  ok (
      ("name_pstate", int (pos (if enabled then 2 else 1)))
      ∷ ("name_ppriority", int (pos (priority_code priority)))
      ∷ ("name_ppowerlimit", int (pos limit.0))
      ∷ ("name_ppowerlimit2", limit.1)
      ∷ (str_append "sel_" (str_of_int port_number), int (pos 1))
      ∷ ("applay", str "Apply")
      ∷ [])

module _ (c : Client) (arithmetic : Arithmetic) where
  -- `if not await self.is_feature_available(FEATURE_POE): raise ...`
  unfoldable pub require_poe : ApiAction ⊤
  require_poe = is_feature_available c feature_poe >>>= λ found.
      lift (raise_if (not found) (action poe_unsupported))

  unfoldable pub get_port_poe_states : ApiAction (List PortPoeState)
  get_port_poe_states = is_feature_available c feature_poe >>>= λ found. elim found [
    | true ↦ on_session (
        fetch_variables c.library c.device c.account "PoeConfigRpm.htm"
          (("portConfig", dict_type) ∷ ("poe_port_num", int_type) ∷ [])
        >>>= λ data'. lift (parse_port_poe_states arithmetic data'))
    | false ↦ pure []
  ]

  unfoldable pub get_poe_state : ApiAction (Option PoeState)
  get_poe_state = is_feature_available c feature_poe >>>= λ found. elim found [
    | true ↦ on_session (
        fetch_variable c.library c.device c.account "PoeConfigRpm.htm" "globalConfig" dict_type
        >>>= λ poe_config. lift (parse_poe_state arithmetic poe_config))
    | false ↦ pure none
  ]

  unfoldable pub set_poe_limit : Float → ApiAction (Option String)
  set_poe_limit limit =
      require_poe
      >>> (get_poe_state >>>= λ current.
          lift (check_poe_limit arithmetic limit current) >>>= λ state.
          on_session (apply_post c "poe_global_config.cgi" (poe_limit_form limit state)))

  unfoldable pub set_port_poe_settings :
      ℤ → Bool → PoePriority → PowerLimit → ApiAction (Option String)
  set_port_poe_settings port_number enabled priority power_limit =
      require_poe
      >>> (lift (raise_if (ltb_ℤ port_number (pos 1)) (action (not_positive "Port number")))
          >>> (on_session (
                fetch_variable c.library c.device c.account "PoeConfigRpm.htm" "poe_port_num"
                  int_type)
              >>>= λ count.
                  lift (poe_port_form arithmetic port_number enabled priority power_limit count)
                  >>>= λ form. on_session (apply_post c "poe_port_config.cgi" form)))
