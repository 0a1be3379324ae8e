-- ===== src/Python/Errors.antt =====
-- The exceptions of `client/coreapi.py` and `client/tplink_api.py`, those that the coordinator and
-- the services raise, and those of Python that
-- their code meets. A message with values in it is a constructor that holds the values.
use hass_tplink_easy_smart.Base.{
  ℕ, String, ◌≡◌, refl, ◌⊎◌, inl, inr, Bool, true, false, Option, none, some, List,
}
use hass_tplink_easy_smart.Base.Int.{ℤ}

-- `APICALL_ERRCAT_*`
pub data Category : Type 0 where
  request unauthorized disconnected : Category

-- `AUTH_*`
pub data Reason : Type 0 where
  general cannot_connect credentials user_blocked too_many_users session_timeout : Reason

-- The messages of `DataFormatError`.
pub data FormatProblem : Type 0 where
  invalid_array : String → ℕ → FormatProblem
  invalid_integer : String → FormatProblem
  invalid_mac : FormatProblem
  missing invalid_limits invalid_port_count invalid_mode_of : String → FormatProblem

-- The messages of `ActionError`.
pub data ActionProblem : Type 0 where
  ports_not_integers no_port_selected : ActionProblem
  ports_out_of_range : ℕ → List ℤ → ActionProblem
  not_between : String → ℤ → ℤ → ActionProblem
  invalid_lag_size : ℕ → ActionProblem
  lag_ports_out_of_range : ℤ → ℕ → ℕ → ActionProblem
  mode_disabled : String → ActionProblem
  destination_required source_required destination_is_source : ActionProblem
  lag_member_ports : List ℕ → ActionProblem
  default_vlan invalid_name no_member : ActionProblem
  unknown_vlan : ℤ → ActionProblem
  tagged_and_untagged orphaned_ports : List ℕ → ActionProblem
  too_many_vlans : ℤ → ActionProblem
  not_members : ℤ → List ℕ → ActionProblem
  not_positive : String → ActionProblem
  poe_unsupported no_poe_state no_poe_ports : ActionProblem
  below_minimum above_maximum invalid_poe_limit : ActionProblem
  above_port_count : ℤ → ActionProblem
  invalid_mode not_port_based no_storm_type : ActionProblem

pub data Error : Type 0 where
  api_call : ℤ → Category → Error
  authentication : Reason → Error
  action : ActionProblem → Error
  data_format : FormatProblem → Error
  attribute_error type_error value_error overflow_error index_error struct_error other_error : Error
  update_failed configuration_error home_assistant_error service_not_found : Error

-- What a call returns, or the exception that it raises.
pub data Result {ℓ} (A : Type ℓ) : Type ℓ where
  ok : A → Result A
  err : Error → Result A

infixl 5 ◌>>=◌ ◌>>◌
module _ {ℓ κ} {A : Type ℓ} {B : Type κ} where
  abbrev pub ◌>>=◌ : Result A → (A → Result B) → Result B
  ◌>>=◌ (err raised) next = err raised
  ◌>>=◌ (ok value) next = next value

abbrev pub ◌>>◌ {κ} : {B : Type κ} → Result (Unit {0}) → Result B → Result B
first >> rest = first >>= λ _. rest

-- `if test: raise e`
abbrev pub raise_if : Bool → Error → Result (Unit {0})
raise_if true e = err e
raise_if false e = ok tt

-- `except (TypeError, ValueError) as ex: raise replacement from ex`
unfoldable pub replace_conversion_error {ℓ} : {A : Type ℓ} → Error → Result A → Result A
replace_conversion_error e (err type_error) = err e
replace_conversion_error e (err value_error) = err e
replace_conversion_error e (err other) = err other
replace_conversion_error e (ok a) = ok a

-- A chain that returns has a first step that returned.
module _ {ℓ κ} {A : Type ℓ} {B : Type κ} (next : A → Result B) where
  returned :
      (r : Result A) {out : B} → (r >>= next) ≡ ok out → (a : A) × (r ≡ ok a) × (next a ≡ ok out)
  returned (err raised) h = cc
  returned (ok value) h = (value, refl, h)

pub >>=-eq-ok {ℓ κ} :
    {A : Type ℓ} {B : Type κ} (first : Result A) (rest : A → Result B) {out : B}
    → (first >>= rest) ≡ ok out
    → (a : A) × (first ≡ ok a) × (rest a ≡ ok out)
>>=-eq-ok first rest = returned rest first

pub Result-cases {ℓ} :
    {A : Type ℓ} (r : Result A) → ((a : A) × (r ≡ ok a)) ⊎ ((e : Error) × (r ≡ err e))
Result-cases (ok a) = inl (a, refl)
Result-cases (err e) = inr (e, refl)

-- A handler that raises in place of an exception makes no result of one.
pub replace_conversion_error-ok {ℓ} :
    {A : Type ℓ} (e : Error) (r : Result A) {a : A} → replace_conversion_error e r ≡ ok a → r ≡ ok a
unfolding replace_conversion_error
replace_conversion_error-ok e (ok a) h = h
replace_conversion_error-ok e (err type_error) h = cc
replace_conversion_error-ok e (err value_error) h = cc
replace_conversion_error-ok e (err other) h = cc

-- An operation on floats that raises `OverflowError` on an integer too large for a float.
unfoldable pub or_overflow : {A : Type 0} → Option A → Result A
or_overflow none = err overflow_error
or_overflow (some a) = ok a
