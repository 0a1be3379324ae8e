-- ===== src/Api/Mirror.antt =====
-- `get_port_mirror` and `set_port_mirror`.
pub mod Laws
use hass_tplink_easy_smart.Base.{
  ℕ, zero, suc, ◌+◌, ◌-◌, ◌*◌, String, Bool, true, false, not, ◌&&◌, ◌||◌, Option, none, some, List,
  [], ◌∷◌, ◌++◌, map, ltb, leb, ◌==◌, if◌then◌else◌,
}
use hass_tplink_easy_smart.Base.Int.{ℤ, pos, negsuc, pos_part, ltb_ℤ, leb_ℤ, eqb_ℤ, ◌-ℤ◌}
use hass_tplink_easy_smart.Base.Lists.{length, keep, is_empty, take, drop, get_or}
use hass_tplink_easy_smart.Base.Order.{contains, sorted_set, nat_ord, int_ord}
use hass_tplink_easy_smart.Python.{
  Value, nil, str, int, bool, list, dict, Items, to_list, Result, ok, err, data_format, action,
  missing, invalid_port_count, invalid_mode_of, invalid_integer, not_between, not_port_based,
  invalid_mode, no_storm_type, destination_required, source_required, destination_is_source,
  lag_member_ports, value_error, to_int, truthy, equals_one, index, raise_if,
  replace_conversion_error, ◌>>=◌, ◌>>◌,
}
use hass_tplink_easy_smart.Classes.{
  PortSpeed, unknown, PortState, PortStatistics, IgmpSnoopingState, LoopPreventionState,
  PortMirrorState, QosMode, qos_mode_of, qos_mode_number, port_based, QosState, BandwidthControl,
  StormControl,
}
use hass_tplink_easy_smart.Core.Variables.{int_type, list_type, dict_type}
use hass_tplink_easy_smart.Core.Session.Monad.{
  Action, ⊤, pure, lift, emit, slept, raise_when, ◌>>=◌ as ◌>>>=◌, ◌>>◌ as ◌>>>◌,
}
use hass_tplink_easy_smart.Core.Session.Calls.{invalidate_authentication}
use hass_tplink_easy_smart.Core.Session.Variables.{fetch_variables, fetch_variable}
use hass_tplink_easy_smart.Ports.Mask.{has_bit}
use hass_tplink_easy_smart.Ports.Validate.{validate_ports}
use hass_tplink_easy_smart.Ports.Trunk.{ports_for_trunk, ports_where, group_of}
use hass_tplink_easy_smart.Api.Query.{Param, number, text, str_of_int}
use hass_tplink_easy_smart.Api.Apply.{Client, apply_get, apply_post}
use hass_tplink_easy_smart.Api.Fields.{
  Fields, get_default, get_value, require_list, port_speed, int_list, require_dict, require_count,
  trunk_groups_of, flag,
}
use hass_tplink_easy_smart.Api.Vlan.Mtu.{number_of_bool}
use Prim.Native.String.{◌++◌ as str_append}

-- `int(destination) if isinstance(destination, int) and 1 <= destination <= port_count else None`
destination_of : Value → ℕ → Option ℕ
destination_of (int z) port_count =
    if leb_ℤ (pos 1) z && leb_ℤ z (pos port_count) then some (pos_part z) else none
destination_of (bool true) port_count = if leb 1 port_count then some 1 else none
destination_of _ port_count = none

is_nonzero : ℤ → Bool
is_nonzero z = not (eqb_ℤ z (pos 0))

-- `get_port_mirror`, from the variables of the page on.
unfoldable pub parse_mirror : Fields → Result PortMirrorState
unfolding destination_of is_nonzero
parse_mirror data' = do
  port_count ← require_count (get_value data' "max_port_num") (invalid_port_count "Port mirroring")
  info ← require_dict (get_value data' "mirr_info") "mirr_info"
  ingress ← int_list (get_value info "ingress") "ingress" port_count
  egress ← int_list (get_value info "egress") "egress" port_count
  trunk_groups ← trunk_groups_of (get_value data' "porttrunkid") "porttrunkid" port_count
  ok (record {
    enabled = flag data' "MirrEn";
    port_count = port_count;
    destination_port = destination_of (get_value data' "MirrPort") port_count;
    ingress_ports = ports_where is_nonzero 1 ingress;
    egress_ports = ports_where is_nonzero 1 egress;
    trunk_groups = trunk_groups;
  })

-- What mirroring is set to.
pub record Mirroring : Type 0 where
  pub destination : ℕ
  pub ingress : List ℕ
  pub egress : List ℕ

unfoldable pub source_ports : Mirroring → List ℕ
source_ports plan = sorted_set (plan.ingress ++ plan.egress)

-- `lag_ports`, in the order of the test.
unfoldable pub lag_ports : List ℤ → List ℕ → List ℕ
lag_ports trunk_groups ports = keep (λ port. ltb_ℤ (pos 0) (group_of trunk_groups port)) ports

unfoldable pub destination_member : PortMirrorState → Option ℤ → Result ℕ
destination_member current none = err (action destination_required)
destination_member current (some port) = do
  ports ← validate_ports (int port ∷ []) current.port_count false
  index ports 0

-- The tests of `set_port_mirror` for `enabled`.
unfoldable pub mirroring : PortMirrorState → Option ℤ → List Value → List Value → Result Mirroring
mirroring current destination_port ingress_ports egress_ports = do
  destination ← destination_member current destination_port
  ingress ← validate_ports ingress_ports current.port_count true
  egress ← validate_ports egress_ports current.port_count true
  let plan : Mirroring = record { destination = destination; ingress = ingress; egress = egress }
  raise_if (is_empty (source_ports plan)) (action source_required)
  raise_if (contains destination (source_ports plan)) (action destination_is_source)
  let members = lag_ports current.trunk_groups (destination ∷ source_ports plan)
  raise_if (not (is_empty members)) (action (lag_member_ports (sorted_set members)))
  ok plan

unfoldable pub affected_ports : PortMirrorState → Mirroring → List ℕ
affected_ports current plan =
    sorted_set (current.ingress_ports ++ (current.egress_ports ++ source_ports plan))

unfoldable pub disable_form : List (String × Param)
disable_form = ("state", number (pos 0)) ∷ ("mirrorenable", text "Apply") ∷ []

unfoldable pub destination_form : ℕ → List (String × Param)
destination_form destination =
    ("state", number (pos 1))
    ∷ ("mirroringport", number (pos destination))
    ∷ ("mirrorenable", text "Apply")
    ∷ []

unfoldable pub source_form : Mirroring → ℕ → List (String × Param)
source_form plan port =
    ("mirroredport", number (pos port))
    ∷ ("ingressState", number (number_of_bool (contains port plan.ingress)))
    ∷ ("egressState", number (number_of_bool (contains port plan.egress)))
    ∷ ("mirrored_submit", text "Apply")
    ∷ []

module _ (c : Client) where
  unfoldable pub get_port_mirror : Action PortMirrorState
  get_port_mirror =
      fetch_variables c.library c.device c.account "PortMirrorRpm.htm" (
        ("max_port_num", int_type)
        ∷ ("MirrEn", int_type)
        ∷ ("MirrPort", int_type)
        ∷ ("mirr_info", dict_type)
        ∷ ("porttrunkid", list_type)
        ∷ [])
      >>>= λ data'. lift (parse_mirror data')

  -- The loop over the affected ports.
  unfoldable pub write_sources : Mirroring → List ℕ → Action ⊤
  write_sources plan [] = pure tt
  write_sources plan (port ∷ ports) =
      apply_get c "mirrored_port_set.cgi" (source_form plan port) >>> write_sources plan ports

  unfoldable pub write_mirroring : PortMirrorState → Mirroring → Action ⊤
  write_mirroring current plan =
      apply_get c "mirror_enabled_set.cgi" (destination_form plan.destination)
      >>> write_sources plan (affected_ports current plan)

  unfoldable pub set_mirroring :
      PortMirrorState → Bool → Option ℤ → List Value → List Value → Action ⊤
  set_mirroring current false destination_port ingress_ports egress_ports =
      apply_get c "mirror_enabled_set.cgi" disable_form >>> pure tt
  set_mirroring current true destination_port ingress_ports egress_ports =
      lift (mirroring current destination_port ingress_ports egress_ports) >>>= λ plan.
      write_mirroring current plan

  unfoldable pub set_port_mirror : Bool → Option ℤ → List Value → List Value → Action ⊤
  set_port_mirror enabled destination_port ingress_ports egress_ports =
      get_port_mirror >>>= λ current.
      set_mirroring current enabled destination_port ingress_ports egress_ports
