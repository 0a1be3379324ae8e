-- ===== src/Api/Trace/Mirror.antt =====
-- What the write of the port mirror sends.
use hass_tplink_easy_smart.Base.{
  ◌≡◌, refl, ◌⊎◌, inl, inr, arith, ℕ, Bool, true, false, Option, String, List, [], ◌∷◌,
}
use hass_tplink_easy_smart.Base.Int.{ℤ, pos}
use hass_tplink_easy_smart.Base.Order.{contains, nat_ord}
use hass_tplink_easy_smart.Python.{Value, ok}
use hass_tplink_easy_smart.Classes.{PortMirrorState}
use hass_tplink_easy_smart.Core.Session.Monad.{Request, Session, lift}
use hass_tplink_easy_smart.Core.Session.Calls.Trace.{
  Extends, Only, Only-lift, Only-pure, Only-bind, Only-bind_from,
}
use hass_tplink_easy_smart.Api.Query.{Param, number, text}
use hass_tplink_easy_smart.Api.Vlan.Mtu.{number_of_bool}
use hass_tplink_easy_smart.Api.Apply.{Client, apply_get}
use hass_tplink_easy_smart.Api.Trace.{
  Traffic, login, read, write, get_write, fetch_variables-Only, apply_get-Only,
}
use hass_tplink_easy_smart.Api.Mirror.{
  Mirroring, mirroring, affected_ports, disable_form, destination_form, source_form,
  get_port_mirror, write_sources, write_mirroring, set_mirroring, set_port_mirror,
}
use hass_tplink_easy_smart.Api.Mirror.Laws.{IsMirroring, mirroring-IsMirroring}

-- The form that tells the switch which traffic of a port is mirrored.
abbrev pub source_marks : ℕ → Bool → Bool → List (String × Param)
source_marks port ingress egress =
    ("mirroredport", number (pos port))
    ∷ ("ingressState", number (number_of_bool ingress))
    ∷ ("egressState", number (number_of_bool egress))
    ∷ ("mirrored_submit", text "Apply")
    ∷ []

-- A write of `set_port_mirror`: if mirroring is to be disabled it does that, and otherwise it sets
-- the destination or an affected port of mirroring that passed the tests for a state that
-- `get_port_mirror` returned.
pub data MirrorWrite (c : Client) (enabled : Bool) (destination : Option ℤ)
    (ingress_ports egress_ports : List Value) (q : Request) : Type 0 where
  disable :
      enabled ≡ false
      → q ≡ get_write "mirror_enabled_set.cgi" disable_form
      → MirrorWrite c enabled destination ingress_ports egress_ports q
  enable :
      (current : PortMirrorState) (session : Session) (plan : Mirroring)
      → enabled ≡ true
      → (get_port_mirror c session).0 ≡ ok current
      → IsMirroring current destination ingress_ports egress_ports plan
      → (q ≡ get_write "mirror_enabled_set.cgi" (destination_form plan.destination))
        ⊎ ((port : ℕ) × (contains port (affected_ports current plan) ≡ true)
            × (q
                ≡ get_write "mirrored_port_set.cgi"
                    (source_marks port (contains port plan.ingress) (contains port plan.egress))))
      → MirrorWrite c enabled destination ingress_ports egress_ports q

contains-head : (p : ℕ) (ports : List ℕ) → contains p (p ∷ ports) ≡ true
unfolding contains
contains-head p ports = ground arith

contains-tail :
    (p port : ℕ) (ports : List ℕ) → contains p ports ≡ true → contains p (port ∷ ports) ≡ true
unfolding contains
contains-tail p port ports h = ground arith

get_port_mirror-Only :
    (c : Client) (W : Request → Type 0)
    → Only (Traffic c.account "PortMirrorRpm.htm" W) (get_port_mirror c)
unfolding get_port_mirror
get_port_mirror-Only c W =
    Only-bind _ _ (fetch_variables-Only c _ (λ e i. login i) _ _ (read refl)) (λ data'. Only-lift _)

module _ (c : Client) (page : String) (W : Request → Type 0) where
  get-Only :
      (path : String) (params : List (String × Param))
      → W (get_write path params)
      → Only (Traffic c.account page W) (apply_get c path params)
  get-Only path params w = apply_get-Only c _ (λ e i. login i) path params (write _ refl w)

  write_sources-Only :
      (plan : Mirroring) (ports : List ℕ)
      → ((port : ℕ)
          → contains port ports ≡ true
          → W (get_write "mirrored_port_set.cgi" (source_form plan port)))
      → Only (Traffic c.account page W) (write_sources c plan ports)
  unfolding write_sources
  write_sources-Only plan [] w = Only-pure tt
  write_sources-Only plan (port ∷ ports) w =
      Only-bind _ _ (get-Only _ _ (w port (contains-head port ports)))
        (λ _. write_sources-Only plan ports (λ p m. w p (contains-tail p port ports m)))

  write_mirroring-Only :
      (current : PortMirrorState) (plan : Mirroring)
      → W (get_write "mirror_enabled_set.cgi" (destination_form plan.destination))
      → ((port : ℕ)
          → contains port (affected_ports current plan) ≡ true
          → W (get_write "mirrored_port_set.cgi" (source_form plan port)))
      → Only (Traffic c.account page W) (write_mirroring c current plan)
  unfolding write_mirroring
  write_mirroring-Only current plan first rest =
      Only-bind _ _ (get-Only _ _ first)
        (λ _. write_sources-Only plan (affected_ports current plan) rest)

set_mirroring-Only :
    (c : Client) (current : PortMirrorState) (t : Session) (enabled : Bool) (destination : Option ℤ)
    (ingress egress : List Value)
    → (get_port_mirror c t).0 ≡ ok current
    → Only
        (Traffic c.account "PortMirrorRpm.htm" (MirrorWrite c enabled destination ingress egress))
        (set_mirroring c current enabled destination ingress egress)
unfolding set_mirroring source_form
set_mirroring-Only c current t false d i e loaded =
    Only-bind _ _ (get-Only c _ _ _ _ (disable refl refl)) (λ _. Only-pure tt)
set_mirroring-Only c current t true d i e loaded =
    Only-bind_from (lift (mirroring current d i e)) _ (Only-lift _) (λ plan _ passed.
      let valid = mirroring-IsMirroring current d i e passed in
      write_mirroring-Only c _ _ current plan (enable current t plan refl loaded valid (inl refl))
        (λ port m. enable current t plan refl loaded valid (inr (port, m, refl))))

-- Whatever the switch answers, `set_port_mirror` sends nothing but logins, the read of the mirror
-- page and, if mirroring is to be disabled, the form for that; otherwise the form of the destination
-- and the forms of the affected ports of valid mirroring, by a state that `get_port_mirror` can
-- return: it has the requested destination and sources, all of them ports of the device and in no
-- LAG, at least one source, and the destination is not a source. The form of a port says whether it
-- is an ingress and whether it is an egress source.
pub set_port_mirror-trace :
    (c : Client) (enabled : Bool) (destination : Option ℤ) (ingress egress : List Value)
    (s : Session)
    → Extends
        (Traffic c.account "PortMirrorRpm.htm" (MirrorWrite c enabled destination ingress egress))
        s
        (set_port_mirror c enabled destination ingress egress s).1
unfolding set_port_mirror
set_port_mirror-trace c enabled d i e s =
    (Only-bind_from (get_port_mirror c) _ (get_port_mirror-Only c _)
        (λ current t loaded. set_mirroring-Only c current t enabled d i e loaded)).at
      s
