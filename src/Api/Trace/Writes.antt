-- ===== src/Api/Trace/Writes.antt =====
-- What each writing operation of the API sends: logins, the read of its page, and only requests that
-- its tests let through.
use hass_tplink_easy_smart.Base.{◌≡◌, refl, ap, String, List, [], ◌∷◌, ℕ}
use hass_tplink_easy_smart.Base.Lists.{length}
use hass_tplink_easy_smart.Ports.Mask.{decode_port_mask}
use hass_tplink_easy_smart.Base.Int.{ℤ, pos}
use hass_tplink_easy_smart.Python.{Value, int, Result, ok}
use hass_tplink_easy_smart.Classes.{LagState, Vlan8021QState, VlanPvidState}
use hass_tplink_easy_smart.Core.Session.Monad.{Request, Session, Action, lift, ◌>>=◌}
use hass_tplink_easy_smart.Core.Session.Calls.Trace.{
  Extends, Only, Only-lift, Only-bind, Only-bind_from,
}
use hass_tplink_easy_smart.Api.Query.{Param, number}
use hass_tplink_easy_smart.Api.Apply.{Client, apply_get}
use hass_tplink_easy_smart.Api.Trace.{
  Traffic, login, read, write, get_write, fetch_variables-Only, fetch_variable-Only, apply_get-Only,
}
use hass_tplink_easy_smart.Api.Lag.{get_lags, set_lag, lag_members, lag_form}
use hass_tplink_easy_smart.Api.Lag.Laws.{IsLag, lag_members-IsLag}
use hass_tplink_easy_smart.Api.Vlan.Tagged.{
  get_8021q_vlans, upsert_8021q_vlan, vlan_members, vlan_form,
}
use hass_tplink_easy_smart.Api.Vlan.Tagged.Laws.{
  IsVlan, IsMarking, marked_form, vlan_members-IsVlan, vlan_form-IsMarking,
}
use hass_tplink_easy_smart.Api.Vlan.Pvid.{get_pvids, set_pvid, pvid_form}
use hass_tplink_easy_smart.Api.Vlan.Pvid.Laws.{IsPvid, pvid_form_lem}

-- An operation that reads a state, tests its request against it, and writes the outcome.
module _ (c : Client) (page : String) (W : Request → Type 0) {State Out : Type 0} where
  checked_write :
      (load : Action State) (check : State → Result Out) (path : String)
      (form : State → Out → List (String × Param))
      → Only (Traffic c.account page W) load
      → ((state : State) (out : Out) (t : Session)
          → (load t).0 ≡ ok state
          → check state ≡ ok out
          → W (get_write path (form state out)))
      → Only
          (Traffic c.account page W)
          (load >>= λ state. lift (check state) >>= λ out. apply_get c path (form state out))
  checked_write load check path form reads allowed = Only-bind_from _ _ reads (λ state t loaded.
      Only-bind_from (lift (check state)) _ (Only-lift _) (λ out s passed.
        apply_get-Only c _ (λ e i. login i) path (form state out)
          (write _ refl (allowed state out t loaded passed))))

-- A write of `set_lag`: the form of a valid LAG of a state that `get_lags` returned.
pub record LagWrite (c : Client) (group_id : ℤ) (q : Request) : Type 0 where
  pub state : LagState
  pub session : Session
  pub loaded : (get_lags c session).0 ≡ ok state
  pub members : List ℕ
  pub valid : IsLag state group_id members
  pub request : q ≡ get_write "port_trunk_set.cgi" (lag_form group_id members)

get_lags-Only :
    (c : Client) (W : Request → Type 0) → Only (Traffic c.account "PortTrunkRpm.htm" W) (get_lags c)
unfolding get_lags
get_lags-Only c W =
    Only-bind _ _ (fetch_variables-Only c _ (λ e i. login i) _ _ (read refl)) (λ data'. Only-lift _)

-- Whatever the switch answers, `set_lag` sends nothing but logins, the read of the LAG page, and the
-- form of a valid LAG of a state that `get_lags` can return.
pub set_lag-trace :
    (c : Client) (group_id : ℤ) (ports : List Value) (s : Session)
    → Extends
        (Traffic c.account "PortTrunkRpm.htm" (LagWrite c group_id))
        s
        (set_lag c group_id ports s).1
unfolding set_lag
set_lag-trace c g ports s =
    (checked_write c _ _ (get_lags c) (λ state. lag_members state g ports) "port_trunk_set.cgi"
        (λ state members. lag_form g members) (get_lags-Only c _)
        (λ state members t loaded passed. record {
          state = state;
          session = t;
          loaded = loaded;
          members = members;
          valid = lag_members-IsLag state g ports passed;
          request = refl;
        })).at
      s

-- A write of `upsert_8021q_vlan`: the form that marks the members of a valid VLAN, by a state that
-- `get_8021q_vlans` returned.
pub record VlanWrite (c : Client) (vlan_id : ℤ) (name : String)
    (tagged_ports untagged_ports : List Value) (q : Request) : Type 0 where
  pub state : Vlan8021QState
  pub session : Session
  pub loaded : (get_8021q_vlans c session).0 ≡ ok state
  pub tagged : List ℕ
  pub untagged : List ℕ
  pub valid : IsVlan state vlan_id name tagged_ports untagged_ports tagged untagged
  pub mark : ℕ → ℕ
  pub marking : IsMarking tagged untagged mark
  pub request : q ≡ get_write "qvlanSet.cgi" (marked_form state vlan_id name mark)

get_8021q_vlans-Only :
    (c : Client) (W : Request → Type 0)
    → Only (Traffic c.account "Vlan8021QRpm.htm" W) (get_8021q_vlans c)
unfolding get_8021q_vlans
get_8021q_vlans-Only c W =
    Only-bind _ _ (fetch_variable-Only c _ (λ e i. login i) _ _ _ (read refl))
      (λ data'. Only-lift _)

-- Whatever the switch answers, `upsert_8021q_vlan` sends nothing but logins, the read of the VLAN
-- page, and the form of a valid VLAN by a state that `get_8021q_vlans` can return: its members are
-- the requested ports with their whole LAGs, all ports of the device, and the form marks the tagged
-- ones 1, the untagged ones 0 and the others 2.
pub upsert_8021q_vlan-trace :
    (c : Client) (vlan_id : ℤ) (name : String) (tagged_ports untagged_ports : List Value)
    (s : Session)
    → Extends
        (Traffic c.account "Vlan8021QRpm.htm"
          (VlanWrite c vlan_id name tagged_ports untagged_ports))
        s
        (upsert_8021q_vlan c vlan_id name tagged_ports untagged_ports s).1
unfolding upsert_8021q_vlan
upsert_8021q_vlan-trace c z name ts us s =
    (checked_write c _ _ (get_8021q_vlans c) (λ state. vlan_members state z name ts us)
        "qvlanSet.cgi" (λ state ports. vlan_form state z name ports.0 ports.1)
        (get_8021q_vlans-Only c _)
        (λ state ports t loaded passed.
          let valid = vlan_members-IsVlan state z name ts us passed in
          let (mark, marking, same) =
            vlan_form-IsMarking state z name ports.0 ports.1 valid.disjoint in
          record {
            state = state;
            session = t;
            loaded = loaded;
            tagged = ports.0;
            untagged = ports.1;
            valid = valid;
            mark = mark;
            marking = marking;
            request = ap (get_write "qvlanSet.cgi") same;
          })).at
      s

-- A write of `set_pvid`: the mask of ports that are members of the VLAN, by a state that `get_pvids`
-- returned.
pub record PvidWrite (c : Client) (ports : List Value) (vlan_id : ℤ) (q : Request) : Type 0 where
  pub state : VlanPvidState
  pub session : Session
  pub loaded : (get_pvids c session).0 ≡ ok state
  pub members : List ℕ
  pub mask : ℕ
  pub valid : IsPvid state ports vlan_id members
  pub request :
      q ≡ get_write "vlanPvidSet.cgi" (("pbm", number (pos mask)) ∷ ("pvid", number vlan_id) ∷ [])
  pub decoded : decode_port_mask (int (pos mask)) (length state.trunk_groups) ≡ ok members

get_pvids-Only :
    (c : Client) (W : Request → Type 0)
    → Only (Traffic c.account "Vlan8021QPvidRpm.htm" W) (get_pvids c)
unfolding get_pvids
get_pvids-Only c W =
    Only-bind _ _ (fetch_variable-Only c _ (λ e i. login i) _ _ _ (read refl))
      (λ data'. Only-lift _)

-- Whatever the switch answers, `set_pvid` sends nothing but logins, the read of the PVID page, and a
-- mask that decodes to members of the VLAN, by a state that `get_pvids` can return.
pub set_pvid-trace :
    (c : Client) (ports : List Value) (vlan_id : ℤ) (s : Session)
    → Extends
        (Traffic c.account "Vlan8021QPvidRpm.htm" (PvidWrite c ports vlan_id))
        s
        (set_pvid c ports vlan_id s).1
unfolding set_pvid
set_pvid-trace c ports z s =
    (checked_write c _ _ (get_pvids c) (λ state. pvid_form state ports z) "vlanPvidSet.cgi"
        (λ state params. params) (get_pvids-Only c _)
        (λ state params t loaded passed.
          let (members, mask, valid, e, decoded) = pvid_form_lem state ports z passed in
          record {
            state = state;
            session = t;
            loaded = loaded;
            members = members;
            mask = mask;
            valid = valid;
            request = ap (get_write "vlanPvidSet.cgi") e;
            decoded = decoded;
          })).at
      s
