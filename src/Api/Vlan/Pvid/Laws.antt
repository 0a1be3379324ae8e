-- ===== src/Api/Vlan/Pvid/Laws.antt =====
-- What `set_pvid` writes.
use hass_tplink_easy_smart.Base.{
  ℕ, ◌-◌, ◌≡◌, subst, true, false, not, inl, inr, List, [], ◌∷◌, arith, String,
}
use hass_tplink_easy_smart.Base.Int.{ℤ, pos}
use hass_tplink_easy_smart.Base.Lists.{length, keep, is_empty, All}
use hass_tplink_easy_smart.Base.Order.{contains, nat_ord, int_ord}
use hass_tplink_easy_smart.Python.{Value, int, ok, >>=-eq-ok, ◌>>=◌, Result-cases}
use hass_tplink_easy_smart.Classes.{VlanPvidState}
use hass_tplink_easy_smart.Ports.Mask.{has_bit, encode_port_mask, decode_port_mask}
use hass_tplink_easy_smart.Ports.Mask.Laws.{decode-encode}
use hass_tplink_easy_smart.Ports.Trunk.{expand_trunk_ports}
use hass_tplink_easy_smart.Ports.Trunk.Laws.{expand_trunk_ports-returns, expand_trunk_ports-InRange}
use hass_tplink_easy_smart.Api.Query.{Param, number}
use hass_tplink_easy_smart.Api.Vlan.Pvid.{mask_of, pvid_members, pvid_form}

abbrev pvid_params : ℤ → ℕ → List (String × Param)
pvid_params vlan_id mask = ("pbm", number (pos mask)) ∷ ("pvid", number vlan_id) ∷ []

All-kept :
    (vlan_mask : ℤ) (members : List ℕ)
    → is_empty (keep (λ port. not (has_bit vlan_mask (port - 1))) members) ≡ true
    → All (λ port. has_bit vlan_mask (port - 1) ≡ true) members
All-kept vlan_mask [] h = tt
All-kept vlan_mask (p ∷ members) h = ground (arith, All-kept vlan_mask members)

-- The ports of a PVID request that passed the tests.
pub record IsPvid (state : VlanPvidState) (ports : List Value) (vlan_id : ℤ) (members : List ℕ)
    : Type 0 where
  pub mode : state.enabled ≡ true
  pub expanded : expand_trunk_ports ports state.trunk_groups ≡ ok members
  pub chosen : is_empty members ≡ false
  pub known : contains vlan_id state.vlan_ids ≡ true
  pub vlan_mask : ℤ
  pub masked : mask_of vlan_id state.vlan_ids state.member_masks ≡ ok vlan_mask
  pub members_of : All (λ port. has_bit vlan_mask (port - 1) ≡ true) members

pvid_members-IsPvid :
    (state : VlanPvidState) (ports : List Value) (vlan_id : ℤ) {members : List ℕ}
    → pvid_members state ports vlan_id ≡ ok members
    → IsPvid state ports vlan_id members
unfolding pvid_members
pvid_members-IsPvid state ports z {members} h =
    elim (Result-cases (mask_of z state.vlan_ids state.member_masks)) [
      | inl (m, e) ↦ record {
        mode = ground (arith, e);
        expanded = ground (arith, e);
        chosen = ground (arith, e);
        known = ground (arith, e);
        vlan_mask = m;
        masked = e;
        members_of = All-kept m members (ground (arith, e));
      }
      | inr (x, e) ↦ absurd (ground (arith, e))
    ]

-- `set_pvid` writes only for ports that are members of an existing VLAN, in VLAN mode, with whole
-- LAGs; and the mask that it writes decodes to exactly these ports.
pub pvid_form_lem :
    (state : VlanPvidState) (ports : List Value) (vlan_id : ℤ) {params : List (String × Param)}
    → pvid_form state ports vlan_id ≡ ok params
    → (members : List ℕ) × (mask : ℕ) × IsPvid state ports vlan_id members
      × (params ≡ ("pbm", number (pos mask)) ∷ ("pvid", number vlan_id) ∷ [])
      × (decode_port_mask (int (pos mask)) (length state.trunk_groups) ≡ ok members)
unfolding pvid_form
pvid_form_lem state ports z {params} h =
    let (members, checked, written) =
      >>=-eq-ok (pvid_members state ports z)
        (λ members. encode_port_mask members >>= λ mask. ok (pvid_params z mask)) h in
    let (mask, encoded, e) =
      >>=-eq-ok (encode_port_mask members) (λ mask. ok (pvid_params z mask)) written in
    let p = pvid_members-IsPvid state ports z checked in
    let (selected, validated, ascending, _) =
      expand_trunk_ports-returns ports state.trunk_groups p.expanded in
    let (mask', encoded', decoded) =
      decode-encode (length state.trunk_groups) members ascending
        (expand_trunk_ports-InRange ports state.trunk_groups p.expanded) in
    let same : mask' ≡ mask = cc in
    (
      members,
      mask,
      p,
      ground arith,
      subst (λ m. decode_port_mask (int (pos m)) (length state.trunk_groups) ≡ ok members) same
          decoded,
    )
