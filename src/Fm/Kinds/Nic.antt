-- ===== src/Fm/Kinds/Nic.antt =====
-- src/FM/pkg/registry/nic/nic.go. `parse_mac` is the verdict of net.ParseMAC.
use dash_fabric.Base.{
  ℕ, ◌+◌, ◌≡◌, refl, sym, ◌∙◌, Bool, true, false, not, ◌⊎◌, List, [], ◌∷◌, Option, none, some,
  arith, Bytes, bytes, bytes_eq, bytes_beq, bytes_beq_iff, contains, ◌>>◌, fail_if, wrap,
  >>-eq-none, wrap-eq-none, Returns, inl, inr, Bool-cases,
}
use dash_fabric.Base.Int.{ℤ}
use dash_fabric.Base.Order.{IsAscending}
use dash_fabric.Fm.Ids.{IdError, validate_id, IsId, validate_id_iff}
use dash_fabric.Fm.SortDedup.{sort_dedup, sort_dedup_lem}
use dash_fabric.Fm.Registry
use dash_fabric.Fm.Typed.{Kind, TypedRegistry, Call, get, run}
use dash_fabric.Fm.Typed.Laws.{IsLawful, run-Good}

pub record NicState : Type 0 where
  pub eni_id : Bytes
  pub vnet_id : Bytes
  pub mac_address : Bytes
  pub acl_group_ids : List Bytes
  pub route_group_id : Bytes
  pub meter_policy_id : Bytes
  pub spec_revision : ℤ
  pub last_updated : ℕ

pub data Invalid : Type 0 where
  nil_state empty_mac bad_mac : Invalid
  bad_eni_id bad_vnet_id bad_route_group_id bad_meter_policy_id : IdError → Invalid
  bad_acl_group_id : ℕ → IdError → Invalid

-- The loop over the ACL groups, from index `i`.
validate_groups : ℕ → List Bytes → Option Invalid
validate_groups i [] = none
validate_groups i (a ∷ as') = do
  wrap (bad_acl_group_id i) (validate_id a)
  validate_groups (i + 1) as'

-- An identifier that may be left empty.
abbrev validate_optional : (IdError → Invalid) → Bytes → Option Invalid
validate_optional f id = elim (bytes_beq id []) [ true ↦ none | false ↦ wrap f (validate_id id) ]

abbrev pub new : TypedRegistry NicState
new = Registry.new (bytes "nic")

module _ (parse_mac : Bytes → Bool) where
  unfoldable pub validate : Option NicState → Option Invalid
  unfolding validate_groups
  validate none = some nil_state
  validate (some n) = do
    wrap bad_eni_id (validate_id n.eni_id)
    wrap bad_vnet_id (validate_id n.vnet_id)
    fail_if (bytes_beq n.mac_address []) empty_mac
    fail_if (not (parse_mac n.mac_address)) bad_mac
    validate_groups 0 n.acl_group_ids
    validate_optional bad_route_group_id n.route_group_id
    validate_optional bad_meter_policy_id n.meter_policy_id

  abbrev pub sort_dedup_acl_groups : NicState → NicState
  sort_dedup_acl_groups n = record n { acl_group_ids = sort_dedup n.acl_group_ids }

  abbrev pub nic_kind : Kind NicState Invalid
  nic_kind = record {
    id_of = λ n. n.eni_id;
    validate = validate;
    normalise = sort_dedup_acl_groups;
  }

  -- An identifier that is empty, or passes the gate.
  abbrev IsOptionalId : Bytes → Type 0
  IsOptionalId id = (id ≡ []) ⊎ IsId id

  -- A NIC as the registry hands it out under the key `k`.
  pub record IsNic (k : Bytes) (n : NicState) : Type 0 where
    pub own_key : n.eni_id ≡ k
    pub id_ok : IsId n.eni_id
    pub vnet_ok : IsId n.vnet_id
    pub mac_ok : parse_mac n.mac_address ≡ true
    pub ascending : IsAscending n.acl_group_ids
    pub groups_ok : (a : Bytes) → contains a n.acl_group_ids ≡ true → IsId a
    pub route_ok : IsOptionalId n.route_group_id
    pub meter_ok : IsOptionalId n.meter_policy_id

  groups_pass :
      (a : Bytes) (i : ℕ) (as' : List Bytes)
      → validate_groups i as' ≡ none
      → contains a as' ≡ true
      → validate_id a ≡ none
  unfolding validate_groups
  groups_pass a i [] h m = absurd (ground arith)
  groups_pass a i (b ∷ bs) h m = ground (arith, bytes_beq_iff b a, groups_pass a (i + 1) bs)

  optional_passes :
      (f : IdError → Invalid) (id : Bytes) → validate_optional f id ≡ none → IsOptionalId id
  optional_passes f id h = elim (Bool-cases (bytes_beq id [])) [
    | inl e ↦ inl ((bytes_beq_iff id []).0 e)
    | inr e ↦ inr ((validate_id_iff id).0 (ground arith))
  ]

  validate-parts :
      (n : NicState)
      → validate (some n) ≡ none
      → (validate_id n.eni_id ≡ none)
        × (validate_id n.vnet_id ≡ none)
        × (parse_mac n.mac_address ≡ true)
        × (validate_groups 0 n.acl_group_ids ≡ none)
        × (validate_optional bad_route_group_id n.route_group_id ≡ none)
        × (validate_optional bad_meter_policy_id n.meter_policy_id ≡ none)
  unfolding validate
  validate-parts n h =
      let (eni, h1) = >>-eq-none _ _ h in
      let (vnet, h2) = >>-eq-none _ _ h1 in
      let (mac, h3) = >>-eq-none _ _ h2 in
      let (parsed, h4) = >>-eq-none _ _ h3 in
      let (groups, h5) = >>-eq-none _ _ h4 in
      let (route, meter) = >>-eq-none _ _ h5 in
      (
        wrap-eq-none bad_eni_id _ eni,
        wrap-eq-none bad_vnet_id _ vnet,
        parse_ok (parse_mac n.mac_address) parsed,
        groups,
        route,
        meter,
      )
    where
      parse_ok : (b : Bool) → fail_if (not b) bad_mac ≡ none → b ≡ true
      parse_ok true e = refl
      parse_ok false e = cc

  IsNic-IsLawful : IsLawful nic_kind IsNic
  unfolding validate
  IsNic-IsLawful = record {
    good = λ n h.
        let (eni, vnet, mac, groups, route, meter) = validate-parts n h in
        let (ascending, kept) = sort_dedup_lem n.acl_group_ids in
        record {
          own_key = refl;
          id_ok = (validate_id_iff n.eni_id).0 eni;
          vnet_ok = (validate_id_iff n.vnet_id).0 vnet;
          mac_ok = mac;
          ascending = ascending;
          groups_ok = λ a m.
              (validate_id_iff a).0 (groups_pass a 0 n.acl_group_ids groups (sym (kept a) ∙ m));
          route_ok = optional_passes bad_route_group_id n.route_group_id route;
          meter_ok = optional_passes bad_meter_policy_id n.meter_policy_id meter;
        };
    no_nil = λ e. cc;
  }

  -- After any calls on a new NIC registry, none of which panics, whatever Get finds under a key is a
  -- NIC with that identifier, valid ENI and VNET identifiers, a MAC address that parses, strictly
  -- ascending valid ACL groups, and route and meter identifiers that are empty or valid.
  pub run-IsNic :
      (cs : List (Call NicState))
      → Returns
          (λ r.
            (k : Bytes) (p : Option NicState)
            → get r k ≡ (p, true)
            → (n : NicState) × (p ≡ some n) × IsNic k n)
          (run nic_kind new cs)
  run-IsNic cs = run-Good IsNic nic_kind IsNic-IsLawful (bytes "nic") cs
