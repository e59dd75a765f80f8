-- ===== src/Fm/Kinds/Acl.antt =====
-- src/FM/pkg/registry/acl/acl.go
use dash_fabric.Base.{
  ℕ, ◌≡◌, refl, true, false, List, Option, none, some, arith, Bytes, bytes, bytes_eq, ◌>>◌, fail_if,
  wrap, Returns,
}
use dash_fabric.Base.Int.{ℤ, pos, negsuc, ltb_ℤ}
use dash_fabric.Fm.Ids.{IdError, validate_id, IsId, validate_id_iff}
use dash_fabric.Fm.Registry
use dash_fabric.Fm.Typed.{Kind, TypedRegistry, Call, get, run}
use dash_fabric.Fm.Typed.Laws.{IsLawful, run-Good}

pub record AclGroupState : Type 0 where
  pub acl_group_id : Bytes
  pub vnet_id : Bytes
  pub rule_count : ℤ
  pub spec_revision : ℤ
  pub last_updated : ℕ

pub data Invalid : Type 0 where
  nil_state : Invalid
  bad_acl_group_id bad_vnet_id : IdError → Invalid
  negative_rule_count : ℤ → Invalid

unfoldable pub validate : Option AclGroupState → Option Invalid
validate none = some nil_state
validate (some a) = do
  wrap bad_acl_group_id (validate_id a.acl_group_id)
  wrap bad_vnet_id (validate_id a.vnet_id)
  fail_if (ltb_ℤ a.rule_count (pos 0)) (negative_rule_count a.rule_count)

abbrev pub acl_kind : Kind AclGroupState Invalid
acl_kind = record { id_of = λ a. a.acl_group_id; validate = validate; normalise = λ a. a }

abbrev pub new : TypedRegistry AclGroupState
new = Registry.new (bytes "acl")

-- An ACL group as the registry hands it out under the key `k`.
pub record IsAclGroup (k : Bytes) (a : AclGroupState) : Type 0 where
  pub own_key : a.acl_group_id ≡ k
  pub id_ok : IsId a.acl_group_id
  pub vnet_ok : IsId a.vnet_id
  pub rules_ok : (n : ℕ) × (a.rule_count ≡ pos n)

rules_ok_of : (z : ℤ) → ltb_ℤ z (pos 0) ≡ false → (n : ℕ) × (z ≡ pos n)
rules_ok_of (pos n) h = (n, refl)
rules_ok_of (negsuc n) h = absurd (ground arith)

acl-IsLawful : IsLawful acl_kind IsAclGroup
unfolding validate
acl-IsLawful = record {
  good = λ a h. record {
    own_key = refl;
    id_ok = (validate_id_iff a.acl_group_id).0 (ground arith);
    vnet_ok = (validate_id_iff a.vnet_id).0 (ground arith);
    rules_ok = rules_ok_of a.rule_count (ground arith);
  };
  no_nil = λ e. cc;
}

-- After any calls on a new ACL registry, none of which panics, whatever Get finds under a key is an
-- ACL group with that identifier, valid identifiers, and a rule count that is not negative.
pub run-IsAclGroup :
    (cs : List (Call AclGroupState))
    → Returns
        (λ r.
          (k : Bytes) (p : Option AclGroupState)
          → get r k ≡ (p, true)
          → (a : AclGroupState) × (p ≡ some a) × IsAclGroup k a)
        (run acl_kind new cs)
run-IsAclGroup cs = run-Good IsAclGroup acl_kind acl-IsLawful (bytes "acl") cs
