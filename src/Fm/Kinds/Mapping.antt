-- ===== src/Fm/Kinds/Mapping.antt =====
-- src/FM/pkg/registry/mapping/mapping.go
use dash_fabric.Base.{
  ℕ, ◌≡◌, refl, Bool, true, false, List, Option, none, some, arith, Bytes, bytes, bytes_eq, ◌>>◌,
  wrap, Returns,
}
use dash_fabric.Base.Int.{ℤ}
use dash_fabric.Fm.Ids.{IdError, validate_id, IsId, validate_id_iff}
use dash_fabric.Fm.Kinds.Addr.{Addr, AddrError, is_valid, is_unspecified, check_addr}
use dash_fabric.Fm.Registry
use dash_fabric.Fm.Typed.{Kind, TypedRegistry, Call, get, run}
use dash_fabric.Fm.Typed.Laws.{IsLawful, run-Good}

pub record MappingState : Type 0 where
  pub mapping_id : Bytes
  pub vnet_id : Bytes
  pub vip : Addr
  pub dip : Addr
  pub snat : Bool
  pub binding_time : ℕ
  pub spec_revision : ℤ
  pub last_updated : ℕ

pub data Invalid : Type 0 where
  nil_state : Invalid
  bad_mapping_id bad_vnet_id : IdError → Invalid
  bad_vip bad_dip : AddrError → Invalid

unfoldable pub validate : Option MappingState → Option Invalid
validate none = some nil_state
validate (some m) = do
  wrap bad_mapping_id (validate_id m.mapping_id)
  wrap bad_vnet_id (validate_id m.vnet_id)
  wrap bad_vip (check_addr m.vip)
  wrap bad_dip (check_addr m.dip)

abbrev pub mapping_kind : Kind MappingState Invalid
mapping_kind = record { id_of = λ m. m.mapping_id; validate = validate; normalise = λ m. m }

abbrev pub new : TypedRegistry MappingState
new = Registry.new (bytes "mapping")

-- A binding as the registry hands it out under the key `k`.
pub record IsMapping (k : Bytes) (m : MappingState) : Type 0 where
  pub own_key : m.mapping_id ≡ k
  pub id_ok : IsId m.mapping_id
  pub vnet_ok : IsId m.vnet_id
  pub vip_ok : (is_valid m.vip ≡ true) × (is_unspecified m.vip ≡ false)
  pub dip_ok : (is_valid m.dip ≡ true) × (is_unspecified m.dip ≡ false)

IsMapping-IsLawful : IsLawful mapping_kind IsMapping
unfolding validate
IsMapping-IsLawful = record {
  good = λ m h. record {
    own_key = refl;
    id_ok = (validate_id_iff m.mapping_id).0 (ground arith);
    vnet_ok = (validate_id_iff m.vnet_id).0 (ground arith);
    vip_ok = ground arith;
    dip_ok = ground arith;
  };
  no_nil = λ e. cc;
}

-- After any calls on a new mapping registry, none of which panics, whatever Get finds under a key is
-- a binding with that identifier, valid identifiers, and two addresses that are set and specified.
pub run-IsMapping :
    (cs : List (Call MappingState))
    → Returns
        (λ r.
          (k : Bytes) (p : Option MappingState)
          → get r k ≡ (p, true)
          → (m : MappingState) × (p ≡ some m) × IsMapping k m)
        (run mapping_kind new cs)
run-IsMapping cs = run-Good IsMapping mapping_kind IsMapping-IsLawful (bytes "mapping") cs
