-- ===== src/Fm/Kinds/Meter.antt =====
-- src/FM/pkg/registry/meter/meter.go
use dash_fabric.Base.{
  ℕ, ◌<◌, ◌≡◌, refl, true, List, Option, none, some, arith, Bytes, bytes, bytes_eq, nat_beq, ◌>>◌,
  fail_if, wrap, Returns,
}
use dash_fabric.Base.Int.{ℤ}
use dash_fabric.Fm.Ids.{IdError, validate_id, IsId, validate_id_iff}
use dash_fabric.Fm.Registry
use dash_fabric.Fm.Typed.{Kind, TypedRegistry, Call, get, run}
use dash_fabric.Fm.Typed.Laws.{IsLawful, run-Good}

pub record MeterPolicyState : Type 0 where
  pub meter_policy_id : Bytes
  pub vnet_id : Bytes
  pub rate_bps : ℕ  -- uint64
  pub burst_bps : ℕ  -- uint64
  pub spec_revision : ℤ
  pub last_updated : ℕ

pub data Invalid : Type 0 where
  nil_state zero_rate : Invalid
  bad_meter_policy_id bad_vnet_id : IdError → Invalid

unfoldable pub validate : Option MeterPolicyState → Option Invalid
validate none = some nil_state
validate (some m) = do
  wrap bad_meter_policy_id (validate_id m.meter_policy_id)
  wrap bad_vnet_id (validate_id m.vnet_id)
  fail_if (nat_beq m.rate_bps 0) zero_rate

abbrev pub meter_kind : Kind MeterPolicyState Invalid
meter_kind = record { id_of = λ m. m.meter_policy_id; validate = validate; normalise = λ m. m }

abbrev pub new : TypedRegistry MeterPolicyState
new = Registry.new (bytes "meter")

-- A meter policy as the registry hands it out under the key `k`.
pub record IsMeterPolicy (k : Bytes) (m : MeterPolicyState) : Type 0 where
  pub own_key : m.meter_policy_id ≡ k
  pub id_ok : IsId m.meter_policy_id
  pub vnet_ok : IsId m.vnet_id
  pub rate_ok : 0 < m.rate_bps

meter-IsLawful : IsLawful meter_kind IsMeterPolicy
unfolding validate
meter-IsLawful = record {
  good = λ m h. record {
    own_key = refl;
    id_ok = (validate_id_iff m.meter_policy_id).0 (ground arith);
    vnet_ok = (validate_id_iff m.vnet_id).0 (ground arith);
    rate_ok = ground arith;
  };
  no_nil = λ e. cc;
}

-- After any calls on a new meter registry, none of which panics, whatever Get finds under a key is a
-- meter policy with that identifier, valid identifiers, and a rate above 0.
pub run-IsMeterPolicy :
    (cs : List (Call MeterPolicyState))
    → Returns
        (λ r.
          (k : Bytes) (p : Option MeterPolicyState)
          → get r k ≡ (p, true)
          → (m : MeterPolicyState) × (p ≡ some m) × IsMeterPolicy k m)
        (run meter_kind new cs)
run-IsMeterPolicy cs = run-Good IsMeterPolicy meter_kind meter-IsLawful (bytes "meter") cs
