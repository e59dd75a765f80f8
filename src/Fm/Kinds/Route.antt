-- ===== src/Fm/Kinds/Route.antt =====
-- src/FM/pkg/registry/route/route.go
use dash_fabric.Base.{
  ℕ, ◌≡◌, refl, true, false, List, Option, none, some, arith, Bytes, bytes, bytes_eq, ◌>>◌, wrap,
  Returns,
}
use dash_fabric.Base.Int.{ℤ}
use dash_fabric.Fm.Ids.{IdError, validate_id, IsId, validate_id_iff}
use dash_fabric.Fm.Kinds.Addr.{Addr, AddrError, is_valid, is_unspecified, check_addr}
use dash_fabric.Fm.Registry
use dash_fabric.Fm.Typed.{Kind, TypedRegistry, Call, get, run}
use dash_fabric.Fm.Typed.Laws.{IsLawful, run-Good}

pub record RouteGroupState : Type 0 where
  pub route_group_id : Bytes
  pub vnet_id : Bytes
  pub next_hop : Addr
  pub spec_revision : ℤ
  pub last_updated : ℕ

pub data Invalid : Type 0 where
  nil_state : Invalid
  bad_route_group_id bad_vnet_id : IdError → Invalid
  bad_next_hop : AddrError → Invalid

unfoldable pub validate : Option RouteGroupState → Option Invalid
validate none = some nil_state
validate (some s) = do
  wrap bad_route_group_id (validate_id s.route_group_id)
  wrap bad_vnet_id (validate_id s.vnet_id)
  wrap bad_next_hop (check_addr s.next_hop)

abbrev pub route_kind : Kind RouteGroupState Invalid
route_kind = record { id_of = λ s. s.route_group_id; validate = validate; normalise = λ s. s }

abbrev pub new : TypedRegistry RouteGroupState
new = Registry.new (bytes "route")

-- A route group as the registry hands it out under the key `k`.
pub record IsRouteGroup (k : Bytes) (s : RouteGroupState) : Type 0 where
  pub own_key : s.route_group_id ≡ k
  pub id_ok : IsId s.route_group_id
  pub vnet_ok : IsId s.vnet_id
  pub hop_ok : (is_valid s.next_hop ≡ true) × (is_unspecified s.next_hop ≡ false)

route-IsLawful : IsLawful route_kind IsRouteGroup
unfolding validate
route-IsLawful = record {
  good = λ s h. record {
    own_key = refl;
    id_ok = (validate_id_iff s.route_group_id).0 (ground arith);
    vnet_ok = (validate_id_iff s.vnet_id).0 (ground arith);
    hop_ok = ground arith;
  };
  no_nil = λ e. cc;
}

-- After any calls on a new route registry, none of which panics, whatever Get finds under a key is a
-- route group with that identifier, valid identifiers, and a next hop that is set and specified.
pub run-IsRouteGroup :
    (cs : List (Call RouteGroupState))
    → Returns
        (λ r.
          (k : Bytes) (p : Option RouteGroupState)
          → get r k ≡ (p, true)
          → (s : RouteGroupState) × (p ≡ some s) × IsRouteGroup k s)
        (run route_kind new cs)
run-IsRouteGroup cs = run-Good IsRouteGroup route_kind route-IsLawful (bytes "route") cs
