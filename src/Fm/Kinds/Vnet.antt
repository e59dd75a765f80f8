-- ===== src/Fm/Kinds/Vnet.antt =====
-- src/FM/pkg/registry/vnet/vnet.go
use dash_fabric.Base.{
  ℕ, ◌+◌, ◌≡◌, ◌≢◌, refl, sym, ◌∙◌, true, false, List, [], ◌∷◌, Option, none, some, arith, Bytes,
  bytes, bytes_eq, bytes_beq, bytes_beq_iff, nat_beq, contains, ◌>>◌, fail_if, wrap, Returns,
}
use dash_fabric.Base.Int.{ℤ}
use dash_fabric.Base.Order.{IsAscending}
use dash_fabric.Fm.Ids.{IdError, validate_id, IsId, validate_id_iff}
use dash_fabric.Fm.SortDedup.{sort_dedup, sort_dedup_lem}
use dash_fabric.Fm.Registry
use dash_fabric.Fm.Typed.{Kind, TypedRegistry, Call, get, run}
use dash_fabric.Fm.Typed.Laws.{IsLawful, run-Good}

pub record VnetState : Type 0 where
  pub vnet_id : Bytes
  pub vni : ℕ  -- uint32
  pub peer_vnet_ids : List Bytes
  pub spec_revision : ℤ
  pub last_updated : ℕ

pub data Invalid : Type 0 where
  nil_state vni_reserved self_peer : Invalid
  bad_vnet_id : IdError → Invalid
  bad_peer : ℕ → IdError → Invalid

-- The loop over the peers, from index `i`.
validate_peers : Bytes → ℕ → List Bytes → Option Invalid
validate_peers own i [] = none
validate_peers own i (p ∷ ps) = do
  wrap (bad_peer i) (validate_id p)
  fail_if (bytes_beq p own) self_peer
  validate_peers own (i + 1) ps

unfoldable pub validate : Option VnetState → Option Invalid
unfolding validate_peers
validate none = some nil_state
validate (some v) = do
  wrap bad_vnet_id (validate_id v.vnet_id)
  fail_if (nat_beq v.vni 0) vni_reserved
  validate_peers v.vnet_id 0 v.peer_vnet_ids

abbrev pub sort_dedup_peers : VnetState → VnetState
sort_dedup_peers s = record s { peer_vnet_ids = sort_dedup s.peer_vnet_ids }

abbrev pub vnet_kind : Kind VnetState Invalid
vnet_kind = record { id_of = λ s. s.vnet_id; validate = validate; normalise = sort_dedup_peers }

abbrev pub new : TypedRegistry VnetState
new = Registry.new (bytes "vnet")

-- A VNET as the registry hands it out under the key `k`.
pub record IsVnet (k : Bytes) (s : VnetState) : Type 0 where
  pub own_key : s.vnet_id ≡ k
  pub id_ok : IsId s.vnet_id
  pub has_vni : s.vni ≢ 0
  pub ascending : IsAscending s.peer_vnet_ids
  pub peers_ok : (p : Bytes) → contains p s.peer_vnet_ids ≡ true → IsId p × (p ≢ s.vnet_id)

peers_pass :
    (own p : Bytes) (i : ℕ) (ps : List Bytes)
    → validate_peers own i ps ≡ none
    → contains p ps ≡ true
    → (validate_id p ≡ none) × (bytes_beq p own ≡ false)
unfolding validate_peers
peers_pass own p i [] h m = absurd (ground arith)
peers_pass own p i (q ∷ ps) h m = ground (arith, bytes_beq_iff q p, peers_pass own p (i + 1) ps)

validate-parts :
    (s : VnetState)
    → validate (some s) ≡ none
    → (validate_id s.vnet_id ≡ none)
      × (s.vni ≢ 0)
      × (validate_peers s.vnet_id 0 s.peer_vnet_ids ≡ none)
unfolding validate
validate-parts s h = (ground arith, ground arith, ground arith)

IsVnet-IsLawful : IsLawful vnet_kind IsVnet
unfolding validate
IsVnet-IsLawful = record {
  good = λ s h.
      let (id_passes, vni, peers) = validate-parts s h in
      let (ascending, kept) = sort_dedup_lem s.peer_vnet_ids in
      let pass = λ (p : Bytes) (m : contains p (sort_dedup s.peer_vnet_ids) ≡ true).
        peers_pass s.vnet_id p 0 s.peer_vnet_ids peers (sym (kept p) ∙ m) in
      record {
        own_key = refl;
        id_ok = (validate_id_iff s.vnet_id).0 id_passes;
        has_vni = vni;
        ascending = ascending;
        peers_ok = λ p m. (
          (validate_id_iff p).0 (pass p m).0,
          λ e. cc ((pass p m).1, (bytes_beq_iff p s.vnet_id).1 e),
        );
      };
  no_nil = λ e. cc;
}

-- After any calls on a new VNET registry, none of which panics, whatever Get finds under a key is a
-- VNET with that identifier, a VNI other than 0, and strictly ascending valid peers, none of which
-- is the VNET itself.
pub run-IsVnet :
    (cs : List (Call VnetState))
    → Returns
        (λ r.
          (k : Bytes) (p : Option VnetState)
          → get r k ≡ (p, true)
          → (s : VnetState) × (p ≡ some s) × IsVnet k s)
        (run vnet_kind new cs)
run-IsVnet cs = run-Good IsVnet vnet_kind IsVnet-IsLawful (bytes "vnet") cs
