-- ===== src/Fm/Kinds/Tests.antt =====
-- Runs of the typed registries.
use dash_fabric.Base.{
  ◌≡◌, refl, true, List, [], ◌∷◌, Option, none, some, Bytes, bytes, Returns, bytes_eq,
}
use dash_fabric.Base.Map.{lookup, insert}
use dash_fabric.Base.Order.{sort, insert_sorted}
use dash_fabric.Base.Int.{pos}
use dash_fabric.Fm.Ids.{validate_id, contains_any}
use dash_fabric.Fm.SortDedup.{sort_dedup}
use dash_fabric.Fm.Registry
use dash_fabric.Fm.Kinds.Vnet
use dash_fabric.Fm.Kinds.Vnet.{VnetState, vnet_kind, run-IsVnet, IsVnet}
use dash_fabric.Fm.Typed.{Call, adds, acquires, get, run, add}

abbrev prod : VnetState
prod = record {
  vnet_id = bytes "prod";
  vni = 7;
  peer_vnet_ids = bytes "test" ∷ bytes "dev" ∷ bytes "test" ∷ [];
  spec_revision = pos 1;
  last_updated = 0;
}

abbrev vnet_calls : List (Call VnetState)
vnet_calls =
    adds (some prod)
    ∷ acquires (bytes "prod")
    ∷ adds (some (record prod { peer_vnet_ids = bytes "prod" ∷ [] }))
    ∷ adds none
    ∷ []

run-IsVnet_example :
    Returns
      (λ r.
        (k : Bytes) (p : Option VnetState)
        → get r k ≡ (p, true)
        → (s : VnetState) × (p ≡ some s) × IsVnet k s)
      (run vnet_kind Vnet.new vnet_calls)
run-IsVnet_example = run-IsVnet vnet_calls

-- The stored peers are sorted, each once.
prod_stored :
    add vnet_kind Vnet.new (some prod)
    ≡ some (
      record {
        entries =
            (
              bytes "prod",
              record {
                value = some (record prod { peer_vnet_ids = bytes "dev" ∷ bytes "test" ∷ [] });
                has_value = true;
                refs = pos 0;
                ready = 0;
              },
            )
            ∷ [];
        name = bytes "vnet";
        next_chan = 1;
        closed = 0 ∷ [];
      },
      none,
    )
unfolding add Registry.new Registry.add Vnet.validate validate_id contains_any sort_dedup sort
    insert_sorted lookup insert
prod_stored = refl
