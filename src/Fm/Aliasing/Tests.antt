-- ===== src/Fm/Aliasing/Tests.antt =====
-- A client that adds a VNET, spoils it, and spoils the copy that Get hands it.
use dash_fabric.Base.{◌≡◌, refl, true, [], ◌∷◌, some, bytes, bytes_eq}
use dash_fabric.Base.Int.{pos}
use dash_fabric.Base.Map.{lookup, insert}
use dash_fabric.Base.Order.{sort, insert_sorted}
use dash_fabric.Fm.Ids.{validate_id, contains_any}
use dash_fabric.Fm.SortDedup.{sort_dedup}
use dash_fabric.Fm.Registry
use dash_fabric.Fm.Typed
use dash_fabric.Fm.Typed.{run}
use dash_fabric.Fm.Kinds.Vnet
use dash_fabric.Fm.Kinds.Vnet.{validate, vnet_kind}
use dash_fabric.Fm.Aliasing.{
  VnetObject, Store, World, new_world, Reach, here, onward, make_array, make_object, write_object,
  write_array, adds, gets, add, get, clone, read, sort_dedup_peers,
}
use dash_fabric.Fm.Aliasing.Laws.{states}
use dash_fabric.Fm.Aliasing.Calls.{Reach-run, calls}

abbrev prod : VnetObject
prod = record {
  vnet_id = bytes "prod";
  vni = 7;
  peers = some (record { array = 0; len = 3 });
  spec_revision = pos 1;
  last_updated = 0;
}

-- What the client makes, and the copy that Add makes
abbrev added : Store
added = record {
  heap = record {
    objects = prod ∷ record prod { peers = some (record { array = 1; len = 2 }) } ∷ [];
    arrays =
        (bytes "test" ∷ bytes "dev" ∷ bytes "test" ∷ []) ∷ (bytes "dev" ∷ bytes "test" ∷ []) ∷ [];
  };
  inner = record {
    entries =
        (bytes "prod", record { value = some 1; has_value = true; refs = pos 0; ready = 0 }) ∷ [];
    name = bytes "vnet";
    next_chan = 1;
    closed = 0 ∷ [];
  };
}

abbrev history : (w : World) × Reach new_world w
unfolding add get clone sort_dedup_peers validate validate_id contains_any sort_dedup sort
    insert_sorted Registry.add Registry.get Registry.new lookup insert
history = (
  _,
  onward
      (onward
        (onward
          (onward
            (onward
              (onward (onward here (make_array (bytes "test" ∷ bytes "dev" ∷ bytes "test" ∷ [])))
                (make_object prod refl))
              (adds 0 added refl refl))
            (write_object 0 (record prod { vni = 0 }) refl refl))
          (write_array 0 [] refl))
        (gets (bytes "prod") 2 refl))
      (write_array 2 (bytes "prod" ∷ []) refl),
)

Reach-run_example :
    (run vnet_kind Vnet.new (calls history.1) ≡ some (states history.0.store))
    × (read (get history.0.store (bytes "prod")).0.heap (get history.0.store (bytes "prod")).1
        ≡ (Typed.get (states history.0.store) (bytes "prod")).0)
Reach-run_example = Reach-run history.1 (bytes "prod")

-- The stored state is what it was, while the objects that the client holds are spoilt.
prod_kept :
    read history.0.store.heap (some 1)
    ≡ some (record {
      vnet_id = bytes "prod";
      vni = 7;
      peer_vnet_ids = bytes "dev" ∷ bytes "test" ∷ [];
      spec_revision = pos 1;
      last_updated = 0;
    })
unfolding history
prod_kept = refl
