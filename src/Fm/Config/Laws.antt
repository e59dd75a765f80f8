-- ===== src/Fm/Config/Laws.antt =====
-- The goal states of the manager that the factory wires.
use dash_fabric.Base.{Bool, List, [], ◌∷◌, Option, Bytes, bytes_eq}
use dash_fabric.Base.Map.{Map}
use dash_fabric.Fm.Gm.Types.{ConstructState}
use dash_fabric.Fm.Gm.Generate.{JsonValue, generate}
use dash_fabric.Fm.Gm.Cache as Cache
use dash_fabric.Fm.Gm.Manager.{Select, handle_construct_change, start, stop}
use dash_fabric.Fm.Config.{WiredManager}

-- A call of the manager.
pub data Call : Type 0 where
  to_start : Call
  to_stop : Call
  to_handle : Select → Bool → Option ConstructState → Call

module _ (marshal : Map Bytes JsonValue → Bytes) (sha256_hex : Bytes → Bytes) where
  abbrev pub perform : WiredManager → Call → WiredManager
  perform m to_start = record m { manager = (start m.manager).0 }
  perform m to_stop = record m { manager = (stop m.manager).0 }
  perform m (to_handle found cancelled construct) = record m {
    manager =
        (handle_construct_change m.aggregate (generate marshal sha256_hex cancelled) m.manager found
          construct).0;
  }

  abbrev pub perform_all : WiredManager → List Call → WiredManager
  perform_all m [] = m
  perform_all m (c ∷ cs) = perform_all (perform m c) cs
