-- ===== src/Fm/Config/Tests.antt =====
-- A change of a construct, handled by the manager that the factory makes.
use dash_fabric.Base.{false, [], ◌∷◌, List, some, Bytes, bytes}
use dash_fabric.Base.Map.{Map}
use dash_fabric.Base.Int.{pos}
use dash_fabric.Fm.Gm.Types.{ConstructState}
use dash_fabric.Fm.Gm.Generate.{JsonValue}
use dash_fabric.Fm.Gm.Manager.{proceed}
use dash_fabric.Fm.Config.Laws.{Call, to_start, to_handle}

abbrev construct : ConstructState
construct = record {
  id = bytes "eni-1";
  vnet_id = bytes "vnet-1";
  status = bytes "up";
  config_version = pos 1;
  tenant_id = [];
  construct_type = [];
  last_updated = 0;
  replica_id = [];
}

abbrev calls : List Call
calls = to_start ∷ to_handle proceed false (some construct) ∷ []

abbrev marshal : Map Bytes JsonValue → Bytes
marshal m = []
