-- ===== src/Fm/Cm/Event.antt =====
-- The fingerprint of an event, src/FM/pkg/cm/types.go, and the events that the subscriber makes of
-- etcd's, src/FM/pkg/cm/subscriber.go. SHA-256 in hexadecimal and strconv.FormatFloat are
-- parameters.
use dash_fabric.Base.{
  ℕ, Bool, true, false, List, [], ◌∷◌, ◌++◌, Option, some, Bytes, bytes, bytes_eq,
}
use dash_fabric.Base.Map.{Map, lookup}
use dash_fabric.Base.Order.{sort}

-- interface{} as far as the fingerprint reads it.
pub data Value (Float : Type 0) : Type 0 where
  text : Bytes → Value Float
  number : Float → Value Float
  truth : Bool → Value Float
  other : Value Float

pub record Event (Float : Type 0) : Type 0 where
  pub id : Bytes
  pub vnet_id : Bytes
  pub kind : Bytes
  pub timestamp : ℕ
  pub payload : Map Bytes (Value Float)
  pub fingerprint : Bytes

abbrev pub keys : {A : Type 0} → Map Bytes A → List Bytes
keys [] = []
keys ((k, v) ∷ m) = k ∷ keys m

unfoldable pub sorted_keys : {A : Type 0} → Map Bytes A → List Bytes
sorted_keys m = sort (keys m)

abbrev pub format_bool : Bool → Bytes
format_bool true = bytes "true"
format_bool false = bytes "false"

module _ {Float : Type 0} (format_float : Float → Bytes) where
  unfoldable pub interface_to_string : Option (Value Float) → Bytes
  interface_to_string (some (text s)) = s
  interface_to_string (some (number f)) = format_float f
  interface_to_string (some (truth b)) = format_bool b
  interface_to_string _ = []

  unfoldable pub join : Map Bytes (Value Float) → List Bytes → Bytes
  join m [] = []
  join m (k ∷ ks) = k ++ bytes ":" ++ interface_to_string (lookup k m) ++ bytes ";" ++ join m ks

  unfoldable pub canonical_json : Map Bytes (Value Float) → Bytes
  canonical_json m = join m (sorted_keys m)

  unfoldable pub compute_fingerprint : (Bytes → Bytes) → Event Float → Bytes
  compute_fingerprint sha256_hex e = sha256_hex (canonical_json e.payload)

  -- The event that watchTopic forwards for a key of etcd.
  unfoldable pub watched_event : (Bytes → Bytes) → Bytes → ℕ → Event Float
  watched_event sha256_hex key now =
      let evt : Event Float = record {
        id = key;
        vnet_id = [];
        kind = bytes "CB-Event";
        timestamp = now;
        payload = [];
        fingerprint = [];
      } in
      record evt { fingerprint = compute_fingerprint sha256_hex evt }
