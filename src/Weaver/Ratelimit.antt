-- ===== src/Weaver/Ratelimit.antt =====
-- src/Weaver/pkg/ratelimit/limiter.go: the token buckets and the limiter over several dimensions.
-- The arithmetic of float64 and the clock are arguments. Allow of a limiter holds its lock for one
-- dimension at a time, so that a call for one dimension is a step of its own.
use dash_fabric.Base.{
  ℕ, Bool, true, false, List, [], ◌∷◌, ◌++◌, Option, none, some, Bytes, bytes, bytes_eq, ◌==◌,
  if◌then◌else◌,
}
use dash_fabric.Base.Map.{Map, lookup, insert}
use dash_fabric.Base.Int.{ℤ, pos, inc64}
pub mod Laws
pub mod Global
mod Tests

-- What the code uses of float64. `seconds t u` is the time from t to u, in seconds.
pub record Float64 (F : Type 0) : Type 0 where
  pub add : F → F → F
  pub sub : F → F → F
  pub mul : F → F → F
  pub quot : F → F → F
  pub lt : F → F → Bool
  pub ge : F → F → Bool
  pub literal : ℕ → F
  pub seconds : ℕ → ℕ → F

pub record TokenBucket (F : Type 0) : Type 0 where
  pub capacity : F
  pub tokens : F
  pub refill_rate : F
  pub last_refill : ℕ

abbrev pub Dimension : Type 0
Dimension = Bytes

abbrev pub global : Dimension
global = bytes "global"

abbrev pub per_client : Dimension
per_client = bytes "per_client"

abbrev pub per_ip : Dimension
per_ip = bytes "per_ip"

abbrev pub per_tenant : Dimension
per_tenant = bytes "per_tenant"

pub record Limiter (F : Type 0) : Type 0 where
  pub limiters : Map Bytes (TokenBucket F)
  pub dimensions : List Dimension
  pub config : Map Dimension F

unfoldable pub new_limiter : {F : Type 0} → Map Dimension F → List Dimension → Limiter F
new_limiter config dimensions = record { limiters = []; dimensions = dimensions; config = config }

-- Who asks: the client, its address and its tenant.
pub record Request : Type 0 where
  pub client_id : Bytes
  pub client_ip : Bytes
  pub tenant_id : Bytes

abbrev pub or_empty : Option Bytes → Bytes
or_empty none = []
or_empty (some id) = id

-- checks[string(dim)]
unfoldable pub id_for : Request → Dimension → Bytes
id_for r dim = or_empty (
    lookup dim (
      (global, bytes "global")
      ∷ (per_client, r.client_id)
      ∷ (per_ip, r.client_ip)
      ∷ (per_tenant, r.tenant_id)
      ∷ []))

abbrev pub key : Dimension → Bytes → Bytes
key dim id = dim ++ bytes ":" ++ id

-- A capacity or a number of tokens of `none` is the int 0.
pub record Stats (F : Type 0) : Type 0 where
  pub dimension : Dimension
  pub id : Bytes
  pub capacity : Option F
  pub tokens : Option F

unfoldable pub get_stats : {F : Type 0} → Limiter F → Dimension → Bytes → Stats F
get_stats m dim id = elim (lookup (key dim id) m.limiters) [
  | none ↦ record { dimension = dim; id = id; capacity = none; tokens = none }
  | some b ↦ record { dimension = dim; id = id; capacity = some b.capacity; tokens = some b.tokens }
]

-- A history: the steps of Allow in any order, whole calls of Allow, and Reset.
pub data Call : Type 0 where
  for_dimension : Dimension → Bytes → Call
  request : Request → Call
  reset_all : Call

module _ {W F : Type 0} (now : W → W × ℕ) (float : Float64 F) where
  abbrev pub min : F → F → F
  min a b = if float.lt a b then a else b

  unfoldable pub new_token_bucket : F → F → W → W × TokenBucket F
  new_token_bucket capacity refill_rate w =
      let (w1, t) = now w in
      (
        w1,
        record {
          capacity = capacity;
          tokens = capacity;
          refill_rate = refill_rate;
          last_refill = t;
        },
      )

  abbrev pub refill : TokenBucket F → ℕ → ℕ → TokenBucket F
  refill tb since later = record {
    capacity = tb.capacity;
    tokens =
        min tb.capacity
          (float.add tb.tokens (float.mul (float.seconds tb.last_refill since) tb.refill_rate));
    refill_rate = tb.refill_rate;
    last_refill = later;
  }

  abbrev pub take_tokens : TokenBucket F → F → TokenBucket F × Bool
  take_tokens tb requested =
      if float.ge tb.tokens requested
      then (
        record {
          capacity = tb.capacity;
          tokens = float.sub tb.tokens requested;
          refill_rate = tb.refill_rate;
          last_refill = tb.last_refill;
        },
        true,
      )
      else (tb, false)

  -- The clock is read twice.
  unfoldable pub bucket_allow : TokenBucket F → F → W → W × TokenBucket F × Bool
  bucket_allow tb requested w =
      let (w1, since) = now w in
      let (w2, later) = now w1 in
      let (spent, ok) = take_tokens (refill tb since later) requested in (w2, spent, ok)

  abbrev pub rate_of : Option F → F
  rate_of none = float.literal 1000
  rate_of (some rate) = rate

  abbrev pub find_or_new : Option (TokenBucket F) → F → W → W × TokenBucket F
  find_or_new (some limiter) rate w = (w, limiter)
  find_or_new none rate w = new_token_bucket rate (float.quot rate (float.literal 60)) w

  unfoldable pub allow_for_dimension : Limiter F → Dimension → Bytes → W → W × Limiter F × Bool
  allow_for_dimension m dim id w =
      if id == []
      then (w, m, true)
      else let (w1, limiter) =
          find_or_new (lookup (key dim id) m.limiters) (rate_of (lookup dim m.config)) w in
        let (w2, spent, ok) = bucket_allow limiter (float.literal 1) w1 in
        (
          w2,
          record {
            limiters = insert (key dim id) spent m.limiters;
            dimensions = m.dimensions;
            config = m.config;
          },
          ok,
        )

  -- The loop of Allow stops at the first dimension that denies.
  unfoldable pub allow_loop : Request → List Dimension → Limiter F → W → W × Limiter F × Bool
  allow_loop r [] m w = (w, m, true)
  allow_loop r (dim ∷ dims) m w =
      let (w1, m1, ok) = allow_for_dimension m dim (id_for r dim) w in
      elim ok [ true ↦ allow_loop r dims m1 w1 | false ↦ (w1, m1, false) ]

  unfoldable pub allow : Limiter F → Request → W → W × Limiter F × Bool
  allow m r w = allow_loop r m.dimensions m w

  unfoldable pub reset : Limiter F → Limiter F
  reset m = record { limiters = []; dimensions = m.dimensions; config = m.config }

  unfoldable pub step : Limiter F → Call → W → W × Limiter F
  step m (for_dimension dim id) w = let (w1, m1, ok) = allow_for_dimension m dim id w in (w1, m1)
  step m (request r) w = let (w1, m1, ok) = allow m r w in (w1, m1)
  step m reset_all w = (w, reset m)

  unfoldable pub run : Limiter F → List Call → W → W × Limiter F
  run m [] w = (w, m)
  run m (c ∷ cs) w = let (w1, m1) = step m c w in run m1 cs w1

-- RateLimitCounter
unfoldable pub new_counter : ℤ
new_counter = pos 0

unfoldable pub record_exceeded : ℤ → ℤ
record_exceeded exceeded = inc64 exceeded

unfoldable pub reset_counter : ℤ → ℤ
reset_counter exceeded = pos 0
