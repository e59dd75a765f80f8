-- ===== src/Weaver/Ratelimit/Laws.antt =====
-- What the limiter keeps, and what a request takes.
use dash_fabric.Base.{ℕ, Bool, true, false, List, [], ◌∷◌, some, Bytes, bytes_eq, ◌≡◌, arith}
use dash_fabric.Base.Map.{Map, lookup, lookup-insert}
use dash_fabric.Weaver.Ratelimit.{
  Float64, TokenBucket, Limiter, Request, Dimension, Call, for_dimension, request, reset_all, key,
  id_for, new_limiter, bucket_allow, allow_for_dimension, allow_loop, allow, reset, step, run,
  find_or_new, take_tokens, min, rate_of,
}

module _ {W F : Type 0} (now : W → W × ℕ) (float : Float64 F) where
  -- The bucket that a request asks, and what it leaves.
  abbrev pub asked : Limiter F → Dimension → Bytes → W → W × TokenBucket F
  asked m dim id w =
      find_or_new now float (lookup (key dim id) m.limiters)
        (rate_of now float (lookup dim m.config)) w

  abbrev pub spent : Limiter F → Dimension → Bytes → W → TokenBucket F
  spent m dim id w =
      let (w1, limiter) = asked m dim id w in
      (bucket_allow now float limiter (float.literal 1) w1).1

  -- What follows a dimension that answered.
  abbrev pub next : Request → List Dimension → Limiter F → W → Bool → W × Limiter F × Bool
  next r dims m w ok = elim ok [ true ↦ allow_loop now float r dims m w | false ↦ (w, m, false) ]

  -- A bucket that does not hold more than its capacity.
  abbrev pub IsCapped : TokenBucket F → Type 0
  IsCapped b = float.lt b.capacity b.tokens ≡ false

  abbrev pub AllCapped : Limiter F → Type 0
  AllCapped m = (k : Bytes) (b : TokenBucket F) → lookup k m.limiters ≡ some b → IsCapped b

  module _ (lt_irrefl : (x : F) → float.lt x x ≡ false)
      (lt-sub : (c x : F)
        → float.lt c x ≡ false
        → float.ge x (float.literal 1) ≡ true
        → float.lt c (float.sub x (float.literal 1)) ≡ false) where
    min-Capped : (c x : F) → float.lt c (min now float c x) ≡ false
    min-Capped c x = ground (arith, lt_irrefl c)

    take-IsCapped :
        (b : TokenBucket F) → IsCapped b → IsCapped (take_tokens now float b (float.literal 1)).0
    take-IsCapped b h = ground (arith, lt-sub b.capacity b.tokens)

    bucket_allow-IsCapped :
        (b : TokenBucket F) (w : W) → IsCapped (bucket_allow now float b (float.literal 1) w).1
    unfolding bucket_allow
    bucket_allow-IsCapped b w = take-IsCapped _ (min-Capped b.capacity _)

    for_dimension-AllCapped :
        (m : Limiter F) (dim : Dimension) (id : Bytes) (w : W)
        → AllCapped m
        → AllCapped (allow_for_dimension now float m dim id w).1
    unfolding allow_for_dimension
    for_dimension-AllCapped m dim id w h k b e = ground (
      arith,
      lookup-insert (key dim id) k (spent m dim id w) m.limiters,
      h k b,
      bucket_allow-IsCapped (asked m dim id w).1 (asked m dim id w).0,
    )

    allow_loop-AllCapped :
        (r : Request) (dims : List Dimension) (m : Limiter F) (w : W)
        → AllCapped m
        → AllCapped (allow_loop now float r dims m w).1
    unfolding allow_loop
    allow_loop-AllCapped r [] m w h = h
    allow_loop-AllCapped r (dim ∷ dims) m w h =
        let (w1, m1, ok) = allow_for_dimension now float m dim (id_for r dim) w in
        let h1 = for_dimension-AllCapped m dim (id_for r dim) w h in
        elim ok as (λ o. AllCapped (next r dims m1 w1 o).1) [
          | true ↦ allow_loop-AllCapped r dims m1 w1 h1
          | false ↦ h1
        ]

    step-AllCapped :
        (m : Limiter F) (c : Call) (w : W) → AllCapped m → AllCapped (step now float m c w).1
    unfolding step allow reset lookup
    step-AllCapped m (for_dimension dim id) w h = for_dimension-AllCapped m dim id w h
    step-AllCapped m (request r) w h = allow_loop-AllCapped r m.dimensions m w h
    step-AllCapped m reset_all w h = λ k b e. cc

    run-AllCapped :
        (m : Limiter F) (cs : List Call) (w : W) → AllCapped m → AllCapped (run now float m cs w).1
    unfolding run
    run-AllCapped m [] w h = h
    run-AllCapped m (c ∷ cs) w h =
        run-AllCapped (step now float m c w).1 cs (step now float m c w).0 (step-AllCapped m c w h)

    -- At any point of any history of a new limiter, where float64 has no number below itself and
    -- where to take 1 from at least 1 does not make more of it, no bucket holds more tokens than its
    -- capacity.
    pub tokens-IsCapped :
        (config : Map Dimension F) (dims : List Dimension) (cs : List Call) (w : W) (k : Bytes)
        (b : TokenBucket F)
        → lookup k (run now float (new_limiter config dims) cs w).1.limiters ≡ some b
        → IsCapped b
    unfolding new_limiter lookup
    tokens-IsCapped config dims cs w = run-AllCapped (new_limiter config dims) cs w (λ k b e. cc)
