-- ===== src/Fm/Health/Laws.antt =====
-- The answer of /readyz against IsReady.
use dash_fabric.Base.{
  ◌≡◌, refl, Bool, true, false, [], ◌∷◌, Bytes, bytes, bytes_eq, arith, if◌then◌else◌, wrap,
}
use dash_fabric.Base.Map.{Map, lookup}
use dash_fabric.Fm.Health.{HealthChecker, is_ready, all_ready, readyz, readyz_loop}

abbrev pub status_text : Bool → Bytes
status_text ready = if ready then bytes "ready" else bytes "not_ready"

loop-all : (m : Map Bytes Bool) → (readyz_loop m).1 ≡ all_ready m
loop-all [] = refl
loop-all ((k, b) ∷ m) = ground (arith, loop-all m)

loop-lookup :
    (k : Bytes) (m : Map Bytes Bool) → lookup k (readyz_loop m).0 ≡ wrap status_text (lookup k m)
unfolding lookup
loop-lookup k [] = refl
loop-lookup k ((j, true) ∷ m) = ground (arith, loop-lookup k m)
loop-lookup k ((j, false) ∷ m) = ground (arith, loop-lookup k m)

-- /readyz answers 200 if IsReady does and 503 else, and its body tells of each service whether it
-- is ready.
pub readyz_lem :
    (hc : HealthChecker) (service : Bytes)
    → ((readyz hc).0 ≡ (if is_ready hc then 200 else 503))
      × (lookup service (readyz hc).1 ≡ wrap status_text (lookup service hc.services))
unfolding readyz is_ready
readyz_lem hc service = (rw (loop-all hc.services) refl, loop-lookup service hc.services)
