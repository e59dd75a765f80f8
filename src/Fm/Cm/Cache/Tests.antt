-- ===== src/Fm/Cm/Cache/Tests.antt =====
-- A run of the deduplication cache.
use dash_fabric.Base.{◌≡◌, refl, ◌≤◌, true, false, List, [], ◌∷◌, arith, bytes, length}
use dash_fabric.Base.Map.{lookup, insert, delete}
use dash_fabric.Base.Int.{pos}
use dash_fabric.Fm.Cm.Cache.{new, check_and_store, evict_lru, back, size, clear}
use dash_fabric.Fm.Cm.Cache.Recency.{Call, checks, clears, run, values, spec_run, run-recency}

abbrev history : List Call
history =
    checks (bytes "a") 1
    ∷ checks (bytes "b") 2
    ∷ checks (bytes "a") 3
    ∷ checks (bytes "c") 4
    ∷ checks (bytes "b") 5
    ∷ clears
    ∷ checks (bytes "a") 6
    ∷ []

run-recency_example :
    let r = run (new (pos 2)) history in
    let known = spec_run 2 [] history in
    (r.1 ≡ known.1) × (values r.0.lru ≡ known.0) × (size r.0 ≡ length known.0) × (size r.0 ≤ 2)
run-recency_example = run-recency 2 history (omega arith)

answers : (run (new (pos 2)) history).1 ≡ false ∷ false ∷ true ∷ false ∷ false ∷ false ∷ []
unfolding run new check_and_store evict_lru back clear lookup insert delete
answers = refl
