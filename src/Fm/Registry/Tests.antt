-- ===== src/Fm/Registry/Tests.antt =====
-- Runs of the shared registry.
use dash_fabric.Base.{ℕ, ◌≡◌, refl, true, List, [], ◌∷◌, some, arith, nat_eq, Returns, bytes}
use dash_fabric.Base.Map.{lookup, insert, delete}
use dash_fabric.Base.Int.{pos}
use dash_fabric.Fm.Registry.{Registry, new, acquire, add, release}
use dash_fabric.Fm.Registry.Laws.{IsValid, new-IsValid, acquire-IsValid}
use dash_fabric.Fm.Registry.Channels.{Added, add_closes}
use dash_fabric.Fm.Registry.Refinement.{
  Op, acquires, releases, adds, run, Shows, spec_run, spec_new, run-refines, step,
}

abbrev history : List (Op ℕ ℕ)
history = adds 7 70 ∷ acquires 7 ∷ acquires 8 ∷ releases 7 ∷ releases 9 ∷ adds 8 80 ∷ []

run-refines_example :
    (r : Registry ℕ ℕ) × (run 0 (new (bytes "vnet")) history ≡ some r)
    × IsValid r
    × Shows 0 r (spec_run spec_new history)
run-refines_example = run-refines 0 (bytes "vnet") history (omega arith)

-- A cold-written key goes with its last reference; a waiting key is ready once its value is there.
abbrev after_history : Registry ℕ ℕ
after_history = record {
  entries = (8, record { value = 80; has_value = true; refs = pos 1; ready = 1 }) ∷ [];
  name = bytes "vnet";
  next_chan = 2;
  closed = 1 ∷ 0 ∷ [];
}

history_runs : run 0 (new (bytes "vnet")) history ≡ some after_history
unfolding run step new acquire add release lookup insert delete
history_runs = refl

abbrev held : Registry ℕ ℕ
held = (acquire 0 (new (bytes "vnet")) 5).0

add_closes_example : Returns (λ r. IsValid r × Added 0 held 5 50 r) (add 0 held 5 50)
add_closes_example =
    add_closes 0 held 5 50 (acquire-IsValid (new (bytes "vnet")) 5 (new-IsValid (bytes "vnet")) 0)
