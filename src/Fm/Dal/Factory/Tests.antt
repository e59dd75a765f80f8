-- ===== src/Fm/Dal/Factory/Tests.antt =====
-- Two goals, programmed by the plugin of the factory. A world is a clock that stands still.
use dash_fabric.Base.{ℕ, ◌≡◌, refl, false, List, [], ◌∷◌, none, some, Bytes, bytes, bytes_eq, map}
use dash_fabric.Base.Int.{ℤ, pos}
use dash_fabric.Fm.Gm.Types.{PerEniGoalState}
use dash_fabric.Fm.Resilience.Retry.{Context}
use dash_fabric.Fm.Dal.Dispatcher.{new, programmed}
use dash_fabric.Fm.Dal.Factory.{initialize_default_plugins}
use dash_fabric.Fm.Dal.Factory.Laws.{dispatch_all, applied, custom_programs}

abbrev live : Context ℕ
live = record { done = λ w. false; wait = λ a w. (w, false) }

abbrev no_text : ℕ → Bytes
no_text w = []

abbrev goal : Bytes → ℤ → PerEniGoalState
goal id version = record {
  eni_id = id;
  routes = [];
  acls = [];
  vip_mappings = [];
  fingerprint = bytes "f";
  version = version;
  last_updated = 0;
}

abbrev goals : List PerEniGoalState
goals = goal (bytes "eni-1") (pos 4) ∷ goal (bytes "eni-2") (pos 1) ∷ []

custom_programs_example :
    let r = initialize_default_plugins live no_text [] in
    (r.1 ≡ none)
    × (dispatch_all (λ w. w) live no_text (new r.0) goals 5
        ≡ (5, map (λ g. programmed (some (applied (λ w. w) live no_text g))) goals))
custom_programs_example = custom_programs (λ w. w) live no_text goals 5 refl
