-- ===== src/Weaver/Timeout/Tests.antt =====
-- The first of three attempts, with ten seconds left.
use dash_fabric.Base.{ℕ, suc, ◌-◌, ◌*◌, ◌≡◌, ◌≤◌, refl, some, arith}
use dash_fabric.Base.Int.{pos}
use dash_fabric.Weaver.Timeout.{TimeoutConfig, calculate_attempt_timeout}
use dash_fabric.Weaver.Timeout.Bounds.{fair_share}

abbrev config : TimeoutConfig
config = record {
  global_timeout = pos 15000000000;
  replica_timeout = pos 5000000000;
  connect_timeout = pos 1000000000;
  read_timeout = pos 4000000000;
}

fair_share_example :
    (r : ℕ) × (calculate_attempt_timeout config 7 10000000007 (pos 3) (pos 1) ≡ some (pos r))
    × (r ≤ 5000000000)
    × (suc (3 - 1) * r ≤ 10000000007 - 7)
fair_share_example =
    fair_share config 5000000000 7 10000000007 3 1 refl (omega arith) (omega arith) (omega arith)
