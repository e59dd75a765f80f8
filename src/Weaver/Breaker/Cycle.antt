-- ===== src/Weaver/Breaker/Cycle.antt =====
-- Weaver's circuit breaker from closed to open, to half-open and back, at its thresholds.
use dash_fabric.Base.{ℕ, zero, suc, ◌+◌, ◌≤◌, ◌<◌, ◌≡◌, List, [], ◌∷◌, true, arith, length}
use dash_fabric.Base.Int.{pos, max64, leb_ℤ, since}
use dash_fabric.Weaver.Breaker.{
  closed, open', half_open, CircuitBreaker, allow, record_success, record_failure,
}

-- Failures, or successes, in a row.
abbrev pub failed_at : CircuitBreaker → List ℕ → CircuitBreaker
failed_at cb [] = cb
failed_at cb (now ∷ nows) = failed_at (record_failure cb now) nows

abbrev pub succeeded : ℕ → CircuitBreaker → CircuitBreaker
succeeded zero cb = cb
succeeded (suc n) cb = succeeded n (record_success cb)

-- A closed breaker that has counted `c` failures, and a half-open one that has counted `c` successes.
record Closed (t s c : ℕ) (cb : CircuitBreaker) : Type 0 where
  is_closed : cb.state ≡ closed
  fails_at : cb.failure_threshold ≡ pos t
  succeeds_at : cb.success_threshold ≡ pos s
  counted : cb.consecutive_failures ≡ pos c

record HalfOpen (s c : ℕ) (cb : CircuitBreaker) : Type 0 where
  is_half_open : cb.state ≡ half_open
  succeeds_at : cb.success_threshold ≡ pos s
  counted : cb.consecutive_successes ≡ pos c

one_failure :
    (t s c now : ℕ) (cb : CircuitBreaker)
    → Closed t s c cb
    → t ≤ max64
    → suc c < t
    → Closed t s (suc c) (record_failure cb now)
unfolding record_failure
one_failure t s c now cb h m l = record {
  is_closed = ground arith;
  fails_at = ground arith;
  succeeds_at = ground arith;
  counted = ground arith;
}

last_failure :
    (t s c now : ℕ) (cb : CircuitBreaker)
    → Closed t s c cb
    → t ≤ max64
    → suc c ≡ t
    → ((record_failure cb now).state ≡ open') × ((record_failure cb now).success_threshold ≡ pos s)
unfolding record_failure
last_failure t s c now cb h m l = (ground arith, ground arith)

stays_closed :
    (t s c : ℕ) (cb : CircuitBreaker) (nows : List ℕ)
    → Closed t s c cb
    → t ≤ max64
    → c + length nows < t
    → (failed_at cb nows).state ≡ closed
stays_closed t s c cb [] h m l = h.is_closed
stays_closed t s c cb (now ∷ nows) h m l =
    stays_closed t s (suc c) (record_failure cb now) nows
      (one_failure t s c now cb h m (omega arith)) m (omega arith)

opens :
    (t s c : ℕ) (cb : CircuitBreaker) (nows : List ℕ)
    → Closed t s c cb
    → t ≤ max64
    → c < t
    → c + length nows ≡ t
    → ((failed_at cb nows).state ≡ open') × ((failed_at cb nows).success_threshold ≡ pos s)
opens t s c cb [] h m p l = absurd (omega arith)
opens t s c cb (now ∷ []) h m p l = last_failure t s c now cb h m (omega arith)
opens t s c cb (now ∷ next ∷ nows) h m p l =
    opens t s (suc c) (record_failure cb now) (next ∷ nows)
      (one_failure t s c now cb h m (omega arith)) m (omega arith) (omega arith)

probes :
    (s now : ℕ) (cb : CircuitBreaker)
    → cb.state ≡ open'
    → cb.success_threshold ≡ pos s
    → leb_ℤ cb.timeout (since now cb.last_failure_time) ≡ true
    → HalfOpen s 0 (allow cb now).0
unfolding allow
probes s now cb o t w = record {
  is_half_open = ground arith;
  succeeds_at = ground arith;
  counted = ground arith;
}

relapses :
    (s now : ℕ) (cb : CircuitBreaker) → HalfOpen s 0 cb → (record_failure cb now).state ≡ open'
unfolding record_failure
relapses s now cb h = ground arith

one_success :
    (s c : ℕ) (cb : CircuitBreaker)
    → HalfOpen s c cb
    → s ≤ max64
    → suc c < s
    → HalfOpen s (suc c) (record_success cb)
unfolding record_success
one_success s c cb h m l = record {
  is_half_open = ground arith;
  succeeds_at = ground arith;
  counted = ground arith;
}

last_success :
    (s c : ℕ) (cb : CircuitBreaker)
    → HalfOpen s c cb
    → s ≤ max64
    → suc c ≡ s
    → (record_success cb).state ≡ closed
unfolding record_success
last_success s c cb h m l = ground arith

stays_half_open :
    (s c n : ℕ) (cb : CircuitBreaker)
    → HalfOpen s c cb
    → s ≤ max64
    → c + n < s
    → (succeeded n cb).state ≡ half_open
stays_half_open s c zero cb h m l = h.is_half_open
stays_half_open s c (suc n) cb h m l =
    stays_half_open s (suc c) n (record_success cb) (one_success s c cb h m (omega arith)) m
      (omega arith)

closes :
    (s c n : ℕ) (cb : CircuitBreaker)
    → HalfOpen s c cb
    → s ≤ max64
    → c < s
    → c + n ≡ s
    → (succeeded n cb).state ≡ closed
closes s c zero cb h m p l = absurd (omega arith)
closes s c (suc zero) cb h m p l = last_success s c cb h m (omega arith)
closes s c (suc (suc n)) cb h m p l =
    closes s (suc c) (suc n) (record_success cb) (one_success s c cb h m (omega arith)) m
      (omega arith) (omega arith)

-- A closed breaker that has counted no failure, with thresholds from 1 to the greatest int64, stays
-- closed for fewer failures in a row than its threshold, and is open after as many as that; a call
-- of Allow once the time-out has passed then makes it half-open; a failure opens it again; and it
-- stays half-open for fewer successes than its threshold, and is closed after as many as that.
pub cycle :
    (t s k : ℕ) (cb : CircuitBreaker) (few enough : List ℕ) (later again : ℕ)
    → cb.state ≡ closed
    → cb.consecutive_failures ≡ pos 0
    → cb.failure_threshold ≡ pos t
    → cb.success_threshold ≡ pos s
    → t ≤ max64
    → s ≤ max64
    → 0 < t
    → length few < t
    → length enough ≡ t
    → k < s
    → leb_ℤ (failed_at cb enough).timeout (since later (failed_at cb enough).last_failure_time)
      ≡ true
    → let probed = (allow (failed_at cb enough) later).0 in
      ((failed_at cb few).state ≡ closed)
      × ((failed_at cb enough).state ≡ open')
      × ((record_failure probed again).state ≡ open')
      × ((succeeded k probed).state ≡ half_open)
      × ((succeeded s probed).state ≡ closed)
cycle t s k cb few enough later again st count ft stt mt ms pt below all less waited =
    let start : Closed t s 0 cb = record {
      is_closed = st;
      fails_at = ft;
      succeeds_at = stt;
      counted = count;
    } in
    let (opened, kept) = opens t s 0 cb enough start mt pt (omega arith) in
    let half = probes s later (failed_at cb enough) opened kept waited in
    let probed = (allow (failed_at cb enough) later).0 in
    (
      stays_closed t s 0 cb few start mt (omega arith),
      opened,
      relapses s again probed half,
      stays_half_open s 0 k probed half ms (omega arith),
      closes s 0 s probed half ms (omega arith) (omega arith),
    )
