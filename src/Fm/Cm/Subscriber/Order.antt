-- ===== src/Fm/Cm/Subscriber/Order.antt =====
-- The events of a topic arrive in their order.
use dash_fabric.Base.{
  ℕ, ◌≤◌, ◌≡◌, refl, ap, List, [], ◌∷◌, ◌++◌, Option, none, some, Bytes, length, length-append,
  nat_beq, nat_beq_iff, if◌then◌else◌, arith,
}
use mathlib.Core.List.{append_assoc, append-nil}
use dash_fabric.Fm.Cm.Subscriber.{
  Phase, listening, forwarding, ended, after, capacity, Subscriber, update, tagged, new_subscriber,
  Step, answer, forward, stop_forwarding, stop_listening, read, cancel, close, close_again, Reach,
  here, onward,
}

module _ {E : Type 0} where
  -- The events of the topic at `i`.
  abbrev pub of : ℕ → List (ℕ × E) → List E
  of i [] = []
  of i ((j, e) ∷ es) = let rest = of i es in if nat_beq j i then e ∷ rest else rest

  -- Those that its goroutine has, or had when it returned.
  abbrev pub left : Phase E → List E
  left listening = []
  left (forwarding e es) = e ∷ es
  left (ended es) = es

  of-append : (i : ℕ) (xs ys : List (ℕ × E)) → of i (xs ++ ys) ≡ of i xs ++ of i ys
  of-append i [] ys = refl
  of-append i ((j, e) ∷ xs) ys = ground (arith, of-append i xs ys)

  of-tagged : (i j : ℕ) (es : List E) → of i (tagged j es) ≡ (if nat_beq j i then es else [])
  of-tagged i j [] = ground arith
  of-tagged i j (e ∷ es) = ground (arith, of-tagged i j es)

  left-after : (es : List E) → left (after es) ≡ es
  left-after [] = refl
  left-after (e ∷ es) = refl

  -- Of each topic, what was reported is what was delivered, what is in the channel and what its
  -- goroutine has left, in this order; and the channel keeps to its capacity.
  pub record InOrder (s : Subscriber E) : Type 0 where
    pub kept : (i : ℕ) → of i s.reported ≡ of i s.delivered ++ (of i s.event_ch ++ left (s.phase i))
    pub bound : length s.event_ch ≤ capacity

  -- The property of a subscriber, or a panic.
  abbrev pub UnlessPanic : (Subscriber E → Type 0) → Option (Subscriber E) → Type 0
  UnlessPanic P none = Unit
  UnlessPanic P (some s) = P s

  answer-kept :
      (s : Subscriber E) (i : ℕ) (es : List E) (j : ℕ)
      → InOrder s
      → s.phase i ≡ listening
      → of j (s.reported ++ tagged i es)
        ≡ of j s.delivered ++ (of j s.event_ch ++ left (update s.phase i (after es) j))
  answer-kept s i es j v h = ground (
    arith,
    v.kept j,
    of-append j s.reported (tagged i es),
    of-tagged j i es,
    left-after es,
    append-nil (of j s.event_ch),
    append-nil (of j s.reported),
    append_assoc (of j s.delivered) (of j s.event_ch) es,
    nat_beq_iff i j,
  )

  forward-kept :
      (s : Subscriber E) (i : ℕ) (e : E) (es : List E) (j : ℕ)
      → InOrder s
      → s.phase i ≡ forwarding e es
      → of j s.reported
        ≡ of j s.delivered
          ++ (of j (s.event_ch ++ (i, e) ∷ []) ++ left (update s.phase i (after es) j))
  forward-kept s i e es j v h = ground (
    arith,
    v.kept j,
    of-append j s.event_ch ((i, e) ∷ []),
    left-after es,
    append_assoc (of j s.event_ch) (e ∷ []) es,
    append-nil (of j s.event_ch),
    nat_beq_iff i j,
  )

  ended-kept :
      (s : Subscriber E) (i : ℕ) (es : List E) (j : ℕ)
      → InOrder s
      → left (s.phase i) ≡ es
      → of j s.reported
        ≡ of j s.delivered ++ (of j s.event_ch ++ left (update s.phase i (ended es) j))
  ended-kept s i es j v h = ground (arith, v.kept j, nat_beq_iff i j)

  read-kept :
      (s : Subscriber E) (i : ℕ) (e : E) (rest : List (ℕ × E)) (j : ℕ)
      → InOrder s
      → s.event_ch ≡ (i, e) ∷ rest
      → of j s.reported ≡ of j (s.delivered ++ (i, e) ∷ []) ++ (of j rest ++ left (s.phase j))
  read-kept s i e rest j v h = ground (
    arith,
    v.kept j,
    of-append j s.delivered ((i, e) ∷ []),
    append_assoc (of j s.delivered) (e ∷ []) (of j rest ++ left (s.phase j)),
    append-nil (of j s.delivered),
  )

  step-InOrder :
      {s : Subscriber E} {r : Option (Subscriber E)} → InOrder s → Step s r → UnlessPanic InOrder r
  step-InOrder {s = s} v (answer i es l h) = record {
    kept = λ j. answer-kept s i es j v h;
    bound = v.bound;
  }
  step-InOrder {s = s} v (forward i e es h l) = record {
    kept = λ j. forward-kept s i e es j v h;
    bound = omega (arith, length-append s.event_ch ((i, e) ∷ []));
  }
  step-InOrder {s = s} v (stop_forwarding i e es h c) = record {
    kept = λ j. ended-kept s i (e ∷ es) j v (ap left h);
    bound = v.bound;
  }
  step-InOrder {s = s} v (stop_listening i h c) = record {
    kept = λ j. ended-kept s i [] j v (ap left h);
    bound = v.bound;
  }
  step-InOrder {s = s} v (read i e rest h) = record {
    kept = λ j. read-kept s i e rest j v h;
    bound = omega (arith, v.bound, ap length h);
  }
  step-InOrder v cancel = record { kept = v.kept; bound = v.bound }
  step-InOrder v (close h) = record { kept = v.kept; bound = v.bound }
  step-InOrder v (close_again h) = tt

  Reach-keeps :
      {s : Subscriber E} {r : Option (Subscriber E)} → InOrder s → Reach s r → UnlessPanic InOrder r
  Reach-keeps v here = v
  Reach-keeps v (onward h st) = step-InOrder (Reach-keeps v h) st

  -- After any steps of a subscriber to topics, unless it panicked: the events that etcd reported of
  -- each topic are those that were read, then those in the channel, then those that the topic's
  -- goroutine has left or has dropped as it returned, in the order of the reports; and the channel
  -- holds at most 100.
  pub Reach-InOrder :
      (topics : List Bytes) {r : Option (Subscriber E)}
      → Reach (new_subscriber topics) r
      → UnlessPanic InOrder r
  unfolding new_subscriber
  Reach-InOrder topics reach = Reach-keeps (record { kept = λ i. refl; bound = omega arith }) reach
