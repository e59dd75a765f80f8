-- ===== src/Fm/Cm/Pipeline/Laws.antt =====
-- What the event pipeline counts and forwards.
use dash_fabric.Base.{
  ℕ, suc, ◌+◌, ◌≤◌, ◌<◌, ◌≡◌, refl, sym, ◌∙◌, ap, Bool, List, [], ◌∷◌, ◌++◌, Option, arith,
  bytes_eq, is_some, length, Bool-cases, inl, inr, length-append,
}
use dash_fabric.Base.Int.{pos, max64, inc64-pos}
use dash_fabric.Fm.Cm.Cache.{LruCache, check_and_store}
use dash_fabric.Fm.Cm.Event.{Event}
use dash_fabric.Fm.Cm.Pipeline.{EventPipeline, new, handle_event, handle_event_loop}

-- The counters after `r` events: each was a duplicate, invalid, or valid, and what was forwarded
-- was valid and is what was sent.
pub record Tally {Float : Type 0} (p : EventPipeline Float) (r : ℕ) : Type 0 where
  pub duplicated : ℕ
  pub validated : ℕ
  pub errors : ℕ
  pub received_is : p.stats.events_received ≡ pos r
  pub duplicated_is : p.stats.events_duplicated ≡ pos duplicated
  pub validated_is : p.stats.events_validated ≡ pos validated
  pub errors_is : p.stats.validation_errors ≡ pos errors
  pub forwarded_is : p.stats.events_forwarded ≡ pos (length p.event_out)
  pub sum_is : duplicated + validated + errors ≡ r
  pub forwarded_le : length p.event_out ≤ validated

length-snoc : {A : Type 0} (xs : List A) (x : A) → length (xs ++ x ∷ []) ≡ suc (length xs)
length-snoc xs x = omega (arith, length-append xs (x ∷ []))

module _ {Float E : Type 0} (validate : Event Float → Option E) where
  handle_event-Tally :
      (p : EventPipeline Float) (event : Event Float) (now : ℕ) (stopped : Bool) (r : ℕ)
      → r < max64
      → Tally p r
      → Tally (handle_event validate p event now stopped).0 (suc r)
  unfolding handle_event
  handle_event-Tally p event now stopped r h t =
      let received = inc64-pos p.stats.events_received r h t.received_is in
      elim (Bool-cases (check_and_store p.cache event.fingerprint now).1) [
        | inl d ↦
            rw (d, handle_event)
              (record {
                duplicated = suc t.duplicated;
                validated = t.validated;
                errors = t.errors;
                received_is = received;
                duplicated_is =
                    inc64-pos p.stats.events_duplicated t.duplicated (omega arith) t.duplicated_is;
                validated_is = t.validated_is;
                errors_is = t.errors_is;
                forwarded_is = t.forwarded_is;
                sum_is = omega arith;
                forwarded_le = t.forwarded_le;
              })
        | inr d ↦ elim (Bool-cases (is_some (validate event))) [
          | inl v ↦
              rw (d, handle_event)
                (rw v (record {
                  duplicated = t.duplicated;
                  validated = t.validated;
                  errors = suc t.errors;
                  received_is = received;
                  duplicated_is = t.duplicated_is;
                  validated_is = t.validated_is;
                  errors_is =
                      inc64-pos p.stats.validation_errors t.errors (omega arith) t.errors_is;
                  forwarded_is = t.forwarded_is;
                  sum_is = omega arith;
                  forwarded_le = t.forwarded_le;
                }))
          | inr v ↦
              let validated =
                inc64-pos p.stats.events_validated t.validated (omega arith) t.validated_is in
              elim (Bool-cases stopped) [
                | inl s ↦
                    rw (d, handle_event)
                      (rw (v, s)
                        (record {
                          duplicated = t.duplicated;
                          validated = suc t.validated;
                          errors = t.errors;
                          received_is = received;
                          duplicated_is = t.duplicated_is;
                          validated_is = validated;
                          errors_is = t.errors_is;
                          forwarded_is = t.forwarded_is;
                          sum_is = omega arith;
                          forwarded_le = omega arith;
                        }))
                | inr s ↦
                    rw (d, handle_event)
                      (rw (v, s)
                        (record {
                          duplicated = t.duplicated;
                          validated = suc t.validated;
                          errors = t.errors;
                          received_is = received;
                          duplicated_is = t.duplicated_is;
                          validated_is = validated;
                          errors_is = t.errors_is;
                          forwarded_is =
                              inc64-pos p.stats.events_forwarded (length p.event_out) (omega arith)
                                t.forwarded_is
                              ∙ ap pos (sym (length-snoc p.event_out event));
                          sum_is = omega arith;
                          forwarded_le = omega (arith, length-snoc p.event_out event);
                        }))
              ]
        ]
      ]

  loop-Tally :
      (p : EventPipeline Float) (l : List (Event Float × ℕ × Bool)) (r : ℕ)
      → r + length l ≤ max64
      → Tally p r
      → (n : ℕ) × (n ≤ r + length l) × Tally (handle_event_loop validate p l) n
  unfolding handle_event_loop
  loop-Tally p [] r h t = (r, omega arith, t)
  loop-Tally p ((event, now, stopped) ∷ l) r h t =
      let q = handle_event validate p event now stopped in
      let t' = handle_event-Tally p event now stopped r (omega arith) t in
      let (n, le, rest) = loop-Tally q.0 l (suc r) (omega arith) t' in
      elim (Bool-cases q.1) [
        | inl e ↦ rw (e, handle_event_loop) (n, omega (arith, le), rest)
        | inr e ↦ rw (e, handle_event_loop) (suc r, omega arith, t')
      ]

  -- Over any run of the event loop on at most 2 ^ 63 - 1 events, every event that was received is
  -- counted once as a duplicate, as invalid, or as validated, and as many events were sent as are
  -- counted as forwarded, never more than were validated.
  pub loop-conserves :
      (cache : LruCache) (l : List (Event Float × ℕ × Bool))
      → length l ≤ max64
      → (n : ℕ) × (n ≤ length l) × Tally (handle_event_loop validate (new cache) l) n
  unfolding new
  loop-conserves cache l h =
      let (n, le, t) = loop-Tally (new cache) l 0 (omega arith) (record {
        duplicated = 0;
        validated = 0;
        errors = 0;
        received_is = refl;
        duplicated_is = refl;
        validated_is = refl;
        errors_is = refl;
        forwarded_is = refl;
        sum_is = omega arith;
        forwarded_le = omega arith;
      }) in
      (n, omega (arith, le), t)
