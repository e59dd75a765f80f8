-- ===== src/Fm/Cm/Pipeline/Watched.antt =====
-- The event pipeline on the events that the subscriber makes of etcd's, and a second start.
use dash_fabric.Base.{
  ℕ, zero, suc, ◌≤◌, ◌<◌, ◌≡◌, refl, sym, ◌∙◌, subst, Bool, true, false, List, [], ◌∷◌, Option,
  none, some, arith, Bytes, bytes_eq, bytes_beq_iff, if-elim, wrap, length, contains, length-append,
}
use dash_fabric.Base.Int.{pos}
use dash_fabric.Fm.Cm.Cache.{LruCache, check_and_store}
use dash_fabric.Fm.Cm.Cache as Cache
use dash_fabric.Fm.Cm.Cache.Laws.{IsSound, check-IsSound}
use dash_fabric.Fm.Cm.Cache.Recency.{values, spec_check, check-refines, new-IsSound}
use dash_fabric.Fm.Cm.Event.{Event, watched_event, compute_fingerprint, canonical_json}
use dash_fabric.Fm.Cm.Pipeline.{
  EventPipeline, new, start, stop, handle_event, handle_event_loop, failed_to_close,
}

spec_check-keeps :
    (n : ℕ) (l : List Bytes) (v : Bytes) → 0 < n → contains v (spec_check n l v).0 ≡ true
spec_check-keeps zero l v h = absurd (omega arith)
spec_check-keeps (suc n) l v h = ground (arith, bytes_beq_iff v v)

spec_check-known :
    (n : ℕ) (l : List Bytes) (v : Bytes) → contains v l ≡ true → (spec_check n l v).1 ≡ true
spec_check-known n l v h = rw h

-- A cache that has seen a fingerprint.
record HasSeen (n : ℕ) (v : Bytes) (c : LruCache) : Type 0 where
  sound : IsSound n c
  seen : contains v (values c.lru) ≡ true

check-HasSeen :
    (n : ℕ) (c : LruCache) (v : Bytes) (now : ℕ)
    → 0 < n
    → IsSound n c
    → HasSeen n v (check_and_store c v now).0
check-HasSeen n c v now h s = record {
  sound = check-IsSound n c v now s;
  seen = rw ((check-refines n c v now s).0) (spec_check-keeps n (values c.lru) v h);
}

check_again :
    (n : ℕ) (c : LruCache) (v : Bytes) (now : ℕ)
    → HasSeen n v c
    → (check_and_store c v now).1 ≡ true
check_again n c v now k =
    (check-refines n c v now k.sound).1 ∙ spec_check-known n (values c.lru) v k.seen

module _ {Float E : Type 0} (validate : Event Float → Option E) where
  handle_event-cache :
      (p : EventPipeline Float) (event : Event Float) (now : ℕ) (stopped : Bool)
      → (handle_event validate p event now stopped).0.cache
        ≡ (check_and_store p.cache event.fingerprint now).0
  unfolding handle_event
  handle_event-cache p event now stopped = ground arith

  handle_event-sends :
      (p : EventPipeline Float) (event : Event Float) (now : ℕ) (stopped : Bool)
      → length (handle_event validate p event now stopped).0.event_out ≤ suc (length p.event_out)
  unfolding handle_event
  handle_event-sends p event now stopped = ground (arith, length-append p.event_out (event ∷ []))

  handle_event-duplicate :
      (p : EventPipeline Float) (event : Event Float) (now : ℕ) (stopped : Bool)
      → (check_and_store p.cache event.fingerprint now).1 ≡ true
      → (handle_event validate p event now stopped).0.event_out ≡ p.event_out
  unfolding handle_event
  handle_event-duplicate p event now stopped d = rw (d, handle_event)

  module _ (format_float : Float → Bytes) (sha256_hex : Bytes → Bytes) where
    -- The events of a history of keys.
    abbrev pub watched : List (Bytes × ℕ × Bool) → List (Event Float × ℕ × Bool)
    watched [] = []
    watched ((key, now, stopped) ∷ l) =
        (watched_event format_float sha256_hex key now, now, stopped) ∷ watched l

    abbrev same_fingerprint : Bytes
    same_fingerprint = sha256_hex (canonical_json format_float [])

    watched_event-fingerprint :
        (key : Bytes) (now : ℕ)
        → (watched_event format_float sha256_hex key now).fingerprint ≡ same_fingerprint
    unfolding watched_event compute_fingerprint
    watched_event-fingerprint key now = refl

    later :
        (n : ℕ) (p : EventPipeline Float) (l : List (Bytes × ℕ × Bool))
        → 0 < n
        → HasSeen n same_fingerprint p.cache
        → (handle_event_loop validate p (watched l)).event_out ≡ p.event_out
    unfolding handle_event_loop
    later n p [] h k = refl
    later n p ((key, now, stopped) ∷ l) h k =
        let e = watched_event format_float sha256_hex key now in
        let r = handle_event validate p e now stopped in
        let f = watched_event-fingerprint key now in
        let dup : (check_and_store p.cache e.fingerprint now).1 ≡ true =
          rw f (check_again n p.cache same_fingerprint now k) in
        let same = handle_event-duplicate p e now stopped dup in
        let k' : HasSeen n same_fingerprint r.0.cache =
          rw (handle_event-cache p e now stopped, f)
            (check-HasSeen n p.cache same_fingerprint now h k.sound) in
        if-elim (λ (q : EventPipeline Float). q.event_out ≡ p.event_out) r.1
          (λ _. later n r.0 l h k' ∙ same) (λ _. same)

    -- Of all the events that the subscriber makes of changes in etcd, whatever their keys, a
    -- pipeline with a new cache of positive size sends at most one: all have the fingerprint of
    -- an empty payload, so that every event after the first is dropped as a duplicate.
    pub watched_sends_one :
        (m : ℕ) (l : List (Bytes × ℕ × Bool))
        → 0 < m
        → length (handle_event_loop validate (new (Cache.new (pos m))) (watched l)).event_out ≤ 1
    unfolding handle_event_loop new
    watched_sends_one m [] h = omega arith
    watched_sends_one m ((key, now, stopped) ∷ l) h =
        let c = Cache.new (pos m) in
        let e = watched_event format_float sha256_hex key now in
        let r = handle_event validate (new c) e now stopped in
        let f = watched_event-fingerprint key now in
        let sent : length r.0.event_out ≤ 1 = handle_event-sends (new c) e now stopped in
        let k : HasSeen m same_fingerprint r.0.cache =
          rw (handle_event-cache (new c) e now stopped, f)
            (check-HasSeen m c same_fingerprint now h (new-IsSound m h)) in
        if-elim (λ (q : EventPipeline Float). length q.event_out ≤ 1) r.1
          (λ _. subst (λ o. length o ≤ 1) (sym (later m r.0 l h k)) sent) (λ _. sent)

module _ {Float E : Type 0} where
  -- A pipeline that was stopped can be started again, and then to stop it panics.
  pub stop_restarted :
      (p : EventPipeline Float) (err err' : Option E)
      → p.running ≡ true
      → p.closed ≡ false
      → (p' : EventPipeline Float) × (stop p err ≡ some (p', wrap failed_to_close err))
        × ((start {E = E} p' none).1 ≡ none)
        × (stop (start {E = E} p' none).0 err' ≡ none)
  unfolding start stop
  stop_restarted p err err' r c =
      (record p { running = false; closed = true }, rw (r, stop) (rw c), refl, refl)
