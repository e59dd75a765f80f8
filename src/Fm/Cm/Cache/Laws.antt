-- ===== src/Fm/Cm/Cache/Laws.antt =====
-- The invariant of the deduplication cache: its map and its list hold the same fingerprints.
use dash_fabric.Base.{
  ℕ, suc, ◌≤◌, ◌<◌, ◌≡◌, refl, ◌∙◌, ap, true, false, [], ◌∷◌, none, some, arith, Bytes, nat_eq,
  bytes_eq, nat_beq, nat_beq_iff, bytes_beq_iff, ltb, length, inl, inr, Option-cases, Bool-cases,
}
use native.Mathlib.Decide.{dec_lt}
use dash_fabric.Base.Map.{
  Map, lookup, IsDistinct, lookup-insert, lookup-delete, lookup-insert_cases, lookup-delete_cases,
  insert-IsDistinct, delete-IsDistinct, length-insert, length-delete,
}
use dash_fabric.Base.Int.{pos, inc64, ltb_ℤ}
use dash_fabric.Fm.Cm.Cache.{
  CacheEntry, LruCache, move_to_front, back, evict_lru, new_entry, stored, check_and_store,
}

-- The list has at most `max` elements.
pub record Inv (max : ℕ) (c : LruCache) : Type 0 where
  pub within : length c.lru ≤ max
  pub same_length : length c.entries ≡ length c.lru
  pub keys_once : IsDistinct c.entries
  pub elements_once : IsDistinct c.lru
  pub elements_below : (i : ℕ) (v : Bytes) → lookup i c.lru ≡ some v → ltb i c.next_element ≡ true
  pub element_of :
      (v : Bytes) (x : CacheEntry) → lookup v c.entries ≡ some x → lookup x.element c.lru ≡ some v
  pub entry_of :
      (i : ℕ) (v : Bytes)
      → lookup i c.lru ≡ some v
      → (x : CacheEntry) × (lookup v c.entries ≡ some x) × (x.element ≡ i)

pub Inv-empty : (max : ℕ) (c : LruCache) → c.entries ≡ [] → c.lru ≡ [] → Inv max c
unfolding lookup
Inv-empty max c d l = ground arith

-- The last element is one of the list.
pub back-lookup :
    (l : Map ℕ Bytes) {i : ℕ} {v : Bytes}
    → IsDistinct l
    → back l ≡ some (i, v)
    → lookup i l ≡ some v
unfolding back lookup
back-lookup [] d h = cc
back-lookup ((j, w) ∷ []) {i} {v} d h = ground (arith, nat_beq_iff j i)
back-lookup ((j, w) ∷ y ∷ l) {i} {v} d h =
    let ih = back-lookup (y ∷ l) {i = i} {v = v} d.1 h in grind (arith, d, nat_beq_iff j i)

pub back-some : (x : ℕ × Bytes) (l : Map ℕ Bytes) → (y : ℕ × Bytes) × (back (x ∷ l) ≡ some y)
unfolding back
back-some x [] = (x, refl)
back-some x (y ∷ l) = back-some y l

-- Eviction takes away the last element, and its entry.
evicted-Inv :
    (n : ℕ) (c : LruCache) (i : ℕ) (v : Bytes)
    → Inv (suc n) c
    → back c.lru ≡ some (i, v)
    → Inv n (evict_lru c)
unfolding evict_lru
evicted-Inv n c i v s h =
    let found = back-lookup c.lru {i = i} {v = v} s.elements_once h in
    let (x, e, p) = s.entry_of i v found in
    let shorter = length-delete i c.lru s.elements_once found in
    let shorter' = length-delete v c.entries s.keys_once e in
    rw (h, evict_lru)
      (record {
        within = grind (arith, s.within, shorter);
        same_length = grind (arith, s.same_length, shorter, shorter');
        keys_once = delete-IsDistinct v c.entries s.keys_once;
        elements_once = delete-IsDistinct i c.lru s.elements_once;
        elements_below = λ j w q. s.elements_below j w (lookup-delete_cases i j c.lru q).1;
        element_of = λ w y q.
            let (apart, old) = lookup-delete_cases v w c.entries q in
            grind (
              arith,
              apart,
              found,
              s.element_of w y old,
              lookup-delete i y.element c.lru,
              nat_beq_iff i y.element,
              bytes_beq_iff v w,
            );
        entry_of = λ j w q.
            let (apart, old) = lookup-delete_cases i j c.lru q in
            let (y, e', p') = s.entry_of j w old in
            (
              y,
              grind (
                arith,
                apart,
                e,
                e',
                p,
                p',
                lookup-delete v w c.entries,
                nat_beq_iff i j,
                bytes_beq_iff v w,
              ),
              p',
            );
      })

hit-Inv :
    (n : ℕ) (c : LruCache) (v : Bytes) (x : CacheEntry)
    → Inv n c
    → lookup v c.entries ≡ some x
    → Inv n (record c { hits = inc64 c.hits; lru = move_to_front x.element c.lru })
unfolding lookup
hit-Inv n c v x s h =
    let found = s.element_of v x h in
    let shorter = length-delete x.element c.lru s.elements_once found in
    rw (found, move_to_front)
      (record {
        within = grind (arith, s.within, shorter);
        same_length = grind (arith, s.same_length, shorter);
        keys_once = s.keys_once;
        elements_once = (
          grind (arith, lookup-delete x.element x.element c.lru, nat_beq_iff x.element x.element),
          delete-IsDistinct x.element c.lru s.elements_once,
        );
        elements_below = λ j w q.
            s.elements_below j w
              (grind (arith, q, found, lookup-delete x.element j c.lru, nat_beq_iff x.element j));
        element_of = λ w y q. grind (
          arith,
          found,
          s.element_of w y q,
          lookup-delete x.element y.element c.lru,
          nat_beq_iff x.element y.element,
        );
        entry_of = λ j w q.
            s.entry_of j w
              (grind (arith, q, found, lookup-delete x.element j c.lru, nat_beq_iff x.element j));
      })

pub stored-Inv :
    (n : ℕ) (c : LruCache) (v : Bytes) (now : ℕ)
    → Inv n c
    → lookup v c.entries ≡ none
    → Inv (suc n) (stored c v now)
unfolding lookup
stored-Inv n c v now s h =
    let fresh : lookup c.next_element c.lru ≡ none =
      elim (Option-cases (lookup c.next_element c.lru)) [
        | inl e ↦ e
        | inr (w, e) ↦ absurd (grind (arith, s.elements_below c.next_element w e))
      ] in
    record {
      within = grind (arith, s.within);
      same_length = grind (arith, s.same_length, length-insert v (new_entry c v now) c.entries);
      keys_once = insert-IsDistinct v (new_entry c v now) c.entries s.keys_once;
      elements_once = (fresh, s.elements_once);
      elements_below =
          λ j w q. grind (arith, q, s.elements_below j w, nat_beq_iff c.next_element j);
      element_of = λ w y q. elim (lookup-insert_cases v w (new_entry c v now) c.entries q) [
        | inl (a, b) ↦
            grind (arith, a, ap CacheEntry.element b, nat_beq_iff c.next_element y.element)
        | inr (a, b) ↦
            grind (arith, fresh, s.element_of w y b, nat_beq_iff c.next_element y.element)
      ];
      entry_of = λ j w q. elim (Bool-cases (nat_beq c.next_element j)) [
        | inl a ↦ (
          new_entry c v now,
          grind (arith, a, q, lookup-insert v w (new_entry c v now) c.entries, bytes_beq_iff v w),
          grind (arith, a, nat_beq_iff c.next_element j),
        )
        | inr a ↦
            let (y, e, p) = s.entry_of j w (grind (arith, a, q)) in
            (
              y,
              grind
                  (arith, h, e, lookup-insert v w (new_entry c v now) c.entries, bytes_beq_iff v w),
              p,
            )
      ];
    }

module _ (n : ℕ) (c : LruCache) (v : Bytes) (now : ℕ) (m : c.max_size ≡ pos n) where
  pub check_hit :
      (x : CacheEntry)
      → lookup v c.entries ≡ some x
      → check_and_store c v now
        ≡ (record c { hits = inc64 c.hits; lru = move_to_front x.element c.lru }, true)
  unfolding check_and_store
  check_hit x e = rw (e, check_and_store)

  pub check_full :
      lookup v c.entries ≡ none
      → n ≤ length c.lru
      → check_and_store c v now ≡ (evict_lru (stored c v now), false)
  unfolding check_and_store
  check_full e h =
      let c' = stored c v now in
      let big : ltb_ℤ c'.max_size (pos (length c'.lru)) ≡ true = rw m (ground arith) in
      rw (e, check_and_store) (rw big)

  pub check_room :
      lookup v c.entries ≡ none
      → length c.lru < n
      → check_and_store c v now ≡ (stored c v now, false)
  unfolding check_and_store
  check_room e h =
      let c' = stored c v now in
      let small : ltb_ℤ c'.max_size (pos (length c'.lru)) ≡ false = rw m (ground arith) in
      rw (e, check_and_store) (rw small)

-- Only the bound itself depends on it.
widen : {n n' : ℕ} {c : LruCache} → Inv n c → length c.lru ≤ n' → Inv n' c
widen s h = record {
  within = h;
  same_length = s.same_length;
  keys_once = s.keys_once;
  elements_once = s.elements_once;
  elements_below = s.elements_below;
  element_of = s.element_of;
  entry_of = s.entry_of;
}

-- The cache as `new` makes it and any call leaves it.
pub record IsSound (n : ℕ) (c : LruCache) : Type 0 where
  pub capacity : c.max_size ≡ pos n
  pub inv : Inv n c

evict_lru-capacity : (c : LruCache) → (evict_lru c).max_size ≡ c.max_size
unfolding evict_lru
evict_lru-capacity c = ground arith

pub check-IsSound :
    (n : ℕ) (c : LruCache) (v : Bytes) (now : ℕ)
    → IsSound n c
    → IsSound n (check_and_store c v now).0
check-IsSound n c v now sound =
    let m = sound.capacity in
    let s = sound.inv in
    elim (Option-cases (lookup v c.entries)) [
      | inr (x, e) ↦
          rw (check_hit n c v now m x e) (record { capacity = m; inv = hit-Inv n c v x s e })
      | inl e ↦ elim (dec_lt (length c.lru) n) [
        | yes room ↦
            rw (check_room n c v now m e room)
              (record { capacity = m; inv = widen (stored-Inv n c v now s e) (omega arith) })
        | no full ↦
            let (y, b) = back-some (c.next_element, v) c.lru in
            rw (check_full n c v now m e (omega arith)) (record {
              capacity = evict_lru-capacity (stored c v now) ∙ m;
              inv = evicted-Inv n (stored c v now) y.0 y.1 (stored-Inv n c v now s e) b;
            })
      ]
    ]
