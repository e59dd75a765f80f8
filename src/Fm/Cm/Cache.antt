-- ===== src/Fm/Cm/Cache.antt =====
-- src/FM/pkg/cm/cache.go: the deduplication cache. Each call holds the mutex. The list of
-- container/list stands as its elements from the front, each with a number in place of its address.
use dash_fabric.Base.{
  ℕ, zero, suc, ◌≡◌, refl, Bool, true, false, List, [], ◌∷◌, Option, none, some, arith, Bytes,
  nat_eq, bytes_eq, nat_beq, if◌then◌else◌, length,
}
use dash_fabric.Base.Map.{Map, lookup, insert, delete}
use dash_fabric.Base.Int.{ℤ, pos, inc64, leb_ℤ, ltb_ℤ}
pub mod Laws
pub mod Recency
mod Tests

pub record CacheEntry : Type 0 where
  pub fingerprint : Bytes
  pub timestamp : ℕ
  pub element : ℕ

pub record LruCache : Type 0 where
  pub max_size : ℤ
  pub entries : Map Bytes CacheEntry
  pub lru : Map ℕ Bytes
  pub next_element : ℕ
  pub hits : ℤ
  pub misses : ℤ
  pub evictions : ℤ

unfoldable pub new : ℤ → LruCache
new max_size = record {
  max_size = if leb_ℤ max_size (pos 0) then pos 10000 else max_size;
  entries = [];
  lru = [];
  next_element = 0;
  hits = pos 0;
  misses = pos 0;
  evictions = pos 0;
}

-- list.MoveToFront: an element that the list does not hold changes nothing.
abbrev pub move_to_front : ℕ → Map ℕ Bytes → Map ℕ Bytes
move_to_front i l = elim (lookup i l) [ none ↦ l | some value ↦ (i, value) ∷ delete i l ]

-- list.Back
unfoldable pub back : Map ℕ Bytes → Option (ℕ × Bytes)
back [] = none
back (x ∷ []) = some x
back (x ∷ y ∷ l) = back (y ∷ l)

unfoldable pub evict_lru : LruCache → LruCache
evict_lru c = elim (back c.lru) [
  | none ↦ c
  | some (i, value) ↦ record c {
    lru = delete i c.lru;
    entries = delete value c.entries;
    evictions = inc64 c.evictions;
  }
]

abbrev pub new_entry : LruCache → Bytes → ℕ → CacheEntry
new_entry c fingerprint now = record {
  fingerprint = fingerprint;
  timestamp = now;
  element = c.next_element;
}

-- What a miss stores, at the time `now`.
abbrev pub stored : LruCache → Bytes → ℕ → LruCache
stored c fingerprint now = record c {
  misses = inc64 c.misses;
  lru = (c.next_element, fingerprint) ∷ c.lru;
  entries = insert fingerprint (new_entry c fingerprint now) c.entries;
  next_element = suc c.next_element;
}

unfoldable pub check_and_store : LruCache → Bytes → ℕ → LruCache × Bool
check_and_store c fingerprint now = elim (lookup fingerprint c.entries) [
  | some entry ↦ (record c { hits = inc64 c.hits; lru = move_to_front entry.element c.lru }, true)
  | none ↦
      let c' = stored c fingerprint now in
      (if ltb_ℤ c'.max_size (pos (length c'.lru)) then evict_lru c' else c', false)
]

unfoldable pub size : LruCache → ℕ
size c = length c.entries

unfoldable pub clear : LruCache → LruCache
clear c = record c { entries = []; lru = []; hits = pos 0; misses = pos 0; evictions = pos 0 }
