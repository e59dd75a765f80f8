-- ===== src/Fm/Registry/Laws.antt =====
-- The invariant of the shared registry: one entry a key, one channel an entry, and a channel is
-- closed exactly when its entry has a value.
use dash_fabric.Base.{
  ℕ, ◌<◌, ◌≤◌, ◌≡◌, refl, sym, ◌∙◌, true, false, List, ◌∷◌, some, arith, Eq, nat_eq, Bytes,
  contains, inl, inr, Bool-cases, Option-cases, Returns, Returns-some, nat_beq,
}
use dash_fabric.Base.Map.{
  Map, lookup, insert, delete, IsDistinct, insert-IsDistinct, delete-IsDistinct,
  lookup-insert_cases, lookup-delete_cases,
}
use dash_fabric.Base.Int.{pos, dec64, leb_ℤ, beq_ℤ}
use dash_fabric.Fm.Registry.{fetch, Entry, Registry, new, acquire, release, add}

module _ {ℓ} {K V : Type ℓ} ⦃e : Eq K⦄ where
  pub record Inv (m : Map K (Entry V)) (next : ℕ) (closed : List ℕ) : Type ℓ where
    pub distinct : IsDistinct m
    pub fresh : (k : K) (en : Entry V) → lookup k m ≡ some en → en.ready < next
    pub closed_fresh : (c : ℕ) → contains c closed ≡ true → c < next
    pub separate :
        (k j : K) (a b : Entry V)
        → lookup k m ≡ some a
        → lookup j m ≡ some b
        → a.ready ≡ b.ready
        → k ≡ j
    pub synced :
        (k : K) (en : Entry V) → lookup k m ≡ some en → contains en.ready closed ≡ en.has_value

  abbrev pub IsValid : Registry K V → Type ℓ
  IsValid r = Inv r.entries r.next_chan r.closed

  -- Writing an entry whose channel is its own, while the other channels stay as they are.
  module _ {m : Map K (Entry V)} {next : ℕ} {closed : List ℕ} (v : Inv m next closed) (k : K)
      (en : Entry V) (next' : ℕ) (closed' : List ℕ) (grow : next ≤ next') (bound : en.ready < next')
      (own : (j : K) (a : Entry V) → lookup j m ≡ some a → a.ready ≡ en.ready → j ≡ k)
      (same : (c : ℕ) → nat_beq en.ready c ≡ false → contains c closed' ≡ contains c closed)
      (sync : contains en.ready closed' ≡ en.has_value) where
    put-fresh : (j : K) (a : Entry V) → lookup j (insert k en m) ≡ some a → a.ready < next'
    put-fresh j a h = elim (lookup-insert_cases k j en m h) [
      | inl (p, q) ↦ rw (← q) bound
      | inr (p, q) ↦ omega (arith, v.fresh j a q)
    ]

    put-closed_fresh : (c : ℕ) → contains c closed' ≡ true → c < next'
    put-closed_fresh c h = elim (Bool-cases (nat_beq en.ready c)) [
      | inl p ↦ ground arith
      | inr p ↦ omega (arith, v.closed_fresh c (sym (same c p) ∙ h))
    ]

    put-separate :
        (i j : K) (a b : Entry V)
        → lookup i (insert k en m) ≡ some a
        → lookup j (insert k en m) ≡ some b
        → a.ready ≡ b.ready
        → i ≡ j
    put-separate i j a b h h' s = elim (lookup-insert_cases k i en m h) [
      | inl (p, q) ↦ elim (lookup-insert_cases k j en m h') [
        | inl (p', q') ↦ cc
        | inr (p', q') ↦ cc (own j b q' (cc))
      ]
      | inr (p, q) ↦ elim (lookup-insert_cases k j en m h') [
        | inl (p', q') ↦ cc (own i a q (cc))
        | inr (p', q') ↦ v.separate i j a b q q' s
      ]
    ]

    put-synced :
        (j : K) (a : Entry V)
        → lookup j (insert k en m) ≡ some a
        → contains a.ready closed' ≡ a.has_value
    put-synced j a h = elim (lookup-insert_cases k j en m h) [
      | inl (p, q) ↦ rw (← q) sync
      | inr (p, q) ↦ elim (Bool-cases (nat_beq en.ready a.ready)) [
        | inl s ↦ ground (arith, own j a q, e.beq_iff k j)
        | inr s ↦ same a.ready s ∙ v.synced j a q
      ]
    ]

    put-Inv : Inv (insert k en m) next' closed'
    put-Inv = record {
      distinct = insert-IsDistinct k en m v.distinct;
      fresh = put-fresh;
      closed_fresh = put-closed_fresh;
      separate = put-separate;
      synced = put-synced;
    }

  delete-Inv :
      {m : Map K (Entry V)} {next : ℕ} {closed : List ℕ} (k : K)
      → Inv m next closed
      → Inv (delete k m) next closed
  delete-Inv {m} k v = record {
    distinct = delete-IsDistinct k m v.distinct;
    fresh = λ j a h. v.fresh j a (lookup-delete_cases k j m h).1;
    closed_fresh = v.closed_fresh;
    separate = λ i j a b h h' s.
        v.separate i j a b (lookup-delete_cases k i m h).1 (lookup-delete_cases k j m h').1 s;
    synced = λ j a h. v.synced j a (lookup-delete_cases k j m h).1;
  }

  pub new-IsValid : (name : Bytes) → IsValid (new {K = K} {V = V} name)
  unfolding new lookup
  new-IsValid name = record {
    distinct = tt;
    fresh = λ k en h. cc;
    closed_fresh = λ c h. cc;
    separate = λ k j a b h h' s. cc;
    synced = λ k en h. cc;
  }

  module _ (r : Registry K V) (k : K) (v : IsValid r) where
    not-contains-next : contains r.next_chan r.closed ≡ false
    not-contains-next = elim (Bool-cases (contains r.next_chan r.closed)) [
      | inl p ↦ absurd (omega (arith, v.closed_fresh r.next_chan p))
      | inr p ↦ p
    ]

    -- The channel of an entry of `k` is no other key's, and a new channel is nobody's.
    own_old :
        (en : Entry V)
        → lookup k r.entries ≡ some en
        → (j : K) (a : Entry V) → lookup j r.entries ≡ some a
        → a.ready ≡ en.ready
        → j ≡ k
    own_old en h j a h' s = v.separate j k a en h' h s

    own_new : (j : K) (a : Entry V) → lookup j r.entries ≡ some a → a.ready ≡ r.next_chan → j ≡ k
    own_new j a h s = absurd (omega (arith, v.fresh j a h))

    pub acquire-IsValid : (nil : V) → IsValid (acquire nil r k).0
    unfolding acquire
    acquire-IsValid nil = elim (Option-cases (lookup k r.entries)) [
      | inl h ↦
          rw (h, acquire)
            (put-Inv v k _ _ r.closed (omega arith) (omega arith) own_new (λ c _. refl)
              not-contains-next)
      | inr (en, h) ↦
          rw (h, acquire)
            (put-Inv v k _ _ r.closed (omega arith) (v.fresh k en h) (own_old en h) (λ c _. refl)
              (v.synced k en h))
    ]

    pub release-IsValid : IsValid (release r k).0
    unfolding release
    release-IsValid = elim (Option-cases (lookup k r.entries)) [
      | inl h ↦ rw (h, release) v
      | inr (en, h) ↦ elim (Bool-cases (leb_ℤ en.refs (pos 0))) [
        | inl low ↦ rw (h, release) (rw low v)
        | inr up ↦ elim (Bool-cases (beq_ℤ (dec64 en.refs) (pos 0))) [
          | inl last ↦ rw (h, release) (rw (up, last) (delete-Inv k v))
          | inr more ↦
              rw (h, release)
                (rw (up, more)
                  (put-Inv v k _ _ r.closed (omega arith) (v.fresh k en h) (own_old en h)
                    (λ c _. refl) (v.synced k en h)))
        ]
      ]
    ]

    -- In a valid registry every Add returns, so that `close` does not panic, and leaves a valid
    -- registry.
    pub add_total : (nil x : V) → Returns IsValid (add nil r k x)
    unfolding add
    add_total nil x = elim (Option-cases (lookup k r.entries)) [
      | inl h ↦
          rw (h, add)
            (rw not-contains-next (
              Returns-some IsValid _ (
                put-Inv v k _ _ (r.next_chan ∷ r.closed) (omega arith) (omega arith) own_new
                  (λ c p. rw p refl) (ground arith))))
      | inr (en, h) ↦ elim (Bool-cases en.has_value) [
        | inl p ↦
            rw (h, add)
              (rw p (
                Returns-some IsValid _ (
                  put-Inv v k _ _ r.closed (omega arith) (v.fresh k en h) (own_old en h)
                    (λ c _. refl) (v.synced k en h ∙ p))))
        | inr p ↦
            rw (h, add)
              (rw (p, v.synced k en h ∙ p)
                (Returns-some IsValid _ (
                  put-Inv v k _ _ (en.ready ∷ r.closed) (omega arith) (v.fresh k en h)
                    (own_old en h) (λ c q. rw q refl) (ground arith))))
      ]
    ]

  -- A call of Add that returns wrote one entry, with the value.
  pub add-entries :
      (nil x : V) (r r' : Registry K V) (k : K)
      → add nil r k x ≡ some r'
      → (en : Entry V) × (r'.entries ≡ insert k en r.entries)
        × (en.value ≡ x)
        × (en.has_value ≡ true)
  unfolding add
  add-entries nil x r r' k h = (
    record (fetch nil r (lookup k r.entries)).0 { value = x; has_value = true },
    grind arith,
    refl,
    refl,
  )
