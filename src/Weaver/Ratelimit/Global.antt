-- ===== src/Weaver/Ratelimit/Global.antt =====
-- What a request takes of the global bucket.
use dash_fabric.Base.{
  ℕ, true, false, List, [], ◌∷◌, some, Bytes, bytes, bytes_eq, bytes_beq_iff, ◌==◌, ◌≡◌, ◌⊎◌, refl,
  arith, Bool-cases, inl, inr, sym, subst, ◌∙◌, contains,
}
use dash_fabric.Base.Map.{lookup, lookup-insert, lookup-insert_self}
use dash_fabric.Weaver.Ratelimit.{
  Float64, Limiter, Request, Dimension, global, per_client, per_ip, per_tenant, key, id_for,
  allow_for_dimension, allow_loop, allow,
}
use dash_fabric.Weaver.Ratelimit.Laws.{spent, next}

abbrev global_key : Bytes
global_key = key global (bytes "global")

-- Another dimension has no identifier, or a key of its own.
IsApart : Request → Dimension → Type 0
IsApart r dim = (id_for r dim ≡ []) ⊎ ((key dim (id_for r dim) == global_key) ≡ false)

named_IsApart :
    (r : Request) (known dim : Dimension)
    → ((known == dim) ≡ true)
    → ((id : Bytes) → (key known id == global_key) ≡ false)
    → IsApart r dim
unfolding IsApart
named_IsApart r known dim e h = inr (
    subst (λ d. (key d (id_for r dim) == global_key) ≡ false) ((bytes_beq_iff known dim).0 e)
      (h (id_for r dim)))

other-IsApart : (r : Request) (dim : Dimension) → (dim == global) ≡ false → IsApart r dim
unfolding IsApart id_for lookup
other-IsApart r dim h = elim (Bool-cases (per_client == dim)) [
  | inl e ↦ named_IsApart r per_client dim e (λ id. refl)
  | inr n1 ↦ elim (Bool-cases (per_ip == dim)) [
    | inl e ↦ named_IsApart r per_ip dim e (λ id. refl)
    | inr n2 ↦ elim (Bool-cases (per_tenant == dim)) [
      | inl e ↦ named_IsApart r per_tenant dim e (λ id. refl)
      | inr n3 ↦ inl (ground (arith, bytes_beq_iff dim global, bytes_beq_iff global dim))
    ]
  ]
]

module _ {W F : Type 0} (now : W → W × ℕ) (float : Float64 F) where
  for_dimension-other :
      (m : Limiter F) (r : Request) (dim : Dimension) (w : W)
      → IsApart r dim
      → lookup global_key (allow_for_dimension now float m dim (id_for r dim) w).1.limiters
        ≡ lookup global_key m.limiters
  unfolding allow_for_dimension IsApart
  for_dimension-other m r dim w (inl e) = ground arith
  for_dimension-other m r dim w (inr e) = ground (
    arith,
    lookup-insert (key dim (id_for r dim)) global_key (spent now float m dim (id_for r dim) w)
        m.limiters,
  )

  for_dimension-global :
      (m : Limiter F) (r : Request) (w : W)
      → lookup global_key (allow_for_dimension now float m global (id_for r global) w).1.limiters
        ≡ some (spent now float m global (bytes "global") w)
  unfolding allow_for_dimension id_for lookup
  for_dimension-global m r w =
      lookup-insert_self global_key (spent now float m global (bytes "global") w) m.limiters

  allow_loop-other :
      (r : Request) (dims : List Dimension) (m : Limiter F) (w : W)
      → contains global dims ≡ false
      → lookup global_key (allow_loop now float r dims m w).1.limiters
        ≡ lookup global_key m.limiters
  unfolding allow_loop
  allow_loop-other r [] m w h = refl
  allow_loop-other r (dim ∷ dims) m w h =
      let (w1, m1, ok) = allow_for_dimension now float m dim (id_for r dim) w in
      let e = for_dimension-other m r dim w (other-IsApart r dim (ground arith)) in
      elim ok
        as (λ o.
          lookup global_key (next now float r dims m1 w1 o).1.limiters
          ≡ lookup global_key m.limiters) [
            | true ↦ allow_loop-other r dims m1 w1 (ground arith) ∙ e
            | false ↦ e
          ]

  allow_loop-global :
      (r : Request) (dims : List Dimension) (m : Limiter F) (w : W)
      → contains global dims ≡ false
      → lookup global_key (allow_loop now float r (global ∷ dims) m w).1.limiters
        ≡ some (spent now float m global (bytes "global") w)
  unfolding allow_loop
  allow_loop-global r dims m w h =
      let (w1, m1, ok) = allow_for_dimension now float m global (id_for r global) w in
      let e = for_dimension-global m r w in
      elim ok
        as (λ o.
          lookup global_key (next now float r dims m1 w1 o).1.limiters
          ≡ some (spent now float m global (bytes "global") w)) [
            | true ↦ allow_loop-other r dims m1 w1 h ∙ e
            | false ↦ e
          ]

  -- A request to a limiter whose first dimension is the global one, and no other is, takes its token
  -- of the global bucket alike whether the request is allowed or denied: afterwards the bucket is
  -- what a request for one token leaves of it, or of a new bucket where there was none.
  pub global_taken :
      (m : Limiter F) (r : Request) (dims : List Dimension) (w : W)
      → m.dimensions ≡ global ∷ dims
      → contains global dims ≡ false
      → lookup global_key (allow now float m r w).1.limiters
        ≡ some (spent now float m global (bytes "global") w)
  unfolding allow
  global_taken m r dims w e h =
      subst
        (λ ds.
          lookup global_key (allow_loop now float r ds m w).1.limiters
          ≡ some (spent now float m global (bytes "global") w))
        (sym e) (allow_loop-global r dims m w h)
