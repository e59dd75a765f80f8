-- ===== src/Fm/Registry/Channels.antt =====
-- Which channel of the shared registry an Add closes.
use dash_fabric.Base.{
  ◌≡◌, refl, ap, ◌∙◌, true, ◌∷◌, some, Eq, nat_eq, Returns, if◌then◌else◌, Option-cases, Bool-cases,
  inl, inr, arith, contains,
}
use dash_fabric.Base.Map.{Map, insert, lookup, lookup-insert_self}
use dash_fabric.Fm.Registry.{Entry, Registry, acquire, add, get, ready, close}
use dash_fabric.Fm.Registry.Laws.{IsValid, add_total, add-entries}

module _ {ℓ} {K V : Type ℓ} ⦃e : Eq K⦄ where
  -- What an Add of `x` under `k` that returns leaves.
  abbrev pub Added : V → Registry K V → K → V → Registry K V → Type ℓ
  Added nil r k x r' =
      (get nil r' k ≡ (x, true))
      × (r'.closed ≡ (if ready r k then r.closed else (acquire nil r k).1 ∷ r.closed))

  get-written :
      (nil : V) (r : Registry K V) (k : K) (en : Entry V) (m : Map K (Entry V))
      → r.entries ≡ insert k en m
      → en.has_value ≡ true
      → get nil r k ≡ (en.value, true)
  unfolding get
  get-written nil r k en m h t = rw (get, h) (rw (lookup-insert_self k en m) (rw t refl))

  add-closed :
      (nil : V) (r r' : Registry K V) (k : K) (x : V)
      → add nil r k x ≡ some r'
      → r'.closed ≡ (if ready r k then r.closed else (acquire nil r k).1 ∷ r.closed)
  unfolding add ready acquire close
  add-closed nil r r' k x h = elim (Option-cases (lookup k r.entries)) [
    | inl p ↦ elim (Bool-cases (contains r.next_chan r.closed)) [
      | inl q ↦ absurd (ground arith)
      | inr q ↦ ground arith
    ]
    | inr (en, p) ↦ elim (Bool-cases en.has_value) [
      | inl z ↦ ground arith
      | inr z ↦ elim (Bool-cases (contains en.ready r.closed)) [
        | inl q ↦ absurd (ground arith)
        | inr q ↦ ground arith
      ]
    ]
  ]

  add-Added :
      (nil : V) (r r' : Registry K V) (k : K) (x : V) → add nil r k x ≡ some r' → Added nil r k x r'
  add-Added nil r r' k x h =
      let (en, written, value, has) = add-entries nil x r r' k h in
      (
        get-written nil r' k en r.entries written has ∙ ap (λ y. (y, true)) value,
        add-closed nil r r' k x h,
      )

  -- In a valid registry every Add returns, and leaves a valid registry in which Get finds the value.
  -- A first value closes the channel that Acquire hands out for the key, and no other; a later value
  -- closes none.
  pub add_closes :
      (nil : V) (r : Registry K V) (k : K) (x : V)
      → IsValid r
      → Returns (λ r'. IsValid r' × Added nil r k x r') (add nil r k x)
  add_closes nil r k x v =
      let (r', returned, valid) = add_total r k v nil x in
      (r', returned, (valid, add-Added nil r r' k x returned))
