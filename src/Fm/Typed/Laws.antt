-- ===== src/Fm/Typed/Laws.antt =====
-- What every typed registry guarantees of the states that it hands out.
use dash_fabric.Base.{
  ◌≡◌, ◌≢◌, refl, sym, subst, true, List, [], ◌∷◌, ◌++◌, Option, none, some, arith, Bytes, bytes_eq,
  inl, inr, Bool-cases, Option-cases, Returns, Returns-some,
}
use dash_fabric.Base.Int.{pos, dec64, leb_ℤ, beq_ℤ}
use dash_fabric.Base.Map.{Map, lookup, insert, lookup-insert_cases, lookup-delete_cases}
use dash_fabric.Fm.Registry
use dash_fabric.Fm.Registry.{Registry, Entry}
use dash_fabric.Fm.Registry.Laws.{
  IsValid, new-IsValid, acquire-IsValid, release-IsValid, add_total, add-entries,
}
use dash_fabric.Fm.Typed.{
  Kind, TypedRegistry, Call, acquires, releases, adds, add, get, acquire, release, step, run,
}

-- What a kind has to prove: a state that validates is good, in its stored form, under its key, and
-- nil does not validate.
pub record IsLawful {S E : Type 0} (kind : Kind S E) (Good : Bytes → S → Type 0) : Type 0 where
  pub good :
      (s : S)
      → kind.validate (some s) ≡ none
      → Good (kind.id_of (kind.normalise s)) (kind.normalise s)
  pub no_nil : kind.validate none ≢ none

module _ {S : Type 0} (Good : Bytes → S → Type 0) where
  -- An entry with a value holds a good state.
  abbrev Holds : Bytes → Entry (Option S) → Type 0
  Holds k en = en.has_value ≡ true → (s : S) × (en.value ≡ some s) × Good k s

  pub record IsSound (r : TypedRegistry S) : Type 0 where
    pub valid : IsValid r
    pub holds : (k : Bytes) (en : Entry (Option S)) → lookup k r.entries ≡ some en → Holds k en

  -- Every entry of the map holds a good state.
  abbrev AllHold : Map Bytes (Entry (Option S)) → Type 0
  AllHold m = (k : Bytes) (en : Entry (Option S)) → lookup k m ≡ some en → Holds k en

  insert-AllHold :
      (k : Bytes) (en : Entry (Option S)) (m : Map Bytes (Entry (Option S)))
      → Holds k en
      → AllHold m
      → AllHold (insert k en m)
  insert-AllHold k en m new old j a h = elim (lookup-insert_cases k j en m h) [
    | inl (p, q) ↦ subst (λ i. Holds i a) p (subst (Holds k) q new)
    | inr (p, q) ↦ old j a q
  ]

  -- What `get` says it found is a good state.
  pub get-Good :
      (r : TypedRegistry S) (k : Bytes) {p : Option S}
      → IsSound r
      → get r k ≡ (p, true)
      → (s : S) × (p ≡ some s) × Good k s
  unfolding get Registry.get
  get-Good r k {p} v h = elim (Option-cases (lookup k r.entries)) [
    | inl q ↦ absurd (ground arith)
    | inr (en, q) ↦
        let has : en.has_value ≡ true = ground arith in
        let same : en.value ≡ p = ground arith in
        subst (λ x. (s : S) × (x ≡ some s) × Good k s) same (v.holds k en q has)
  ]

  pub new-IsSound : (name : Bytes) → IsSound (Registry.new name)
  unfolding Registry.new lookup
  new-IsSound name = record { valid = new-IsValid name; holds = λ k en h. cc }

  acquire-IsSound : (r : TypedRegistry S) (k : Bytes) → IsSound r → IsSound (acquire r k).0
  unfolding acquire Registry.acquire
  acquire-IsSound r k v = record {
    valid = acquire-IsValid r k v.valid none;
    holds = elim (Option-cases (lookup k r.entries)) [
      | inl q ↦ rw (q, Registry.acquire) (insert-AllHold k _ r.entries (λ p. absurd (cc)) v.holds)
      | inr (en, q) ↦
          rw (q, Registry.acquire) (insert-AllHold k _ r.entries (v.holds k en q) v.holds)
    ];
  }

  release-IsSound : (r : TypedRegistry S) (k : Bytes) → IsSound r → IsSound (release r k).0
  unfolding release Registry.release
  release-IsSound r k v = record {
    valid = release-IsValid r k v.valid;
    holds = elim (Option-cases (lookup k r.entries)) [
      | inl q ↦ rw (q, Registry.release) v.holds
      | inr (en, q) ↦ elim (Bool-cases (leb_ℤ en.refs (pos 0))) [
        | inl low ↦ rw (q, Registry.release) (rw low v.holds)
        | inr up ↦ elim (Bool-cases (beq_ℤ (dec64 en.refs) (pos 0))) [
          | inl last ↦
              rw (q, Registry.release)
                (rw (up, last) (λ j a h. v.holds j a (lookup-delete_cases k j r.entries h).1))
          | inr more ↦
              rw (q, Registry.release)
                (rw (up, more) (insert-AllHold k _ r.entries (v.holds k en q) v.holds))
        ]
      ]
    ];
  }

  store-AllHold :
      (r : TypedRegistry S) (k : Bytes) (s : S) (r' : TypedRegistry S)
      → Good k s
      → AllHold r.entries
      → Registry.add none r k (some s) ≡ some r'
      → AllHold r'.entries
  store-AllHold r k s r' g old h =
      let (en, written, same, has) = add-entries none (some s) r r' k h in
      rw written (insert-AllHold k en r.entries (λ _. (s, same, g)) old)

  module _ {E : Type 0} (kind : Kind S E) (law : IsLawful kind Good) where
    -- Add never panics. It either reports the error of the validation and changes nothing, or
    -- stores the state in its normal form.
    pub add-IsSound :
        (r : TypedRegistry S) (p : Option S)
        → IsSound r
        → Returns (λ t. IsSound t.0 × (t.1 ≡ kind.validate p)) (add kind r p)
    unfolding add
    add-IsSound r none v = elim (Option-cases (kind.validate none)) [
      | inl e ↦ absurd (law.no_nil e)
      | inr (x, e) ↦ rw (e, add) ((r, some x), refl, (v, refl))
    ]
    add-IsSound r (some s) v = elim (Option-cases (kind.validate (some s))) [
      | inl e ↦
          let k = kind.id_of (kind.normalise s) in
          let (r', added, v') = add_total r k v.valid none (some (kind.normalise s)) in
          let held = store-AllHold r k (kind.normalise s) r' (law.good s e) v.holds added in
          let stored : add kind r (some s) ≡ some (r', none) = ground (arith, e, added) in
          ((r', none), stored, (record { valid = v'; holds = held }, sym e))
      | inr (x, e) ↦ rw (e, add) ((r, some x), refl, (v, refl))
    ]

    step-IsSound : (r : TypedRegistry S) (c : Call S) → IsSound r → Returns IsSound (step kind r c)
    unfolding step
    step-IsSound r (acquires k) v = Returns-some IsSound _ (acquire-IsSound r k v)
    step-IsSound r (releases k) v = Returns-some IsSound _ (release-IsSound r k v)
    step-IsSound r (adds p) v =
        let (t, e, (v', _)) = add-IsSound r p v in rw (e, step) (Returns-some IsSound t.0 v')

    run-IsSound_from :
        (r : TypedRegistry S) (cs : List (Call S)) → IsSound r → Returns IsSound (run kind r cs)
    unfolding run
    run-IsSound_from r [] v = Returns-some IsSound r v
    run-IsSound_from r (c ∷ cs) v =
        let (r', e, v') = step-IsSound r c v in rw (e, run) (run-IsSound_from r' cs v')

    -- After any calls on a new registry, none of which panics, whatever Get finds under a key is a
    -- good state for that key.
    pub run-Good :
        (name : Bytes) (cs : List (Call S))
        → Returns
            (λ r.
              (k : Bytes) (p : Option S) → get r k ≡ (p, true) → (s : S) × (p ≡ some s) × Good k s)
            (run kind (Registry.new name) cs)
    run-Good name cs =
        let (r, e, v) = run-IsSound_from (Registry.new name) cs (new-IsSound name) in
        (r, e, λ k p h. get-Good r k v h)

module _ {S E : Type 0} (kind : Kind S E) (r : TypedRegistry S) where
  pub step-adds :
      (s : S) (r' : TypedRegistry S)
      → kind.validate (some s) ≡ none
      → Registry.add none r (kind.id_of (kind.normalise s)) (some (kind.normalise s)) ≡ some r'
      → step kind r (adds (some s)) ≡ some r'
  unfolding step add
  step-adds s r' ok h = ground (arith, ok, h)

  pub step-refused :
      (p : Option S) {x : E} → kind.validate p ≡ some x → step kind r (adds p) ≡ some r
  unfolding step add
  step-refused p h = ground (arith, h)

module _ {S E : Type 0} (kind : Kind S E) where
  -- One call more.
  pub run-onward :
      (r : TypedRegistry S) (cs : List (Call S)) (c : Call S) {r' r'' : TypedRegistry S}
      → run kind r cs ≡ some r'
      → step kind r' c ≡ some r''
      → run kind r (cs ++ c ∷ []) ≡ some r''
  unfolding run
  run-onward r [] c h e = ground (arith, h, e)
  run-onward r (d ∷ cs) c {r' = r'} {r'' = r''} h e = elim (Option-cases (step kind r d)) [
    | inl p ↦ absurd (ground arith)
    | inr (s, p) ↦ rw (run, p) (run-onward s cs c {r' = r'} {r'' = r''} (ground arith) e)
  ]
