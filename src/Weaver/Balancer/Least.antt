-- ===== src/Weaver/Balancer/Least.antt =====
-- The two strategies that look for the replica with the fewest connections.
use dash_fabric.Base.{
  ℕ, zero, suc, ◌≡◌, refl, sym, ap, subst, true, false, List, [], ◌∷◌, none, some, arith, length,
  get_elem?, Bool-cases, inl, inr, ◌⊎◌, drop, get_elem?-drop, drop-suc,
}
use dash_fabric.Base.Int.{ℤ, ltb_ℤ, leb_ℤ}
use dash_fabric.Weaver.Balancer.{
  Replica, selected, scan, range, least_connections_select, resource_aware_select,
}

-- The replica with the fewest connections of `best` and a list: the first of these.
pub record IsLeast (best : Replica) (rs : List Replica) (r : Replica) : Type 0 where
  pub listed : (r ≡ best) ⊎ ((i : ℕ) × (get_elem? rs i ≡ some r))
  pub below_best : leb_ℤ r.active_connections best.active_connections ≡ true
  pub below :
      (i : ℕ) (x : Replica)
      → get_elem? rs i ≡ some x
      → leb_ℤ r.active_connections x.active_connections ≡ true

not_some : {A : Type 0} {x : A} → none ≡ some x → ⊥
not_some h = cc

leb_trans_lt : (a b c : ℤ) → leb_ℤ a b ≡ true → ltb_ℤ b c ≡ true → leb_ℤ a c ≡ true
leb_trans_lt a b c h k = ground arith

leb_trans_ge : (a b c : ℤ) → leb_ℤ a b ≡ true → ltb_ℤ c b ≡ false → leb_ℤ a c ≡ true
leb_trans_ge a b c h k = ground arith

some_inj : {A : Type 0} {x y : A} → some x ≡ some y → x ≡ y
some_inj h = cc

below_cons :
    (r : Replica) (rs : List Replica) (m : ℤ)
    → leb_ℤ m r.active_connections ≡ true
    → ((i : ℕ) (x : Replica) → get_elem? rs i ≡ some x → leb_ℤ m x.active_connections ≡ true)
    → (i : ℕ) (x : Replica) → get_elem? (r ∷ rs) i ≡ some x
    → leb_ℤ m x.active_connections ≡ true
below_cons r rs m h k zero x e = subst (λ y. leb_ℤ m y.active_connections ≡ true) (some_inj e) h
below_cons r rs m h k (suc i) x e = k i x e

range-IsLeast :
    (rs : List Replica) (best : Replica) → IsLeast best rs (range rs best best.active_connections)
unfolding range
range-IsLeast [] best = record {
  listed = inl refl;
  below_best = ground arith;
  below = λ i x h. absurd (not_some h);
}
range-IsLeast (r ∷ rs) best =
    elim (Bool-cases (ltb_ℤ r.active_connections best.active_connections)) [
      | inl l ↦
          let ih = range-IsLeast rs r in
          rw (l, range)
            (record {
              listed = elim ih.listed [
                | inl e ↦ inr (0, ap some (sym e))
                | inr (i, e) ↦ inr (suc i, e)
              ];
              below_best =
                  leb_trans_lt (range rs r r.active_connections).active_connections
                    r.active_connections best.active_connections ih.below_best l;
              below =
                  below_cons r rs (range rs r r.active_connections).active_connections ih.below_best
                    ih.below;
            })
      | inr l ↦
          let ih = range-IsLeast rs best in
          rw (l, range)
            (record {
              listed = elim ih.listed [ inl e ↦ inl e | inr (i, e) ↦ inr (suc i, e) ];
              below_best = ih.below_best;
              below =
                  below_cons r rs (range rs best best.active_connections).active_connections
                    (leb_trans_ge (range rs best best.active_connections).active_connections
                      best.active_connections r.active_connections ih.below_best l)
                    ih.below;
            })
    ]

scan-range :
    (n i : ℕ) (rs l : List Replica) (best : Replica) (m : ℤ)
    → drop i rs ≡ l
    → length l ≡ n
    → scan n i rs best m ≡ range l best m
unfolding scan range
scan-range zero i rs [] best m d e = refl
scan-range zero i rs (r ∷ l) best m d e = absurd (omega (arith, e))
scan-range (suc n) i rs [] best m d e = absurd (omega (arith, e))
scan-range (suc n) i rs (r ∷ l) best m d e =
    let h = get_elem?-drop i rs {y = r} {r = l} d in
    let d' = drop-suc i rs {y = r} {r = l} d in
    let at_r = scan-range n (suc i) rs l r r.active_connections d' (omega arith) in
    let at_best = scan-range n (suc i) rs l best m d' (omega arith) in
    rw (h, scan) (rw (at_r, at_best))

-- LeastConnections selects, of a list that is not empty, a replica with the fewest connections, and
-- ResourceAware selects the same replica.
fewest_connections :
    (r : Replica) (rs : List Replica)
    → (x : Replica) × (least_connections_select (r ∷ rs) ≡ selected x)
      × (resource_aware_select (r ∷ rs) ≡ selected x)
      × IsLeast r rs x
unfolding least_connections_select resource_aware_select
fewest_connections r rs = (
  range rs r r.active_connections,
  ap selected (scan-range (length rs) 1 (r ∷ rs) rs r r.active_connections refl refl),
  refl,
  range-IsLeast rs r,
)
