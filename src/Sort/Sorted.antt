-- ===== src/Sort/Sorted.antt =====
-- What `KVSlice` makes of a list (pkg/sort/key_value.go).
use mathlib.Core.List.{Perm, perm_middle}
use mathlib.Core.List.Perm
use adv_cache.Prelude.{
  ◌≡◌, ◌≢◌, refl, sym, ◌∙◌, ap, true, false, Bool-cases, inl, inr, List, [], ◌∷◌, ◌++◌, arith,
}
use adv_cache.Sort.{less, Pair, sink, rev_onto, sort_from, kv_slice}
use adv_cache.Sort.Order.{less_asymm, less_trans, less_total}

-- No pair is less than the one before it.
abbrev pub Ordered : List Pair → Type 0
Ordered [] = Unit
Ordered (x ∷ []) = Unit
Ordered (x ∷ y ∷ kv) = (less y.0 x.0 ≡ false) × Ordered (y ∷ kv)

-- The same of a list in reverse.
abbrev Descends : List Pair → Type 0
Descends [] = Unit
Descends (x ∷ []) = Unit
Descends (x ∷ y ∷ kv) = (less x.0 y.0 ≡ false) × Descends (y ∷ kv)

Descends-tail : (x : Pair) (l : List Pair) → Descends (x ∷ l) → Descends l
Descends-tail x [] h = tt
Descends-tail x (y ∷ l) h = h.1

Descends-sink : (x : Pair) (l : List Pair) → Descends l → Descends (sink x l)
unfolding sink
Descends-sink x [] h = tt
Descends-sink x (y ∷ []) h = ground (arith, less_asymm x.0 y.0)
Descends-sink x (y ∷ z ∷ l) h = ground (arith, less_asymm x.0 y.0, Descends-sink x (z ∷ l) h.1)

-- The last of the prefix and the first of what follows it stand in order.
abbrev Joins : List Pair → List Pair → Type 0
Joins (x ∷ _) (a ∷ _) = less a.0 x.0 ≡ false
Joins _ _ = Unit

Ordered-rev_onto :
    (l after : List Pair) → Descends l → Ordered after → Joins l after → Ordered (rev_onto l after)
unfolding rev_onto
Ordered-rev_onto [] after d o j = o
Ordered-rev_onto (x ∷ l) after d o j =
    Ordered-rev_onto l (x ∷ after) (Descends-tail x l d) (onto after o j) (joined l d)
  where
    onto : (after : List Pair) → Ordered after → Joins (x ∷ l) after → Ordered (x ∷ after)
    onto [] o j = tt
    onto (a ∷ after) o j = (j, o)

    joined : (l : List Pair) → Descends (x ∷ l) → Joins l (x ∷ after)
    joined [] d = tt
    joined (y ∷ l) d = d.0

Ordered-sort_from : (before kv : List Pair) → Descends before → Ordered (sort_from before kv)
unfolding sort_from
Ordered-sort_from [] [] d = tt
Ordered-sort_from (x ∷ before) [] d = Ordered-rev_onto (x ∷ before) [] d tt tt
Ordered-sort_from before (x ∷ kv) d =
    Ordered-sort_from (sink x before) kv (Descends-sink x before d)

sink-perm : (x : Pair) (l : List Pair) → Perm (sink x l) (x ∷ l)
unfolding sink
sink-perm x [] = Perm.refl (x ∷ [])
sink-perm x (y ∷ l) = elim (Bool-cases (less x.0 y.0)) [
  | inl below ↦ rw (below, sink) (Perm.trans (Perm.cons y (sink-perm x l)) (Perm.swap x y l))
  | inr there ↦ rw (there, sink) (Perm.refl (x ∷ y ∷ l))
]

rev_onto-perm : (l after : List Pair) → Perm (rev_onto l after) (l ++ after)
unfolding rev_onto
rev_onto-perm [] after = Perm.refl after
rev_onto-perm (x ∷ l) after = Perm.trans (rev_onto-perm l (x ∷ after)) (perm_middle l after)

sort_from-perm : (before kv : List Pair) → Perm (sort_from before kv) (before ++ kv)
unfolding sort_from
sort_from-perm before [] = rev_onto-perm before []
sort_from-perm before (x ∷ kv) = Perm.trans (sort_from-perm (sink x before) kv) (
    Perm.trans (Perm.append (sink-perm x before) (Perm.refl kv))
      (Perm.symm (perm_middle before kv)))

-- What KVSlice makes of a list of pairs is ordered by the keys, and holds the same pairs, as
-- often.
pub kv_slice-Ordered : (kv : List Pair) → Ordered (kv_slice kv) × Perm (kv_slice kv) kv
unfolding kv_slice
kv_slice-Ordered kv = (Ordered-sort_from [] kv tt, sort_from-perm [] kv)

sink_comm_lt :
    (x y : Pair) (l : List Pair) → less x.0 y.0 ≡ true → sink x (sink y l) ≡ sink y (sink x l)
unfolding sink
sink_comm_lt x y [] h = ground (arith, less_asymm x.0 y.0)
sink_comm_lt x y (z ∷ l) h =
    ground (arith, less_asymm x.0 y.0, less_trans x.0 y.0 z.0, sink_comm_lt x y l h)

sink_comm : (x y : Pair) (l : List Pair) → x.0 ≢ y.0 → sink x (sink y l) ≡ sink y (sink x l)
sink_comm x y l h = elim (Bool-cases (less x.0 y.0)) [
  | inl lt ↦ sink_comm_lt x y l lt
  | inr ge ↦ elim (Bool-cases (less y.0 x.0)) [
    | inl gt ↦ sym (sink_comm_lt y x l gt)
    | inr le ↦ absurd (h (less_total x.0 y.0 ge le))
  ]
]

-- One list comes from the other by exchanging neighbours that have different keys.
pub data Reordered : List Pair → List Pair → Type 0 where
  same : (kv : List Pair) → Reordered kv kv
  exchange :
      (before after : List Pair) (a b : Pair) {kv : List Pair}
      → a.0 ≢ b.0
      → Reordered (before ++ (b ∷ a ∷ after)) kv
      → Reordered (before ++ (a ∷ b ∷ after)) kv

sort_from-exchange :
    (done before after : List Pair) (a b : Pair)
    → a.0 ≢ b.0
    → sort_from done (before ++ (a ∷ b ∷ after)) ≡ sort_from done (before ++ (b ∷ a ∷ after))
unfolding sort_from
sort_from-exchange done [] after a b h =
    ap (λ (l : List Pair). sort_from l after) (sym (sink_comm a b done h))
sort_from-exchange done (x ∷ before) after a b h =
    sort_from-exchange (sink x done) before after a b h

-- If neighbours with different keys are exchanged in a list, any number of times, KVSlice makes
-- the same of it.
pub kv_slice-Reordered : {kv kv' : List Pair} → Reordered kv kv' → kv_slice kv ≡ kv_slice kv'
unfolding kv_slice
kv_slice-Reordered (same kv) = refl
kv_slice-Reordered (exchange before after a b h r) =
    sort_from-exchange [] before after a b h ∙ kv_slice-Reordered r
