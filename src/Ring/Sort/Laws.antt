-- ===== src/Ring/Sort/Laws.antt =====
-- The merge sort orders its list, keeps its elements, and ends (pkg/list/doubly_linked.go).
use mathlib.Core.List.{Perm, perm_middle, perm_append_comm, append-nil}
use mathlib.Core.List.Perm
use adv_cache.Prelude.{
  ℕ, zero, suc, ◌+◌, ◌≤◌, ◌<◌, ◌≡◌, ◌≢◌, refl, sym, ap, ◌∙◌, true, false, Bool-cases, inl, inr,
  List, [], ◌∷◌, ◌++◌, arith, All, length, length-append,
}
use adv_cache.Prelude.Words.{lt64, le64}
use adv_cache.Ring.Seg.{Differ, Distinct, All-map, All-append}
use adv_cache.Ring.Sort.{Order, asc, desc, less, split_half, merge_by_weight, merge_sort}

-- `x` may stand before `y`: at most the weight for ASC, at least the weight for DESC.
abbrev pub Before : Order → ℕ → ℕ → Type 0
Before asc a b = le64 a b ≡ true
Before desc a b = le64 b a ≡ true

Before-less : (o : Order) (a b : ℕ) → less o a b ≡ true → Before o a b
unfolding less lt64 le64
Before-less asc a b h = h
Before-less desc a b h = ground (arith, h)

Before-not_less : (o : Order) (a b : ℕ) → less o a b ≡ false → Before o b a
unfolding less lt64 le64
Before-not_less asc a b h = ground (arith, h)
Before-not_less desc a b h = ground (arith, h)

Before-trans : (o : Order) (a b c : ℕ) → Before o a b → Before o b c → Before o a c
unfolding le64
Before-trans asc a b c h k = ground (arith, h, k)
Before-trans desc a b c h k = ground (arith, h, k)

split_half-append :
    (slow fast : List ℕ) → (split_half slow fast).0 ++ (split_half slow fast).1 ≡ slow
unfolding split_half
split_half-append [] fast = refl
split_half-append (e ∷ slow) [] = refl
split_half-append (e ∷ slow) (_ ∷ []) = refl
split_half-append (e ∷ slow) (_ ∷ _ ∷ []) = refl
split_half-append (e ∷ slow) (_ ∷ _ ∷ f ∷ fast) =
    ap (λ (l : List ℕ). e ∷ l) (split_half-append slow (f ∷ fast))

-- The head's half is not empty, and leaves something if `slow` is longer than half of `fast`.
split_half-first : (e : ℕ) (slow fast : List ℕ) → 0 < length (split_half (e ∷ slow) fast).0
unfolding split_half
split_half-first e slow [] = omega arith
split_half-first e slow (_ ∷ []) = omega arith
split_half-first e slow (_ ∷ _ ∷ []) = omega arith
split_half-first e slow (_ ∷ _ ∷ f ∷ fast) = omega arith

split_half-second :
    (slow fast : List ℕ)
    → length fast ≤ length slow
    → 2 ≤ length slow
    → 0 < length (split_half slow fast).1
unfolding split_half
split_half-second [] fast h k = absurd (omega arith)
split_half-second (e ∷ slow) [] h k = omega arith
split_half-second (e ∷ slow) (_ ∷ []) h k = omega arith
split_half-second (e ∷ slow) (_ ∷ _ ∷ []) h k = omega arith
split_half-second (e ∷ slow) (_ ∷ _ ∷ f ∷ fast) h k =
    split_half-second slow (f ∷ fast) (omega arith) (omega arith)

-- Both halves of two elements or more are shorter.
pub length-split_half :
    (x y : ℕ) (l : List ℕ)
    → let s = split_half (x ∷ y ∷ l) (x ∷ y ∷ l) in
      (length s.0 < length (x ∷ y ∷ l)) × (length s.1 < length (x ∷ y ∷ l))
length-split_half x y l =
    let xs = x ∷ y ∷ l in
    let s = split_half xs xs in
    let sum : length s.0 + length s.1 ≡ length xs =
      sym (length-append s.0 s.1) ∙ ap length (split_half-append xs xs) in
    let a = split_half-first x (y ∷ l) xs in
    let b = split_half-second xs xs (omega arith) (omega arith) in
    (omega (arith, sum, a, b), omega (arith, sum, a, b))

module _ (order : Order) (weight : ℕ → ℕ) where
  -- Each element may stand before all that follow it.
  abbrev pub Ordered : List ℕ → Type 0
  Ordered [] = Unit
  Ordered (x ∷ xs) = All (λ y. Before order (weight x) (weight y)) xs × Ordered xs

  merge_first :
      (x y : ℕ) (a b : List ℕ)
      → less order (weight x) (weight y) ≡ true
      → merge_by_weight order weight (x ∷ a) (y ∷ b) ≡ x ∷ merge_by_weight order weight a (y ∷ b)
  unfolding merge_by_weight
  merge_first x y a b h = ground (arith, h)

  merge_second :
      (x y : ℕ) (a b : List ℕ)
      → less order (weight x) (weight y) ≡ false
      → merge_by_weight order weight (x ∷ a) (y ∷ b) ≡ y ∷ merge_by_weight order weight (x ∷ a) b
  unfolding merge_by_weight
  merge_second x y a b h = ground (arith, h)

  merge-perm : (a b : List ℕ) → Perm (merge_by_weight order weight a b) (a ++ b)
  unfolding merge_by_weight
  merge-perm [] b = Perm.refl b
  merge-perm (x ∷ a) [] = rw (append-nil a) (Perm.refl (x ∷ a))
  merge-perm (x ∷ a) (y ∷ b) = elim (Bool-cases (less order (weight x) (weight y))) [
    | inl first ↦ rw (merge_first x y a b first) (Perm.cons x (merge-perm a (y ∷ b)))
    | inr second ↦
        rw (merge_second x y a b second)
          (Perm.trans (Perm.cons y (merge-perm (x ∷ a) b)) (Perm.symm (perm_middle (x ∷ a) b)))
  ]

  All-merge :
      (P : ℕ → Type 0) (a b : List ℕ) → All P a → All P b → All P (merge_by_weight order weight a b)
  unfolding merge_by_weight
  All-merge P [] b h k = k
  All-merge P (x ∷ a) [] h k = h
  All-merge P (x ∷ a) (y ∷ b) h k = elim (Bool-cases (less order (weight x) (weight y))) [
    | inl first ↦ rw (merge_first x y a b first) (h.0, All-merge P a (y ∷ b) h.1 k)
    | inr second ↦ rw (merge_second x y a b second) (k.0, All-merge P (x ∷ a) b h k.1)
  ]

  above :
      (x y : ℕ) (l : List ℕ)
      → Before order (weight x) (weight y)
      → All (λ z. Before order (weight y) (weight z)) l
      → All (λ z. Before order (weight x) (weight z)) l
  above x y [] h k = tt
  above x y (z ∷ l) h k =
      (Before-trans order (weight x) (weight y) (weight z) h k.0, above x y l h k.1)

  merge-Ordered :
      (a b : List ℕ) → Ordered a → Ordered b → Ordered (merge_by_weight order weight a b)
  unfolding merge_by_weight
  merge-Ordered [] b h k = k
  merge-Ordered (x ∷ a) [] h k = h
  merge-Ordered (x ∷ a) (y ∷ b) h k = elim (Bool-cases (less order (weight x) (weight y))) [
    | inl first ↦
        let xy = Before-less order (weight x) (weight y) first in
        rw (merge_first x y a b first)
          (All-merge _ a (y ∷ b) h.0 (xy, above x y b xy k.0), merge-Ordered a (y ∷ b) h.1 k)
    | inr second ↦
        let yx = Before-not_less order (weight x) (weight y) second in
        rw (merge_second x y a b second)
          (All-merge _ (x ∷ a) b (yx, above y x a yx h.0) k.0, merge-Ordered (x ∷ a) b h k.1)
  ]

  -- With the length of the list as fuel the result is ordered, and a permutation of the list.
  pub merge_sort-Ordered :
      (n : ℕ) (l : List ℕ)
      → length l ≤ n
      → Ordered (merge_sort order weight n l) × Perm (merge_sort order weight n l) l
  unfolding merge_sort
  merge_sort-Ordered zero [] h = (tt, Perm.refl [])
  merge_sort-Ordered zero (x ∷ l) h = absurd (omega arith)
  merge_sort-Ordered (suc n) [] h = (tt, Perm.refl [])
  merge_sort-Ordered (suc n) (x ∷ []) h = ((tt, tt), Perm.refl (x ∷ []))
  merge_sort-Ordered (suc n) (x ∷ y ∷ l) h =
      let xs = x ∷ y ∷ l in
      let s = split_half xs xs in
      let (short_head, short_mid) = length-split_half x y l in
      let (mid_o, mid_p) = merge_sort-Ordered n s.1 (omega (arith, short_mid)) in
      let (head_o, head_p) = merge_sort-Ordered n s.0 (omega (arith, short_head)) in
      (
        merge-Ordered _ _ mid_o head_o,
        Perm.trans (merge-perm _ _) (
            Perm.trans (Perm.append mid_p head_p)
              (rw (split_half-append xs xs) at (perm_append_comm s.1 s.0))),
      )

  pub All-merge_sort :
      (P : ℕ → Type 0) (n : ℕ) (l : List ℕ) → All P l → All P (merge_sort order weight n l)
  unfolding merge_sort
  All-merge_sort P zero [] h = h
  All-merge_sort P zero (x ∷ l) h = h
  All-merge_sort P (suc n) [] h = h
  All-merge_sort P (suc n) (x ∷ []) h = h
  All-merge_sort P (suc n) (x ∷ y ∷ l) h =
      let xs = x ∷ y ∷ l in
      let s = split_half xs xs in
      let (head, mid) = All-append P s.0 s.1 (rw (split_half-append xs xs) h) in
      All-merge P _ _ (All-merge_sort P n s.1 mid) (All-merge_sort P n s.0 head)

  length-merge : (a b : List ℕ) → length (merge_by_weight order weight a b) ≡ length a + length b
  unfolding merge_by_weight
  length-merge [] b = omega arith
  length-merge (x ∷ a) [] = omega arith
  length-merge (x ∷ a) (y ∷ b) = ground (arith, length-merge a (y ∷ b), length-merge (x ∷ a) b)

  pub length-merge_sort : (n : ℕ) (l : List ℕ) → length (merge_sort order weight n l) ≡ length l
  unfolding merge_sort
  length-merge_sort zero [] = refl
  length-merge_sort zero (x ∷ l) = refl
  length-merge_sort (suc n) [] = refl
  length-merge_sort (suc n) (x ∷ []) = refl
  length-merge_sort (suc n) (x ∷ y ∷ l) =
      let xs = x ∷ y ∷ l in
      let s = split_half xs xs in
      omega (
        arith,
        length-merge (merge_sort order weight n s.1) (merge_sort order weight n s.0),
        length-merge_sort n s.1,
        length-merge_sort n s.0,
        sym (length-append s.0 s.1) ∙ ap length (split_half-append xs xs),
      )

  -- No address of the one list is in the other.
  abbrev Apart : List ℕ → List ℕ → Type 0
  Apart a b = All (λ x. Differ x b) a

  Distinct-merge :
      (a b : List ℕ)
      → Distinct a
      → Distinct b
      → Apart a b
      → Distinct (merge_by_weight order weight a b)
  unfolding merge_by_weight
  Distinct-merge [] b h k d = k
  Distinct-merge (x ∷ a) [] h k d = h
  Distinct-merge (x ∷ a) (y ∷ b) h k d = elim (Bool-cases (less order (weight x) (weight y))) [
    | inl first ↦
        rw (merge_first x y a b first)
          (All-merge _ a (y ∷ b) h.0 d.0, Distinct-merge a (y ∷ b) h.1 k d.1)
    | inr second ↦ rw (merge_second x y a b second) (
      All-merge _ (x ∷ a) b (All-map {Q = λ z. y ≢ z} (x ∷ a) (λ z e q. e.0 (sym q)) d) k.0,
      Distinct-merge (x ∷ a) b h k.1 (All-map {Q = λ z. Differ z b} (x ∷ a) (λ z e. e.1) d),
    )
  ]

  Distinct-append : (a b : List ℕ) → Distinct (a ++ b) → Distinct a × Distinct b × Apart a b
  Distinct-append [] b h = (tt, h, tt)
  Distinct-append (x ∷ a) b h =
      let (da, db, ap) = Distinct-append a b h.1 in
      let (l, r) = All-append (λ z. x ≢ z) a b h.0 in ((l, da), db, (r, ap))

  Apart-sym : (a b : List ℕ) → Apart a b → Apart b a
  Apart-sym a [] h = tt
  Apart-sym a (y ∷ b) h = (
    All-map {Q = λ z. y ≢ z} a (λ z e q. e.0 (sym q)) h,
    Apart-sym a b (All-map {Q = λ z. Differ z b} a (λ z e. e.1) h),
  )

  pub Distinct-merge_sort :
      (n : ℕ) (l : List ℕ) → Distinct l → Distinct (merge_sort order weight n l)
  unfolding merge_sort
  Distinct-merge_sort zero [] h = h
  Distinct-merge_sort zero (x ∷ l) h = h
  Distinct-merge_sort (suc n) [] h = h
  Distinct-merge_sort (suc n) (x ∷ []) h = h
  Distinct-merge_sort (suc n) (x ∷ y ∷ l) h =
      let xs = x ∷ y ∷ l in
      let s = split_half xs xs in
      let (head, mid, apart) = Distinct-append s.0 s.1 (rw (split_half-append xs xs) h) in
      let one =
        All-map {Q = λ z. Differ z (merge_sort order weight n s.0)} s.1
          (λ z e. All-merge_sort (λ i. z ≢ i) n s.0 e) (Apart-sym s.0 s.1 apart) in
      Distinct-merge _ _ (Distinct-merge_sort n s.1 mid) (Distinct-merge_sort n s.0 head)
        (All-merge_sort (λ z. Differ z (merge_sort order weight n s.0)) n s.1 one)
