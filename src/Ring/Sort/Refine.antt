-- ===== src/Ring/Sort/Refine.antt =====
-- The sort of the ring against the sort of the list that it holds (pkg/list/doubly_linked.go).
use mathlib.Core.List.{Perm}
use mathlib.Core.List.Perm
use adv_cache.Prelude.{
  ℕ, suc, ◌^◌, ◌<◌, ◌≡◌, ◌≢◌, refl, sym, ap, ◌∙◌, true, false, List, [], ◌∷◌, arith, length, ◌==◌,
  update, ltb,
}
use adv_cache.Prelude.Words.{lt64}
use adv_cache.Ring.{Ring}
use adv_cache.Ring.Seg.{Seg, Differ, Distinct, All-last, Seg-last, last_of, update_ne, update_eq}
use adv_cache.Ring.Refine.{Holds}
use adv_cache.Ring.Sort.{Order, chain, merge_sort, relink, sort}
use adv_cache.Ring.Sort.Laws.{
  Ordered, merge_sort-Ordered, All-merge_sort, length-merge_sort, Distinct-merge_sort,
}

-- The opened ring is the list.
chain-Seg :
    (next prev : ℕ → ℕ) (x : ℕ) (xs : List ℕ)
    → Distinct (x ∷ xs)
    → Seg next prev x xs 0
    → chain (suc (length xs)) (last_of x xs) next x ≡ x ∷ xs
unfolding chain
chain-Seg next prev x [] d s = let on : (x == x) ≡ true = ground arith in rw on refl
chain-Seg next prev x (y ∷ ys) d s =
    let ne = All-last (λ i. x ≢ i) y ys d.0 in
    let off : (x == last_of y ys) ≡ false = ground arith in
    rw (off, s.0) (ap (λ (l : List ℕ). x ∷ l) (chain-Seg next prev y ys d.1 s.2))

relink-next :
    (a : ℕ) (xs : List ℕ) (l : Ring) (i : ℕ) → Differ i (a ∷ xs) → (relink a xs l).next i ≡ l.next i
unfolding relink
relink-next a [] l i h = update_ne l.next a 0 i (λ e. h.0 (sym e))
relink-next a (x ∷ xs) l i h =
    relink-next x xs (record l { next = update l.next a x; prev = update l.prev x a }) i h.1
    ∙ update_ne l.next a x i (λ e. h.0 (sym e))

relink-prev :
    (a : ℕ) (xs : List ℕ) (l : Ring) (i : ℕ)
    → Differ i xs
    → i ≢ 0
    → (relink a xs l).prev i ≡ l.prev i
unfolding relink
relink-prev a [] l i h z = update_ne l.prev 0 a i (λ e. z (sym e))
relink-prev a (x ∷ xs) l i h z =
    relink-prev x xs (record l { next = update l.next a x; prev = update l.prev x a }) i h.1 z
    ∙ update_ne l.prev x a i (λ e. h.0 (sym e))

relink-Seg :
    (a : ℕ) (xs : List ℕ) (l : Ring)
    → Distinct (a ∷ xs)
    → Differ 0 xs
    → Seg (relink a xs l).next (relink a xs l).prev a xs 0
unfolding relink
relink-Seg a [] l d z = (update_eq l.next a 0, update_eq l.prev 0 a)
relink-Seg a (x ∷ xs) l d z =
    let t = record l { next = update l.next a x; prev = update l.prev x a } in
    (
      relink-next x xs t a d.0 ∙ update_eq l.next a x,
      relink-prev x xs t x d.1.0 (λ e. z.0 (sym e)) ∙ update_eq l.prev x a,
      relink-Seg x xs t d.1 z.1,
    )

relink-rest :
    (a : ℕ) (xs : List ℕ) (l : Ring)
    → ((relink a xs l).len ≡ l.len)
      × ((relink a xs l).fresh ≡ l.fresh)
      × ((relink a xs l).value ≡ l.value)
      × ((relink a xs l).name ≡ l.name)
unfolding relink
relink-rest a [] l = (refl, refl, refl, refl)
relink-rest a (x ∷ xs) l =
    relink-rest x xs (record l { next = update l.next a x; prev = update l.prev x a })

lt64-ltb : (a b : ℕ) → a < 2 ^ 63 → b < 2 ^ 63 → lt64 a b ≡ ltb a b
unfolding lt64
lt64-ltb a b h k = ground arith

-- In a ring that holds a list, Sort leaves a ring that holds a permutation of the list, ordered by
-- the weights of the values, ascending for ASC and descending for DESC; no value changes.
pub sort-Holds :
    (order : Order) (weight : ℕ → ℕ) (l : Ring) (xs : List ℕ)
    → Holds l xs
    → (ys : List ℕ) × Holds (sort order weight l) ys
      × Ordered order (λ e. weight (l.value e)) ys
      × Perm ys xs
      × ((sort order weight l).value ≡ l.value)
unfolding sort
sort-Holds order weight l [] h =
    let short : lt64 l.len 2 ≡ true = rw h.len (lt64-ltb _ 2 h.small (omega arith)) in
    rw short ([], h, tt, Perm.refl [], refl)
sort-Holds order weight l (x ∷ []) h =
    let short : lt64 l.len 2 ≡ true = rw h.len (lt64-ltb _ 2 h.small (omega arith)) in
    rw short (x ∷ [], h, (tt, tt), Perm.refl (x ∷ []), refl)
sort-Holds order weight l (x ∷ y ∷ l') h =
    let xs = x ∷ y ∷ l' in
    let w = λ (e : ℕ). weight (l.value e) in
    let ys = merge_sort order w l.len xs in
    let long : lt64 l.len 2 ≡ false =
      rw h.len (lt64-ltb _ 2 h.small (omega arith) ∙ ground arith) in
    let opened : chain l.len (l.prev 0) l.next (l.next 0) ≡ xs =
      rw (h.len, Seg-last l.next l.prev 0 xs 0 h.linked, h.linked.0)
        (chain-Seg l.next l.prev x (y ∷ l') h.distinct.1 h.linked.2) in
    let (ordered, perm) = merge_sort-Ordered order w l.len xs (omega (arith, h.len)) in
    let (len, fresh, value, name) = relink-rest 0 ys l in
    let differ = All-merge_sort order w (λ i. 0 ≢ i) l.len xs h.distinct.0 in
    let distinct = Distinct-merge_sort order w l.len xs h.distinct.1 in
    rw (long, opened)
      (
        ys,
        record {
          linked = relink-Seg 0 ys l (differ, distinct) differ;
          distinct = (differ, distinct);
          given = rw fresh (All-merge_sort order w (λ i. i < l.fresh) l.len xs h.given);
          positive = rw fresh h.positive;
          len = len ∙ h.len ∙ sym (length-merge_sort order w l.len xs);
          small = rw (length-merge_sort order w l.len xs) h.small;
        },
        ordered,
        perm,
        value,
      )
