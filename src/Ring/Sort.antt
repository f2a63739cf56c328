-- ===== src/Ring/Sort.antt =====
-- The merge sort of the list by the weights of its values (pkg/list/doubly_linked.go: Sort,
-- mergeSortByWeight, splitHalf, mergeByWeight). Once the ring is opened, a list of elements that ends
-- in nil is the list of their addresses; the links backward are set anew at the end. The weights are
-- int64 patterns and do not change while the list is sorted.
pub mod Laws
pub mod Refine
use adv_cache.Prelude.{
  ℕ, zero, suc, ◌+◌, Bool, true, false, List, [], ◌∷◌, ◌==◌, if◌then◌else◌, update, length,
}
use adv_cache.Prelude.Words.{lt64, le64}
use adv_cache.Ring.{Ring}

pub data Order : Type 0 where
  desc asc : Order

unfoldable pub less : Order → ℕ → ℕ → Bool
less asc a b = le64 a b
less desc a b = lt64 b a

-- The elements from `e` on until the one that was the last of the ring; `n` of them are enough.
unfoldable pub chain : ℕ → ℕ → (ℕ → ℕ) → ℕ → List ℕ
chain zero last next e = []
chain (suc n) last next e =
    let rest = chain n last next (next e) in if e == last then e ∷ [] else e ∷ rest

-- splitHalf: `slow` is the first list, `fast` the second; the head's half, and the list from `mid`.
unfoldable pub split_half : List ℕ → List ℕ → List ℕ × List ℕ
split_half [] fast = ([], [])
split_half (e ∷ slow) (_ ∷ _ ∷ f ∷ fast) =
    let (head, mid) = split_half slow (f ∷ fast) in (e ∷ head, mid)
split_half (e ∷ slow) fast = (e ∷ [], slow)

module _ (order : Order) (weight : ℕ → ℕ) where
  unfoldable pub merge_by_weight : List ℕ → List ℕ → List ℕ
  merge_by_weight [] b = b
  merge_by_weight (x ∷ a) [] = x ∷ a
  merge_by_weight (x ∷ a) (y ∷ b) = elim (less order (weight x) (weight y)) [
    | true ↦ x ∷ merge_by_weight a (y ∷ b)
    | false ↦ y ∷ merge_by_weight (x ∷ a) b
  ]

  -- The half from `mid` on is the left one. The length of the list is enough fuel.
  unfoldable pub merge_sort : ℕ → List ℕ → List ℕ
  merge_sort (suc n) (x ∷ y ∷ l) =
      let (head, mid) = split_half (x ∷ y ∷ l) (x ∷ y ∷ l) in
      merge_by_weight (merge_sort n mid) (merge_sort n head)
  merge_sort _ l = l

-- The links of the sorted list from `a` on, both ways, and the ring closed.
unfoldable pub relink : ℕ → List ℕ → Ring → Ring
relink a [] l = record l { next = update l.next a 0; prev = update l.prev 0 a }
relink a (x ∷ xs) l = relink x xs (record l { next = update l.next a x; prev = update l.prev x a })

-- Sort, by the weight of a value.
unfoldable pub sort : Order → (ℕ → ℕ) → Ring → Ring
sort order weight l =
    let sorted =
      merge_sort order (λ e. weight (l.value e)) l.len (chain l.len (l.prev 0) l.next (l.next 0)) in
    if lt64 l.len 2 then l else relink 0 sorted l
