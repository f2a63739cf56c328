-- ===== src/Sort.antt =====
-- The order on byte strings and the insertion sort of pairs by their first component
-- (pkg/sort/key_value.go). The inner loop moves an element down a list held in reverse, so the
-- prefix that is sorted already stands with its last element first.
pub mod Order
pub mod Sorted
use adv_cache.Prelude.{ℕ, Bool, true, false, List, [], ◌∷◌, ltb, if◌then◌else◌}
use adv_cache.Model.Binary.{Bytes}

-- The loop over the common length, and the comparison of the lengths after it.
unfoldable pub less : Bytes → Bytes → Bool
less [] [] = false
less [] (b ∷ ys) = true
less (a ∷ xs) [] = false
less (a ∷ xs) (b ∷ ys) =
    let rest = less xs ys in if ltb a b then true else if ltb b a then false else rest

abbrev pub Pair : Type 0
Pair = Bytes × Bytes

-- `for j := i; j > 0 && less(kv[j][0], kv[j-1][0]); j--`: the pair sinks below those that it is less
-- than, the last of the prefix first.
unfoldable pub sink : Pair → List Pair → List Pair
sink x [] = x ∷ []
sink x (y ∷ before) = let rest = sink x before in if less x.0 y.0 then y ∷ rest else x ∷ y ∷ before

unfoldable pub rev_onto : List Pair → List Pair → List Pair
rev_onto [] after = after
rev_onto (x ∷ before) after = rev_onto before (x ∷ after)

-- `for i := 1; i < len(kv); i++`, from the prefix in reverse and the rest.
unfoldable pub sort_from : List Pair → List Pair → List Pair
unfolding sink rev_onto
sort_from before [] = rev_onto before []
sort_from before (x ∷ rest) = sort_from (sink x before) rest

unfoldable pub kv_slice : List Pair → List Pair
unfolding sort_from
kv_slice kv = sort_from [] kv
