-- ===== src/Model/Query.antt =====
-- The parameters and headers that make the key of a request (pkg/model/query.go,
-- pkg/model/header.go). A slice expression with bounds out of order or out of range is a panic,
-- `none`. The pooled buffer that holds the pairs is a list.
pub mod Panic
use adv_cache.Prelude.{
  ℕ, suc, ◌+◌, ◌-◌, Bool, true, false, not, ◌&&◌, ◌||◌, Option, none, some, List, [], ◌∷◌, ◌++◌,
  leb, ltb, ◌==◌, if◌then◌else◌, length, take, drop,
}
use adv_cache.Model.Binary.{Bytes, ◌>>=◌}
use adv_cache.Sort.{Pair, kv_slice}

-- bytes.HasPrefix
unfoldable pub has_prefix : Bytes → Bytes → Bool
has_prefix bs [] = true
has_prefix [] (p ∷ ps) = false
has_prefix (b ∷ bs) (p ∷ ps) = b == p && has_prefix bs ps

unfoldable pub is_allowed : List Bytes → Bytes → Bool
is_allowed [] key = false
is_allowed (a ∷ allowed) key = has_prefix key a || is_allowed allowed key

-- The pairs whose key begins with an allowed one.
unfoldable pub keep_allowed : List Bytes → List Pair → List Pair
keep_allowed allowed [] = []
keep_allowed allowed (kv ∷ rest) =
    let kept = keep_allowed allowed rest in if is_allowed allowed kv.0 then kv ∷ kept else kept

-- filterAndSortKeyQueriesInPlace, and getFilteredAndSortedKeyQueriesFastHttp over the pairs that
-- QueryArgs().All() visits.
unfoldable pub filter_and_sort : List Bytes → List Pair → List Pair
filter_and_sort allowed kv = kv_slice (keep_allowed allowed kv)

-- getFilteredAndSortedKeyHeaders…: the rule's headers that the request has with a value, by what
-- Header.Peek gives.
unfoldable pub present_headers : (Bytes → Bytes) → List Bytes → List Pair
present_headers peek [] = []
present_headers peek (h ∷ headers) =
    let rest = present_headers peek headers in
    if leb (length (peek h)) 0 then rest else (h, peek h) ∷ rest

unfoldable pub key_headers : (Bytes → Bytes) → List Bytes → List Pair
key_headers peek headers = kv_slice (present_headers peek headers)

-- bytes.TrimLeft(b, "?")
unfoldable pub trim_left : Bytes → Bytes
trim_left [] = []
trim_left (c ∷ b) = let rest = trim_left b in if c == b'?' then rest else c ∷ b

-- b[lo:hi]
unfoldable pub slice : ℕ → ℕ → Bytes → Option Bytes
slice lo hi b = if leb lo hi && leb hi (length b) then some (take (hi - lo) (drop lo b)) else none

pub record State : Type 0 where
  pub k_idx : ℕ
  pub v_idx : ℕ
  pub k_found : Bool
  pub v_found : Bool

-- The key and the value that end before `idx`.
unfoldable pub pair_at : Bytes → ℕ → State → Option Pair
pair_at b idx s =
    if s.v_found
    then (do key ← slice s.k_idx (s.v_idx - 1) b; val ← slice s.v_idx idx b; some (key, val))
    else (do key ← slice s.k_idx idx b; some (key, []))

abbrev pub next_state : ℕ → ℕ → State → State
next_state idx c s =
    if c == b'&'
    then record s { k_idx = idx + 1; k_found = true; v_idx = 0; v_found = false }
    else if c == b'=' && not s.v_found
    then record s { v_idx = idx + 1; v_found = true }
    else if not s.k_found
    then record s { k_idx = idx; k_found = true }
    else s

-- What is appended at the byte `c`: a pair at an ampersand after a key has been found.
unfoldable pub emit : Bytes → ℕ → ℕ → State → Option (List Pair)
emit b idx c s =
    if c == b'&' && s.k_found then (do kv ← pair_at b idx s; some (kv ∷ [])) else some []

-- The loop over the bytes from `idx` on, and the pair after it.
unfoldable pub scan : Bytes → ℕ → Bytes → State → Option (List Pair)
scan b idx [] s = if s.k_found then (do kv ← pair_at b (length b) s; some (kv ∷ [])) else some []
scan b idx (c ∷ rest) s = do
  here ← emit b idx c s
  later ← scan b (idx + 1) rest (next_state idx c s)
  some (here ++ later)

abbrev pub start : State
start = record { k_idx = 0; v_idx = 0; k_found = false; v_found = false }

unfoldable pub parse_query : Bytes → Option (List Pair)
parse_query raw = scan (trim_left raw) 0 (trim_left raw) start

unfoldable pub parse_filter_and_sort_query : List Bytes → Bytes → Option (List Pair)
parse_filter_and_sort_query allowed raw = do kv ← parse_query raw; some (filter_and_sort allowed kv)
