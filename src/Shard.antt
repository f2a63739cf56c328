-- ===== src/Shard.antt =====
-- One shard of the sharded map, and the map's sums over its shards (pkg/storage/map). The Go map is
-- an association list from keys to entry pointers; the weights of the entries are given by a
-- function of the pointer. `mem` and `len` are int64 bit patterns.
pub mod Walk
pub mod Counters
pub mod Totals
use adv_cache.Prelude.{
  ℕ, zero, suc, ◌+◌, ◌%◌, Bool, true, false, Option, none, some, List, [], ◌∷◌, ◌==◌, if◌then◌else◌,
}
use adv_cache.Prelude.Words.{add64, sub64}

abbrev pub total_shards : ℕ
total_shards = 2048

unfoldable pub map_shard_key : ℕ → ℕ
map_shard_key key = key % total_shards

abbrev pub Items : Type 0
Items = List (ℕ × ℕ)

-- shard.items[key]
unfoldable pub lookup : ℕ → Items → Option ℕ
lookup k [] = none
lookup k ((j, p) ∷ m) = if j == k then some p else lookup k m

-- shard.items[key] = p
unfoldable pub insert : ℕ → ℕ → Items → Items
insert k p [] = (k, p) ∷ []
insert k p ((j, q) ∷ m) = if j == k then (k, p) ∷ m else (j, q) ∷ insert k p m

-- delete(shard.items, key)
unfoldable pub delete : ℕ → Items → Items
delete k [] = []
delete k ((j, q) ∷ m) = if j == k then m else (j, q) ∷ delete k m

pub record Shard : Type 0 where
  pub items : Items
  pub mem : ℕ
  pub len : ℕ

unfoldable pub new_shard : Shard
new_shard = record { items = []; mem = 0; len = 0 }

unfoldable pub clear : Shard → Shard
clear s = record s { items = []; mem = 0; len = 0 }

unfoldable pub get : ℕ → Shard → Option ℕ
get key s = lookup key s.items

-- The counters after a write over the entry that was found.
unfoldable pub count_set : (ℕ → ℕ) → ℕ → Option ℕ → Shard → Shard
count_set weight new none s = record s { len = add64 s.len 1; mem = add64 s.mem (weight new) }
count_set weight new (some old) s = record s { mem = add64 s.mem (sub64 (weight new) (weight old)) }

unfoldable pub set : (ℕ → ℕ) → ℕ → ℕ → Shard → Shard
set weight key new s =
    count_set weight new (lookup key s.items) (record s { items = insert key new s.items })

-- The new shard, the freed bytes, and whether the key was found.
unfoldable pub remove_found : (ℕ → ℕ) → ℕ → Option ℕ → Shard → Shard × ℕ × Bool
remove_found weight key none s = (s, 0, false)
remove_found weight key (some p) s = (
  record s { items = delete key s.items; len = sub64 s.len 1; mem = sub64 s.mem (weight p) },
  weight p,
  true,
)

unfoldable pub remove : (ℕ → ℕ) → ℕ → Shard → Shard × ℕ × Bool
remove weight key s = remove_found weight key (lookup key s.items) s

-- RealMem and RealLen: the sum over the first `n` shards.
unfoldable pub real_mem : ℕ → (ℕ → Shard) → ℕ
real_mem zero shards = 0
real_mem (suc n) shards = add64 (real_mem n shards) (shards n).mem

unfoldable pub real_len : ℕ → (ℕ → Shard) → ℕ
real_len zero shards = 0
real_len (suc n) shards = add64 (real_len n shards) (shards n).len
