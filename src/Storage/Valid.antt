-- ===== src/Storage/Valid.antt =====
-- The storage's invariant: the map and the LRU lists hold the same entries
-- (pkg/storage/lru/storage.go, pkg/storage/lru/balancer.go).
pub mod Moves
pub mod Gone
pub mod New
pub mod Kept
use adv_cache.Prelude.{ℕ, ◌≡◌, some, List}
use adv_cache.Ring.{Ring}
use adv_cache.Ring.Refine.{Holds}
use adv_cache.Ring.Members.{In}
use adv_cache.Shard
use adv_cache.Shard.{map_shard_key}
use adv_cache.Shard.Counters.{Keys}
use adv_cache.Storage.{Storage, map_get}

-- The element `a` of the list `j` carries the entry `p`, which stands in the map under its key, and
-- points back to the element.
pub record Listed (s : Storage) (j a p : ℕ) : Type 0 where
  pub carried : (s.lru j).value a ≡ p
  pub pointer : (s.entries p).lru_list_elem ≡ some (record { list = j; address = a })
  pub shard : (s.entries p).shard ≡ j
  pub found : map_get (s.entries p).key s ≡ some p

-- The entry `p` of the map stands under its own key, and in the list of its shard.
pub record Mapped (s : Storage) (order : ℕ → List ℕ) (k p : ℕ) : Type 0 where
  pub key : (s.entries p).key ≡ k
  pub shard : (s.entries p).shard ≡ map_shard_key k
  pub address : ℕ
  pub member : In address (order (map_shard_key k))
  pub listed : Listed s (map_shard_key k) address p

-- `order j` is the list of shard `j`, from the front to the back.
pub record Linked (s : Storage) (order : ℕ → List ℕ) : Type 0 where
  pub holds : (j : ℕ) → Holds (s.lru j) (order j)
  pub named : (j : ℕ) → (s.lru j).name ≡ j
  pub keys : (i : ℕ) → Keys (s.shards i).items
  pub placed : (i k p : ℕ) → Shard.get k (s.shards i) ≡ some p → map_shard_key k ≡ i
  pub listed : (j a : ℕ) → In a (order j) → Listed s j a ((s.lru j).value a)
  pub mapped : (k p : ℕ) → map_get k s ≡ some p → Mapped s order k p

pub record IsValid (s : Storage) : Type 0 where
  pub order : ℕ → List ℕ
  pub linked : Linked s order
