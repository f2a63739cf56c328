-- ===== src/Storage/Evictor.antt =====
-- The evictor (pkg/storage/lru/evictor.go) with the balance list over the shards
-- (pkg/storage/lru/balancer.go: Rebalance, Register, MostLoaded). The elements of the balance list
-- carry the numbers of shards. A run is a sequence of rounds, a round has a pass over one LRU list;
-- both loops run on fuel, and `none` is a loop that has not ended. It runs alone.
pub mod Sums
pub mod Steps
pub mod Pass
pub mod Spin
pub mod Ready
pub mod Ends
pub mod Runs
pub mod Log
pub mod Started
pub mod Filled
use adv_cache.Prelude.{
  ℕ, zero, suc, ◌+◌, Bool, true, false, not, Option, none, some, List, [], ◌∷◌, ◌==◌, leb,
  if◌then◌else◌, update,
}
use adv_cache.Prelude.Words.{add64, le64}
use adv_cache.Model.Binary.{◌>>=◌}
use adv_cache.Ring
use adv_cache.Ring.{Ring, new_ring, push_back, nth}
use adv_cache.Ring.Sort.{desc, sort}
use adv_cache.Model.Entry.{Entry}
use adv_cache.Lfu.{TinyLfu}
use adv_cache.Shard.{total_shards, real_mem, new_shard}
use adv_cache.Storage.{Storage, remove}

-- int(maxShards * fatShardsPercent), of 2048 and 0.17
abbrev pub fat_shards_percentage : ℕ
fat_shards_percentage = 348

-- The storage, the balance list, and the results of the run: the removed items and their bytes.
pub record Evict : Type 0 where
  pub db : Storage
  pub mem_list : Ring
  pub items : ℕ
  pub mem : ℕ

-- Register: the shard `i` gets an empty LRU list and an element of the balance list.
unfoldable pub register : ℕ → Evict → Evict
register i e =
    let s = e.db in
    record e {
      db = record s { lru = λ j. if i == j then new_ring i else s.lru j };
      mem_list = (push_back i e.mem_list).0;
    }

-- NewMap, NewBalancer and NewStorage up to `init`; the balance list has a name of its own.
unfoldable pub new_storage : (ℕ → Entry) → TinyLfu → ℕ → ℕ → Evict
new_storage entries lfu balancer_mem memory_threshold = record {
  db = record {
    entries = entries;
    shards = λ i. new_shard;
    lru = new_ring;
    lfu = lfu;
    map_mem = 0;
    balancer_mem = balancer_mem;
    memory_threshold = memory_threshold;
  };
  mem_list = new_ring total_shards;
  items = 0;
  mem = 0;
}

-- init: the goroutines of WalkShards register the shards in any order.
unfoldable pub init : List ℕ → Evict → Evict
unfolding register
init [] e = e
init (i ∷ rest) e = init rest (register i e)

unfoldable pub rebalance : Evict → Evict
rebalance e = record e { mem_list = sort desc (λ i. (e.db.shards i).mem) e.mem_list }

-- The shard at the offset in the balance list.
unfoldable pub most_loaded : ℕ → Evict → Option ℕ
most_loaded offset e = elim (nth offset e.mem_list) [
  | none ↦ none
  | some a ↦ some (e.mem_list.value a)
]

-- RealMem stores the sum of the shards.
unfoldable pub refresh_mem : Storage → Storage
refresh_mem s = record s { map_mem = real_mem total_shards s.shards }

-- The element of the list `i` goes, if there is one; whether the pass goes on.
unfoldable pub evict_next : ℕ → Option ℕ → Evict → Evict × Bool
evict_next i none e = (e, false)
evict_next i (some a) e =
    let (s, freed, hit) = remove ((e.db.lru i).value a) e.db in
    (
      record e {
        db = s;
        items = if hit then e.items + 1 else e.items;
        mem = if hit then add64 e.mem freed else e.mem;
      },
      true,
    )

-- The offset of the next round: the balance list is sorted anew when the offset
-- has come to the end of the fat shards.
unfoldable pub next_offset : ℕ → Evict → Evict × ℕ
next_offset offset e =
    if leb fat_shards_percentage (offset + 1) then (rebalance e, 0) else (e, offset + 1)

module _ (memory_threshold : ℕ) where
  unfoldable pub should_evict_right_now : Evict → Evict × Bool
  should_evict_right_now e =
      let s = refresh_mem e.db in (record e { db = s }, le64 memory_threshold s.map_mem)

  unfoldable pub evict_at : ℕ → ℕ → Evict → Evict × Bool
  evict_at i offset e =
      let (r, over) = should_evict_right_now e in
      if over then evict_next i (nth offset (r.db.lru i)) r else (r, false)

  -- The pass over the list `i`: the offset grows after each removal too.
  unfoldable pub evict_shard : ℕ → ℕ → ℕ → Evict → Option Evict
  evict_shard i zero offset e = none
  evict_shard i (suc n) offset e =
      let (r, more) = evict_at i offset e in
      elim more [ true ↦ evict_shard i n (offset + 1) r | false ↦ some r ]

  -- The length of the list, and one, is enough fuel for a pass.
  unfoldable pub evict_fat : Option ℕ → Evict → Option Evict
  evict_fat none e = some e
  evict_fat (some i) e =
      if (e.db.lru i).len == 0 then some e else evict_shard i (suc (e.db.lru i).len) 0 e

  -- One round over the limit.
  unfoldable pub evict_round : ℕ → Evict → Option (Evict × ℕ)
  evict_round offset e =
      let (r, next) = next_offset offset e in
      do t ← evict_fat (most_loaded next r) r; some (t, next)

  unfoldable pub run_rounds : ℕ → ℕ → Evict → Option Evict
  run_rounds zero offset e = none
  run_rounds (suc n) offset e =
      let (r, over) = should_evict_right_now e in
      elim over [ true ↦ do (t, next) ← evict_round offset r; run_rounds n next t | false ↦ some r ]

  unfoldable pub evict_until_within_limit : ℕ → Evict → Option Evict
  evict_until_within_limit fuel e = run_rounds fuel 0 (record e { items = 0; mem = 0 })
