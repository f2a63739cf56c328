-- ===== src/Storage/Cleared.antt =====
-- What Clear clears (pkg/storage/lru/storage.go).
use adv_cache.Prelude.{ℕ, zero, suc, ◌≤◌, ◌<◌, ◌≡◌, refl, none, arith}
use adv_cache.Prelude.Words.{add64}
use adv_cache.Shard
use adv_cache.Shard.{Shard, map_shard_key, total_shards, real_mem, real_len}
use adv_cache.Storage.{Storage, map_get, clear}

shards-clear :
    (i : ℕ) (s : Storage) → i < total_shards → (clear s).shards i ≡ Shard.clear (s.shards i)
unfolding clear
shards-clear i s h = ground arith

real-clear :
    (n : ℕ) (s : Storage)
    → n ≤ total_shards
    → (real_mem n (clear s).shards ≡ 0) × (real_len n (clear s).shards ≡ 0)
unfolding real_mem real_len add64
real-clear zero s h = (refl, refl)
real-clear (suc n) s h =
    let (m, l) = real-clear n s (omega arith) in
    rw (m, l, shards-clear n s (omega arith)) (unfold Shard.clear in (refl, refl))

-- After Clear no key is found, and RealMem and RealLen give 0; but the LRU lists are as they were,
-- with the elements of all entries.
pub map_get-clear :
    (key : ℕ) (s : Storage)
    → (map_get key (clear s) ≡ none)
      × (real_mem total_shards (clear s).shards ≡ 0)
      × (real_len total_shards (clear s).shards ≡ 0)
      × ((clear s).lru ≡ s.lru)
unfolding map_get clear map_shard_key Shard.get Shard.clear Shard.lookup
map_get-clear key s =
    let (m, l) = real-clear total_shards s (omega arith) in (ground arith, m, l, refl)
