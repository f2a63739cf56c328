-- ===== src/Shard/Totals.antt =====
-- The sums over the shards (pkg/storage/map/map.go) against the items of the shards.
use adv_cache.Prelude.{ℕ, zero, suc, ◌+◌, ◌%◌, ◌≡◌, arith, length}
use adv_cache.Prelude.Words.{u64_mod, add64}
use adv_cache.Shard.{Shard, real_mem, real_len}
use adv_cache.Shard.Counters.{sum_weight, Counted}

-- The weights of the items of the first `n` shards, and their number.
abbrev pub total_weight : (ℕ → ℕ) → ℕ → (ℕ → Shard) → ℕ
total_weight weight zero shards = 0
total_weight weight (suc n) shards =
    total_weight weight n shards + sum_weight weight (shards n).items

abbrev pub total_length : ℕ → (ℕ → Shard) → ℕ
total_length zero shards = 0
total_length (suc n) shards = total_length n shards + length (shards n).items

-- If the counters of each shard are right, RealMem is the sum of the weights of all items and
-- RealLen their number, in 64 bits.
pub real_mem-total_weight :
    (weight : ℕ → ℕ) (n : ℕ) (shards : ℕ → Shard)
    → ((i : ℕ) → Counted weight (shards i))
    → (real_mem n shards ≡ total_weight weight n shards % u64_mod)
      × (real_len n shards ≡ total_length n shards % u64_mod)
unfolding real_mem real_len add64
real_mem-total_weight weight zero shards c = (omega arith, omega arith)
real_mem-total_weight weight (suc n) shards c =
    let (m, l) = real_mem-total_weight weight n shards c in
    (omega (arith, m, (c n).mem), omega (arith, l, (c n).len))
