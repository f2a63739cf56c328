-- ===== src/Storage/Evictor/Spin.antt =====
-- The evictor that finds nothing to remove (pkg/storage/lru/evictor.go).
use adv_cache.Prelude.{ℕ, zero, suc, ◌≡◌, refl, ◌∙◌, true, Option, none, some, arith}
use adv_cache.Prelude.Words.{le64}
use adv_cache.Shard.{total_shards, real_mem}
use adv_cache.Storage.Evictor.Steps.{run_rounds-round}
use adv_cache.Storage.Evictor.{
  Evict, rebalance, refresh_mem, should_evict_right_now, next_offset, most_loaded, evict_fat,
  run_rounds, evict_until_within_limit,
}

-- The LRU lists are empty, and the memory counters are over the limit.
record Stuck (memory_threshold : ℕ) (e : Evict) : Type 0 where
  empty : (i : ℕ) → (e.db.lru i).len ≡ 0
  over : le64 memory_threshold (real_mem total_shards e.db.shards) ≡ true

module _ (memory_threshold : ℕ) where
  evict_fat-empty :
      (o : Option ℕ) (e : Evict)
      → Stuck memory_threshold e
      → evict_fat memory_threshold o e ≡ some e
  unfolding evict_fat
  evict_fat-empty none e h = refl
  evict_fat-empty (some i) e h = rw (h.empty i) refl

  next_offset-Stuck :
      (offset : ℕ) (e : Evict)
      → Stuck memory_threshold e
      → Stuck memory_threshold (next_offset offset e).0
  unfolding next_offset rebalance
  next_offset-Stuck offset e h = ground arith

  run_rounds-none :
      (n offset : ℕ) (e : Evict)
      → Stuck memory_threshold e
      → run_rounds memory_threshold n offset e ≡ none
  unfolding should_evict_right_now refresh_mem
  run_rounds-none zero offset e h = unfold run_rounds in refl
  run_rounds-none (suc n) offset e h =
      let r : Evict = record e { db = refresh_mem e.db } in
      let k : Stuck memory_threshold r = record { empty = h.empty; over = h.over } in
      let t = next_offset-Stuck offset r k in
      let (u, next) = next_offset offset r in
      run_rounds-round memory_threshold n offset e u h.over
        (evict_fat-empty (most_loaded next u) u t)
      ∙ run_rounds-none n next u t

  -- If all LRU lists are empty while the memory counters stand at the limit or above, the run of the
  -- evictor does not end, whatever the fuel.
  pub evict_until_within_limit-spins :
      (fuel : ℕ) (e : Evict)
      → ((i : ℕ) → (e.db.lru i).len ≡ 0)
      → le64 memory_threshold (real_mem total_shards e.db.shards) ≡ true
      → evict_until_within_limit memory_threshold fuel e ≡ none
  unfolding evict_until_within_limit
  evict_until_within_limit-spins fuel e empty over =
      run_rounds-none fuel 0 (record e { items = 0; mem = 0 })
        (record { empty = empty; over = over })
