-- ===== src/Tests/Rings.antt =====
-- Lists, shards and frequencies at concrete inputs.
use adv_cache.Prelude.{ℕ, ◌+◌, ◌≡◌, refl, [], ◌∷◌, arith}
use adv_cache.Ring.{Ring, new_ring, insert_front, push_front}
use adv_cache.Ring.Refine.{Holds, new_ring-Holds, push_front-Holds}
use adv_cache.Shard
use adv_cache.Shard.{Shard, new_shard}
use adv_cache.Shard.Counters.{Counted, set-Counted}
use adv_cache.Lfu.{
  TinyLfu, new_count_min_sketch, new_doorkeeper, CountMinSketch, increment_sketch, estimate_sketch,
}
use adv_cache.Lfu.Admission.{NotFull, estimate_sketch-increment_sketch}

abbrev pub one : Ring
one = (push_front 70 (new_ring 4)).0

abbrev pub two : Ring
two = (push_front 80 one).0

one-Holds : Holds one (1 ∷ [])
unfolding push_front new_ring
one-Holds = (push_front-Holds 70 (new_ring 4) [] (omega arith) (new_ring-Holds 4)).0

pub two-Holds : Holds two (2 ∷ 1 ∷ [])
unfolding push_front new_ring insert_front
two-Holds = (push_front-Holds 80 one (1 ∷ []) (omega arith) one-Holds).0

abbrev weigh : ℕ → ℕ
weigh p = 64 + p

new_shard-Counted : Counted weigh new_shard
unfolding new_shard
new_shard-Counted = record { keys = tt; mem = refl; len = refl }

abbrev stored : Shard
stored = Shard.set weigh 3 10 new_shard

stored-Counted : Counted weigh stored
stored-Counted = set-Counted weigh 3 10 new_shard new_shard-Counted

abbrev pub sketch : CountMinSketch
sketch = new_count_min_sketch (λ i. i)

abbrev pub frequencies : TinyLfu
frequencies = record { curr = sketch; prev = sketch; door = new_doorkeeper 5 6 }

sketch-NotFull : NotFull sketch 8
unfolding new_count_min_sketch
sketch-NotFull i h = omega arith

estimate_sketch-increment_sketch_example :
    estimate_sketch (increment_sketch 8 sketch) 8 ≡ estimate_sketch sketch 8 + 1
estimate_sketch-increment_sketch_example = estimate_sketch-increment_sketch 8 sketch sketch-NotFull
