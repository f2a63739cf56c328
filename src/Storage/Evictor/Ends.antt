-- ===== src/Storage/Evictor/Ends.antt =====
-- The run of the evictor ends (pkg/storage/lru/evictor.go).
use adv_cache.Prelude.{
  ℕ, zero, suc, ◌+◌, ◌*◌, ◌^◌, ◌≤◌, ◌<◌, ◌≡◌, ◌≢◌, refl, ◌∙◌, inl, inr, true, false, Bool-cases,
  Option, none, some, arith, leb,
}
use adv_cache.Prelude.Words.{le64}
use adv_cache.Shard.{total_shards, real_mem}
use adv_cache.Storage.Change.{Change-same}
use adv_cache.Storage.Valid.{IsValid}
use adv_cache.Storage.Evictor.{
  Evict, rebalance, refresh_mem, should_evict_right_now, next_offset, most_loaded, evict_fat,
  run_rounds, evict_until_within_limit, fat_shards_percentage,
}
use adv_cache.Storage.Evictor.Sums.{item_count}
use adv_cache.Storage.Evictor.Steps.{run_rounds-round, run_rounds-below}
use adv_cache.Storage.Evictor.Pass.{
  le_refl, Kept, Kept-refl, Kept-trans, Evicted, should_evict_right_now-Evicted, evict_fat-Evicted,
}
use adv_cache.Storage.Evictor.Ready.{Ready, Ready-Evicted, rebalance-Ready, most_loaded-rebalance}

below_zero : (t : ℕ) → 0 < t → t < 2 ^ 63 → le64 t 0 ≡ true → ⊥
unfolding le64
below_zero t low high h = ground arith

module _ (memory_threshold : ℕ) where
  pub fat-ends :
      (o : Option ℕ) (e : Evict)
      → IsValid e.db
      → (r : Evict) × (evict_fat memory_threshold o e ≡ some r) × Evicted e r
  fat-ends none e v =
      (e, unfold evict_fat in refl, record { kept = Kept-refl e v; mem_list = refl })
  fat-ends (some i) e v =
      let (r, ends, a, _) = evict_fat-Evicted memory_threshold i e v in (r, ends, a)

  pub rebalance-Kept : (e : Evict) → IsValid e.db → Kept e (rebalance e)
  unfolding rebalance
  rebalance-Kept e v = record {
    valid = v;
    items = refl;
    mem = refl;
    lens = λ j. le_refl _;
    fewer = le_refl _;
    sound = λ h. h;
    change = Change-same e.db e.db refl refl refl;
  }

  over-nonzero :
      (e : Evict)
      → 0 < memory_threshold
      → memory_threshold < 2 ^ 63
      → (should_evict_right_now memory_threshold e).1 ≡ true
      → real_mem total_shards (should_evict_right_now memory_threshold e).0.db.shards ≢ 0
  unfolding should_evict_right_now refresh_mem
  over-nonzero e low high over z = below_zero memory_threshold low high (rw z at over)

  over-rebalance :
      (e : Evict)
      → (should_evict_right_now memory_threshold e).1 ≡ true
      → (should_evict_right_now memory_threshold
          (rebalance (should_evict_right_now memory_threshold e).0)).1
        ≡ true
  unfolding should_evict_right_now refresh_mem rebalance
  over-rebalance e over = over

  -- A round over the limit ends, and comes nearer to the end of the run: the offset grows, or an
  -- item goes.
  round-ends :
      (n offset : ℕ) (e : Evict)
      → Ready e
      → offset < fat_shards_percentage
      → 0 < memory_threshold
      → memory_threshold < 2 ^ 63
      → (should_evict_right_now memory_threshold e).1 ≡ true
      → (r : Evict) × (next : ℕ) × (run_rounds memory_threshold (suc n) offset e
          ≡ run_rounds memory_threshold n next r)
        × Ready r
        × Kept e r
        × (next < fat_shards_percentage)
        × (348 * item_count r.db + offset < 348 * item_count e.db + next)
  round-ends n offset e s lt low high over =
      let r = (should_evict_right_now memory_threshold e).0 in
      let a = should_evict_right_now-Evicted memory_threshold e s.valid in
      let ready = Ready-Evicted e r a s in
      elim (Bool-cases (leb fat_shards_percentage (offset + 1))) [
        | inl last ↦
            let u : next_offset offset r ≡ (rebalance r, 0) =
              unfold next_offset in (rw last refl) in
            let k = rebalance-Kept r a.kept.valid in
            let (i, first, full) = most_loaded-rebalance r ready (over-nonzero e low high over) in
            let (t, ends, b, goes) = evict_fat-Evicted memory_threshold i (rebalance r) k.valid in
            let less_items = goes (over-rebalance e over) (unfold rebalance in full) in
            (
              t,
              0,
              run_rounds-round memory_threshold n offset e t over (rw (u, first) ends) ∙ rw u refl,
              Ready-Evicted (rebalance r) t b (rebalance-Ready r ready),
              Kept-trans e r t a.kept (Kept-trans r (rebalance r) t k b.kept),
              omega arith,
              omega (arith, a.kept.fewer, k.fewer, less_items),
            )
        | inr inner ↦
            let u : next_offset offset r ≡ (r, offset + 1) =
              unfold next_offset in (rw inner refl) in
            let (t, ends, b) = fat-ends (most_loaded (offset + 1) r) r a.kept.valid in
            (
              t,
              offset + 1,
              run_rounds-round memory_threshold n offset e t over (rw u ends) ∙ rw u refl,
              Ready-Evicted r t b ready,
              Kept-trans e r t a.kept b.kept,
              ground arith,
              omega (arith, a.kept.fewer, b.kept.fewer),
            )
      ]

  below-again :
      (e : Evict)
      → (should_evict_right_now memory_threshold e).1 ≡ false
      → (should_evict_right_now memory_threshold (should_evict_right_now memory_threshold e).0).1
        ≡ false
  unfolding should_evict_right_now refresh_mem
  below-again e h = h

  -- Enough fuel for the rounds from an offset on.
  run_rounds-ends :
      (n offset : ℕ) (e : Evict)
      → Ready e
      → offset < fat_shards_percentage
      → 0 < memory_threshold
      → memory_threshold < 2 ^ 63
      → 348 * item_count e.db + 348 ≤ n + offset
      → (r : Evict) × (run_rounds memory_threshold (suc n) offset e ≡ some r)
        × Kept e r
        × ((should_evict_right_now memory_threshold r).1 ≡ false)
  run_rounds-ends zero offset e s lt low high fuel = absurd (omega arith)
  run_rounds-ends (suc n) offset e s lt low high fuel =
      elim (Bool-cases (should_evict_right_now memory_threshold e).1) [
        | inl over ↦
            let (r, next, step, ready, a, inside, nearer) =
              round-ends (suc n) offset e s lt low high over in
            let (t, ends, b, below) =
              run_rounds-ends n next r ready inside low high (omega (arith, nearer)) in
            (t, step ∙ ends, Kept-trans e r t a b, below)
        | inr below ↦
            let a = should_evict_right_now-Evicted memory_threshold e s.valid in
            (
              (should_evict_right_now memory_threshold e).0,
              run_rounds-below memory_threshold (suc n) offset e below,
              a.kept,
              below-again e below,
            )
      ]

  -- In a valid storage with right counters, and with a balance list that has an element for each
  -- shard, the run of the evictor ends under a limit that is positive as an int64, with 348 rounds
  -- for each item of the map and 349 more as fuel. It ends with the memory counters below the limit
  -- in a valid storage, each removed item is counted, its bytes are what the counters lost, and the
  -- counters stay right.
  pub evict_until_within_limit-ends :
      (fuel : ℕ) (e : Evict)
      → Ready e
      → 0 < memory_threshold
      → memory_threshold < 2 ^ 63
      → 348 * item_count e.db + 348 < fuel
      → (r : Evict) × (evict_until_within_limit memory_threshold fuel e ≡ some r)
        × Kept (record e { items = 0; mem = 0 }) r
        × ((should_evict_right_now memory_threshold r).1 ≡ false)
  unfolding evict_until_within_limit
  evict_until_within_limit-ends zero e s low high enough = absurd (omega arith)
  evict_until_within_limit-ends (suc n) e s low high enough =
      run_rounds-ends n 0 (record e { items = 0; mem = 0 })
        (record {
          order = s.order;
          holds = s.holds;
          covers = s.covers;
          valid = s.valid;
          sound = s.sound;
        })
        (omega arith) low high (omega arith)
