-- ===== src/Storage/Evictor/Runs.antt =====
-- What any run of the evictor that ends leaves (pkg/storage/lru/evictor.go), also where its counters
-- are wrong.
use adv_cache.Prelude.{ℕ, zero, suc, ◌+◌, ◌≡◌, sym, ◌∙◌, Bool-cases, inl, inr, some, leb}
use adv_cache.Storage.Valid.{IsValid}
use adv_cache.Storage.Evictor.{
  Evict, should_evict_right_now, next_offset, most_loaded, run_rounds, evict_until_within_limit,
  fat_shards_percentage,
}
use adv_cache.Storage.Evictor.Steps.{run_rounds-round, run_rounds-below}
use adv_cache.Storage.Evictor.Pass.{Kept, Kept-refl, Kept-trans, should_evict_right_now-Evicted}
use adv_cache.Storage.Evictor.Ends.{fat-ends, rebalance-Kept}

next_offset-Kept : (offset : ℕ) (e : Evict) → IsValid e.db → Kept e (next_offset offset e).0
unfolding next_offset
next_offset-Kept offset e v = elim (Bool-cases (leb fat_shards_percentage (offset + 1))) [
  | inl last ↦ rw last (rebalance-Kept 0 e v)
  | inr inner ↦ rw inner (Kept-refl e v)
]

module _ (memory_threshold : ℕ) where
  run_rounds-Kept :
      (n offset : ℕ) (e r : Evict)
      → IsValid e.db
      → run_rounds memory_threshold n offset e ≡ some r
      → Kept e r
  run_rounds-Kept zero offset e r v h = unfold run_rounds in (cc h)
  run_rounds-Kept (suc n) offset e r v h =
      let t = (should_evict_right_now memory_threshold e).0 in
      let a = (should_evict_right_now-Evicted memory_threshold e v).kept in
      elim (Bool-cases (should_evict_right_now memory_threshold e).1) [
        | inl over ↦
            let u = (next_offset offset t).0 in
            let next = (next_offset offset t).1 in
            let b = next_offset-Kept offset t a.valid in
            let (w, ends, c) = fat-ends memory_threshold (most_loaded next u) u b.valid in
            Kept-trans e t r a (
              Kept-trans t u r b (
                Kept-trans u w r c.kept (
                  run_rounds-Kept n next w r c.kept.valid
                    (sym (run_rounds-round memory_threshold n offset e w over ends) ∙ h))))
        | inr below ↦
            let q : t ≡ r = cc (sym (run_rounds-below memory_threshold n offset e below) ∙ h) in
            rw q at a
      ]

  pub evict_until_within_limit-Kept :
      (fuel : ℕ) (e r : Evict)
      → IsValid e.db
      → evict_until_within_limit memory_threshold fuel e ≡ some r
      → Kept (record e { items = 0; mem = 0 }) r
  unfolding evict_until_within_limit
  evict_until_within_limit-Kept fuel e r v h =
      run_rounds-Kept fuel 0 (record e { items = 0; mem = 0 }) r v h
