-- ===== src/Storage/Evictor/Steps.antt =====
-- One round of the evictor's run, over the limit and below it (pkg/storage/lru/evictor.go).
use adv_cache.Prelude.{ℕ, suc, ◌≡◌, refl, true, false, some}
use adv_cache.Model.Binary.{◌>>=◌}
use adv_cache.Storage.Evictor.{
  Evict, should_evict_right_now, next_offset, most_loaded, evict_fat, evict_round, run_rounds,
}

module _ (t n offset : ℕ) (e : Evict) where
  pub run_rounds-over :
      (should_evict_right_now t e).1 ≡ true
      → run_rounds t (suc n) offset e
        ≡ (evict_round t offset (should_evict_right_now t e).0 >>= (λ r. run_rounds t n r.1 r.0))
  unfolding run_rounds
  run_rounds-over h = rw (h, run_rounds) refl

  pub run_rounds-below :
      (should_evict_right_now t e).1 ≡ false
      → run_rounds t (suc n) offset e ≡ some (should_evict_right_now t e).0
  unfolding run_rounds
  run_rounds-below h = rw (h, run_rounds) refl

  -- A round whose pass ends.
  pub run_rounds-round :
      (r : Evict)
      → (should_evict_right_now t e).1 ≡ true
      → let (u, next) = next_offset offset (should_evict_right_now t e).0 in
        evict_fat t (most_loaded next u) u ≡ some r
        → run_rounds t (suc n) offset e ≡ run_rounds t n next r
  unfolding evict_round
  run_rounds-round r h k = rw (run_rounds-over h, k) refl
