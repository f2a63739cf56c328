-- ===== src/Upstream/Lifecycle/ErrRate.antt =====
-- What the worker of pkg/upstream/monitor.go that watches the error rate does to a busy slot.
use adv_cache.Prelude.{ℕ, ◌+◌, ◌<◌, ◌≡◌, ◌++◌, Bool, true, false, [], ◌∷◌, arith}
use adv_cache.Upstream.Float.{Float64}
use adv_cache.Upstream.Slot.{Slot, healthy, sick}
use adv_cache.Upstream.Slot.Throttle.{
  err_rate, err_min_rate_threshold, err_max_rate_threshold, throttled_rate,
}
use adv_cache.Upstream.Slot.Move.{quarantine_healthy}
use adv_cache.Upstream.Monitor.{judge_err_rate, check_err_rate}

module _ (fl : Float64) (reset : Bool) (now : ℕ) (s : Slot) (busy : 50 < s.total)
    (up : s.state ≡ healthy) where
  -- A healthy slot with more than 50 requests, an error rate between the thresholds, both
  -- excluded, and fewer than nine throttles stays healthy, is throttled once more, and a renewal
  -- of its provider at the new rate is started.
  pub check_err_rate-throttles :
      fl.le (err_max_rate_threshold fl) (err_rate fl s) ≡ false
      → fl.lt (err_rate fl s) (err_max_rate_threshold fl) ≡ true
      → fl.le (err_min_rate_threshold fl) (err_rate fl s) ≡ true
      → fl.lt (err_min_rate_threshold fl) (err_rate fl s) ≡ true
      → s.throttles < 9
      → ((check_err_rate fl reset now s).state ≡ healthy)
        × ((check_err_rate fl reset now s).throttles ≡ s.throttles + 1)
        × ((check_err_rate fl reset now s).renewals
            ≡ s.renewals ++ throttled_rate fl s.origin_rate (s.throttles + 1) ∷ [])
  unfolding check_err_rate judge_err_rate
  check_err_rate-throttles a b c d e = ground arith

  -- A healthy slot with more than 50 requests and an error rate exactly at the lower threshold is
  -- quarantined, however few throttles it has.
  pub check_err_rate-at_min :
      fl.le (err_max_rate_threshold fl) (err_rate fl s) ≡ false
      → fl.lt (err_rate fl s) (err_max_rate_threshold fl) ≡ true
      → fl.le (err_min_rate_threshold fl) (err_rate fl s) ≡ true
      → fl.lt (err_min_rate_threshold fl) (err_rate fl s) ≡ false
      → (check_err_rate fl reset now s).state ≡ sick
  unfolding check_err_rate judge_err_rate quarantine_healthy
  check_err_rate-at_min a b c d = ground arith
