-- ===== src/Upstream/Monitor/Kept.antt =====
-- The invariant of a slot and the decisions of the workers of pkg/upstream/monitor.go.
use adv_cache.Prelude.{ℕ, Bool, true, false, ◌&&◌, [], if◌then◌else◌}
use adv_cache.Upstream.Float.{Float64}
use adv_cache.Upstream.Slot.{
  Slot, should_quarantine_by_probes, should_cure_by_probes, should_kill, should_bury,
  should_resurrect, close_rate_provider,
}
use adv_cache.Upstream.Slot.Throttle.{
  should_throttle, should_unthrottle, err_rate, err_min_rate_threshold, err_max_rate_threshold,
}
use adv_cache.Upstream.Slot.Invariant.{IsValid, close_rate_provider-Providers}
use adv_cache.Upstream.Slot.Kept.{
  throttle-IsValid, unthrottle-IsValid, cure-IsValid, quarantine-IsValid, kill-IsValid,
  resurrect-IsValid,
}
use adv_cache.Upstream.Monitor.{
  decide_idle, decide_quarantine, decide_dead, bury, reset_counters, judge_err_rate,
}

-- What holds of both branches holds of the conditional.
if-lem {ℓ κ} :
    {A : Type ℓ} (P : A → Type κ) (b : Bool) {x y : A} → P x → P y → P (if b then x else y)
if-lem P true h k = h
if-lem P false h k = k

pub decide_idle-IsValid : (now : ℕ) (s : Slot) → IsValid s → IsValid (decide_idle now s)
unfolding decide_idle
decide_idle-IsValid now s v =
    if-lem IsValid (should_quarantine_by_probes s) (quarantine-IsValid now s v) v

pub decide_quarantine-IsValid :
    (fl : Float64) (now : ℕ) (s : Slot) → IsValid s → IsValid (decide_quarantine fl now s)
unfolding decide_quarantine
decide_quarantine-IsValid fl now s v =
    if-lem IsValid (should_cure_by_probes s) (cure-IsValid fl s v)
      (if-lem IsValid (should_kill now s) (kill-IsValid now s v) v)

bury-IsValid : (s : Slot) → IsValid s → IsValid (bury s)
unfolding bury close_rate_provider
bury-IsValid s v =
    let p = close_rate_provider-Providers s v.providers in
    record { stamps = v.stamps; few_throttles = v.few_throttles; providers = p }

pub decide_dead-IsValid : (now : ℕ) (s : Slot) → IsValid s → IsValid (decide_dead now s).0
unfolding decide_dead
decide_dead-IsValid now s v =
    if-lem (λ (r : Slot × Bool). IsValid r.0) (should_resurrect s) (resurrect-IsValid now s v)
      (if-lem (λ (r : Slot × Bool). IsValid r.0) (should_bury now s) (bury-IsValid s v) v)

pub reset_counters-IsValid :
    (reset : Bool) (s : Slot) → IsValid s → IsValid (reset_counters reset s)
reset_counters-IsValid true s v = record {
  stamps = v.stamps;
  few_throttles = v.few_throttles;
  providers = v.providers;
}
reset_counters-IsValid false s v = v

pub judge_err_rate-IsValid :
    (fl : Float64) (now : ℕ) (s : Slot) → IsValid s → IsValid (judge_err_rate fl now s)
unfolding judge_err_rate
judge_err_rate-IsValid fl now s v =
    let rate = err_rate fl s in
    if-lem IsValid (fl.le (err_max_rate_threshold fl) rate) (quarantine-IsValid now s v) (
      if-lem IsValid
        (fl.lt rate (err_max_rate_threshold fl) && fl.le (err_min_rate_threshold fl) rate)
        (if-lem IsValid (should_throttle fl s) (throttle-IsValid fl [] s v)
          (quarantine-IsValid now s v))
        (if-lem IsValid (fl.lt rate (err_min_rate_threshold fl))
          (if-lem IsValid (should_unthrottle fl s) (unthrottle-IsValid fl s v) v) v))
