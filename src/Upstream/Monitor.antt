-- ===== src/Upstream/Monitor.antt =====
-- What the monitor's workers do with one slot (pkg/upstream/monitor.go), and `bury` of
-- pkg/upstream/slot.go. A worker takes the time and whether the probe succeeded. A `check_` function
-- is the worker alone; its parts that take the lock one by one are `probe` and the `decide_` function.
pub mod Kept
use adv_cache.Prelude.{ℕ, ◌+◌, Bool, true, false, not, ◌&&◌, [], if◌then◌else◌}
use adv_cache.Upstream.Float.{Float64}
use adv_cache.Upstream.Slot.{
  Slot, probe, should_quarantine_by_probes, should_cure_by_probes, should_kill, should_bury,
  should_resurrect, is_idle, has_healthy_state, has_sick_state, has_dead_state, close_rate_provider,
}
use adv_cache.Upstream.Slot.Throttle.{
  err_rate, err_min_rate_threshold, err_max_rate_threshold, should_throttle, should_unthrottle,
  set_throttles, throttle, unthrottle,
}
use adv_cache.Upstream.Slot.Move.{or_same, cure, quarantine, kill, resurrect}

-- What a worker's goroutine does under the lock, after its probe.
unfoldable pub decide_idle : ℕ → Slot → Slot
unfolding quarantine
decide_idle now t = if should_quarantine_by_probes t then (quarantine now t).0 else t

unfoldable pub decide_quarantine : Float64 → ℕ → Slot → Slot
unfolding cure kill
decide_quarantine fl now t =
    if should_cure_by_probes t
    then (cure fl t).0
    else if should_kill now t
    then (kill now t).0
    else t

unfoldable pub check_healthy_idle : Bool → ℕ → Slot → Slot
unfolding probe decide_idle
check_healthy_idle ok now s =
    if is_idle 0 s && has_healthy_state s then decide_idle now (probe ok s) else s

unfoldable pub check_quarantine : Float64 → Bool → ℕ → Slot → Slot
unfolding probe decide_quarantine
check_quarantine fl ok now s = if has_sick_state s then decide_quarantine fl now (probe ok s) else s

-- `bury`: the slot leaves the cluster's map, `none`, after its provider has been closed.
unfoldable pub bury : Slot → Slot
unfolding close_rate_provider
bury s =
    let t = close_rate_provider s in
    record t { metrics = record t.metrics { buried = t.metrics.buried + 1 } }

-- The slot, and whether it stays in the cluster's map.
unfoldable pub decide_dead : ℕ → Slot → Slot × Bool
unfolding resurrect bury
decide_dead now t =
    if should_resurrect t
    then ((resurrect now t).0, true)
    else if should_bury now t
    then (bury t, false)
    else (t, true)

unfoldable pub check_dead : Bool → ℕ → Slot → Slot × Bool
unfolding probe decide_dead
check_dead ok now s = if has_dead_state s then decide_dead now (probe ok s) else (s, true)

abbrev pub reset_counters : Bool → Slot → Slot
reset_counters true s = record s { total = 0; errors = 0 }
reset_counters false s = s

-- The goroutine of `checkErrRate` for one busy and healthy slot, before the deferred reset.
unfoldable pub judge_err_rate : Float64 → ℕ → Slot → Slot
unfolding quarantine throttle set_throttles unthrottle
judge_err_rate fl now s =
    let rate = err_rate fl s in
    if fl.le (err_max_rate_threshold fl) rate
    then (quarantine now s).0
    else if fl.lt rate (err_max_rate_threshold fl) && fl.le (err_min_rate_threshold fl) rate
    then (if should_throttle fl s then or_same s (throttle fl [] s) else (quarantine now s).0)
    else (if fl.lt rate (err_min_rate_threshold fl)
        then (if should_unthrottle fl s then unthrottle fl s else s)
        else s)

unfoldable pub check_err_rate : Float64 → Bool → ℕ → Slot → Slot
unfolding judge_err_rate
check_err_rate fl reset now s =
    if not (is_idle 50 s) && has_healthy_state s
    then reset_counters reset (judge_err_rate fl now s)
    else reset_counters reset s
