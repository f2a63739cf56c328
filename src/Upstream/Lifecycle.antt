-- ===== src/Upstream/Lifecycle.antt =====
-- Everything that happens to a slot after `newBackendSlot`, as steps in any order: the monitor's
-- workers (pkg/upstream/monitor.go), the requests (pkg/upstream/cluster.go), the probe of the start
-- and the rate provider's renewals and goroutines (pkg/upstream/slot.go). A goroutine that sends the
-- slot to the cluster changes nothing in it, so that is no step; `running` tells which may send.
pub mod Safety
pub mod Moves
pub mod Flapping
pub mod ErrRate
use adv_cache.Prelude.{ℕ, ◌≡◌, Bool, true, List, ◌∷◌, ◌++◌}
use adv_cache.Prelude.Int.{ℤ}
use adv_cache.Upstream.Float.{Float64}
use adv_cache.Upstream.Slot.{Slot, new_backend_slot, probe, renew_rate_provider, return_provider}
use adv_cache.Upstream.Slot.Move.{quarantine}
use adv_cache.Upstream.Monitor.{
  decide_idle, decide_quarantine, decide_dead, judge_err_rate, reset_counters,
}
use adv_cache.Upstream.Cluster.{Answer, count_request}

pub data Step (fl : Float64) : Slot → Slot → Type 0 where
  -- what `initBackends` does after a failed probe
  start : (now : ℕ) (s : Slot) → Step fl s (quarantine now s).0
  -- A worker's goroutine: its test of the slot may be long past when the probe has been made, and
  -- others may have held the lock between the probe and the decision.
  probed : (ok : Bool) (s : Slot) → Step fl s (probe ok s)
  idle : (now : ℕ) (s : Slot) → Step fl s (decide_idle now s)
  quarantined : (now : ℕ) (s : Slot) → Step fl s (decide_quarantine fl now s)
  dead : (now : ℕ) (s : Slot) → Step fl s (decide_dead now s).0
  busy : (now : ℕ) (s : Slot) → Step fl s (judge_err_rate fl now s)
  reset : (s : Slot) → Step fl s (reset_counters true s)
  request : (a : Answer) (s : Slot) → Step fl s (count_request a s)
  -- a waiting goroutine takes the lock; which one is the scheduler's choice
  renew :
      (s : Slot) (before after : List ℤ) (limit : ℤ)
      → s.renewals ≡ before ++ limit ∷ after
      → Step fl s (renew_rate_provider limit (record s { renewals = before ++ after }))
  -- a provider's goroutine whose context is done leaves its loop, sooner or later
  returned :
      (i : ℕ) (s : Slot)
      → s.running i ≡ true
      → s.cancelled i ≡ true
      → Step fl s (return_provider i s)

pub data Reach (fl : Float64) (s : Slot) : Slot → Type 0 where
  here : Reach fl s s
  next : {t u : Slot} → Reach fl s t → Step fl t u → Reach fl s u
