-- ===== src/Upstream/Lifecycle/Moves.antt =====
-- Which moves the steps make, and what a move needs (pkg/upstream/monitor.go).
use adv_cache.Prelude.{ℕ, ◌-◌, ◌≤◌, ◌<◌, ◌≡◌, ◌≢◌, Bool, false, some, arith}
use adv_cache.Upstream.Float.{Float64}
use adv_cache.Upstream.Slot.{
  Slot, SlotState, healthy, sick, dead, probe, renew_rate_provider, downtime_for_kill,
  downtime_for_bury,
}
use adv_cache.Upstream.Slot.Move.{quarantine, quarantine_healthy, cure_sick}
use adv_cache.Upstream.Monitor.{
  decide_idle, decide_quarantine, decide_dead, check_quarantine, check_dead, judge_err_rate,
}
use adv_cache.Upstream.Cluster.{count_request}
use adv_cache.Upstream.Lifecycle.{Step}

-- The moves between states: never from healthy to dead, nor from dead to healthy.
abbrev pub Allowed : SlotState → SlotState → Type 0
Allowed healthy dead = ⊥
Allowed dead healthy = ⊥
Allowed _ _ = Unit

Allowed-refl : (st : SlotState) → Allowed st st
Allowed-refl healthy = tt
Allowed-refl sick = tt
Allowed-refl dead = tt

quarantine-Allowed : (now : ℕ) (s : Slot) → Allowed s.state (quarantine now s).0.state
unfolding quarantine quarantine_healthy
quarantine-Allowed now s = ground (arith, Allowed-refl s.state)

-- If the quarantine worker, run alone on a slot that is not dead, leaves it dead, then the slot
-- was sick, this probe failed as at least five in a row had done before it, and it fell ill more
-- than an hour before.
pub check_quarantine-kills :
    (fl : Float64) (ok : Bool) (now : ℕ) (s : Slot)
    → s.state ≢ dead
    → (check_quarantine fl ok now s).state ≡ dead
    → (s.state ≡ sick)
      × (ok ≡ false)
      × (5 ≤ s.err_probes)
      × ((since : ℕ) × (s.sicked_at ≡ some since) × (downtime_for_kill < now - since))
unfolding check_quarantine decide_quarantine cure_sick
check_quarantine-kills fl ok now s alive h = ground arith

-- If the worker for dead slots, run alone, takes a slot out of the cluster, then the slot was
-- dead, this probe failed as at least five in a row had done before it, and it died more than a
-- day before.
pub check_dead-buries :
    (ok : Bool) (now : ℕ) (s : Slot)
    → (check_dead ok now s).1 ≡ false
    → (s.state ≡ dead)
      × (ok ≡ false)
      × (5 ≤ s.err_probes)
      × ((since : ℕ) × (s.killed_at ≡ some since) × (downtime_for_bury < now - since))
unfolding check_dead decide_dead
check_dead-buries ok now s h = ground arith

decide_dead-Allowed : (now : ℕ) (s : Slot) → Allowed s.state (decide_dead now s).0.state
unfolding decide_dead
decide_dead-Allowed now s = ground (arith, Allowed-refl s.state)

decide_idle-Allowed : (now : ℕ) (s : Slot) → Allowed s.state (decide_idle now s).state
unfolding decide_idle quarantine_healthy
decide_idle-Allowed now s = ground (arith, Allowed-refl s.state)

decide_quarantine-Allowed :
    (fl : Float64) (now : ℕ) (s : Slot) → Allowed s.state (decide_quarantine fl now s).state
unfolding decide_quarantine cure_sick
decide_quarantine-Allowed fl now s = ground (arith, Allowed-refl s.state)

judge_err_rate-Allowed :
    (fl : Float64) (now : ℕ) (s : Slot) → Allowed s.state (judge_err_rate fl now s).state
unfolding judge_err_rate quarantine_healthy
judge_err_rate-Allowed fl now s = ground (arith, Allowed-refl s.state)

-- A step moves a slot only along the allowed edges: from healthy to sick, from sick to healthy or
-- dead, from dead to sick, or nowhere.
pub Step-Allowed : {fl : Float64} {s t : Slot} → Step fl s t → Allowed s.state t.state
unfolding probe count_request renew_rate_provider
Step-Allowed (Step.start now s) = quarantine-Allowed now s
Step-Allowed (Step.probed ok s) = ground (arith, Allowed-refl s.state)
Step-Allowed (Step.idle now s) = decide_idle-Allowed now s
Step-Allowed {fl} (Step.quarantined now s) = decide_quarantine-Allowed fl now s
Step-Allowed (Step.dead now s) = decide_dead-Allowed now s
Step-Allowed {fl} (Step.busy now s) = judge_err_rate-Allowed fl now s
Step-Allowed (Step.reset s) = Allowed-refl s.state
Step-Allowed (Step.request a s) = ground (arith, Allowed-refl s.state)
Step-Allowed (Step.renew s before after limit e) = ground (arith, Allowed-refl s.state)
Step-Allowed (Step.returned i s on done) = Allowed-refl s.state
