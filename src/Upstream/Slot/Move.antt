-- ===== src/Upstream/Slot/Move.antt =====
-- The moves of a slot between its states (pkg/upstream/slot.go, pkg/upstream/metrics.go).
use adv_cache.Prelude.{ℕ, ◌+◌, ◌-◌, Bool, true, false, Option, none, some, [], ◌∷◌}
use adv_cache.Prelude.Int.{pos}
use adv_cache.Upstream.Float.{Float64}
use adv_cache.Upstream.Slot.{Slot, Metrics, healthy, sick, dead, max_throttles, close_rate_provider}
use adv_cache.Upstream.Slot.Throttle.{throttle, set_throttles}

-- backendMetrics.cure, quarantine, kill, resurrect
abbrev metrics_cure : Metrics → Metrics
metrics_cure m = record m {
  cured = m.cured + 1;
  healthy_state = 1;
  sick_state = 0;
  dead_state = 0;
  buried_state = 0;
}

abbrev metrics_quarantine : Metrics → Metrics
metrics_quarantine m = record m {
  quarantined = m.quarantined + 1;
  healthy_state = 0;
  sick_state = 1;
  dead_state = 0;
  buried_state = 0;
}

abbrev metrics_kill : Metrics → Metrics
metrics_kill m = record m {
  killed = m.killed + 1;
  healthy_state = 0;
  sick_state = 0;
  dead_state = 1;
  buried_state = 0;
}

abbrev metrics_resurrect : Metrics → Metrics
metrics_resurrect m = record m {
  resurrected = m.resurrected + 1;
  healthy_state = 0;
  sick_state = 1;
  dead_state = 0;
  buried_state = 0;
}

-- A call of `throttle` with arguments at which it does not panic.
abbrev pub or_same : Slot → Option Slot → Slot
or_same s none = s
or_same s (some t) = t

unfoldable pub cure_sick : Float64 → Slot → Slot
unfolding throttle set_throttles
cure_sick fl s =
    let u = record s { state = healthy } in
    let t = or_same u (throttle fl (pos (max_throttles - 1) ∷ []) u) in
    record t { sicked_at = none; killed_at = none; metrics = metrics_cure t.metrics }

unfoldable pub quarantine_healthy : ℕ → Slot → Slot
unfolding close_rate_provider
quarantine_healthy now s =
    let t = close_rate_provider (record s { state = sick }) in
    record t { sicked_at = some now; killed_at = none; metrics = metrics_quarantine t.metrics }

-- Each move returns the slot, and whether the move was made.
unfoldable pub cure : Float64 → Slot → Slot × Bool
cure fl s = elim s.state [ sick ↦ (cure_sick fl s, true) | _ ↦ (s, false) ]

unfoldable pub quarantine : ℕ → Slot → Slot × Bool
quarantine now s = elim s.state [ healthy ↦ (quarantine_healthy now s, true) | _ ↦ (s, false) ]

unfoldable pub kill : ℕ → Slot → Slot × Bool
kill now s = elim s.state [
  | sick ↦ (record s { state = dead; killed_at = some now; metrics = metrics_kill s.metrics }, true)
  | _ ↦ (s, false)
]

unfoldable pub resurrect : ℕ → Slot → Slot × Bool
resurrect now s = elim s.state [
  | dead ↦ (
    record s {
      state = sick;
      suc_probes = 0;
      err_probes = 0;
      sicked_at = some now;
      killed_at = none;
      metrics = metrics_resurrect s.metrics;
    },
    true,
  )
  | _ ↦ (s, false)
]
