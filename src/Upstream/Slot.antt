-- ===== src/Upstream/Slot.antt =====
-- A backend's slot in the cluster (pkg/upstream/slot.go) with its metrics (pkg/upstream/metrics.go).
-- A goroutine that the code starts by `go s.renewRateProvider(rt)` waits in `renewals`. The
-- goroutines that emit the slot are numbered: `running` tells which of them have not returned, and
-- `cancelled` which of their contexts are done. A goroutine whose context is done still waits in
-- `rate.Take()`, and its `select` may still choose to send, so it runs on until `return_provider`.
-- The counters grow by one per probe or request and stay below 2 ^ 63, so they are plain numbers.
pub mod Throttle
pub mod Move
pub mod Invariant
pub mod Kept
use adv_cache.Prelude.{
  ℕ, ◌+◌, ◌-◌, Bool, true, false, ◌&&◌, not, Option, none, some, List, [], ◌∷◌, ltb, leb, ◌==◌,
  if◌then◌else◌, update,
}
use adv_cache.Prelude.Int.{ℤ, pos, ◌==ℤ◌}

abbrev pub max_throttles : ℕ
max_throttles = 9

abbrev pub probes_in_row : ℕ
probes_in_row = 5

abbrev pub default_throttle_step : ℕ
default_throttle_step = 10

-- time.Hour and 24 * time.Hour, in nanoseconds
abbrev pub downtime_for_kill : ℕ
downtime_for_kill = 3_600_000_000_000

abbrev pub downtime_for_bury : ℕ
downtime_for_bury = 86_400_000_000_000

pub data SlotState : Type 0 where
  healthy sick dead : SlotState

pub record Metrics : Type 0 where
  pub healthy_state : ℕ
  pub sick_state : ℕ
  pub dead_state : ℕ
  pub buried_state : ℕ
  pub quarantined : ℕ
  pub cured : ℕ
  pub killed : ℕ
  pub resurrected : ℕ
  pub buried : ℕ
  pub throttled : ℕ
  pub unthrottled : ℕ
  pub throttle_level : ℕ

pub record Slot : Type 0 where
  pub state : SlotState
  -- provider.cancelProvider: the number of the goroutine that it stops
  pub cancel_provider : Option ℕ
  pub running : ℕ → Bool
  pub cancelled : ℕ → Bool
  pub next_provider : ℕ
  pub renewals : List ℤ
  pub total : ℕ
  pub errors : ℕ
  pub suc_probes : ℕ
  pub err_probes : ℕ
  pub throttles : ℕ
  pub limit : ℤ
  pub origin_rate : ℤ
  -- the zero time is `none`
  pub sicked_at : Option ℕ
  pub killed_at : Option ℕ
  pub metrics : Metrics

abbrev no_metrics : Metrics
no_metrics = record {
  healthy_state = 0;
  sick_state = 0;
  dead_state = 0;
  buried_state = 0;
  quarantined = 0;
  cured = 0;
  killed = 0;
  resurrected = 0;
  buried = 0;
  throttled = 0;
  unthrottled = 0;
  throttle_level = 0;
}

-- cfg.Rate
unfoldable pub new_backend_slot : ℤ → Slot
new_backend_slot rate = record {
  state = healthy;
  cancel_provider = none;
  running = λ _. false;
  cancelled = λ _. false;
  next_provider = 0;
  renewals = rate ∷ [];
  total = 0;
  errors = 0;
  suc_probes = 0;
  err_probes = 0;
  throttles = 0;
  limit = pos 0;
  origin_rate = rate;
  sicked_at = none;
  killed_at = none;
  metrics = no_metrics;
}

-- The argument is whether backend.IsHealthy returned nil.
unfoldable pub probe : Bool → Slot → Slot
probe false s = record s { suc_probes = 0; err_probes = s.err_probes + 1 }
probe true s = record s { suc_probes = s.suc_probes + 1; err_probes = 0 }

abbrev pub should_cure_by_probes : Slot → Bool
should_cure_by_probes s = ltb probes_in_row s.suc_probes

abbrev pub should_quarantine_by_probes : Slot → Bool
should_quarantine_by_probes s = ltb probes_in_row s.err_probes

-- The test that `shouldKill` and `shouldBury` make of a time stamp.
abbrev pub fell_for : ℕ → ℕ → Option ℕ → Slot → Bool
fell_for downtime now none s = false
fell_for downtime now (some since) s =
    (ltb probes_in_row s.err_probes && s.suc_probes == 0) && ltb downtime (now - since)

abbrev pub should_kill : ℕ → Slot → Bool
should_kill now s = fell_for downtime_for_kill now s.sicked_at s

abbrev pub should_bury : ℕ → Slot → Bool
should_bury now s = fell_for downtime_for_bury now s.killed_at s

abbrev pub should_resurrect : Slot → Bool
should_resurrect s = ltb probes_in_row s.suc_probes

abbrev pub is_idle : ℕ → Slot → Bool
is_idle n s = leb s.total n

abbrev is_healthy : SlotState → Bool
is_healthy healthy = true
is_healthy _ = false

abbrev is_sick : SlotState → Bool
is_sick sick = true
is_sick _ = false

abbrev is_dead : SlotState → Bool
is_dead dead = true
is_dead _ = false

abbrev pub has_healthy_state : Slot → Bool
has_healthy_state s = is_healthy s.state

abbrev pub has_sick_state : Slot → Bool
has_sick_state s = is_sick s.state

abbrev pub has_dead_state : Slot → Bool
has_dead_state s = is_dead s.state

-- cancel(): the context of the goroutine is done; the goroutine has not returned yet.
abbrev pub cancel : Option ℕ → (ℕ → Bool) → ℕ → Bool
cancel none cancelled = cancelled
cancel (some p) cancelled = update cancelled p true

unfoldable pub close_rate_provider : Slot → Slot
close_rate_provider s = record s {
  cancelled = cancel s.cancel_provider s.cancelled;
  suc_probes = 0;
  err_probes = 0;
  total = 0;
  errors = 0;
}

-- The new goroutine is started before the previous one's context is cancelled, both under the lock
-- of the slot; the result is the slot as the lock is released.
unfoldable pub renew_rate_provider : ℤ → Slot → Slot
renew_rate_provider limit s = if s.limit ==ℤ limit then s else record s {
  running = update s.running s.next_provider true;
  cancelled = cancel s.cancel_provider s.cancelled;
  cancel_provider = some s.next_provider;
  next_provider = s.next_provider + 1;
  limit = limit;
}

-- The goroutine `i`, whose context is done, gets its turn from `rate.Take()` and its `select`
-- chooses ctx.Done().
abbrev pub return_provider : ℕ → Slot → Slot
return_provider i s = record s { running = update s.running i false }

-- The same for every goroutine whose context is done.
abbrev pub return_cancelled : Slot → Slot
return_cancelled s = record s { running = λ i. s.running i && not (s.cancelled i) }

-- The waiting goroutines take the lock one after the other.
unfoldable pub run_renewals : List ℤ → Slot → Slot
unfolding renew_rate_provider
run_renewals [] s = s
run_renewals (limit ∷ rest) s = run_renewals rest (renew_rate_provider limit s)

unfoldable pub flush : Slot → Slot
unfolding run_renewals
flush s = run_renewals s.renewals (record s { renewals = [] })
