-- ===== src/Upstream/Start/Slots.antt =====
-- What a start of the cluster leaves (pkg/upstream/cluster.go: initBackends).
use adv_cache.Prelude.{◌≡◌, Bool, true, false, Option, some, [], ◌∷◌}
use adv_cache.Upstream.Slot.{Slot, SlotState, healthy, sick}
use adv_cache.Upstream.Start.{BackendRate}

-- The state that the first probe decides.
abbrev pub state_after : Bool → SlotState
state_after true = healthy
state_after false = sick

-- The slot of a backend after the start: its state is that of its probe, and its rate provider is
-- about to be started at the backend's rate.
pub record IsStarted (ok : Bool) (b : BackendRate) (o : Option Slot) : Type 0 where
  pub slot : Slot
  pub found : o ≡ some slot
  pub state : slot.state ≡ state_after ok
  pub renewals : slot.renewals ≡ b.rate ∷ []
  pub origin_rate : slot.origin_rate ≡ b.rate
