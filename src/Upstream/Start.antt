-- ===== src/Upstream/Start.antt =====
-- The start of the cluster from its configuration (pkg/upstream/cluster.go: NewBackendCluster,
-- initBackends). A backend is its identifier, its switch and its rate; whether its first probe
-- succeeds, and the time, are arguments. Sums of rates do not wrap around.
pub mod Slots
use adv_cache.Prelude.{
  ℕ, zero, suc, ◌+◌, ◌≡◌, ◌≢◌, refl, ap, Bool, true, false, not, Bool-cases, Option-cases, inl, inr,
  ◌⊎◌, Option, none, some, List, [], ◌∷◌, ◌++◌, All, arith, length, ◌==◌, if◌then◌else◌,
}
use adv_cache.Prelude.Int.{ℤ, pos, lt_int, add_int}
use adv_cache.Model.Binary.{Bytes}
use adv_cache.Model.Entry.{bytes_equal}
use adv_cache.Upstream.Slot.{
  Slot, SlotState, healthy, sick, new_backend_slot, probe, has_healthy_state, close_rate_provider,
}
use adv_cache.Upstream.Slot.Move.{quarantine, quarantine_healthy}

pub record BackendRate : Type 0 where
  pub id : Bytes
  pub enabled : Bool
  pub rate : ℤ

abbrev pub Slots : Type 0
Slots = List (Bytes × Slot)

-- The errors of the configuration, and of the start.
pub data Started : Type 0 where
  no_backends_configured no_rates_configured no_healthy_backends : Started
  duplicate_backends : Bytes → Started
  not_quarantined : Bytes → Started
  started : Slots → Started

unfoldable pub total_rate : List BackendRate → ℤ
total_rate [] = pos 0
total_rate (b ∷ bs) = add_int b.rate (total_rate bs)

-- allSlotsByID[id]
unfoldable pub slot_of : Bytes → Slots → Option Slot
unfolding bytes_equal
slot_of id [] = none
slot_of id ((j, s) ∷ all) = if bytes_equal j id then some s else slot_of id all

-- The first probe of a new slot, and the quarantine if it fails: whether that was refused, and the
-- slot.
unfoldable pub first_probe : ℕ → Bool → Slot → Slot × Bool
unfolding probe quarantine
first_probe now true s = (probe true s, true)
first_probe now false s = quarantine now (probe false s)

abbrev pub not_empty : Started → Started
not_empty (started []) = no_healthy_backends
not_empty r = r

module _ (now : ℕ) (is_healthy : Bytes → Bool) where
  -- What the loop does with one more backend, given whether its identifier is taken.
  unfoldable pub add_backend : BackendRate → Option Slot → Slots → Started
  unfolding first_probe
  add_backend b (some s) all = duplicate_backends b.id
  add_backend b none all =
      let (s, moved) = first_probe now (is_healthy b.id) (new_backend_slot b.rate) in
      if moved then started ((b.id, s) ∷ all) else not_quarantined b.id

  unfoldable pub add_backends : List BackendRate → Slots → Started
  add_backends [] all = started all
  add_backends (b ∷ bs) all =
      if not b.enabled then add_backends bs all else elim (add_backend b (slot_of b.id all) all) [
        | started more ↦ add_backends bs more
        | e ↦ e
      ]

  unfoldable pub init_backends : List BackendRate → Started
  init_backends [] = no_backends_configured
  init_backends (b ∷ bs) =
      if lt_int (pos 0) (total_rate (b ∷ bs))
      then not_empty (add_backends (b ∷ bs) [])
      else no_rates_configured
