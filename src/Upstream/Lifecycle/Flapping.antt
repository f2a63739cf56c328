-- ===== src/Upstream/Lifecycle/Flapping.antt =====
-- How the state of a backend and its provider's goroutine come apart (pkg/upstream/slot.go):
-- `renewRateProvider` returns early when the limit is the same, and takes the lock later than the
-- move that started it, without a look at the state.
use adv_cache.Prelude.{ℕ, ◌-◌, ◌≡◌, refl, true, false, [], arith}
use adv_cache.Prelude.Int.{ℤ, pos, negsuc, ◌==ℤ◌}
use adv_cache.Upstream.Float.{Float64}
use adv_cache.Upstream.Slot.{
  Slot, healthy, sick, new_backend_slot, probe, close_rate_provider, renew_rate_provider, flush,
  return_cancelled, max_throttles,
}
use adv_cache.Upstream.Slot.Throttle.{throttled_rate}
use adv_cache.Upstream.Slot.Move.{quarantine, quarantine_healthy, cure, cure_sick}
use adv_cache.Upstream.Lifecycle.{Step, Reach, here, next}
use adv_cache.Upstream.Slot.Invariant.{Providers, close_rate_provider-stops}

==ℤ-refl : (a : ℤ) → (a ==ℤ a) ≡ true
==ℤ-refl (pos n) = ground arith
==ℤ-refl (negsuc n) = ground arith

-- A healthy slot whose provider runs at the rate of eight throttles, with no renewal waiting, and
-- that is quarantined and then cured, is healthy again, and when its waiting renewals have run and
-- the goroutines whose context is done have returned, no goroutine emits it; before, the only
-- goroutine with a context that is not done may be the one that its cancel function stops.
pub quarantine-cure_strands :
    (fl : Float64) (now i : ℕ) (s : Slot)
    → Providers s
    → s.state ≡ healthy
    → s.renewals ≡ []
    → s.limit ≡ throttled_rate fl s.origin_rate (max_throttles - 1)
    → ((flush (cure fl (quarantine now s).0).0).state ≡ healthy)
      × ((return_cancelled (flush (cure fl (quarantine now s).0).0)).running i ≡ false)
unfolding flush quarantine quarantine_healthy cure cure_sick renew_rate_provider
quarantine-cure_strands fl now i s p h none_waits slow =
    rw (h, quarantine) (rw (none_waits, slow, ==ℤ-refl) (refl, close_rate_provider-stops s p i))

-- For a rate that is not zero, a backend can come from its start to a state in which it is sick
-- and yet its first provider emits it, with a context that is not done: the goroutine of the start takes the lock after the
-- quarantine.
pub start-sick_emits :
    (fl : Float64) (now : ℕ) (rate : ℤ)
    → (pos 0 ==ℤ rate) ≡ false
    → (t : Slot) × Reach fl (new_backend_slot rate) t
      × (t.state ≡ sick)
      × (t.running 0 ≡ true)
      × (t.cancelled 0 ≡ false)
unfolding new_backend_slot quarantine quarantine_healthy probe close_rate_provider
    renew_rate_provider
start-sick_emits fl now rate h =
    let s = (quarantine now (probe false (new_backend_slot rate))).0 in
    (
      renew_rate_provider rate (record s { renewals = [] }),
      next
          (next (next here (Step.probed false (new_backend_slot rate)))
            (Step.start now (probe false (new_backend_slot rate))))
          (Step.renew s [] [] rate refl),
      rw h refl,
      rw h refl,
      rw h refl,
    )
