-- ===== src/Tests/Slots.antt =====
-- Slots at concrete inputs; the floats are thousandths.
use adv_cache.Prelude.{
  ℕ, ◌+◌, ◌-◌, ◌*◌, ◌/◌, ◌≡◌, refl, true, false, some, [], arith, ltb, leb, update,
}
use adv_cache.Prelude.Int.{pos, negsuc}
use adv_cache.Upstream.Float.{Float64}
use adv_cache.Upstream.Slot.{
  Slot, healthy, new_backend_slot, probe, flush, return_cancelled, renew_rate_provider,
}
use adv_cache.Upstream.Slot.Throttle.{throttled_rate}
use adv_cache.Upstream.Slot.Move.{quarantine, cure}
use adv_cache.Upstream.Slot.Invariant.{IsValid, Providers}
use adv_cache.Upstream.Cluster.{failure, count_request}
use adv_cache.Upstream.Lifecycle.{Step, Reach, here, next}
use adv_cache.Upstream.Lifecycle.Safety.{Reach-IsValid}
use adv_cache.Upstream.Lifecycle.Flapping.{quarantine-cure_strands}

abbrev pub thousandths : Float64
thousandths = record {
  F = ℕ;
  of_int = λ i. elim i [ pos n ↦ n * 1000 | negsuc n ↦ 0 ];
  decimal = λ a b. a * 1000 / b;
  add = λ a b. a + b;
  sub = λ a b. a - b;
  mul = λ a b. a * b / 1000;
  div = λ a b. a * 1000 / b;
  neg = λ a. 0;
  exp = λ a. 1000 + a;
  lt = ltb;
  le = leb;
  trunc = λ a. pos (a / 1000);
}

abbrev new_slot : Slot
new_slot = new_backend_slot (pos 100)

abbrev probed_slot : Slot
probed_slot = probe false new_slot

abbrev failing : Slot
failing = (quarantine 5 probed_slot).0

abbrev started : Reach thousandths new_slot (count_request failure failing)
started =
    next (next (next here (Step.probed false new_slot)) (Step.start 5 probed_slot))
      (Step.request failure failing)

Reach-IsValid_example : IsValid (count_request failure failing)
Reach-IsValid_example = Reach-IsValid (pos 100) started

abbrev renewed : Slot
renewed = renew_rate_provider (pos 100) (record new_slot { renewals = [] })

abbrev has_provider : Reach thousandths new_slot renewed
unfolding new_backend_slot
has_provider = next here (Step.renew new_slot [] [] (pos 100) refl)

abbrev slow_slot : Slot
slow_slot = record new_slot {
  renewals = [];
  limit = pos 20;
  cancel_provider = some 0;
  running = update (λ _. false) 0 true;
  next_provider = 1;
}

slow_slot-Providers : Providers slow_slot
unfolding new_backend_slot
slow_slot-Providers = record {
  single = λ i h e. ground arith;
  alive = λ i h e. ground arith;
  given = λ i h. ground arith;
  started = λ i h. ground arith;
  stopped = λ i h. ground arith;
}

quarantine-cure_strands_example :
    ((flush (cure thousandths (quarantine 7 slow_slot).0).0).state ≡ healthy)
    × ((return_cancelled (flush (cure thousandths (quarantine 7 slow_slot).0).0)).running 0 ≡ false)
unfolding new_backend_slot throttled_rate
quarantine-cure_strands_example =
    quarantine-cure_strands thousandths 7 0 slow_slot slow_slot-Providers refl refl refl
