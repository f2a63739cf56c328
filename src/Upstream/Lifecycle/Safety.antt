-- ===== src/Upstream/Lifecycle/Safety.antt =====
-- What holds of every slot that can be reached from a new one (pkg/upstream/slot.go).
use adv_cache.Prelude.{true, inl, inr, Bool-cases, ◌++◌}
use adv_cache.Prelude.Int.{ℤ, ◌==ℤ◌}
use adv_cache.Upstream.Float.{Float64}
use adv_cache.Upstream.Slot.{Slot, new_backend_slot, renew_rate_provider}
use adv_cache.Upstream.Slot.Invariant.{
  IsValid, new_backend_slot-IsValid, probe-IsValid, renew_rate_provider-Providers,
  return_provider-Providers,
}
use adv_cache.Upstream.Slot.Kept.{quarantine-IsValid}
use adv_cache.Upstream.Monitor.Kept.{
  decide_idle-IsValid, decide_quarantine-IsValid, decide_dead-IsValid, judge_err_rate-IsValid,
  reset_counters-IsValid,
}
use adv_cache.Upstream.Cluster.{Answer, count_request, is_error}
use adv_cache.Upstream.Lifecycle.{Step, Reach, here, next}

count_request-IsValid : (a : Answer) (s : Slot) → IsValid s → IsValid (count_request a s)
unfolding count_request
count_request-IsValid a s v = elim (Bool-cases (is_error a)) [
  | inl e ↦
      rw (e, count_request)
        (record { stamps = v.stamps; few_throttles = v.few_throttles; providers = v.providers })
  | inr e ↦
      rw (e, count_request)
        (record { stamps = v.stamps; few_throttles = v.few_throttles; providers = v.providers })
]

renew-IsValid : (limit : ℤ) (s : Slot) → IsValid s → IsValid (renew_rate_provider limit s)
unfolding renew_rate_provider
renew-IsValid limit s v =
    let p = renew_rate_provider-Providers limit s v.providers in
    elim (Bool-cases (s.limit ==ℤ limit)) [
      | inl e ↦ rw (e, renew_rate_provider) v
      | inr e ↦
          rw (e, renew_rate_provider)
            (record {
              stamps = v.stamps;
              few_throttles = v.few_throttles;
              providers = rw (e, renew_rate_provider) at p;
            })
    ]

Step-IsValid : {fl : Float64} {s t : Slot} → Step fl s t → IsValid s → IsValid t
Step-IsValid (Step.start now s) v = quarantine-IsValid now s v
Step-IsValid (Step.probed ok s) v = probe-IsValid ok s v
Step-IsValid (Step.idle now s) v = decide_idle-IsValid now s v
Step-IsValid {fl} (Step.quarantined now s) v = decide_quarantine-IsValid fl now s v
Step-IsValid (Step.dead now s) v = decide_dead-IsValid now s v
Step-IsValid {fl} (Step.busy now s) v = judge_err_rate-IsValid fl now s v
Step-IsValid (Step.reset s) v = reset_counters-IsValid true s v
Step-IsValid (Step.request a s) v = count_request-IsValid a s v
Step-IsValid (Step.renew s before after limit e) v =
    renew-IsValid limit (record s { renewals = before ++ after })
      (record { stamps = v.stamps; few_throttles = v.few_throttles; providers = v.providers })
Step-IsValid (Step.returned i s on done) v = record {
  stamps = v.stamps;
  few_throttles = v.few_throttles;
  providers = return_provider-Providers i s done v.providers;
}

-- Whatever happens to a new slot, in any order, it is valid whenever its lock is free: its time
-- stamps are those of its state (none when healthy, the fall when sick, the fall and the death when
-- dead), it has at most nine throttles, the goroutine that its cancel function stops runs until its
-- context is done, any other goroutine that still runs has a context that is done, and only
-- goroutines that have been started run or have been cancelled.
pub Reach-IsValid :
    {fl : Float64} (rate : ℤ) {s : Slot} → Reach fl (new_backend_slot rate) s → IsValid s
Reach-IsValid rate here = new_backend_slot-IsValid rate
Reach-IsValid rate (next r st) = Step-IsValid st (Reach-IsValid rate r)
