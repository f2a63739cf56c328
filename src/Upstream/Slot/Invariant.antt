-- ===== src/Upstream/Slot/Invariant.antt =====
-- The invariant of a slot (pkg/upstream/slot.go).
use adv_cache.Prelude.{
  ℕ, ◌+◌, ◌≤◌, ◌<◌, ◌≡◌, Bool, true, false, ◌&&◌, not, Option, none, some, arith, Bool-cases, inl,
  inr, update,
}
use adv_cache.Prelude.Int.{ℤ, ◌==ℤ◌}
use adv_cache.Upstream.Slot.{
  Slot, SlotState, healthy, sick, dead, new_backend_slot, probe, cancel, close_rate_provider,
  renew_rate_provider, return_provider, return_cancelled,
}

-- The time stamps that go with a state.
abbrev pub Stamps : SlotState → Option ℕ → Option ℕ → Type 0
Stamps healthy none none = Unit
Stamps sick (some _) none = Unit
Stamps dead (some _) (some _) = Unit
Stamps _ _ _ = ⊥

-- A goroutine that runs and whose context is not done is the one that `cancel_provider` stops, and
-- that one runs until its context is done; only numbers already given out are in use.
pub record Guarded (cancel_provider : Option ℕ) (running cancelled : ℕ → Bool) (next : ℕ)
    : Type 0 where
  pub single : (i : ℕ) → running i ≡ true → cancelled i ≡ false → cancel_provider ≡ some i
  pub alive : (i : ℕ) → cancel_provider ≡ some i → cancelled i ≡ false → running i ≡ true
  pub given : (i : ℕ) → cancel_provider ≡ some i → i < next
  pub started : (i : ℕ) → running i ≡ true → i < next
  pub stopped : (i : ℕ) → cancelled i ≡ true → i < next

abbrev pub Providers : Slot → Type 0
Providers s = Guarded s.cancel_provider s.running s.cancelled s.next_provider

pub record IsValid (s : Slot) : Type 0 where
  pub stamps : Stamps s.state s.sicked_at s.killed_at
  pub few_throttles : s.throttles ≤ 9
  pub providers : Providers s

pub new_backend_slot-IsValid : (rate : ℤ) → IsValid (new_backend_slot rate)
unfolding new_backend_slot
new_backend_slot-IsValid rate = record {
  stamps = tt;
  few_throttles = omega arith;
  providers = record {
    single = λ i h e. cc;
    alive = λ i h e. cc;
    given = λ i h. cc;
    started = λ i h. cc;
    stopped = λ i h. cc;
  };
}

pub probe-IsValid : (ok : Bool) (s : Slot) → IsValid s → IsValid (probe ok s)
unfolding probe
probe-IsValid true s v = record {
  stamps = v.stamps;
  few_throttles = v.few_throttles;
  providers = v.providers;
}
probe-IsValid false s v = record {
  stamps = v.stamps;
  few_throttles = v.few_throttles;
  providers = v.providers;
}

cancel-stops :
    (c : Option ℕ) (running cancelled : ℕ → Bool)
    → ((i : ℕ) → running i ≡ true → cancelled i ≡ false → c ≡ some i)
    → (i : ℕ) → (running i && not (cancel c cancelled i)) ≡ false
cancel-stops none running cancelled single i = ground (arith, single i)
cancel-stops (some p) running cancelled single i = ground (arith, single i)

cancel-Guarded :
    (c : Option ℕ) (running cancelled : ℕ → Bool) (n : ℕ)
    → Guarded c running cancelled n
    → Guarded c running (cancel c cancelled) n
cancel-Guarded none running cancelled n g = g
cancel-Guarded (some p) running cancelled n g = record {
  single = λ i h e. ground (arith, g.single i);
  alive = λ i h e. ground (arith, g.alive i);
  given = g.given;
  started = g.started;
  stopped = λ i h. ground (arith, g.stopped i, g.given i);
}

-- A goroutine is started under a fresh number, and the previous one's context is cancelled.
renewed-Guarded :
    (c : Option ℕ) (running cancelled : ℕ → Bool) (n : ℕ)
    → Guarded c running cancelled n
    → Guarded (some n) (update running n true) (cancel c cancelled) (n + 1)
renewed-Guarded c running cancelled n g =
    let done = cancel-Guarded c running cancelled n g in
    let off = cancel-stops c running cancelled g.single in
    record {
      single = λ i h e. ground (arith, off i);
      alive = λ i h e. ground arith;
      given = λ i h. ground arith;
      started = λ i h. ground (arith, g.started i);
      stopped = λ i h. ground (arith, done.stopped i);
    }

-- After `closeRateProvider` the goroutines whose context is not done have returned.
pub close_rate_provider-stops :
    (s : Slot)
    → Providers s
    → (i : ℕ) → (return_cancelled (close_rate_provider s)).running i ≡ false
unfolding close_rate_provider
close_rate_provider-stops s p i = cancel-stops s.cancel_provider s.running s.cancelled p.single i

pub close_rate_provider-Providers : (s : Slot) → Providers s → Providers (close_rate_provider s)
unfolding close_rate_provider
close_rate_provider-Providers s p =
    cancel-Guarded s.cancel_provider s.running s.cancelled s.next_provider p

pub renew_rate_provider-Providers :
    (limit : ℤ) (s : Slot) → Providers s → Providers (renew_rate_provider limit s)
unfolding renew_rate_provider
renew_rate_provider-Providers limit s p = elim (Bool-cases (s.limit ==ℤ limit)) [
  | inl same ↦ rw (same, renew_rate_provider) p
  | inr other ↦
      rw (other, renew_rate_provider)
        (renewed-Guarded s.cancel_provider s.running s.cancelled s.next_provider p)
]

-- A goroutine returns only when its context is done.
pub return_provider-Providers :
    (i : ℕ) (s : Slot) → s.cancelled i ≡ true → Providers s → Providers (return_provider i s)
return_provider-Providers i s done p = record {
  single = λ j h e. ground (arith, p.single j);
  alive = λ j h e. ground (arith, p.alive j);
  given = p.given;
  started = λ j h. ground (arith, p.started j);
  stopped = p.stopped;
}
