-- ===== src/Upstream/Slot/Kept.antt =====
-- The slot's invariant, and the moves and throttles of pkg/upstream/slot.go.
use adv_cache.Prelude.{
  ◌⊎◌, refl, ℕ, ◌≡◌, Option, none, some, List, arith, Bool-cases, inl, inr, leb, ltb,
}
use adv_cache.Prelude.Int.{ℤ}
use adv_cache.Upstream.Float.{Float64}
use adv_cache.Upstream.Slot.{Slot, SlotState, healthy, sick, dead}
use adv_cache.Upstream.Slot.Throttle.{set_throttles, throttle, unthrottle, throttles_num}
use adv_cache.Upstream.Slot.Move.{
  or_same, cure_sick, quarantine_healthy, cure, quarantine, kill, resurrect,
}
use adv_cache.Upstream.Slot.Invariant.{Stamps, IsValid, close_rate_provider-Providers}

pub state_cases : (st : SlotState) → (st ≡ sick) ⊎ ((st ≡ healthy) ⊎ (st ≡ dead))
state_cases healthy = inr (inl refl)
state_cases sick = inl refl
state_cases dead = inr (inr refl)

module _ (fl : Float64) where
  -- The fields that throttling leaves alone, and the bound on the number of throttles.
  set_throttles-IsValid : (n : ℕ) (s : Slot) → IsValid s → IsValid (set_throttles fl n s)
  unfolding set_throttles
  set_throttles-IsValid n s v = elim (Bool-cases (leb n 9)) [
    | inl few ↦
        rw (few, set_throttles)
          (record { stamps = v.stamps; few_throttles = ground arith; providers = v.providers })
    | inr many ↦ rw (many, set_throttles) v
  ]

  pub throttle-IsValid :
      (news : List ℤ) (s : Slot) → IsValid s → IsValid (or_same s (throttle fl news s))
  unfolding throttle
  throttle-IsValid news s v = go (throttles_num fl news s.throttles)
    where
      go :
          (o : Option ℕ)
          → IsValid (or_same s (elim o [ none ↦ none | some n ↦ some (set_throttles fl n s) ]))
      go none = v
      go (some n) = set_throttles-IsValid n s v

  pub unthrottle-IsValid : (s : Slot) → IsValid s → IsValid (unthrottle fl s)
  unfolding unthrottle
  unthrottle-IsValid s v = elim (Bool-cases (ltb 0 s.throttles)) [
    | inl some_throttles ↦
        rw (some_throttles, unthrottle)
          (record {
            stamps = v.stamps;
            few_throttles = ground (arith, v.few_throttles);
            providers = v.providers;
          })
    | inr no_throttles ↦ rw (no_throttles, unthrottle) v
  ]

  cure_sick-IsValid : (s : Slot) → IsValid s → IsValid (cure_sick fl s)
  unfolding cure_sick
  cure_sick-IsValid s v = record {
    stamps = tt;
    few_throttles = omega arith;
    providers = v.providers;
  }

  pub cure-IsValid : (s : Slot) → IsValid s → IsValid (cure fl s).0
  unfolding cure
  cure-IsValid s v = elim (state_cases s.state) [
    | inl e ↦ rw (e, cure) (cure_sick-IsValid s v)
    | inr (inl e) ↦ rw (e, cure) v
    | inr (inr e) ↦ rw (e, cure) v
  ]

quarantine_healthy-IsValid : (now : ℕ) (s : Slot) → IsValid s → IsValid (quarantine_healthy now s)
unfolding quarantine_healthy
quarantine_healthy-IsValid now s v = record {
  stamps = tt;
  few_throttles = v.few_throttles;
  providers = close_rate_provider-Providers s v.providers;
}

pub quarantine-IsValid : (now : ℕ) (s : Slot) → IsValid s → IsValid (quarantine now s).0
unfolding quarantine
quarantine-IsValid now s v = elim (state_cases s.state) [
  | inl e ↦ rw (e, quarantine) v
  | inr (inl e) ↦ rw (e, quarantine) (quarantine_healthy-IsValid now s v)
  | inr (inr e) ↦ rw (e, quarantine) v
]

Stamps-kill :
    (now : ℕ) (st : SlotState) (a b : Option ℕ)
    → st ≡ sick
    → Stamps st a b
    → Stamps dead a (some now)
Stamps-kill now healthy a b e h = cc
Stamps-kill now sick (some t) none e h = tt
Stamps-kill now sick none none e h = elim h [ ]
Stamps-kill now sick none (some u) e h = elim h [ ]
Stamps-kill now sick (some t) (some u) e h = elim h [ ]
Stamps-kill now dead a b e h = cc

pub kill-IsValid : (now : ℕ) (s : Slot) → IsValid s → IsValid (kill now s).0
unfolding kill
kill-IsValid now s v = elim (state_cases s.state) [
  | inl e ↦
      rw (e, kill)
        (record {
          stamps = Stamps-kill now s.state s.sicked_at s.killed_at e v.stamps;
          few_throttles = v.few_throttles;
          providers = v.providers;
        })
  | inr (inl e) ↦ rw (e, kill) v
  | inr (inr e) ↦ rw (e, kill) v
]

pub resurrect-IsValid : (now : ℕ) (s : Slot) → IsValid s → IsValid (resurrect now s).0
unfolding resurrect
resurrect-IsValid now s v = elim (state_cases s.state) [
  | inl e ↦ rw (e, resurrect) v
  | inr (inl e) ↦ rw (e, resurrect) v
  | inr (inr e) ↦
      rw (e, resurrect)
        (record { stamps = tt; few_throttles = v.few_throttles; providers = v.providers })
]
