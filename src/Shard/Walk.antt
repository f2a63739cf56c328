-- ===== src/Shard/Walk.antt =====
-- WalkShards of pkg/storage/map/map.go: a goroutine for each shard, and a wait group that is set to
-- the number of shards before the loop. A step is what the loop or one goroutine does next.
use adv_cache.Prelude.{
  ℕ, ◌+◌, ◌-◌, ◌≡◌, ◌≤◌, ◌<◌, refl, ap, Bool, true, false, Bool-cases, inl, inr, List, [], ◌∷◌,
  ◌++◌, length, length-append, arith,
}

-- The loop: the next shard, and whether it has returned as the context is done. The goroutines that
-- run, by their shards, and the counter of the wait group.
pub record Walk : Type 0 where
  pub next : ℕ
  pub running : List ℕ
  pub waiting : ℕ
  pub stopped : Bool

-- WalkShards returns when the loop has ended and the counter is 0.
abbrev pub start : ℕ → Walk
start total = record { next = 0; running = []; waiting = total; stopped = false }

abbrev launch : Walk → Walk
launch w = record w { next = w.next + 1; running = w.next ∷ w.running }

abbrev stop : Walk → Walk
stop w = record w { stopped = true }

-- wg.Done
abbrev finish : List ℕ → Walk → Walk
finish running w = record w { running = running; waiting = w.waiting - 1 }

pub data Step (total : ℕ) : Walk → Walk → Type 0 where
  launched : (w : Walk) → w.stopped ≡ false → w.next < total → Step total w (launch w)
  cancelled : (w : Walk) → w.stopped ≡ false → w.next < total → Step total w (stop w)
  finished :
      (before after : List ℕ) (k : ℕ) (w : Walk)
      → w.running ≡ before ++ (k ∷ after)
      → Step total w (finish (before ++ after) w)

pub data Reach (total : ℕ) : Walk → Type 0 where
  here : Reach total (start total)
  next : {w v : Walk} → Reach total w → Step total w v → Reach total v

length_zero : (xs : List ℕ) → length xs ≡ 0 → xs ≡ []
length_zero [] h = refl
length_zero (x ∷ xs) h = absurd (omega arith)

record IsCounted (total : ℕ) (w : Walk) : Type 0 where
  pub counted : w.waiting + w.next ≡ total + length w.running
  pub bounded : w.next ≤ total
  pub early : w.stopped ≡ true → w.next < total

Step-IsCounted : {total : ℕ} {w v : Walk} → Step total w v → IsCounted total w → IsCounted total v
Step-IsCounted (Step.launched w s h) c = record {
  counted = omega (arith, c.counted);
  bounded = omega (arith, h);
  early = λ q. cc (s, q);
}
Step-IsCounted (Step.cancelled w s h) c = record {
  counted = c.counted;
  bounded = c.bounded;
  early = λ _. h;
}
Step-IsCounted (Step.finished before after k w e) c = record {
  counted = omega (
    arith,
    c.counted,
    c.bounded,
    ap length e,
    length-append before (k ∷ after),
    length-append before after,
  );
  bounded = c.bounded;
  early = c.early;
}

Reach-IsCounted : {total : ℕ} {w : Walk} → Reach total w → IsCounted total w
Reach-IsCounted Reach.here = record {
  counted = omega arith;
  bounded = omega arith;
  early = λ q. cc q;
}
Reach-IsCounted (Reach.next r s) = Step-IsCounted s (Reach-IsCounted r)

-- Where the counter is 0, so that WalkShards may return, the goroutine of each shard has been started
-- and has ended, and the context was not done before the last start: otherwise it waits for ever.
pub Reach-returned :
    {total : ℕ} {w : Walk}
    → Reach total w
    → w.waiting ≡ 0
    → (w.next ≡ total) × (w.running ≡ []) × (w.stopped ≡ false)
Reach-returned r z =
    let c = Reach-IsCounted r in
    (
      omega (arith, c.counted, c.bounded, z),
      length_zero _ (omega (arith, c.counted, c.bounded, z)),
      elim (Bool-cases _) [ inl s ↦ absurd (omega (arith, c.counted, c.early s, z)) | inr s ↦ s ],
    )
