-- ===== src/Storage/Evictor/Log.antt =====
-- The background loop of the evictor and its log (pkg/storage/lru/evictor.go): each run that has
-- evicted something sends its numbers over a channel to the logger, which writes a line every five
-- seconds. The channel is a queue without a bound; a run that would wait for room has sent later.
-- Bytes are int64 patterns. Each line that is written is kept, the latest first.
use adv_cache.Prelude.{
  ℕ, ◌+◌, ◌≡◌, refl, ap, ◌∙◌, Bool-cases, inl, inr, not, ◌&&◌, ◌||◌, some, List, [], ◌∷◌, ◌++◌, ltb,
  ◌==◌, if◌then◌else◌, arith,
}
use adv_cache.Prelude.Words.{add64, le64}
use adv_cache.Storage.Valid.{IsValid}
use adv_cache.Storage.Evictor.{Evict, evict_until_within_limit}
use adv_cache.Storage.Evictor.Sums.{item_count}
use adv_cache.Storage.Evictor.Runs.{evict_until_within_limit-Kept}

pub record EvictionStat : Type 0 where
  pub items : ℕ
  pub freed_mem : ℕ

-- The storage with the evictor, the channel with the oldest message first, the sums of the logger,
-- and its lines.
pub record Evictor : Type 0 where
  pub evict : Evict
  pub channel : List EvictionStat
  pub sums : EvictionStat
  pub lines : List EvictionStat

-- What a run does with its results.
unfoldable pub send_stat : Evict → Evictor → Evictor
send_stat r w =
    if ltb 0 r.items || not (le64 r.mem 0)
    then record w {
      evict = r;
      channel = w.channel ++ record { items = r.items; freed_mem = r.mem } ∷ [];
    }
    else record w { evict = r }

unfoldable pub receive : EvictionStat → List EvictionStat → Evictor → Evictor
receive s rest w = record w {
  channel = rest;
  sums = record { items = w.sums.items + s.items; freed_mem = add64 w.sums.freed_mem s.freed_mem };
}

unfoldable pub log_evictions : Evictor → Evictor
log_evictions w =
    if w.sums.items == 0 && le64 w.sums.freed_mem 0
    then w
    else record w { lines = w.sums ∷ w.lines; sums = record { items = 0; freed_mem = 0 } }

pub data Step (memory_threshold : ℕ) : Evictor → Evictor → Type 0 where
  ran :
      (fuel : ℕ) (r : Evict) (w : Evictor)
      → evict_until_within_limit memory_threshold fuel w.evict ≡ some r
      → Step memory_threshold w (send_stat r w)
  received :
      (s : EvictionStat) (rest : List EvictionStat) (w : Evictor)
      → w.channel ≡ s ∷ rest
      → Step memory_threshold w (receive s rest w)
  ticked : (w : Evictor) → Step memory_threshold w (log_evictions w)

pub data Reach (memory_threshold : ℕ) (w : Evictor) : Evictor → Type 0 where
  here : Reach memory_threshold w w
  next :
      {t u : Evictor}
      → Reach memory_threshold w t
      → Step memory_threshold t u
      → Reach memory_threshold w u

abbrev pub total : List EvictionStat → ℕ
total [] = 0
total (s ∷ ss) = s.items + total ss

-- The items that are stored, on their way to the log, or logged.
abbrev pub accounted : Evictor → ℕ
accounted w = item_count w.evict.db + total w.channel + w.sums.items + total w.lines

total-append :
    (xs : List EvictionStat) (s : EvictionStat) → total (xs ++ s ∷ []) ≡ total xs + s.items
total-append [] s = omega arith
total-append (x ∷ xs) s = omega (arith, total-append xs s)

Step-accounted :
    (memory_threshold : ℕ) {w u : Evictor}
    → Step memory_threshold w u
    → IsValid w.evict.db
    → IsValid u.evict.db × (accounted u ≡ accounted w)
unfolding send_stat receive log_evictions
Step-accounted mt (ran fuel r w e) v =
    let k = evict_until_within_limit-Kept mt fuel w.evict r v e in
    elim (Bool-cases (ltb 0 r.items || not (le64 r.mem 0))) [
      | inl some_evicted ↦ rw some_evicted (
        k.valid,
        omega (
          arith,
          k.items,
          total-append w.channel (record { items = r.items; freed_mem = r.mem }),
        ),
      )
      | inr nothing ↦
          let none_evicted : r.items ≡ 0 = ground arith in
          rw nothing (k.valid, omega (arith, k.items, none_evicted))
    ]
Step-accounted mt (received s rest w e) v = (v, omega (arith, ap total e))
Step-accounted mt (ticked w) v = elim (Bool-cases (w.sums.items == 0 && le64 w.sums.freed_mem 0)) [
  | inl quiet ↦ rw quiet (v, refl)
  | inr loud ↦ rw loud (v, omega arith)
]

-- From a valid storage, whatever runs of the evictor end, messages are received and lines are
-- written: the storage is valid, and each item that is no more in it is in exactly one message of the
-- channel, in the sums of the logger, or in one line of the log.
pub Reach-accounted :
    (memory_threshold : ℕ) {w u : Evictor}
    → IsValid w.evict.db
    → Reach memory_threshold w u
    → IsValid u.evict.db × (accounted u ≡ accounted w)
Reach-accounted mt v here = (v, refl)
Reach-accounted mt v (next steps s) =
    let (valid, same) = Reach-accounted mt v steps in
    let (valid', same') = Step-accounted mt s valid in (valid', same' ∙ same)
