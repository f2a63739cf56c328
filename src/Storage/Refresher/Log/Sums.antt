-- ===== src/Storage/Refresher/Log/Sums.antt =====
-- That the refresher's log counts everything once (pkg/storage/lru/refresher.go: runLogger).
use adv_cache.Prelude.{ℕ, ◌+◌, ◌≡◌, refl, List, [], ◌∷◌, arith}
use adv_cache.Storage.Refresher.Log.{
  Counters, reset, add, Log, Event, counted, each_5_secs, each_hour, each_12_hours, each_24_hours,
  log_5_secs, happen, run,
}

-- A sum in one of the counters, given by its projection.
module _ (count : Counters → ℕ) where
  abbrev pub sum : List Counters → ℕ
  sum [] = 0
  sum (c ∷ cs) = count c + sum cs

  abbrev pub arrived : List Event → ℕ
  arrived [] = 0
  arrived (counted c ∷ es) = count c + arrived es
  arrived (_ ∷ es) = arrived es

  -- What came is in the lines of each kind or waits for the next one.
  pub record Logged (n : ℕ) (l : Log) : Type 0 where
    pub lines : sum l.lines + count l.global ≡ n
    pub hourly : sum l.hourly_lines + count l.hourly ≡ sum l.lines
    pub half_day : sum l.half_day_lines + count l.half_day ≡ sum l.lines
    pub day : sum l.day_lines + count l.day ≡ sum l.lines

module _ (count : Counters → ℕ) (count_reset : count reset ≡ 0)
    (count-add : (c d : Counters) → count (add c d) ≡ count c + count d) where
  happen-Logged :
      (e : Event) (es : List Event) (l : Log)
      → Logged count (arrived count es) l
      → Logged count (arrived count (e ∷ es)) (happen e l)
  unfolding happen log_5_secs
  happen-Logged (counted c) es l h = record {
    lines = omega (arith, h.lines, count-add l.global c);
    hourly = h.hourly;
    half_day = h.half_day;
    day = h.day;
  }
  happen-Logged each_5_secs es l h = record {
    lines = omega (arith, h.lines, count_reset);
    hourly = omega (arith, h.hourly, count-add l.hourly l.global);
    half_day = omega (arith, h.half_day, count-add l.half_day l.global);
    day = omega (arith, h.day, count-add l.day l.global);
  }
  happen-Logged each_hour es l h = record {
    lines = h.lines;
    hourly = omega (arith, h.hourly, count_reset);
    half_day = h.half_day;
    day = h.day;
  }
  happen-Logged each_12_hours es l h = record {
    lines = h.lines;
    hourly = h.hourly;
    half_day = omega (arith, h.half_day, count_reset);
    day = h.day;
  }
  happen-Logged each_24_hours es l h = record {
    lines = h.lines;
    hourly = h.hourly;
    half_day = h.half_day;
    day = omega (arith, h.day, count_reset);
  }

  run-Logged : (es : List Event) → Logged count (arrived count es) (run es)
  run-Logged [] = record {
    lines = omega (arith, count_reset);
    hourly = omega (arith, count_reset);
    half_day = omega (arith, count_reset);
    day = omega (arith, count_reset);
  }
  run-Logged (e ∷ es) = happen-Logged e es (run es) (run-Logged es)

abbrev pub AllLogged : List Event → Log → Type 0
AllLogged es l =
    Logged (λ c. c.success) (arrived (λ c. c.success) es) l
    × Logged (λ c. c.errors) (arrived (λ c. c.errors) es) l
    × Logged (λ c. c.scans) (arrived (λ c. c.scans) es) l
    × Logged (λ c. c.found) (arrived (λ c. c.found) es) l

-- Whatever workers count and whichever clocks tick, in any order: each success, error, scan and found
-- entry that was counted is in one line of five seconds or in the counter that waits for the next one,
-- and each one in a line of five seconds is in one line of each long period or waits for it.
pub run-AllLogged : (es : List Event) → AllLogged es (run es)
unfolding add
run-AllLogged es = (
  run-Logged (λ c. c.success) refl (λ c d. refl) es,
  run-Logged (λ c. c.errors) refl (λ c d. refl) es,
  run-Logged (λ c. c.scans) refl (λ c d. refl) es,
  run-Logged (λ c. c.found) refl (λ c d. refl) es,
)
