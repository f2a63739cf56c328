-- ===== src/Api/Metrics.antt =====
-- The writer of the metrics and of the statistics (internal/cache/api/cache.go:
-- runLoggerMetricsWriter, counters, logLong). What was logged and exported is kept, latest first.
-- float64 is a parameter, and so is the time between two lines in seconds. Counters stay below
-- 2 ^ 63. How a line is formatted is left out.
pub mod Accounts
use adv_cache.Prelude.{
  ℕ, zero, suc, ◌+◌, ◌/◌, Bool, true, false, ◌&&◌, List, [], ◌∷◌, ltb, ◌==◌, if◌then◌else◌,
}
use adv_cache.Prelude.Int.{ℤ, pos, ◌==ℤ◌}
use adv_cache.Upstream.Float.{Float64}

pub record Counters : Type 0 where
  pub total : ℕ
  pub hits : ℕ
  pub misses : ℕ
  pub errors : ℕ
  pub proxied : ℕ
  pub duration : ℕ

abbrev pub reset : Counters
reset = record { total = 0; hits = 0; misses = 0; errors = 0; proxied = 0; duration = 0 }

unfoldable pub add : Counters → Counters → Counters
add c d = record {
  total = c.total + d.total;
  hits = c.hits + d.hits;
  misses = c.misses + d.misses;
  errors = c.errors + d.errors;
  proxied = c.proxied + d.proxied;
  duration = c.duration + d.duration;
}

-- Load and Store(0) of each counter: what comes in between is gone. The arguments are the counters
-- at their Loads, and what comes between each Load and its Store.
unfoldable pub swap : Counters → Counters → Counters × Counters
swap loaded between = (loaded, reset)

-- A line of logLong: the period's sums, and the average duration.
pub record Long : Type 0 where
  pub counters : Counters
  pub avg_duration : ℕ

unfoldable pub log_long : Counters → List Long → List Long
log_long c lines =
    if c.total == 0
    then lines
    else record { counters = c; avg_duration = c.duration / c.total } ∷ lines

pub record Writer : Type 0 where
  -- the atomic counters
  pub current : Counters
  -- totalNum and the others, since the last line of five seconds
  pub window : Counters
  pub hourly : Counters
  pub half_day : Counters
  pub day : Counters
  pub i : ℕ
  pub exported : List Counters
  pub lines : List Counters
  pub hourly_lines : List Long
  pub half_day_lines : List Long
  pub day_lines : List Long

abbrev pub log_interval_secs : ℕ
log_interval_secs = 5

module _ (fl : Float64) where
  -- avgDuration, of the counters of one second
  abbrev pub avg_duration : Counters → fl.F
  avg_duration c =
      if ltb 0 c.total
      then fl.div (fl.of_int (pos c.duration)) (fl.of_int (pos c.total))
      else fl.of_int (pos 0)

  -- dur == 0 && rps == 0
  unfoldable pub is_quiet : fl.F → Counters → Counters → Bool
  is_quiet seconds loaded window =
      let zero_f = fl.of_int (pos 0) in
      let rps = fl.div (fl.of_int (pos window.total)) seconds in
      fl.trunc (avg_duration loaded) ==ℤ pos 0 && (fl.le rps zero_f && fl.le zero_f rps)

  -- The statistics of five seconds: `continue` leaves `i` as it is, and the duration is not reset.
  unfoldable pub log_window : Bool → Writer → Writer
  log_window quiet w =
      if w.i == log_interval_secs
      then (if quiet then w else record w {
        lines = w.window ∷ w.lines;
        window = record reset { duration = w.window.duration };
        i = 1;
      })
      else record w { i = w.i + 1 }

  -- A tick of the second, at which the loads give `current`.
  unfoldable pub second : fl.F → Counters → Writer → Writer
  unfolding swap add is_quiet log_window
  second seconds between w =
      let (loaded, current) = swap w.current between in
      let window = add w.window loaded in
      log_window (is_quiet seconds loaded window) (record w {
        current = current;
        exported = loaded ∷ w.exported;
        window = window;
        hourly = add w.hourly loaded;
        half_day = add w.half_day loaded;
        day = add w.day loaded;
      })

  unfoldable pub each_hour : Writer → Writer
  unfolding log_long
  each_hour w = record w { hourly_lines = log_long w.hourly w.hourly_lines; hourly = reset }

  unfoldable pub each_half_day : Writer → Writer
  unfolding log_long
  each_half_day w = record w {
    half_day_lines = log_long w.half_day w.half_day_lines;
    half_day = reset;
  }

  unfoldable pub each_day : Writer → Writer
  unfolding log_long
  each_day w = record w { day_lines = log_long w.day w.day_lines; day = reset }

  -- What happens to the writer: a request that counts, and the ticks of its four clocks.
  pub data Event : Type 0 where
    request : Counters → Event
    ticked : fl.F → Counters → Event
    hour : Event
    half : Event
    whole : Event

  unfoldable pub happen : Event → Writer → Writer
  unfolding add
  happen (request c) w = record w { current = add w.current c }
  happen (ticked seconds between) w = second seconds between w
  happen hour w = each_hour w
  happen half w = each_half_day w
  happen whole w = each_day w

abbrev pub new_writer : Writer
new_writer = record {
  current = reset;
  window = reset;
  hourly = reset;
  half_day = reset;
  day = reset;
  i = log_interval_secs;
  exported = [];
  lines = [];
  hourly_lines = [];
  half_day_lines = [];
  day_lines = [];
}

-- The writer after events, the last one first.
abbrev pub run : (fl : Float64) → List (Event fl) → Writer
run fl [] = new_writer
run fl (e ∷ es) = happen fl e (run fl es)
