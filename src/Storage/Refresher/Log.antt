-- ===== src/Storage/Refresher/Log.antt =====
-- The log of the refresher (pkg/storage/lru/refresher.go: runLogger), over the counters that its
-- workers share. Each line that is logged is kept, the latest first. The counters are numbers.
pub mod Sums
use adv_cache.Prelude.{ℕ, ◌+◌, List, [], ◌∷◌}

-- counters, and the four global ones
pub record Counters : Type 0 where
  pub success : ℕ
  pub errors : ℕ
  pub scans : ℕ
  pub found : ℕ

abbrev pub reset : Counters
reset = record { success = 0; errors = 0; scans = 0; found = 0 }

unfoldable pub add : Counters → Counters → Counters
add c d = record {
  success = c.success + d.success;
  errors = c.errors + d.errors;
  scans = c.scans + d.scans;
  found = c.found + d.found;
}

pub record Log : Type 0 where
  pub global : Counters
  pub hourly : Counters
  pub half_day : Counters
  pub day : Counters
  pub lines : List Counters
  pub hourly_lines : List Counters
  pub half_day_lines : List Counters
  pub day_lines : List Counters

-- What happens: a worker counts, or a clock ticks.
pub data Event : Type 0 where
  counted : Counters → Event
  each_5_secs each_hour each_12_hours each_24_hours : Event

-- Swap(0) of each counter: what comes between two of them is in the next line.
unfoldable pub log_5_secs : Log → Log
unfolding add
log_5_secs l = record l {
  global = reset;
  hourly = add l.hourly l.global;
  half_day = add l.half_day l.global;
  day = add l.day l.global;
  lines = l.global ∷ l.lines;
}

unfoldable pub happen : Event → Log → Log
unfolding add log_5_secs
happen (counted c) l = record l { global = add l.global c }
happen each_5_secs l = log_5_secs l
happen each_hour l = record l { hourly_lines = l.hourly ∷ l.hourly_lines; hourly = reset }
happen each_12_hours l = record l {
  half_day_lines = l.half_day ∷ l.half_day_lines;
  half_day = reset;
}
happen each_24_hours l = record l { day_lines = l.day ∷ l.day_lines; day = reset }

abbrev pub new_log : Log
new_log = record {
  global = reset;
  hourly = reset;
  half_day = reset;
  day = reset;
  lines = [];
  hourly_lines = [];
  half_day_lines = [];
  day_lines = [];
}

-- The log after events, the last one first.
abbrev pub run : List Event → Log
run [] = new_log
run (e ∷ es) = happen e (run es)
