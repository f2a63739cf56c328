-- ===== src/Api/Metrics/Accounts.antt =====
-- The sums of the statistics (internal/cache/api/cache.go).
use adv_cache.Prelude.{ℕ, ◌+◌, ◌≡◌, refl, Bool, List, [], ◌∷◌, arith}
use adv_cache.Upstream.Float.{Float64}
use adv_cache.Api.Metrics.{
  Counters, add, swap, Long, log_long, Writer, is_quiet, log_window, second, each_hour,
  each_half_day, each_day, Event, happen, run,
}

abbrev pub total_of : List Counters → ℕ
total_of [] = 0
total_of (c ∷ cs) = c.total + total_of cs

abbrev pub total_of_long : List Long → ℕ
total_of_long [] = 0
total_of_long (l ∷ ls) = l.counters.total + total_of_long ls

-- Each exported request is in one line of each kind, or in the sums that wait for the next one.
pub record Accounted (w : Writer) : Type 0 where
  pub window : total_of w.lines + w.window.total ≡ total_of w.exported
  pub hourly : total_of_long w.hourly_lines + w.hourly.total ≡ total_of w.exported
  pub half_day : total_of_long w.half_day_lines + w.half_day.total ≡ total_of w.exported
  pub day : total_of_long w.day_lines + w.day.total ≡ total_of w.exported

log_long-total :
    (c : Counters) (ls : List Long) → total_of_long (log_long c ls) ≡ total_of_long ls + c.total
unfolding log_long
log_long-total c ls = ground arith

module _ (fl : Float64) where
  log_window-Accounted :
      (quiet : Bool) (w : Writer) → Accounted w → Accounted (log_window fl quiet w)
  unfolding log_window
  log_window-Accounted quiet w a = ground arith

  second-Accounted :
      (seconds : fl.F) (between : Counters) (w : Writer)
      → Accounted w
      → Accounted (second fl seconds between w)
  unfolding second swap add
  second-Accounted seconds between w a =
      log_window-Accounted (is_quiet fl seconds w.current (add w.window w.current)) _ (record {
        window = omega (arith, a.window);
        hourly = omega (arith, a.hourly);
        half_day = omega (arith, a.half_day);
        day = omega (arith, a.day);
      })

  happen-Accounted : (e : Event fl) (w : Writer) → Accounted w → Accounted (happen fl e w)
  unfolding happen each_hour each_half_day each_day
  happen-Accounted (Event.request c) w a = record {
    window = a.window;
    hourly = a.hourly;
    half_day = a.half_day;
    day = a.day;
  }
  happen-Accounted (Event.ticked seconds between) w a = second-Accounted seconds between w a
  happen-Accounted Event.hour w a = record {
    window = a.window;
    hourly = omega (arith, a.hourly, log_long-total w.hourly w.hourly_lines);
    half_day = a.half_day;
    day = a.day;
  }
  happen-Accounted Event.half w a = record {
    window = a.window;
    hourly = a.hourly;
    half_day = omega (arith, a.half_day, log_long-total w.half_day w.half_day_lines);
    day = a.day;
  }
  happen-Accounted Event.whole w a = record {
    window = a.window;
    hourly = a.hourly;
    half_day = a.half_day;
    day = omega (arith, a.day, log_long-total w.day w.day_lines);
  }

  -- Whatever requests and ticks of the four clocks come, in any order: each request that was exported
  -- to the metrics is counted in one line of five seconds and in one line of each long period, or
  -- waits in the sums for the next line of that kind.
  pub run-Accounted : (es : List (Event fl)) → Accounted (run fl es)
  run-Accounted [] = record { window = refl; hourly = refl; half_day = refl; day = refl }
  run-Accounted (e ∷ es) = happen-Accounted e (run fl es) (run-Accounted es)

  -- The requests that come, and those of them between the Load and the Store of their counter.
  abbrev pub arrived : List (Event fl) → ℕ
  arrived [] = 0
  arrived (Event.request c ∷ es) = c.total + arrived es
  arrived (Event.ticked seconds between ∷ es) = between.total + arrived es
  arrived (_ ∷ es) = arrived es

  abbrev pub lost : List (Event fl) → ℕ
  lost (Event.ticked seconds between ∷ es) = between.total + lost es
  lost (_ ∷ es) = lost es
  lost [] = 0

  happen-total :
      (e : Event fl) (es : List (Event fl)) (w : Writer)
      → total_of w.exported + w.current.total + lost es ≡ arrived es
      → total_of (happen fl e w).exported + (happen fl e w).current.total + lost (e ∷ es)
        ≡ arrived (e ∷ es)
  unfolding happen second swap add log_window each_hour each_half_day each_day
  happen-total (Event.request c) es w h = omega arith
  happen-total (Event.ticked seconds between) es w h = ground arith
  happen-total Event.hour es w h = h
  happen-total Event.half es w h = h
  happen-total Event.whole es w h = h

  -- The requests that come are those exported, those that wait for the next export, and those that
  -- came between a Load and its Store, which are in neither.
  pub run-total :
      (es : List (Event fl))
      → total_of (run fl es).exported + (run fl es).current.total + lost es ≡ arrived es
  run-total [] = refl
  run-total (e ∷ es) = happen-total e es (run fl es) (run-total es)
