-- ===== src/Tests/ErrorLogs.antt =====
-- The logger of the errors at a concrete run: two equal errors are counted and written as one line.
use adv_cache.Prelude.{◌≡◌, refl, true, false, [], ◌∷◌}
use adv_cache.Model.Binary.{Bytes}
use adv_cache.Api.Errors
use adv_cache.Api.Errors.{
  ErrorLog, count_up, log_error, count_error, swap_windows, write_lines, Reach, new_error_log,
}
use adv_cache.Api.Errors.Tally.{tally, accounted, Reach-accounted_texts}

abbrev text : Bytes
text = 1 ∷ 2 ∷ []

abbrev two_failed : ErrorLog
two_failed = log_error 4 text (log_error 4 text new_error_log)

abbrev two_counted : ErrorLog
two_counted = count_error text [] (count_error text (text ∷ []) two_failed)

abbrev line_written : ErrorLog
line_written = write_lines (record (swap_windows two_counted) { trigger = true })

line_written-Reach : Reach 4 false new_error_log line_written
unfolding log_error
line_written-Reach =
    Errors.next
      (Errors.next
        (Errors.next
          (Errors.next
            (Errors.next (Errors.next Errors.here (Errors.failed text new_error_log))
              (Errors.failed text (log_error 4 text new_error_log)))
            (Errors.counted text (text ∷ []) two_failed refl refl))
          (Errors.counted text [] (count_error text (text ∷ []) two_failed) refl refl))
        (Errors.ticked two_counted refl refl))
      (Errors.written (record (swap_windows two_counted) { trigger = true }) refl)

Reach-accounted_texts_example : tally text line_written.received ≡ accounted text line_written
Reach-accounted_texts_example = Reach-accounted_texts text 4 line_written line_written-Reach
