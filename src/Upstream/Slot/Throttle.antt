-- ===== src/Upstream/Slot/Throttle.antt =====
-- The error rate of a slot, and how it is throttled (pkg/upstream/slot.go, the thresholds from
-- pkg/upstream/monitor.go).
use adv_cache.Prelude.{
  ℕ, ◌+◌, ◌-◌, ◌*◌, Bool, not, ◌&&◌, Option, none, some, List, [], ◌∷◌, ◌++◌, ltb, leb, ◌==◌,
  if◌then◌else◌,
}
use adv_cache.Prelude.Int.{ℤ, pos, negsuc, is_negative}
use adv_cache.Upstream.Float.{Float64}
use adv_cache.Upstream.Slot.{Slot, max_throttles, default_throttle_step}

module _ (fl : Float64) where
  unfoldable pub err_rate : Slot → fl.F
  err_rate s =
      if s.total == 0
      then fl.of_int (pos 0)
      else fl.div (fl.of_int (pos s.errors)) (fl.of_int (pos s.total))

  abbrev pub err_min_rate_threshold : fl.F
  err_min_rate_threshold = fl.decimal 1 10

  abbrev pub err_max_rate_threshold : fl.F
  err_max_rate_threshold = fl.decimal 7 10

  abbrev pub should_throttle : Slot → Bool
  should_throttle s = ltb s.throttles max_throttles && fl.lt err_min_rate_threshold (err_rate s)

  abbrev pub should_unthrottle : Slot → Bool
  should_unthrottle s =
      not (s.total == 0) && (ltb 0 s.throttles && fl.lt (err_rate s) err_min_rate_threshold)

  -- `rt` of `throttle`, for a number of throttles
  unfoldable pub throttled_rate : ℤ → ℕ → ℤ
  throttled_rate origin n =
      let rate = fl.of_int origin in
      let step = fl.div rate (fl.of_int (pos 100)) in
      let rt = fl.trunc (fl.sub rate (fl.mul step (fl.of_int (pos (default_throttle_step * n))))) in
      if is_negative rt then pos 1 else rt

  unfoldable pub unthrottled_rate : ℤ → ℤ → ℤ
  unthrottled_rate origin limit =
      let rate = fl.of_int origin in
      let step = fl.div rate (fl.of_int (pos 100)) in
      let rt = fl.add (fl.of_int limit) (fl.mul step (fl.of_int (pos default_throttle_step))) in
      fl.trunc (if fl.lt rate rt then rate else rt)

  -- The number of throttles that `newThrottles` and the counter give; `none` is the panic.
  abbrev pub throttles_num : List ℤ → ℕ → Option ℕ
  throttles_num [] old = some (old + 1)
  throttles_num (pos n ∷ []) old = if ltb max_throttles n then none else some n
  throttles_num (negsuc n ∷ []) old = none
  throttles_num (_ ∷ _ ∷ _) old = none

  unfoldable pub set_throttles : ℕ → Slot → Slot
  set_throttles n s =
      if leb n max_throttles
      then record s {
        throttles = n;
        suc_probes = 0;
        err_probes = 0;
        total = 0;
        errors = 0;
        renewals = s.renewals ++ throttled_rate s.origin_rate n ∷ [];
        metrics = record s.metrics { throttled = s.metrics.throttled + 1; throttle_level = n };
      }
      else s

  unfoldable pub throttle : List ℤ → Slot → Option Slot
  throttle new_throttles s = elim (throttles_num new_throttles s.throttles) [
    | none ↦ none
    | some n ↦ some (set_throttles n s)
  ]

  unfoldable pub unthrottle : Slot → Slot
  unthrottle s =
      if ltb 0 s.throttles
      then record s {
        throttles = s.throttles - 1;
        suc_probes = 0;
        err_probes = 0;
        total = 0;
        errors = 0;
        renewals = s.renewals ++ unthrottled_rate s.origin_rate s.limit ∷ [];
        metrics = record s.metrics {
          unthrottled = s.metrics.unthrottled + 1;
          throttle_level = s.throttles - 1;
        };
      }
      else s
