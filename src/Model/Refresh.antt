-- ===== src/Model/Refresh.antt =====
-- When an entry is due for a refresh (pkg/model/refresh.go), with the settings of the configuration
-- and of a rule (pkg/config/config.go: Refresh, RuleRefresh). Durations and times are int64
-- nanoseconds. The number that rand.Float64 draws and the clock are arguments.
use adv_cache.Prelude.{ℕ, Bool, false, not, Option, none, some, if◌then◌else◌}
use adv_cache.Prelude.Int.{ℤ, pos, sub_ℕ, lt_int}
use adv_cache.Upstream.Float.{Float64}
use adv_cache.Model.Entry.{Entry}

-- cfg.Refresh()
pub record Settings (fl : Float64) : Type 0 where
  pub ttl : ℤ
  pub beta : fl.F
  pub coefficient : fl.F

pub record RuleRefresh (fl : Float64) : Type 0 where
  pub enabled : Bool
  pub ttl : ℤ
  pub beta : fl.F
  pub coefficient : fl.F

module _ (fl : Float64) where
  -- The first value, if it is positive.
  abbrev positive_or : fl.F → fl.F → fl.F
  positive_or a b = if fl.lt (fl.of_int (pos 0)) a then a else b

  -- The settings of the rule go before those of the configuration where they are positive; a rule
  -- may switch the refresh off.
  unfoldable pub settings_for : Settings fl → Option (RuleRefresh fl) → Option (Settings fl)
  settings_for s none = some s
  settings_for s (some r) =
      if not r.enabled
      then none
      else some (record {
        ttl = if lt_int (pos 0) r.ttl then r.ttl else s.ttl;
        beta = positive_or r.beta s.beta;
        coefficient = positive_or r.coefficient s.coefficient;
      })

  abbrev pub min_stale : Settings fl → ℤ
  min_stale s = fl.trunc (fl.mul (fl.of_int s.ttl) s.coefficient)

  abbrev pub elapsed : ℕ → Entry → ℤ
  elapsed now e = sub_ℕ now e.refreshed_at

  -- x = elapsed / ttl, held in [0, 1], and 1 - exp(-beta * x)
  unfoldable pub prob : Settings fl → ℤ → fl.F
  prob s age =
      let zero_f = fl.of_int (pos 0) in
      let one_f = fl.of_int (pos 1) in
      let x = fl.div (fl.of_int age) (fl.of_int s.ttl) in
      let y = if fl.lt x zero_f then zero_f else if fl.lt one_f x then one_f else x in
      fl.sub one_f (fl.exp (fl.mul (fl.neg s.beta) y))

  unfoldable pub is_due : fl.F → ℕ → Option (Settings fl) → Entry → Bool
  is_due drawn now none e = false
  is_due drawn now (some s) e =
      if lt_int (elapsed now e) (min_stale s) then false else fl.lt drawn (prob s (elapsed now e))

  unfoldable pub should_be_refreshed :
      fl.F → ℕ → Settings fl → Option (RuleRefresh fl) → Entry → Bool
  unfolding settings_for is_due
  should_be_refreshed drawn now s r e = is_due drawn now (settings_for s r) e
