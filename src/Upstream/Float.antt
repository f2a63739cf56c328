-- ===== src/Upstream/Float.antt =====
-- float64 as the language defines it: a type with operations, about which nothing is assumed here.
-- A theorem that needs a law of the comparisons takes it as a hypothesis.
use adv_cache.Prelude.{ℕ, Bool}
use adv_cache.Prelude.Int.{ℤ}

pub record Float64 : Type 1 where
  pub F : Type 0
  -- float64(i), and a constant written as a decimal fraction a / b
  pub of_int : ℤ → F
  pub decimal : ℕ → ℕ → F
  pub add : F → F → F
  pub sub : F → F → F
  pub mul : F → F → F
  pub div : F → F → F
  -- -a, and math.Exp
  pub neg : F → F
  pub exp : F → F
  -- a < b and a <= b
  pub lt : F → F → Bool
  pub le : F → F → Bool
  -- int(f)
  pub trunc : F → ℤ
