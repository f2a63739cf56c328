-- ===== src/Dump/Versions/Fresh.antt =====
-- The number of a new version (pkg/storage/lru/dumper.go).
use adv_cache.Prelude.{
  ℕ, ◌+◌, ◌≡◌, ◌≢◌, ◌≤◌, ◌<◌, ap, ◌∙◌, true, Bool-cases, if◌then◌else◌, inl, inr, List, [], ◌∷◌,
  arith, All,
}
use adv_cache.Prelude.Int.{ℤ, pos, negsuc}
use adv_cache.Model.Binary.{Bytes}
use adv_cache.Dump.Versions.{has_v, raise, max_version, next_version_dir}

module _ (scan : Bytes → ℤ) where
  -- The number of a name that has one is at most `m`.
  abbrev pub AtMost : ℕ → Bytes → Type 0
  AtMost m name = has_v name ≡ true → (v : ℕ) → scan name ≡ pos v → v ≤ m

  raise_grows : (m : ℕ) (v : ℤ) → m ≤ raise m v
  raise_grows m (pos v) = ground arith
  raise_grows m (negsuc v) = omega arith

  raise_reaches : (m v : ℕ) → v ≤ raise m (pos v)
  raise_reaches m v = ground arith

  abbrev step : Bytes → ℕ → ℕ
  step name m = if has_v name then raise m (scan name) else m

  step_grows : (name : Bytes) (m : ℕ) → m ≤ step name m
  step_grows name m = elim (Bool-cases (has_v name)) [
    | inl v ↦ rw v (raise_grows m (scan name))
    | inr other ↦ rw other (omega arith)
  ]

  step-AtMost : (name : Bytes) (m : ℕ) → AtMost (step name m) name
  step-AtMost name m h v e = rw (h, e) (raise_reaches m v)

  max_version-grows : (names : List Bytes) (m : ℕ) → m ≤ max_version scan names m
  unfolding max_version
  max_version-grows [] m = omega arith
  max_version-grows (name ∷ names) m =
      omega (arith, step_grows name m, max_version-grows names (step name m))

  max_version-AtMost : (names : List Bytes) (m : ℕ) → All (AtMost (max_version scan names m)) names
  unfolding max_version
  max_version-AtMost [] m = tt
  max_version-AtMost (name ∷ names) m = (
    λ h v e. omega (arith, step-AtMost name m h v e, max_version-grows names (step name m)),
    max_version-AtMost names (step name m),
  )

  module _ (print : ℕ → Bytes) (back : (n : ℕ) → scan (b'v' ∷ print n) ≡ pos n) where
    -- The name is not that of the version `n`, and its number is less.
    abbrev pub IsOlder : ℕ → Bytes → Type 0
    IsOlder n name =
        (name ≢ b'v' ∷ print n) × (has_v name ≡ true → (v : ℕ) → scan name ≡ pos v → v < n)

    All-IsOlder : (m : ℕ) (names : List Bytes) → All (AtMost m) names → All (IsOlder (m + 1)) names
    All-IsOlder m [] ws = tt
    All-IsOlder m (name ∷ names) (w, ws) = (
      (
        λ q. omega (arith, w (ap has_v q) (m + 1) (ap scan q ∙ back (m + 1))),
        λ h v e. omega (arith, w h v e),
      ),
      All-IsOlder m names ws,
    )

    -- If Sscanf reads back the number that Sprintf printed, then the directory of a new version has
    -- none of the names that Glob found, and its number is greater than each of theirs.
    pub next_version_dir-IsOlder :
        (names : List Bytes) → All (IsOlder (next_version_dir scan names)) names
    unfolding next_version_dir
    next_version_dir-IsOlder names =
        All-IsOlder (max_version scan names 0) names (max_version-AtMost names 0)
