-- ===== src/Dump/Versions.antt =====
-- The directories of the versions of a dump (pkg/storage/lru/dumper.go: nextVersionDir,
-- rotateVersionDirs, getLatestVersionDir). What Glob finds is an argument, and so is the order in which
-- sort.Slice leaves it; fmt.Sscanf with "v%d" is a parameter. Modification times are numbers.
pub mod Fresh
pub mod Rotated
use adv_cache.Prelude.{
  ℕ, ◌+◌, Bool, false, Option, none, some, List, [], ◌∷◌, ◌==◌, length, leb, ltb, drop,
  if◌then◌else◌,
}
use adv_cache.Prelude.Int.{ℤ, pos, negsuc}
use adv_cache.Model.Binary.{Bytes}

pub record VersionDir : Type 0 where
  pub name : Bytes
  pub mod_time : ℕ

-- HasPrefix of "v"
abbrev pub has_v : Bytes → Bool
has_v [] = false
has_v (b ∷ bs) = b == b'v'

-- `if v > maxV`
abbrev pub raise : ℕ → ℤ → ℕ
raise max_v (pos v) = if ltb max_v v then v else max_v
raise max_v (negsuc v) = max_v

-- The loop over the names; Sscanf leaves 0 where it fails.
unfoldable pub max_version : (Bytes → ℤ) → List Bytes → ℕ → ℕ
max_version scan [] max_v = max_v
max_version scan (name ∷ names) max_v =
    max_version scan names (if has_v name then raise max_v (scan name) else max_v)

unfoldable pub next_version_dir : (Bytes → ℤ) → List Bytes → ℕ
unfolding max_version
next_version_dir scan names = max_version scan names 0 + 1

-- The directories that are removed, given those found and the same ones sorted.
unfoldable pub rotate_version_dirs : ℕ → List VersionDir → List VersionDir → List VersionDir
rotate_version_dirs max entries sorted = if leb (length entries) max then [] else drop max sorted

-- "" is `none`.
unfoldable pub get_latest_version_dir : List VersionDir → Option VersionDir
get_latest_version_dir [] = none
get_latest_version_dir (d ∷ sorted) = some d
