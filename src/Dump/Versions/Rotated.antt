-- ===== src/Dump/Versions/Rotated.antt =====
-- The versions that stay (pkg/storage/lru/dumper.go: rotateVersionDirs, getLatestVersionDir).
use adv_cache.Prelude.{
  ℕ, zero, suc, ◌≡◌, ◌≤◌, ◌<◌, refl, ap, Bool-cases, inl, inr, List, [], ◌∷◌, ◌++◌, length, arith,
  All, take, drop, leb, if◌then◌else◌,
}
use adv_cache.Dump.Versions.{VersionDir, rotate_version_dirs, get_latest_version_dir}

-- No later one is newer.
abbrev pub Newest : List VersionDir → Type 0
Newest [] = Unit
Newest (d ∷ ds) = All (λ e. e.mod_time ≤ d.mod_time) ds × Newest ds

take-drop : (n : ℕ) (ds : List VersionDir) → ds ≡ take n ds ++ drop n ds
take-drop zero ds = refl
take-drop (suc n) [] = refl
take-drop (suc n) (d ∷ ds) = ap (◌∷◌ d) (take-drop n ds)

length-take : (n : ℕ) (ds : List VersionDir) → n ≤ length ds → length (take n ds) ≡ n
length-take zero ds h = refl
length-take (suc n) [] h = absurd (omega arith)
length-take (suc n) (d ∷ ds) h = ap suc (length-take n ds (omega arith))

abbrev pub NoNewer : List VersionDir → VersionDir → Type 0
NoNewer kept r = All (λ k. r.mod_time ≤ k.mod_time) kept

NoNewer-nil : (ds : List VersionDir) → All (NoNewer []) ds
NoNewer-nil [] = tt
NoNewer-nil (d ∷ ds) = (tt, NoNewer-nil ds)

NoNewer-drop :
    (n : ℕ) (d : VersionDir) (kept ds : List VersionDir)
    → All (λ e. e.mod_time ≤ d.mod_time) ds
    → All (NoNewer kept) (drop n ds)
    → All (NoNewer (d ∷ kept)) (drop n ds)
NoNewer-drop zero d kept [] ws hs = tt
NoNewer-drop zero d kept (e ∷ ds) (w, ws) (h, hs) = ((w, h), NoNewer-drop zero d kept ds ws hs)
NoNewer-drop (suc n) d kept [] ws hs = tt
NoNewer-drop (suc n) d kept (e ∷ ds) (w, ws) hs = NoNewer-drop n d kept ds ws hs

append_nil : (ds : List VersionDir) → ds ≡ ds ++ []
append_nil [] = refl
append_nil (d ∷ ds) = ap (◌∷◌ d) (append_nil ds)

NoNewer-take : (n : ℕ) (ds : List VersionDir) → Newest ds → All (NoNewer (take n ds)) (drop n ds)
NoNewer-take zero ds w = NoNewer-nil ds
NoNewer-take (suc n) [] w = tt
NoNewer-take (suc n) (d ∷ ds) (h, w) = NoNewer-drop n d (take n ds) ds h (NoNewer-take n ds w)

get_latest-take :
    (n : ℕ) (ds : List VersionDir)
    → 0 < n
    → get_latest_version_dir (take n ds) ≡ get_latest_version_dir ds
unfolding get_latest_version_dir
get_latest-take zero ds h = absurd (omega arith)
get_latest-take (suc n) [] h = refl
get_latest-take (suc n) (d ∷ ds) h = refl

-- For a positive `max`, a rotation leaves `max` of the directories found, or all of them where there
-- are no more, among them the one that Load takes, and removes none that is newer than one it leaves.
pub rotate_version_dirs-NoNewer :
    (max : ℕ) (entries sorted : List VersionDir)
    → 0 < max
    → length sorted ≡ length entries
    → Newest sorted
    → let removed = rotate_version_dirs max entries sorted in
      (kept : List VersionDir) × (sorted ≡ kept ++ removed)
      × (length kept ≡ (if leb (length entries) max then length entries else max))
      × (get_latest_version_dir kept ≡ get_latest_version_dir sorted)
      × All (NoNewer kept) removed
unfolding rotate_version_dirs
rotate_version_dirs-NoNewer max entries sorted some_left len w =
    elim (Bool-cases (leb (length entries) max)) [
      | inl few ↦ rw few (sorted, append_nil sorted, len, refl, tt)
      | inr many ↦ rw many (
        take max sorted,
        take-drop max sorted,
        length-take max sorted (ground arith),
        get_latest-take max sorted some_left,
        NoNewer-take max sorted w,
      )
    ]
