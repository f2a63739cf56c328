-- ===== src/Utils.antt =====
-- The memory sizes that the logs print (pkg/utils/formater.go), as figures and units.
pub mod Sizes
use adv_cache.Prelude.{ℕ, ◌*◌, ◌/◌, ◌%◌, leb, if◌then◌else◌}
use adv_cache.Prelude.Int.{ℤ, pos, negsuc}

-- Two figures with the sizes of their units, or the bytes.
pub data Amount : Type 0 where
  two : ℕ → ℕ → ℕ → ℕ → Amount
  bytes : ℤ → Amount

abbrev pub kb : ℕ
kb = 1024

abbrev pub mb : ℕ
mb = kb * 1024

abbrev pub gb : ℕ
gb = mb * 1024

abbrev pub tb : ℕ
tb = gb * 1024

-- FmtMem
unfoldable pub fmt_mem : ℤ → Amount
fmt_mem (negsuc n) = bytes (negsuc n)
fmt_mem (pos n) =
    if leb tb n
    then two (n / tb) tb (n % tb / gb) gb
    else if leb gb n
    then two (n / gb) gb (n % gb / mb) mb
    else if leb mb n
    then two (n / mb) mb (n % mb / kb) kb
    else if leb kb n
    then two (n / kb) kb (n % kb) 1
    else bytes (pos n)
