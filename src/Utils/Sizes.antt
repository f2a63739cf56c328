-- ===== src/Utils/Sizes.antt =====
-- How exact a printed memory size is (pkg/utils/formater.go).
use adv_cache.Prelude.{ℕ, ◌+◌, ◌*◌, ◌/◌, ◌%◌, ◌≡◌, ◌<◌, ◌≤◌, arith}
use adv_cache.Prelude.Int.{pos}
use adv_cache.Utils.{Amount, two, bytes, kb, mb, gb, tb, fmt_mem}

-- The figures are the number in whole second units, of which the second counts less than 1024; or
-- they are the number itself.
abbrev pub IsNear : ℕ → Amount → Type 0
IsNear n (two a big b small) =
    (a * big + b * small ≤ n) × (n < a * big + (b + 1) * small) × (1 ≤ a) × (b < 1024)
IsNear n (bytes v) = (v ≡ pos n) × (n < 1024)

tb-IsNear : (n : ℕ) → tb ≤ n → IsNear n (two (n / tb) tb (n % tb / gb) gb)
tb-IsNear n h = (omega arith, omega arith, omega arith, omega arith)

gb-IsNear : (n : ℕ) → gb ≤ n → IsNear n (two (n / gb) gb (n % gb / mb) mb)
gb-IsNear n h = (omega arith, omega arith, omega arith, omega arith)

mb-IsNear : (n : ℕ) → mb ≤ n → IsNear n (two (n / mb) mb (n % mb / kb) kb)
mb-IsNear n h = (omega arith, omega arith, omega arith, omega arith)

kb-IsNear : (n : ℕ) → kb ≤ n → IsNear n (two (n / kb) kb (n % kb) 1)
kb-IsNear n h = (omega arith, omega arith, omega arith, omega arith)

-- What FmtMem prints for a number that is not negative is that number rounded down to the second
-- figure's unit, and the second figure is below 1024; below 1024 it is exact.
pub fmt_mem-IsNear : (n : ℕ) → IsNear n (fmt_mem (pos n))
unfolding fmt_mem
fmt_mem-IsNear n = ground (arith, tb-IsNear n, gb-IsNear n, mb-IsNear n, kb-IsNear n)
