-- ===== src/Model/Compare/Windows.antt =====
-- How little of two long payloads the comparison reads (pkg/bytes/cmp.go).
use adv_cache.Prelude.{ℕ, ◌-◌, ◌/◌, ◌≤◌, ◌≡◌, true, arith, length, take, drop, ◌==◌}
use adv_cache.Model.Binary.{Bytes}
use adv_cache.Model.Compare.{sample_hash, is_bytes_are_equals}

==-refl : (a : ℕ) → (a == a) ≡ true
==-refl a = ground arith

-- Two payloads of one length, of 32 bytes or more, count as equal when they agree on the first eight
-- bytes, on eight bytes from the middle on, and on the last eight, whatever else they hold.
pub is_bytes_are_equals-windows :
    (xxh3 : Bytes → ℕ) (a b : Bytes)
    → length a ≡ length b
    → 32 ≤ length a
    → take 8 a ≡ take 8 b
    → take 8 (drop (length a / 2) a) ≡ take 8 (drop (length b / 2) b)
    → drop (length a - 8) a ≡ drop (length b - 8) b
    → is_bytes_are_equals xxh3 a b ≡ true
unfolding is_bytes_are_equals sample_hash
is_bytes_are_equals-windows xxh3 a b l long h m t = ground arith
