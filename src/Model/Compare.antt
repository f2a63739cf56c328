-- ===== src/Model/Compare.antt =====
-- When two payloads count as the same (pkg/bytes/cmp.go, pkg/model/payload.go). The hash xxh3 is a
-- parameter.
pub mod Windows
use Prim.Native.Nat.{bit_xor}
use adv_cache.Prelude.{
  ℕ, ◌+◌, ◌-◌, ◌/◌, Bool, true, false, not, Option, none, some, List, ltb, ◌==◌, if◌then◌else◌,
  length, take, drop,
}
use adv_cache.Model.Binary.{Bytes}
use adv_cache.Model.Entry.{Entry, bytes_equal}

module _ (xxh3 : Bytes → ℕ) where
  -- a[:8], a[len(a)/2 : len(a)/2+8] and a[len(a)-8:], hashed and joined by xor
  unfoldable pub sample_hash : Bytes → ℕ
  sample_hash a =
      bit_xor (bit_xor (xxh3 (take 8 a)) (xxh3 (take 8 (drop (length a / 2) a))))
        (xxh3 (drop (length a - 8) a))

  unfoldable pub is_bytes_are_equals : Bytes → Bytes → Bool
  is_bytes_are_equals a b =
      if not (length a == length b)
      then false
      else if ltb (length a) 32
      then bytes_equal a b
      else sample_hash a == sample_hash b

  abbrev same_payload : Option Bytes → Option Bytes → Bool
  same_payload none none = true
  same_payload none (some b) = false
  same_payload (some a) none = false
  same_payload (some a) (some b) = is_bytes_are_equals a b

  unfoldable pub is_same_payload : Entry → Entry → Bool
  is_same_payload e another = same_payload e.payload another.payload
