-- ===== src/Lfu.antt =====
-- Admission by frequency (pkg/storage/lfu): the count-min sketch, the doorkeeper, TinyLFU. The seeds
-- are the values that rand.Uint64 gave. The words of the doorkeeper are read bit by bit: position
-- `h` is bit h % 64 of word h / 64.
pub mod Admission
use Prim.Native.Nat.{bit_xor}
use adv_cache.Prelude.{
  ℕ, zero, suc, ◌+◌, ◌-◌, ◌*◌, ◌/◌, ◌%◌, ◌^◌, Bool, true, false, ◌&&◌, not, ltb, leb, ◌==◌,
  if◌then◌else◌,
}
use adv_cache.Prelude.Words.{u64_mod, u32_mod}

abbrev pub sketch_depth : ℕ
sketch_depth = 4

abbrev pub sketch_width : ℕ
sketch_width = 131072

abbrev pub doorkeeper_capacity : ℕ
doorkeeper_capacity = 1048576

-- x ^= x >> 33
abbrev shift_xor : ℕ → ℕ
shift_xor x = bit_xor x (x / 2 ^ 33)

unfoldable pub hash64 : ℕ → ℕ → ℕ
hash64 seed key =
    let x1 = shift_xor (bit_xor key seed) in
    let x2 = shift_xor (x1 * 0xff51afd7ed558ccd % u64_mod) in
    shift_xor (x2 * 0xc4ceb9fe1a85ec53 % u64_mod)

pub record CountMinSketch : Type 0 where
  pub table : ℕ → ℕ → ℕ
  pub seeds : ℕ → ℕ

abbrev pub index : CountMinSketch → ℕ → ℕ → ℕ
index c i key = hash64 (c.seeds i) key % sketch_width

unfoldable pub new_count_min_sketch : (ℕ → ℕ) → CountMinSketch
new_count_min_sketch seeds = record { table = λ _ _. 0; seeds = seeds }

-- The row `i` adds one to a uint32 in the rows below `sketch_depth`.
abbrev pub bump : CountMinSketch → ℕ → ℕ → ℕ → ℕ
bump c key i j =
    if ltb i sketch_depth && j == index c i key then (c.table i j + 1) % u32_mod else c.table i j

unfoldable pub increment_sketch : ℕ → CountMinSketch → CountMinSketch
increment_sketch key c = record c { table = bump c key }

-- The loop over the rows from `i` on, `n` of them, with the least value so far.
unfoldable pub least : ℕ → ℕ → ℕ → CountMinSketch → ℕ → ℕ
least zero i mins c key = mins
least (suc n) i mins c key =
    let val = c.table i (index c i key) in
    least n (suc i) (if ltb val mins then val else mins) c key

unfoldable pub estimate_sketch : CountMinSketch → ℕ → ℕ
estimate_sketch c key = least sketch_depth 0 (u32_mod - 1) c key

pub record Doorkeeper : Type 0 where
  pub bits : ℕ → Bool
  pub seed0 : ℕ
  pub seed1 : ℕ

unfoldable pub new_doorkeeper : ℕ → ℕ → Doorkeeper
new_doorkeeper seed0 seed1 = record { bits = λ _. false; seed0 = seed0; seed1 = seed1 }

-- hash64(seed, key) & mask
abbrev place : ℕ → ℕ → ℕ
place seed key = hash64 seed key % doorkeeper_capacity

unfoldable pub allow : ℕ → Doorkeeper → Doorkeeper × Bool
allow key d =
    let h1 = place d.seed0 key in
    let h2 = place d.seed1 key in
    if d.bits h1 && d.bits h2 then (d, true) else (
      record d { bits = λ h. if h == h1 then true else if h == h2 then true else d.bits h },
      false,
    )

pub record TinyLfu : Type 0 where
  pub curr : CountMinSketch
  pub prev : CountMinSketch
  pub door : Doorkeeper

unfoldable pub increment : ℕ → TinyLfu → TinyLfu
increment key t = record t { curr = increment_sketch key t.curr; door = (allow key t.door).0 }

-- The sum of two uint32 wraps.
unfoldable pub estimate : TinyLfu → ℕ → ℕ
estimate t key = (estimate_sketch t.curr key + estimate_sketch t.prev key) % u32_mod / 2

unfoldable pub admit : ℕ → ℕ → TinyLfu → TinyLfu × Bool
admit new_key old_key t =
    let (door, known) = allow new_key t.door in
    let u = record t { door = door } in
    if not known then (u, true) else (u, leb (estimate u old_key) (estimate u new_key))

-- The seeds of the new sketch and of the new doorkeeper.
unfoldable pub rotate : (ℕ → ℕ) → ℕ → ℕ → TinyLfu → TinyLfu
unfolding new_count_min_sketch new_doorkeeper
rotate seeds seed0 seed1 t = record t {
  prev = t.curr;
  curr = new_count_min_sketch seeds;
  door = new_doorkeeper seed0 seed1;
}
