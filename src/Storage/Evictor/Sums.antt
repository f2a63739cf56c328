-- ===== src/Storage/Evictor/Sums.antt =====
-- What Remove does to the sums over the shards (pkg/storage/map/map.go).
use adv_cache.Prelude.{
  ℕ, zero, suc, ◌+◌, ◌^◌, ◌≤◌, ◌<◌, ◌≡◌, refl, ap, true, false, Bool-cases, inl, inr, some, arith,
  length, ◌==◌, if◌then◌else◌,
}
use adv_cache.Prelude.Words.{add64, sub64}
use adv_cache.Shard
use adv_cache.Shard.{Shard, map_shard_key, total_shards, real_mem}
use adv_cache.Shard.Counters.{sum_weight, sum_weight-delete, Counted, remove-Counted}
use adv_cache.Shard.Totals.{total_length}
use adv_cache.Storage.{Storage, weights, map_get, remove}

-- The sums with the shard `i` written over.
module _ (i : ℕ) (h : Shard) (shards : ℕ → Shard) where
  abbrev written : ℕ → Shard
  written j = if i == j then h else shards j

  real_mem-below : (n : ℕ) → n ≤ i → real_mem n written ≡ real_mem n shards
  unfolding real_mem
  real_mem-below zero le = refl
  real_mem-below (suc n) le =
      let off : (i == n) ≡ false = ground arith in
      rw off (ap (λ (m : ℕ). add64 m (shards n).mem) (real_mem-below n (omega arith)))

  real_mem-written :
      (n freed : ℕ)
      → h.mem ≡ sub64 (shards i).mem freed
      → i < n
      → add64 (real_mem n written) freed ≡ real_mem n shards
  unfolding real_mem add64 sub64
  real_mem-written zero freed e lt = absurd (omega arith)
  real_mem-written (suc n) freed e lt = elim (Bool-cases (i == n)) [
    | inl here ↦
        let q : i ≡ n = ground arith in
        rw (here, real_mem-below n (omega arith), e, q) (omega arith)
    | inr there ↦
        let ih = real_mem-written n freed e (ground arith) in rw (there) (omega (arith, ih))
  ]

  total_length-below : (n : ℕ) → n ≤ i → total_length n written ≡ total_length n shards
  total_length-below zero le = refl
  total_length-below (suc n) le =
      let off : (i == n) ≡ false = ground arith in rw (off, total_length-below n (omega arith)) refl

  total_length-written :
      (n : ℕ)
      → length h.items + 1 ≡ length (shards i).items
      → i < n
      → total_length n written + 1 ≡ total_length n shards
  total_length-written zero e lt = absurd (omega arith)
  total_length-written (suc n) e lt = elim (Bool-cases (i == n)) [
    | inl here ↦
        let q : i ≡ n = ground arith in
        rw (here, total_length-below n (omega arith))
          (omega (arith, e, ap (λ (k : ℕ). length (shards k).items) q))
    | inr there ↦ let ih = total_length-written n e (ground arith) in rw there (omega (arith, ih))
  ]

abbrev Removed : (w : ℕ → ℕ) (key p : ℕ) (h : Shard) → Type 0
Removed w key p h =
    let (t, freed, hit) = Shard.remove w key h in
    (hit ≡ true) × (t.mem ≡ sub64 h.mem freed) × (length t.items + 1 ≡ length h.items)

remove_shard-Removed :
    (w : ℕ → ℕ) (key p : ℕ) (h : Shard) → Shard.get key h ≡ some p → Removed w key p h
unfolding Shard.remove Shard.remove_found Shard.get
remove_shard-Removed w key p h found =
    let (_, lens) = sum_weight-delete w key p h.items found in
    rw (found, Shard.remove_found) (refl, refl, lens)

module _ (p : ℕ) (s : Storage) (found : map_get (s.entries p).key s ≡ some p) where
  remove-sums_of :
      (n : ℕ)
      → map_shard_key (s.entries p).key < n
      → ((remove p s).2 ≡ true)
        × (add64 (real_mem n (remove p s).0.shards) (remove p s).1 ≡ real_mem n s.shards)
        × (total_length n (remove p s).0.shards + 1 ≡ total_length n s.shards)
  unfolding remove map_get
  remove-sums_of n lt =
      let key = (s.entries p).key in
      let i = map_shard_key key in
      let r = remove_shard-Removed (weights s) key p (s.shards i) found in
      let (hit, m, l) = r in
      (
        hit,
        real_mem-written i (Shard.remove (weights s) key (s.shards i)).0 s.shards n
            (Shard.remove (weights s) key (s.shards i)).1 m lt,
        total_length-written i (Shard.remove (weights s) key (s.shards i)).0 s.shards n l lt,
      )

map_shard_key-bound : (key : ℕ) → map_shard_key key < total_shards
unfolding map_shard_key
map_shard_key-bound key = omega arith

-- The items of all shards.
unfoldable pub item_count : Storage → ℕ
item_count s = total_length total_shards s.shards

-- Remove of an entry of the map finds it: the sum of the memory counters falls by what it freed,
-- and there is one item less.
pub remove-sums :
    (p : ℕ) (s : Storage)
    → map_get (s.entries p).key s ≡ some p
    → ((remove p s).2 ≡ true)
      × (add64 (real_mem total_shards (remove p s).0.shards) (remove p s).1
          ≡ real_mem total_shards s.shards)
      × (item_count (remove p s).0 + 1 ≡ item_count s)
unfolding item_count
remove-sums p s found =
    remove-sums_of p s found total_shards (map_shard_key-bound (s.entries p).key)

-- The counters of each shard are right, and no sum of weights reaches the sign bit.
pub record Sound (s : Storage) : Type 0 where
  pub counted : (i : ℕ) → Counted (weights s) (s.shards i)
  pub small : (i : ℕ) → sum_weight (weights s) (s.shards i).items < 2 ^ 63

sum_weight-remove_shard :
    (w : ℕ → ℕ) (key p : ℕ) (h : Shard)
    → Shard.get key h ≡ some p
    → sum_weight w (Shard.remove w key h).0.items ≤ sum_weight w h.items
unfolding Shard.remove Shard.get Shard.remove_found
sum_weight-remove_shard w key p h found =
    let (sums, _) = sum_weight-delete w key p h.items found in
    rw (found, Shard.remove_found) (omega (arith, sums))

pub remove-Sound :
    (p : ℕ) (s : Storage) → map_get (s.entries p).key s ≡ some p → Sound s → Sound (remove p s).0
unfolding remove map_get
remove-Sound p s found h =
    let key = (s.entries p).key in
    let k = map_shard_key key in
    record {
      counted = λ i. elim (Bool-cases (k == i)) [
        | inl here ↦ rw here (remove-Counted (weights s) key (s.shards k) (h.counted k))
        | inr there ↦ rw there (h.counted i)
      ];
      small = λ i. elim (Bool-cases (k == i)) [
        | inl here ↦
            let le = sum_weight-remove_shard (weights s) key p (s.shards k) found in
            rw here (omega (arith, le, h.small k))
        | inr there ↦ rw there (h.small i)
      ];
    }
