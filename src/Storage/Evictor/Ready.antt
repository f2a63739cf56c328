-- ===== src/Storage/Evictor/Ready.antt =====
-- The states in which the evictor's run goes on to its end (pkg/storage/lru/evictor.go).
use mathlib.Core.HLevel.{⊥_prop}
use mathlib.Core.Logic.{∥∥₁_elim}
use mathlib.Core.List.{Mem, Memᴰ}
use mathlib.Core.List.Perm
use adv_cache.Prelude.{
  ℕ, zero, suc, ◌^◌, ◌<◌, ◌≡◌, ◌≢◌, refl, sym, ap, inl, inr, true, Bool-cases, some, List, [], ◌∷◌,
  All, arith, ◌==◌,
}
use adv_cache.Prelude.Words.{add64, le64}
use adv_cache.Ring.{Ring}
use adv_cache.Ring.Refine.{Holds, nth-get_elem?}
use adv_cache.Ring.Members.{In}
use adv_cache.Ring.Sort.{desc, sort}
use adv_cache.Ring.Sort.Laws.{Ordered}
use adv_cache.Ring.Sort.Refine.{sort-Holds}
use adv_cache.Shard
use adv_cache.Shard.{Shard, map_shard_key, total_shards, real_mem, Items}
use adv_cache.Shard.Counters.{sum_weight}
use adv_cache.Storage.{Storage, weights, map_get}
use adv_cache.Storage.Valid.{IsValid}
use adv_cache.Storage.Evictor.{Evict, rebalance, most_loaded}
use adv_cache.Storage.Evictor.Sums.{Sound}
use adv_cache.Storage.Evictor.Pass.{Evicted}

-- A sum that is not zero has a shard that is not.
real_mem-loaded :
    (n : ℕ) (shards : ℕ → Shard) → real_mem n shards ≢ 0 → (i : ℕ) × (i < n) × ((shards i).mem ≢ 0)
unfolding real_mem add64
real_mem-loaded zero shards h = absurd (h refl)
real_mem-loaded (suc n) shards h = elim (Bool-cases ((shards n).mem == 0)) [
  | inl empty ↦
      let e : (shards n).mem ≡ 0 = ground arith in
      let (i, lt, ne) = real_mem-loaded n shards (λ z. h (omega (arith, z, e))) in
      (i, omega arith, ne)
  | inr loaded ↦ (n, omega arith, λ e. ground arith)
]

first_item :
    (w : ℕ → ℕ) (m : Items) → sum_weight w m ≢ 0 → (k : ℕ) × (p : ℕ) × (Shard.lookup k m ≡ some p)
unfolding Shard.lookup
first_item w [] h = absurd (h refl)
first_item w ((k, p) ∷ m) h = (k, p, ground arith)

-- The list of a shard with a positive counter is not empty.
loaded-len : (i : ℕ) (s : Storage) → IsValid s → Sound s → (s.shards i).mem ≢ 0 → (s.lru i).len ≢ 0
unfolding map_get Shard.get
loaded-len i s v h ne =
    let (k, p, e) =
      first_item (weights s) (s.shards i).items (λ z. ne (rw z at (h.counted i).mem)) in
    let at_i = v.linked.placed i k p e in
    let m = v.linked.mapped k p (rw at_i e) in
    not_empty (v.order i) (s.lru i) m.address (v.linked.holds i) (rw at_i at m.member)
  where
    not_empty : (xs : List ℕ) (l : Ring) (a : ℕ) → Holds l xs → In a xs → l.len ≢ 0
    not_empty [] l a h m = elim m [ ]
    not_empty (x ∷ xs) l a h m = λ z. omega (arith, h.len)

positive : (n : ℕ) → n < 2 ^ 63 → n ≢ 0 → le64 n 0 ≡ true → ⊥
unfolding le64
positive n lt ne h = ground arith

-- The heaviest element comes first.
heavier :
    (w : ℕ → ℕ) (a x : ℕ) (xs : List ℕ)
    → ((b : ℕ) → w b < 2 ^ 63)
    → Ordered desc w (x ∷ xs)
    → Memᴰ a (x ∷ xs)
    → w a ≢ 0
    → w x ≢ 0
heavier w a x xs small o (Memᴰ.head e) ne = rw e at ne
heavier w a x xs small o (Memᴰ.tail m) ne = go xs o.0 m
  where
    go : (ys : List ℕ) → All (λ y. le64 (w y) (w x) ≡ true) ys → Memᴰ a ys → w x ≢ 0
    go [] all m z = elim m [ ]
    go (y ∷ ys) all (Memᴰ.head e) z = positive (w y) (small y) (rw e at ne) (rw z at all.0)
    go (y ∷ ys) all (Memᴰ.tail n) z = go ys all.1 n z

-- The balance list holds an element for each shard, the storage is valid, the counters are right.
pub record Ready (e : Evict) : Type 0 where
  pub order : List ℕ
  pub holds : Holds e.mem_list order
  pub covers : (i : ℕ) → i < total_shards → (a : ℕ) × Mem a order × (e.mem_list.value a ≡ i)
  pub valid : IsValid e.db
  pub sound : Sound e.db

pub Ready-Evicted : (e r : Evict) → Evicted e r → Ready e → Ready r
Ready-Evicted e r h s = record {
  order = s.order;
  holds = rw (h.mem_list) s.holds;
  covers = λ i lt. let (a, m, v) = s.covers i lt in (a, m, rw (h.mem_list) v);
  valid = h.kept.valid;
  sound = h.kept.sound s.sound;
}

mem-bound : (s : Storage) (i : ℕ) → Sound s → (s.shards i).mem < 2 ^ 63
mem-bound s i h = rw ((h.counted i).mem) (omega (arith, h.small i))

pub rebalance-Ready : (e : Evict) → Ready e → Ready (rebalance e)
unfolding rebalance
rebalance-Ready e s =
    let (ys, holds, _, perm, value) =
      sort-Holds desc (λ i. (e.db.shards i).mem) e.mem_list s.order s.holds in
    record {
      order = ys;
      holds = holds;
      covers = λ i lt. let (a, m, v) = s.covers i lt in (a, (Perm.mem_iff perm).1 m, rw value v);
      valid = s.valid;
      sound = s.sound;
    }

-- After Rebalance, the first shard has a list that is not empty, if the sum is not zero.
pub most_loaded-rebalance :
    (e : Evict)
    → Ready e
    → real_mem total_shards e.db.shards ≢ 0
    → (i : ℕ) × (most_loaded 0 (rebalance e) ≡ some i) × ((e.db.lru i).len ≢ 0)
unfolding rebalance most_loaded
most_loaded-rebalance e s ne =
    let weight = λ (i : ℕ). (e.db.shards i).mem in
    let (ys, holds, ordered, perm, value) = sort-Holds desc weight e.mem_list s.order s.holds in
    let (i, lt, loaded) = real_mem-loaded total_shards e.db.shards ne in
    let (a, m, v) = s.covers i lt in
    front ys holds ordered value a ((Perm.mem_iff perm).1 m) (rw (sym v) at loaded)
  where
    sorted : Ring
    sorted = sort desc (λ i. (e.db.shards i).mem) e.mem_list

    heaviest :
        (x : ℕ) (xs : List ℕ) (a : ℕ)
        → Ordered desc (λ b. (e.db.shards (e.mem_list.value b)).mem) (x ∷ xs)
        → Mem a (x ∷ xs)
        → (e.db.shards (e.mem_list.value a)).mem ≢ 0
        → (e.db.shards (e.mem_list.value x)).mem ≢ 0
    heaviest x xs a o m h z = ∥∥₁_elim m ⊥_prop (λ d.
        heavier (λ b. (e.db.shards (e.mem_list.value b)).mem) a x xs
          (λ b. mem-bound e.db (e.mem_list.value b) s.sound) o d h z)

    front :
        (ys : List ℕ)
        → Holds sorted ys
        → Ordered desc (λ b. (e.db.shards (e.mem_list.value b)).mem) ys
        → sorted.value ≡ e.mem_list.value
        → (a : ℕ) → Mem a ys
        → (e.db.shards (e.mem_list.value a)).mem ≢ 0
        → (i : ℕ) × (most_loaded 0 (record e { mem_list = sorted }) ≡ some i)
          × ((e.db.lru i).len ≢ 0)
    front [] holds o value a m h = absurd (∥∥₁_elim m ⊥_prop (λ d. elim d [ ]))
    front (x ∷ xs) holds o value a m h = (
      e.mem_list.value x,
      rw (nth-get_elem? sorted (x ∷ xs) 0 (omega arith) holds, most_loaded)
          (ap some (rw value refl)),
      loaded-len (e.mem_list.value x) e.db s.valid s.sound (heaviest x xs a o m h),
    )
