-- ===== src/Dump/Restored/Shards.antt =====
-- The file of one shard, from a valid storage into one with room (pkg/storage/lru/dumper.go).
use adv_cache.Prelude.{
  ℕ, ◌+◌, ◌^◌, ◌<◌, ◌≡◌, refl, Bool, true, false, Bool-cases, inl, inr, some, none, List, [], ◌∷◌,
  map, All, arith, length, ◌==◌,
}
use adv_cache.Model.Binary.{Bytes}
use adv_cache.Model.Entry.{Rules}
use adv_cache.Shard
use adv_cache.Shard.{Items, map_shard_key}
use adv_cache.Shard.Counters.{Keys, lookup-Absent}
use adv_cache.Storage.{Storage, map_get, should_evict}
use adv_cache.Storage.Valid.{IsValid}
use adv_cache.Dump.{Loading, loaded, dump_shard, load_frames}
use adv_cache.Dump.RoundTrip.{Writable, load_frames-dump}
use adv_cache.Dump.Restored.{Restoring, set_decoded, restore, IsOpen}

-- What holds of the entry that is found under each key holds of all items.
pub All-lookup :
    (P : ℕ → ℕ → Type 0) (m : Items)
    → Keys m
    → ((k p : ℕ) → Shard.lookup k m ≡ some p → P k p)
    → All (λ (x : ℕ × ℕ). P x.0 x.1) m
unfolding Shard.lookup
All-lookup P [] keys h = tt
All-lookup P ((j, q) ∷ m) keys h =
    (h j q (ground arith), All-lookup P m keys.1 (λ k p found. h k p (later k p found)))
  where
    later : (k p : ℕ) → Shard.lookup k m ≡ some p → Shard.lookup k ((j, q) ∷ m) ≡ some p
    later k p found = elim (Bool-cases (j == k)) [
      | inl here ↦
          let e : j ≡ k = ground arith in
          let no : Shard.lookup k m ≡ none = lookup-Absent k m (rw e at (keys.0)) in cc (no, found)
      | inr there ↦ rw there found
    ]

pub length-map : {A B : Type 0} (f : A → B) (xs : List A) → length (map f xs) ≡ length xs
length-map f [] = refl
length-map f (x ∷ xs) = omega (arith, length-map f xs)

module _ (xxh3 : Bytes → ℕ) (now : ℕ) where
  -- A storage with room that holds no key of the shard `i` is open for its items.
  pub IsOpen-for :
      (from : Storage) (i : ℕ) (r : Restoring)
      → IsValid from
      → should_evict (r.0) ≡ false
      → ((k : ℕ) → map_shard_key k ≡ i → map_get k (r.0) ≡ none)
      → IsOpen xxh3 now from (from.shards i).items r
  unfolding map_get Shard.get
  IsOpen-for from i r v room empty =
      let keys = v.linked.keys i in
      record {
        room = room;
        absent =
            All-lookup (λ k p. map_get k (r.0) ≡ none) (from.shards i).items keys
              (λ k p found. empty k (v.linked.placed i k p found));
        own =
            All-lookup (λ k p. (from.entries p).key ≡ k) (from.shards i).items keys
              (λ k p found.
                let at_i = v.linked.placed i k p found in
                (v.linked.mapped k p (rw at_i found)).key);
        keys = keys;
      }

  -- The dump of a shard of a valid storage, loaded back into a storage with room that holds no key
  -- of the shard.
  pub load_frames-dump_shard :
      (crc32 : Bytes → ℕ) (crc32_control : Bool) (done done_load : ℕ → Bool) (rules : Rules)
      (fuel i : ℕ) (from : Storage) (l : Loading Restoring)
      → ((bs : Bytes) → crc32 bs < 2 ^ 32)
      → ((k : ℕ) → done k ≡ false)
      → ((k : ℕ) → done_load k ≡ false)
      → length (from.shards i).items < fuel
      → All (Writable rules) (map (λ (x : ℕ × ℕ). from.entries x.1) (from.shards i).items)
      → load_frames crc32 crc32_control done_load rules
          (set_decoded xxh3 now)
          fuel
          (record { bytes = dump_shard crc32 crc32_control done i from; ends_in_eof = true })
          l
        ≡ loaded (record l {
          storage = restore xxh3 now from (from.shards i).items l.storage;
          success = l.success + length (from.shards i).items;
        })
  unfolding dump_shard
  load_frames-dump_shard crc32 crc32_control done done_load rules fuel i from l bound running
        running_load enough w =
      let m = (from.shards i).items in
      let es = map (λ (x : ℕ × ℕ). from.entries x.1) m in
      let same = length-map (λ (x : ℕ × ℕ). from.entries x.1) m in
      rw same at (
        load_frames-dump crc32 crc32_control done done_load rules (set_decoded xxh3 now) bound
          running running_load fuel 0 es l (omega (arith, enough, same)) w)
