-- ===== src/Dump/Restored/Whole.antt =====
-- The files of a dump, one for each shard, loaded one after another in any order of the shards
-- (pkg/storage/lru/dumper.go).
use adv_cache.Prelude.{
  ℕ, ◌+◌, ◌^◌, ◌<◌, ◌≡◌, ◌≢◌, ◌⊎◌, sym, ap, ◌∙◌, Bool, true, false, inl, inr, some, none, List, [],
  ◌∷◌, map, All, arith, length,
}
use adv_cache.Model.Binary.{Bytes}
use adv_cache.Model.Entry.{Rules, payload_bytes}
use adv_cache.Ring.Seg.{Distinct, Differ}
use adv_cache.Ring.Members.{In}
use adv_cache.Shard
use adv_cache.Shard.{Items, map_shard_key, total_shards}
use adv_cache.Shard.Counters.{Absent}
use adv_cache.Storage
use adv_cache.Storage.{Storage, map_get, should_evict}
use adv_cache.Storage.Hits.{get-map_get}
use adv_cache.Storage.Stored.{Stored}
use adv_cache.Storage.Valid.{IsValid}
use adv_cache.Dump.{Loading, Loaded, loaded, panicked, unfinished, dump_shard, load_frames}
use adv_cache.Dump.RoundTrip.{Writable, restored}
use adv_cache.Dump.Restored.{
  Restoring, set_decoded, restore, restore-old, restore-new, restore-others,
}
use adv_cache.Dump.Restored.Shards.{All-lookup, IsOpen-for, load_frames-dump_shard}

-- The items of a valid storage's shard do not hold a key of another shard.
Absent-other :
    (from : Storage) (i k : ℕ) → IsValid from → map_shard_key k ≢ i → Absent k (from.shards i).items
unfolding Shard.get
Absent-other from i k v ne = off (from.shards i).items (
    All-lookup (λ j p. map_shard_key j ≡ i) (from.shards i).items (v.linked.keys i)
      (λ j p found. v.linked.placed i j p found))
  where
    off : (m : Items) → All (λ (x : ℕ × ℕ). map_shard_key x.0 ≡ i) m → Absent k m
    off [] h = tt
    off ((j, p) ∷ m) h = ((λ e. ne (ap map_shard_key (sym e) ∙ h.0)), off m h.1)

-- The entries of the shards `is` are in the storage, and no others; it has room.
record Holding (from : Storage) (is : List ℕ) (r : Restoring) : Type 0 where
  pub stored :
      (k p : ℕ)
      → In (map_shard_key k) is
      → map_get k from ≡ some p
      → (q : ℕ) × Stored (restored (from.entries p)) q (r.0) × (q < r.1)
  pub empty : (k : ℕ) → (In (map_shard_key k) is → ⊥) → map_get k (r.0) ≡ none
  pub room : should_evict (r.0) ≡ false

-- Each key of the shards `is` is found with the fingerprint of its entry, with its payload and time.
abbrev pub AllRestored : Storage → List ℕ → Storage → Type 0
AllRestored from is t =
    (k p : ℕ)
    → In (map_shard_key k) is
    → map_get k from ≡ some p
    → (q : ℕ) × ((Storage.get k (from.entries p).fingerprint t).1 ≡ some q)
      × ((t.entries q).payload ≡ some (payload_bytes (from.entries p)))
      × ((t.entries q).refreshed_at ≡ (from.entries p).refreshed_at)

Holding-found :
    (from : Storage) (is : List ℕ) (r : Restoring)
    → IsValid from
    → Holding from is r
    → AllRestored from is (r.0)
Holding-found from is r v h k p member found =
    let (q, s, lt) = h.stored k p member found in
    let stands : map_get k (r.0) ≡ some q = rw ((v.linked.mapped k p found).key) at (s.found) in
    (
      q,
      get-map_get k (from.entries p).fingerprint q (r.0) stands s.fingerprint,
      s.payload,
      s.refreshed_at,
    )

-- The items of the shards.
abbrev pub total_items : Storage → List ℕ → ℕ
total_items from [] = 0
total_items from (i ∷ is) = length (from.shards i).items + total_items from is

module _ (xxh3 : Bytes → ℕ) (now : ℕ) (from : Storage) (v : IsValid from) where
  abbrev restore_shard : ℕ → Restoring → Restoring
  restore_shard i = restore xxh3 now from (from.shards i).items

  Holding-restore_shard :
      (i : ℕ) (is : List ℕ) (r : Restoring)
      → (In i is → ⊥)
      → Holding from is r
      → Holding from (i ∷ is) (restore_shard i r)
  unfolding map_get Shard.get
  Holding-restore_shard i is r new h =
      let m = (from.shards i).items in
      let o =
        IsOpen-for xxh3 now from i r v h.room (λ k e. h.empty k (λ member. new (rw e at member))) in
      let (grows, room, others) = restore-others xxh3 now from m r o in
      record {
        stored = λ k p member found. elim member [
          | inl e ↦ restore-new xxh3 now from m r k p o (rw e at found)
          | inr rest ↦
              let (q, s, lt) = h.stored k p rest found in
              let key = (v.linked.mapped k p found).key in
              let ne : map_shard_key k ≢ i = λ e. new (rw e at rest) in
              let off : Absent (from.entries p).key m = rw key (Absent-other from i k v ne) in
              (
                q,
                restore-old xxh3 now from m r (restored (from.entries p)) q o lt off s,
                omega (arith, lt, grows),
              )
        ];
        empty = λ k out.
            others k (Absent-other from i k v (λ e. out (inl e)))
            ∙ h.empty k (λ member. out (inr member));
        room = room;
      }

  abbrev restore_all : List ℕ → Restoring → Restoring
  restore_all [] r = r
  restore_all (i ∷ is) r = restore_all is (restore_shard i r)

  Holding-restore_all :
      (is ds : List ℕ) (r : Restoring)
      → Distinct is
      → All (λ i. In i ds → ⊥) is
      → Holding from ds r
      → (all : List ℕ) × Holding from all (restore_all is r)
        × ((i : ℕ) → In i is ⊎ In i ds → In i all)
  Holding-restore_all [] ds r d new h = (ds, h, λ i. elim [ inl m ↦ elim m [ ] | inr m ↦ m ])
  Holding-restore_all (i ∷ is) ds r d new h =
      let (all, t, covers) =
        Holding-restore_all is (i ∷ ds) (restore_shard i r) d.1 (apart is d.0 new.1)
          (Holding-restore_shard i ds r new.0 h) in
      (all, t, λ j m. covers j (moved j m))
    where
      apart :
          (js : List ℕ) → Differ i js → All (λ j. In j ds → ⊥) js → All (λ j. In j (i ∷ ds) → ⊥) js
      apart [] d n = tt
      apart (j ∷ js) d n =
          ((λ m. elim m [ inl e ↦ d.0 (sym e) | inr m' ↦ n.0 m' ]), apart js d.1 n.1)

      moved : (j : ℕ) → In j (i ∷ is) ⊎ In j ds → In j is ⊎ In j (i ∷ ds)
      moved j (inl (inl e)) = inr (inl e)
      moved j (inl (inr m)) = inl m
      moved j (inr m) = inr (inr m)

module _ (crc32 : Bytes → ℕ) (crc32_control : Bool) (done done_load : ℕ → Bool) (rules : Rules)
    (xxh3 : Bytes → ℕ) (now fuel : ℕ) where
  -- `load` of the files that `dump` wrote from the storage, each with its own reader.
  unfoldable pub load_dumped : Storage → List ℕ → Loading Restoring → Loaded Restoring
  load_dumped from [] l = loaded l
  load_dumped from (i ∷ is) l =
      elim (load_frames crc32 crc32_control done_load rules (set_decoded xxh3 now) fuel
        (record { bytes = dump_shard crc32 crc32_control done i from; ends_in_eof = true }) l) [
          | loaded t ↦ load_dumped from is t
          | panicked ↦ panicked
          | unfinished ↦ unfinished
        ]

  module _ (from : Storage) (v : IsValid from) (bound : (bs : Bytes) → crc32 bs < 2 ^ 32)
      (running : (k : ℕ) → done k ≡ false) (running_load : (k : ℕ) → done_load k ≡ false)
      (enough : (i : ℕ) → length (from.shards i).items < fuel)
      (w : (i : ℕ)
        → All (Writable rules) (map (λ (x : ℕ × ℕ). from.entries x.1) (from.shards i).items)) where
    load_dumped-restore_all :
        (is : List ℕ) (l : Loading Restoring)
        → load_dumped from is l
          ≡ loaded (record l {
            storage = restore_all xxh3 now from v is l.storage;
            success = l.success + total_items from is;
          })
    unfolding load_dumped
    load_dumped-restore_all [] l = λ i. loaded (record l { success = plus_zero l.success i })
      where
        plus_zero : (n : ℕ) → n ≡ n + 0
        plus_zero n = omega arith
    load_dumped-restore_all (i ∷ is) l =
        let n = length (from.shards i).items in
        let t = record l {
          storage = restore_shard xxh3 now from v i l.storage;
          success = l.success + n;
        } in
        rw
          (
            load_frames-dump_shard xxh3 now crc32 crc32_control done done_load rules fuel i from l
                bound running running_load (enough i) (w i),
            load_dumped,
          )
          (load_dumped-restore_all is t ∙ (λ j. loaded (record l {
            storage = restore_all xxh3 now from v (i ∷ is) l.storage;
            success = plus_assoc l.success n (total_items from is) j;
          })))
      where
        plus_assoc : (a b c : ℕ) → a + b + c ≡ a + (b + c)
        plus_assoc a b c = omega arith

    -- The dump of the shards `is` of a valid storage, no shard twice, loaded back file by file in that
    -- order with the same checksum setting while no context is done, into a storage that is empty and
    -- need not evict, with fuel above the number of items of each shard, where the entries can be
    -- written: the loading ends with no failure, each item is counted, and for each key of these
    -- shards a Get with the fingerprint of its entry finds an entry with the same payload and time.
    pub load_dumped-AllRestored :
        (is : List ℕ) (l : Loading Restoring)
        → Distinct is
        → should_evict l.storage.0 ≡ false
        → ((k : ℕ) → map_get k l.storage.0 ≡ none)
        → (t : Restoring) × (load_dumped from is l
            ≡ loaded (record l { storage = t; success = l.success + total_items from is }))
          × AllRestored from is t.0
    load_dumped-AllRestored is l distinct room empty =
        let (all, h, covers) =
          Holding-restore_all xxh3 now from v is [] l.storage distinct (fresh is) (record {
            stored = λ k p m found. elim m [ ];
            empty = λ k out. empty k;
            room = room;
          }) in
        (
          restore_all xxh3 now from v is l.storage,
          load_dumped-restore_all is l,
          λ k p member found. Holding-found from all _ v h k p (covers _ (inl member)) found,
        )
      where
        fresh : (is : List ℕ) → All (λ i. In i [] → ⊥) is
        fresh [] = tt
        fresh (i ∷ is) = ((λ m. m), fresh is)
