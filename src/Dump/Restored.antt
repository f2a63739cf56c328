-- ===== src/Dump/Restored.antt =====
-- A dump of one shard, loaded into a storage (pkg/storage/lru/dumper.go, pkg/storage/lru/storage.go).
-- Each loaded entry is a new object, at the next address.
pub mod Shards
pub mod Whole
use adv_cache.Prelude.{
  ℕ, ◌+◌, ◌^◌, ◌<◌, ◌≤◌, ◌≡◌, ◌≢◌, refl, sym, ap, ◌∙◌, Bool, true, false, Bool-cases, inl, inr,
  Option, none, some, List, [], ◌∷◌, map, All, arith, length, ◌==◌, update, if◌then◌else◌,
}
use adv_cache.Model.Binary.{Bytes}
use adv_cache.Model.Entry.{Entry, Rules, payload_bytes}
use adv_cache.Lfu.{increment}
use adv_cache.Shard
use adv_cache.Shard.{Items, map_shard_key}
use adv_cache.Shard.Counters.{Absent, Keys, lookup-Absent}
use adv_cache.Storage
use adv_cache.Storage.{Storage, map_get, should_evict, insert, push, set, set_found, set_new}
use adv_cache.Storage.Hits.{get-map_get}
use adv_cache.Storage.Stored.{Stored, insert-Stored}
use adv_cache.Storage.Valid.{IsValid}
use adv_cache.Storage.Valid.New.{map_get-insert_all}
use adv_cache.Dump.{Loading, Loaded, loaded, dump_shard, load_frames}
use adv_cache.Dump.RoundTrip.{Writable, restored, set_all, load_frames-dump}

-- The storage and the next address.
abbrev pub Restoring : Type 0
Restoring = Storage × ℕ

module _ (xxh3 : Bytes → ℕ) (now : ℕ) where
  -- d.storage.Set(e)
  unfoldable pub set_decoded : Entry → Restoring → Restoring
  set_decoded e (s, n) = ((set xxh3 now n (record s { entries = update s.entries n e })).0, n + 1)

  -- The storage in which the entry is inserted.
  abbrev ready : Entry → Restoring → Storage
  ready e r = record (r.0) {
    entries = update (r.0).entries (r.1) e;
    lfu = increment e.key (r.0).lfu;
  }

  -- While there is room, an entry under a new key is inserted.
  set_decoded-insert :
      (e : Entry) (r : Restoring)
      → map_get e.key (r.0) ≡ none
      → should_evict (r.0) ≡ false
      → set_decoded e r ≡ (insert (r.1) (ready e r), r.1 + 1)
  unfolding set_decoded set set_found set_new map_get should_evict
  set_decoded-insert e (s, n) absent room =
      let own : (n == n) ≡ true = ground arith in rw own (rw (absent, set_found) (rw room refl))

  should_evict-set_decoded :
      (e : Entry) (r : Restoring)
      → map_get e.key (r.0) ≡ none
      → should_evict (r.0) ≡ false
      → should_evict (set_decoded e r).0 ≡ false
  unfolding should_evict insert push
  should_evict-set_decoded e r absent room = rw (set_decoded-insert e r absent room) room

  map_get-set_decoded :
      (e : Entry) (r : Restoring) (k : ℕ)
      → map_get e.key (r.0) ≡ none
      → should_evict (r.0) ≡ false
      → map_get k (set_decoded e r).0 ≡ (if e.key == k then some (r.1) else map_get k (r.0))
  unfolding map_get
  map_get-set_decoded e r k absent room =
      let own : (r.1 == r.1) ≡ true = ground arith in
      rw (set_decoded-insert e r absent room) (rw own at (map_get-insert_all (r.1) k (ready e r)))

  set_decoded-new :
      (e : Entry) (r : Restoring)
      → map_get e.key (r.0) ≡ none
      → should_evict (r.0) ≡ false
      → Stored e (r.1) (set_decoded e r).0
  set_decoded-new e r absent room =
      let own : (r.1 == r.1) ≡ true = ground arith in
      rw (set_decoded-insert e r absent room) (rw own at (insert-Stored (r.1) (ready e r)))

  set_decoded-old :
      (e d : Entry) (p : ℕ) (r : Restoring)
      → map_get e.key (r.0) ≡ none
      → should_evict (r.0) ≡ false
      → p < r.1
      → d.key ≢ e.key
      → Stored d p (r.0)
      → Stored d p (set_decoded e r).0
  set_decoded-old e d p r absent room lt ne s =
      let off : (e.key == d.key) ≡ false = ground (arith, ne) in
      let found : map_get d.key (set_decoded e r).0 ≡ some p =
        map_get-set_decoded e r d.key absent room ∙ rw off s.found in
      rw (set_decoded-insert e r absent room) (record {
        found = rw (set_decoded-insert e r absent room) at found;
        fingerprint = unfold insert in (unfold push in (ground (arith, s.fingerprint)));
        payload = unfold insert in (unfold push in (ground (arith, s.payload)));
        refreshed_at = unfold insert in (unfold push in (ground (arith, s.refreshed_at)));
      })

  -- The entries of the items `m` of the storage `from`, loaded in their order.
  module _ (from : Storage) where
    abbrev pub restore : Items → Restoring → Restoring
    restore m = set_all set_decoded (map (λ (x : ℕ × ℕ). from.entries x.1) m)

    -- The storage has room, the items have the keys of their entries, and none of them is in it.
    pub record IsOpen (m : Items) (r : Restoring) : Type 0 where
      pub room : should_evict (r.0) ≡ false
      pub absent : All (λ (x : ℕ × ℕ). map_get (x.0) (r.0) ≡ none) m
      pub own : All (λ (x : ℕ × ℕ). (from.entries x.1).key ≡ x.0) m
      pub keys : Keys m

    Absent-set_decoded :
        (e : Entry) (r : Restoring) (m : Items)
        → map_get e.key (r.0) ≡ none
        → should_evict (r.0) ≡ false
        → Absent e.key m
        → All (λ (x : ℕ × ℕ). map_get (x.0) (r.0) ≡ none) m
        → All (λ (x : ℕ × ℕ). map_get (x.0) (set_decoded e r).0 ≡ none) m
    Absent-set_decoded e r [] absent room off h = tt
    Absent-set_decoded e r ((k, p) ∷ m) absent room off h =
        let other : (e.key == k) ≡ false = ground (arith, off.0) in
        let here : map_get k (set_decoded e r).0 ≡ none =
          map_get-set_decoded e r k absent room ∙ rw other (h.0) in
        (here, Absent-set_decoded e r m absent room off.1 h.1)

    IsOpen-next :
        (j q : ℕ) (m : Items) (r : Restoring)
        → IsOpen ((j, q) ∷ m) r
        → IsOpen m (set_decoded (restored (from.entries q)) r)
    IsOpen-next j q m r o =
        let e = restored (from.entries q) in
        let absent : map_get e.key (r.0) ≡ none = rw (o.own.0) (o.absent.0) in
        let off : Absent e.key m = rw (o.own.0) (o.keys.0) in
        record {
          room = should_evict-set_decoded e r absent (o.room);
          absent = Absent-set_decoded e r m absent (o.room) off o.absent.1;
          own = o.own.1;
          keys = o.keys.1;
        }

    pub restore-old :
        (m : Items) (r : Restoring) (d : Entry) (p : ℕ)
        → IsOpen m r
        → p < r.1
        → Absent d.key m
        → Stored d p (r.0)
        → Stored d p (restore m r).0
    unfolding set_decoded
    restore-old [] r d p o lt off s = s
    restore-old ((j, q) ∷ m) r d p o lt off s =
        let e = restored (from.entries q) in
        let absent : map_get e.key (r.0) ≡ none = rw (o.own.0) (o.absent.0) in
        let ne : d.key ≢ e.key = λ i. off.0 (sym (i ∙ o.own.0)) in
        restore-old m (set_decoded e r) d p (IsOpen-next j q m r o) (omega (arith, lt)) off.1
          (set_decoded-old e d p r absent (o.room) lt ne s)

    -- The addresses grow, the room stays, and other keys are not touched.
    pub restore-others :
        (m : Items) (r : Restoring)
        → IsOpen m r
        → (r.1 ≤ (restore m r).1)
          × (should_evict (restore m r).0 ≡ false)
          × ((k : ℕ) → Absent k m → map_get k (restore m r).0 ≡ map_get k (r.0))
    unfolding set_decoded
    restore-others [] r o = (omega arith, o.room, λ k off. refl)
    restore-others ((j, i) ∷ m) r o =
        let e = restored (from.entries i) in
        let absent : map_get e.key (r.0) ≡ none = rw (o.own.0) (o.absent.0) in
        let (grows, room, same) = restore-others m (set_decoded e r) (IsOpen-next j i m r o) in
        (
          omega (arith, grows),
          room,
          λ k off.
              let other : (e.key == k) ≡ false = ground (arith, off.0, o.own.0) in
              same k off.1 ∙ (map_get-set_decoded e r k absent (o.room) ∙ rw other refl),
        )

    pub restore-new :
        (m : Items) (r : Restoring) (k p : ℕ)
        → IsOpen m r
        → Shard.lookup k m ≡ some p
        → (q : ℕ) × Stored (restored (from.entries p)) q (restore m r).0 × (q < (restore m r).1)
    unfolding Shard.lookup set_decoded
    restore-new [] r k p o h = cc
    restore-new ((j, i) ∷ m) r k p o h =
        let e = restored (from.entries i) in
        elim (Bool-cases (j == k)) [
          | inl here ↦
              let same : i ≡ p = cc (rw here at h) in
              let absent : map_get e.key (r.0) ≡ none = rw (o.own.0) (o.absent.0) in
              let off : Absent e.key m = rw (o.own.0) (o.keys.0) in
              rw (← same) (
                r.1,
                restore-old m (set_decoded e r) e (r.1) (IsOpen-next j i m r o) (omega arith) off
                    (set_decoded-new e r absent (o.room)),
                omega (arith, (restore-others m (set_decoded e r) (IsOpen-next j i m r o)).0),
              )
          | inr other ↦ restore-new m (set_decoded e r) k p (IsOpen-next j i m r o) (rw other at h)
        ]
