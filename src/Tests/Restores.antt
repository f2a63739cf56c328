-- ===== src/Tests/Restores.antt =====
-- A dump of two shards, one of them with an entry, loaded into an empty storage.
use adv_cache.Prelude.{
  ℕ, ◌+◌, ◌<◌, ◌≡◌, refl, true, false, Option, Bool-cases, inl, inr, none, [], ◌∷◌, map, All, arith,
  length, ◌==◌,
}
use adv_cache.Prelude.Words.{le64, add64}
use adv_cache.Model.Binary.{put_u32, put_u64}
use adv_cache.Model.Entry.{Pointer, match_rule, payload_bytes}
use adv_cache.Model.ToBytes.{to_bytes}
use adv_cache.Shard
use adv_cache.Shard.{new_shard, map_shard_key}
use adv_cache.Storage.{map_get, insert, push, should_evict}
use adv_cache.Storage.Evictor.{new_storage, init, register}
use adv_cache.Storage.Evictor.Started.{init-db}
use adv_cache.Dump.{Loading, loaded}
use adv_cache.Dump.RoundTrip.{Writable}
use adv_cache.Dump.Restored.{Restoring}
use adv_cache.Dump.Restored.Whole.{AllRestored, total_items, load_dumped, load_dumped-AllRestored}
use adv_cache.Tests.Requests.{an_entry, an_entry-Fits, rules}
use adv_cache.Tests.Rings.{frequencies}
use adv_cache.Tests.Dumps.{seven, never}
use adv_cache.Tests.Evictions.{below, started, filled, filled-Ready}

abbrev empty : Loading Restoring
empty = record { storage = (started.db, 0); success = 0; failures = 0 }

filled-few : (i : ℕ) → length (filled.db.shards i).items < 3
unfolding insert push map_shard_key Shard.set Shard.count_set Shard.insert Shard.lookup new_storage
    new_shard
filled-few i =
    let (entries, shards, lru) =
      init-db (below 2048) (new_storage (λ p. an_entry) frequencies 0 1) (λ j. refl) in
    rw (entries, shards) (ground arith)

-- The entry in a list.
Writable-listed : (o : Option Pointer) → Writable rules (record an_entry { lru_list_elem = o })
unfolding match_rule to_bytes payload_bytes put_u32 put_u64
Writable-listed o = record {
  fits = record {
    path = an_entry-Fits.path;
    key = an_entry-Fits.key;
    shard = an_entry-Fits.shard;
    fingerprint = refl;
    refreshed_at = an_entry-Fits.refreshed_at;
    payload = omega arith;
  };
  known = refl;
  small = omega arith;
}

filled-Writable :
    (i : ℕ)
    → All (Writable rules) (map (λ (x : ℕ × ℕ). filled.db.entries x.1) (filled.db.shards i).items)
unfolding insert push map_shard_key Shard.set Shard.count_set Shard.insert Shard.lookup new_storage
    new_shard
filled-Writable i =
    let (entries, shards, lru) =
      init-db (below 2048) (new_storage (λ p. an_entry) frequencies 0 1) (λ j. refl) in
    rw (entries, shards)
      (elim (Bool-cases (5 == i)) [
        | inl here ↦ rw here (Writable-listed _, tt)
        | inr there ↦ rw there tt
      ])

started-empty : (k : ℕ) → map_get k started.db ≡ none
unfolding map_get new_storage new_shard Shard.get Shard.lookup
started-empty k =
    let (entries, shards, lru) =
      init-db (below 2048) (new_storage (λ p. an_entry) frequencies 0 1) (λ j. refl) in
    rw shards refl

started-room : should_evict started.db ≡ false
unfolding should_evict le64 add64 init register below new_storage
started-room = refl

load_dumped-AllRestored_example :
    (t : Restoring) × (load_dumped seven true never never rules length 60 3 filled.db
        (5 ∷ 6 ∷ [])
        empty
      ≡ loaded (record empty { storage = t; success = 0 + total_items filled.db (5 ∷ 6 ∷ []) }))
    × AllRestored filled.db (5 ∷ 6 ∷ []) t.0
load_dumped-AllRestored_example =
    load_dumped-AllRestored seven true never never rules length 60 3 filled.db filled-Ready.valid
      (λ bs. omega arith) (λ k. refl) (λ k. refl) filled-few filled-Writable (5 ∷ 6 ∷ []) empty
      (((λ e. omega arith), tt), (tt, tt)) started-room started-empty
