-- ===== src/Tests/Recencies.antt =====
-- The order of the entries at concrete inputs: one entry is stored, found, and evicted.
use adv_cache.Prelude.{ℕ, ◌≡◌, refl, true, some, none, List, map, length}
use adv_cache.Prelude.Words.{le64, add64}
use adv_cache.Model.Entry.{is_same_fingerprint, bytes_equal, payload_bytes}
use adv_cache.Shard
use adv_cache.Shard.{new_shard, map_shard_key, real_mem}
use adv_cache.Storage.{weight, map_get, get, get_found, set, insert, push, touch}
use adv_cache.Storage.Evictor.{
  new_storage, init, register, should_evict_right_now, evict_at, refresh_mem,
}
use adv_cache.Storage.Recency.{at_shard, Recent, IsValid-Recent}
use adv_cache.Storage.Recency.Calls.{set_order, same_fingerprint, set-Recent}
use adv_cache.Storage.Recency.Evicted.{evict_at-get}
use adv_cache.Tests.Requests.{an_entry}
use adv_cache.Tests.Evictions.{below, started, started-Ready, started-Fits, filled, filled-Ready}

abbrev recent_of_started : ℕ → List ℕ
recent_of_started j = map (started.db.lru j).value (started-Ready.valid.order j)

abbrev recent_of_filled : ℕ → List ℕ
recent_of_filled j = map (filled.db.lru j).value (filled-Ready.valid.order j)

set-Recent_example : Recent (set length 50 1 started.db).0 (
    at_shard
      (map_shard_key (started.db.entries 1).key)
      (set_order
        (map_get (started.db.entries 1).key started.db)
        (same_fingerprint (map_get (started.db.entries 1).key started.db) 1 started.db.entries)
        (set length 50 1 started.db).1
        1
        (recent_of_started (map_shard_key (started.db.entries 1).key)))
      recent_of_started)
set-Recent_example =
    set-Recent 1 length 50 started.db recent_of_started
      (IsValid-Recent started.db started-Ready.valid) started-Fits.new

filled-hit : (get 5 an_entry.fingerprint filled.db).1 ≡ some 1
unfolding get get_found map_get insert push init register below new_storage map_shard_key new_shard
    Shard.get Shard.set Shard.count_set Shard.lookup Shard.insert is_same_fingerprint bytes_equal
filled-hit = refl

filled-over :
    (should_evict_right_now 1 (record filled { db = (get 5 an_entry.fingerprint filled.db).0 })).1
    ≡ true
unfolding get get_found map_get insert push init register below new_storage map_shard_key new_shard
    Shard.get Shard.set Shard.count_set Shard.lookup Shard.insert is_same_fingerprint bytes_equal
    should_evict_right_now refresh_mem real_mem le64 add64 touch weight payload_bytes
filled-over = refl

evict_at-get_example :
    map_get 5
      (evict_at 1 5 0 (record filled { db = (get 5 an_entry.fingerprint filled.db).0 })).0.db
    ≡ none
unfolding map_shard_key
evict_at-get_example =
    evict_at-get 1 5 5 an_entry.fingerprint 1 filled recent_of_filled
      (IsValid-Recent filled.db filled-Ready.valid) filled-hit refl filled-over
