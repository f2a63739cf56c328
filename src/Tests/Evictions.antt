-- ===== src/Tests/Evictions.antt =====
-- The evictor and the merge sort at concrete inputs.
use mathlib.Core.List.{Perm}
use adv_cache.Prelude.{
  ℕ, zero, suc, ◌+◌, ◌*◌, ◌<◌, ◌≡◌, refl, true, false, some, none, List, [], ◌∷◌, inl, inr,
  if◌then◌else◌, arith, length, Bool-cases, ◌==◌,
}
use adv_cache.Model.Entry.{Entry, payload_bytes, is_same_fingerprint, bytes_equal}
use adv_cache.Prelude.Words.{le64, lt64, add64, sub64}
use adv_cache.Model.Compare.{is_bytes_are_equals, is_same_payload}
use adv_cache.Ring
use adv_cache.Ring.{Ring, new_ring}
use adv_cache.Ring.Refine.{Holds}
use adv_cache.Ring.Members.{In}
use adv_cache.Ring.Sort.{desc, sort}
use adv_cache.Ring.Sort.Laws.{Ordered}
use adv_cache.Ring.Sort.Refine.{sort-Holds}
use adv_cache.Shard
use adv_cache.Shard.{new_shard, total_shards, map_shard_key, real_mem}
use adv_cache.Storage
use adv_cache.Storage.{
  Storage, insert, map_get, weight, remove, set, set_found, update_entry, swap_payloads, touch,
}
use adv_cache.Storage.Evictor.{
  Evict, new_storage, init, evict_until_within_limit, should_evict_right_now,
}
use adv_cache.Storage.Evictor.Sums.{item_count}
use adv_cache.Storage.Valid.{IsValid}
use adv_cache.Storage.Evictor.Log
use adv_cache.Storage.Evictor.Log.{
  Evictor, send_stat, log_evictions, Reach, accounted, Reach-accounted,
}
use adv_cache.Storage.Evictor.Pass.{Kept}
use adv_cache.Storage.Evictor.Ready.{Ready}
use adv_cache.Storage.Evictor.Started.{init-Ready, init-db}
use adv_cache.Storage.Evictor.Filled.{Fits, insert-Ready}
use adv_cache.Storage.Evictor.Ends.{evict_until_within_limit-ends}
use adv_cache.Storage.Evictor.Spin.{evict_until_within_limit-spins}
use adv_cache.Tests.Requests.{an_entry}
use adv_cache.Tests.Rings.{two, two-Holds, frequencies}

-- The shards from `n - 1` down to 0.
unfoldable pub below : ℕ → List ℕ
below zero = []
below (suc n) = n ∷ below n

pub In-below : (n i : ℕ) → i < n → In i (below n)
unfolding below
In-below zero i h = absurd (omega arith)
In-below (suc n) i h = elim (Bool-cases (i == n)) [
  | inl here ↦ inl (ground arith)
  | inr there ↦ inr (In-below n i (ground arith))
]

pub length-below : (n : ℕ) → length (below n) ≡ n
unfolding below
length-below zero = refl
length-below (suc n) = omega (arith, length-below n)

abbrev pub started : Evict
started = init (below 2048) (new_storage (λ p. an_entry) frequencies 0 1)

pub started-Ready : Ready started
started-Ready =
    init-Ready (below 2048) (λ p. an_entry) frequencies 0 1 (omega (arith, length-below 2048))
      (λ i h. In-below 2048 i h)

-- The entry 1 is new, and is put into the storage.
pub started-Fits : Fits 1 started.db
unfolding new_storage new_ring new_shard map_get Shard.get Shard.lookup map_shard_key weight
    payload_bytes
started-Fits =
    let (entries, shards, lru) =
      init-db (below 2048) (new_storage (λ p. an_entry) frequencies 0 1) (λ j. refl) in
    record {
      new = record {
        shard = rw entries refl;
        unheld = λ k e. cc (rw shards at e);
        room = rw (lru (started.db.entries 1).shard) (omega arith);
      };
      absent = rw shards refl;
      room = rw (shards, entries) (omega arith);
    }

abbrev pub filled : Evict
filled = record started { db = insert 1 started.db }

pub filled-Ready : Ready filled
filled-Ready = insert-Ready 1 started started-Fits started-Ready

evict_until_within_limit-ends_example :
    (r : Evict) × (evict_until_within_limit 1 (348 * item_count filled.db + 349) filled ≡ some r)
    × Kept (record filled { items = 0; mem = 0 }) r
    × ((should_evict_right_now 1 r).1 ≡ false)
evict_until_within_limit-ends_example =
    evict_until_within_limit-ends 1 (348 * item_count filled.db + 349) filled filled-Ready
      (omega arith) (omega arith) (omega arith)

-- An entry is stored with two bytes, updated to none, and removed: two bytes stay counted.
abbrev shrinking : ℕ → Entry
shrinking p = if p == 1 then an_entry else record an_entry { payload = some [] }

abbrev left_over : Evict
left_over =
    let e = new_storage shrinking frequencies 0 2 in
    record e { db = (remove 1 (set length 50 2 (insert 1 e.db)).0).0 }

left_over-empty : (i : ℕ) → (left_over.db.lru i).len ≡ 0
unfolding new_storage set set_found map_get insert Storage.push map_shard_key new_shard Shard.get
    Shard.set Shard.count_set Shard.lookup Shard.insert is_same_fingerprint bytes_equal
    is_same_payload is_bytes_are_equals update_entry swap_payloads touch remove Ring.push_front
    Ring.insert_front Ring.remove Ring.unlink Ring.move_to_front new_ring lt64 add64 sub64
left_over-empty i = elim (Bool-cases (5 == i)) [
  | inl here ↦ rw here refl
  | inr there ↦ rw there refl
]

left_over-over : le64 2 (real_mem total_shards left_over.db.shards) ≡ true
unfolding new_storage set set_found map_get insert Storage.push map_shard_key new_shard Shard.get
    Shard.set Shard.count_set Shard.lookup Shard.insert is_same_fingerprint bytes_equal
    is_same_payload is_bytes_are_equals update_entry swap_payloads touch remove Shard.remove
    Shard.remove_found weight payload_bytes real_mem le64 add64 sub64 new_ring Ring.push_front
    Ring.insert_front
left_over-over = refl

evict_until_within_limit-spins_example : evict_until_within_limit 2 99 left_over ≡ none
evict_until_within_limit-spins_example =
    evict_until_within_limit-spins 2 99 left_over left_over-empty left_over-over

sort-Holds_example :
    (ys : List ℕ) × Holds (sort desc (λ v. v) two) ys
    × Ordered desc (λ e. two.value e) ys
    × Perm ys (2 ∷ 1 ∷ [])
    × ((sort desc (λ v. v) two).value ≡ two.value)
sort-Holds_example = sort-Holds desc (λ v. v) two (2 ∷ 1 ∷ []) two-Holds

abbrev idle_evictor : Evictor
idle_evictor = record {
  evict = filled;
  channel = [];
  sums = record { items = 0; freed_mem = 0 };
  lines = [];
}

-- A run that ends, and a line of the log.
after_run : (w : Evictor) × Reach 1 idle_evictor w
after_run =
    let (r, e, _, _) =
      evict_until_within_limit-ends 1 (348 * item_count filled.db + 349) filled filled-Ready
        (omega arith) (omega arith) (omega arith) in
    (
      log_evictions (send_stat r idle_evictor),
      Log.next (Log.next Log.here (Log.ran (348 * item_count filled.db + 349) r idle_evictor e))
          (Log.ticked (send_stat r idle_evictor)),
    )

Reach-accounted_example :
    IsValid after_run.0.evict.db × (accounted after_run.0 ≡ accounted idle_evictor)
Reach-accounted_example = Reach-accounted 1 filled-Ready.valid after_run.1
