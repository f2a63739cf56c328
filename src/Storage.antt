-- ===== src/Storage.antt =====
-- The storage (pkg/storage/lru/storage.go) with the balancer's LRU lists
-- (pkg/storage/lru/balancer.go), over the sharded map (pkg/storage/map/map.go). An entry is a
-- pointer into `entries`; the elements of the LRU lists carry such pointers. Mem() is the sum that
-- the background refresher of the map stored last, a part of the state here, and the balancer's own
-- size, which does not change. Each operation runs alone.
pub mod Hits
pub mod Remove
pub mod Rejected
pub mod Stored
pub mod Cleared
pub mod Victim
pub mod Valid
pub mod Change
pub mod Recency
pub mod Evictor
pub mod Refresher
use adv_cache.Prelude.{
  ℕ, suc, ◌+◌, ◌-◌, Bool, true, false, not, ◌&&◌, ◌||◌, Option, none, some, List, ltb, leb, ◌==◌,
  if◌then◌else◌, update, length,
}
use adv_cache.Prelude.Words.{add64, le64}
use adv_cache.Model.Binary.{Bytes}
use adv_cache.Model.Entry.{Entry, Pointer, payload_bytes, is_same_fingerprint}
use adv_cache.Model.Compare.{is_same_payload}
use adv_cache.Ring
use adv_cache.Ring.{Ring}
use adv_cache.Lfu.{TinyLfu, increment, admit}
use adv_cache.Shard
use adv_cache.Shard.{Shard, map_shard_key, total_shards}

pub record Storage : Type 0 where
  pub entries : ℕ → Entry
  pub shards : ℕ → Shard
  -- shards[i].lruList
  pub lru : ℕ → Ring
  pub lfu : TinyLfu
  -- shardedMap.Mem() and balancer.Mem()
  pub map_mem : ℕ
  pub balancer_mem : ℕ
  pub memory_threshold : ℕ

-- unsafe.Sizeof(*e), and the capacity of the payload, which is its length.
unfoldable pub weight : Entry → ℕ
weight e = 64 + length (payload_bytes e)

abbrev pub weights : Storage → ℕ → ℕ
weights s p = weight (s.entries p)

-- shardedMap.Get
unfoldable pub map_get : ℕ → Storage → Option ℕ
map_get key s = Shard.get key (s.shards (map_shard_key key))

-- balancer.Update: the LRU element of the entry moves to the front.
unfoldable pub touch : ℕ → Storage → Storage
touch p s =
    let i = (s.entries p).shard in
    record s {
      lru =
          λ j. if i == j then Ring.move_to_front (s.entries p).lru_list_elem (s.lru j) else s.lru j;
    }

-- balancer.Push
unfoldable pub push : ℕ → Storage → Storage
push p s =
    let i = (s.entries p).shard in
    let (l, e) = Ring.push_front p (s.lru i) in
    record s {
      lru = λ j. if i == j then l else s.lru j;
      entries =
          λ q. if p == q then record (s.entries p) { lru_list_elem = some e } else s.entries q;
    }

-- SwapPayloads at the time `now`: the payloads of the two entries change places.
unfoldable pub swap_payloads : ℕ → ℕ → ℕ → Storage → Storage
swap_payloads now old new s = record s {
  entries = λ q.
      if old == q
      then record (s.entries old) { payload = (s.entries new).payload; refreshed_at = now }
      else if new == q
      then record (s.entries new) { payload = (s.entries old).payload }
      else s.entries q;
}

unfoldable pub update_entry : ℕ → ℕ → ℕ → Storage → Storage
update_entry now old new s = touch old (swap_payloads now old new s)

-- Remove: the element leaves its LRU list, the key leaves the map.
unfoldable pub remove : ℕ → Storage → Storage × ℕ × Bool
remove p s =
    let e = s.entries p in
    let i = map_shard_key e.key in
    let (shard, freed, hit) = Shard.remove (weights s) e.key (s.shards i) in
    (
      record s {
        lru = λ j. if e.shard == j then Ring.remove e.lru_list_elem (s.lru j) else s.lru j;
        shards = λ j. if i == j then shard else s.shards j;
      },
      freed,
      hit,
    )

-- The last entry of an LRU list.
unfoldable pub last_entry : Ring → Option ℕ
last_entry l = elim (Ring.back l) [ none ↦ none | some a ↦ some (l.value a) ]

abbrev first_some : Option ℕ → Option ℕ → Option ℕ
first_some none o = o
first_some (some p) o = some p

-- FindVictim: the shard's own list, the next one, the one before.
unfoldable pub find_victim : ℕ → Storage → Option ℕ
find_victim i s = first_some (last_entry (s.lru i)) (
    first_some (if ltb (i + 1) total_shards then last_entry (s.lru (i + 1)) else none)
      (if ltb 1 i then last_entry (s.lru (i - 1)) else none))

unfoldable pub should_evict : Storage → Bool
should_evict s = le64 s.memory_threshold (add64 s.map_mem s.balancer_mem)

-- shardedMap.Set and balancer.Push
unfoldable pub insert : ℕ → Storage → Storage
insert p s =
    let key = (s.entries p).key in
    let i = map_shard_key key in
    push p (record s {
      shards = λ j. if i == j then Shard.set (weights s) key p (s.shards i) else s.shards j;
    })

-- The admission of a new entry against a victim.
unfoldable pub set_against : ℕ → Option ℕ → Storage → Storage × Bool
set_against p none s = (s, false)
set_against p (some victim) s =
    let (lfu, admitted) = admit (s.entries p).key (s.entries victim).key s.lfu in
    let t = record s { lfu = lfu } in if admitted then (insert p t, true) else (t, false)

unfoldable pub set_new : ℕ → Storage → Storage × Bool
set_new p s =
    if should_evict s
    then set_against p (find_victim (s.entries p).shard s) s
    else (insert p s, true)

-- Get: a hit is an entry under the key with the same fingerprint, and moves to the front.
unfoldable pub get_found : Bytes → Option ℕ → Storage → Storage × Option ℕ
get_found fp none s = (s, none)
get_found fp (some p) s =
    if not (is_same_fingerprint (s.entries p) fp) then (s, none) else (touch p s, some p)

unfoldable pub get : ℕ → Bytes → Storage → Storage × Option ℕ
get key fp s = get_found fp (map_get key s) s

module _ (xxh3 : Bytes → ℕ) (now : ℕ) where
  unfoldable pub set_found : ℕ → Option ℕ → Storage → Storage × Bool
  set_found p none s = set_new p s
  set_found p (some old) s =
      if is_same_fingerprint (s.entries old) (s.entries p).fingerprint
      then (
        (if is_same_payload xxh3 (s.entries old) (s.entries p)
            then touch old s
            else update_entry now old p s),
        true,
      )
      else set_new p (remove old s).0

  unfoldable pub set : ℕ → Storage → Storage × Bool
  set p s =
      let key = (s.entries p).key in
      let t = record s { lfu = increment key s.lfu } in set_found p (map_get key t) t

-- Clear, over all shards.
unfoldable pub clear : Storage → Storage
clear s = record s {
  shards = λ j. if ltb j total_shards then Shard.clear (s.shards j) else s.shards j;
}
