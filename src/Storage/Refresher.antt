-- ===== src/Storage/Refresher.antt =====
-- The refresher (pkg/storage/lru/refresher.go) with the random choice of an entry
-- (pkg/storage/map/map.go: Rnd, pkg/storage/map/shard.go: GetRand). The choice of a worker (which
-- shard, and which item the walk over a Go map gives first), the number drawn, the clock and the
-- upstream's answer are arguments. A goroutine `go refresh(entry)` that has its token waits in
-- `pending`; the four workers share the counters. A run-time panic is `none`.
pub mod Outcomes
pub mod Steps
pub mod Log
use adv_cache.Prelude.{
  ℕ, ◌+◌, ◌%◌, Bool, true, false, Option, none, some, List, [], ◌∷◌, ◌++◌, ◌==◌, if◌then◌else◌,
  update, length, get_elem?,
}
use adv_cache.Upstream.Float.{Float64}
use adv_cache.Model.Entry.{Entry}
use adv_cache.Model.Payload.{
  Request, Response, Unpacked, PayloadResult, unpacked, payload_is_empty, payload, set_payload,
}
use adv_cache.Model.Refresh.{Settings, RuleRefresh, should_be_refreshed}
use adv_cache.Shard.{Shard, total_shards}
use adv_cache.Storage.{Storage}

-- GetRand: the first item of a walk in an order that the runtime chooses.
unfoldable pub get_rand : ℕ → Shard → Option ℕ
get_rand pick s = elim (get_elem? s.items (pick % length s.items)) [
  | none ↦ none
  | some x ↦ some (x.1)
]

-- Rnd, with rand.Intn below the number of shards.
unfoldable pub rnd : ℕ → ℕ → Storage → Option ℕ
unfolding get_rand
rnd drawn pick s = get_rand pick (s.shards (drawn % total_shards))

-- What the upstream answers a request that is built from a payload.
pub data Fetched : Type 0 where
  failed : Fetched
  fetched : Request → Response → Fetched

-- What `refresh` returns: nil, the error of the payload or of the fetch, or
-- ErrRefreshUpstreamBadStatusCode.
pub data Result : Type 0 where
  refreshed payload_error fetch_error bad_status : Result

unfoldable pub store_fetched : ℕ → ℕ → Fetched → Storage → Storage × Result
store_fetched now p failed s = (s, fetch_error)
store_fetched now p (fetched req resp) s =
    if resp.status == 200
    then (
      record s { entries = update s.entries p (set_payload now req resp (s.entries p)) },
      refreshed,
    )
    else (s, bad_status)

unfoldable pub refresh_payload :
    ℕ → ℕ → (Unpacked → Fetched) → Option PayloadResult → Storage → Option (Storage × Result)
refresh_payload now p fetch none s = none
refresh_payload now p fetch (some payload_is_empty) s = some (s, payload_error)
refresh_payload now p fetch (some (unpacked u)) s = some (store_fetched now p (fetch u) s)

unfoldable pub refresh : ℕ → ℕ → (Unpacked → Fetched) → Storage → Option (Storage × Result)
refresh now p fetch s = refresh_payload now p fetch (payload (s.entries p)) s

-- The storage, the goroutines that wait to refresh an entry, and the counters.
pub record Refresh : Type 0 where
  pub storage : Storage
  pub pending : List ℕ
  pub scans : ℕ
  pub scans_found : ℕ
  pub success : ℕ
  pub failures : ℕ

-- A worker has a token to scan: it starts a refresh if an entry is found and due.
module _ (fl : Float64) (settings : Settings fl)
    (rule_refresh : Entry → Option (RuleRefresh fl)) where
  unfoldable pub found_due : fl.F → ℕ → Option ℕ → Storage → Option ℕ
  found_due drawn now none s = none
  found_due drawn now (some p) s =
      let e = s.entries p in
      if should_be_refreshed fl drawn now settings (rule_refresh e) e then some p else none

  unfoldable pub scan : fl.F → ℕ → ℕ → ℕ → Refresh → Refresh
  scan drawn now shard pick r =
      let t = record r { scans = r.scans + 1 } in
      elim (found_due drawn now (rnd shard pick r.storage) r.storage) [
        | none ↦ t
        | some p ↦ record t { scans_found = r.scans_found + 1; pending = p ∷ r.pending }
      ]

-- A goroutine ends: the counter of its result grows.
unfoldable pub count : Storage × Result → Refresh → Refresh
count (s, refreshed) r = record r { storage = s; success = r.success + 1 }
count (s, payload_error) r = record r { storage = s; failures = r.failures + 1 }
count (s, fetch_error) r = record r { storage = s; failures = r.failures + 1 }
count (s, bad_status) r = record r { storage = s; failures = r.failures + 1 }
