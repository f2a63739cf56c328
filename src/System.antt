-- ===== src/System.antt =====
-- The cache as it runs: the main handler (internal/cache/api/cache.go), the switch
-- (internal/cache/api/on_off.go), the refresher and the evictor (pkg/storage/lru) and the reader of
-- the memory sums (pkg/storage/map/map.go) on one storage. A request is two steps, since its fetch
-- takes time: `ask`, up to upstream.Fetch, and `answer`, from there on. Each step runs alone. Clear is
-- no step here, since it leaves the LRU lists as they are. `log` keeps what the upstream has answered;
-- the code has no such field.
pub mod Asked
pub mod Stored
pub mod Sound
pub mod Reached
pub mod Served
pub mod Restarted
use adv_cache.Prelude.{
  ℕ, ◌+◌, ◌^◌, ◌<◌, ◌≡◌, ◌⊎◌, Bool, true, Option, none, some, List, [], ◌∷◌, ◌++◌, ◌==◌,
  if◌then◌else◌, update,
}
use adv_cache.Model.Binary.{Bytes}
use adv_cache.Model.Entry.{Entry}
use adv_cache.Model.Payload.{Request, Response, pack, set_payload}
use adv_cache.Model.Payload.RoundTrip.{Packable}
use adv_cache.Lfu.{TinyLfu}
use adv_cache.Ring.{Ring}
use adv_cache.Shard.{map_shard_key}
use adv_cache.Storage
use adv_cache.Storage.{Storage}
use adv_cache.Storage.Evictor.{Evict, new_storage, init, refresh_mem, evict_until_within_limit}
use adv_cache.Storage.Refresher
use adv_cache.Storage.Refresher.{refresh, refreshed}
use adv_cache.Dump.Restored.{set_decoded}
use adv_cache.Api.Proxy.{Controller, Fetched, failed, fetched}
use adv_cache.Api.Switch.{set_enabled}

-- What the upstream answered for an entry of this key and fingerprint.
pub record Origin : Type 0 where
  pub key : ℕ
  pub fingerprint : Bytes
  pub request : Request
  pub response : Response

-- The upstream answered with status 200 for this key and fingerprint, and the answer packs to `b`.
pub record Answered (k : ℕ) (fp b : Bytes) (o : Origin) : Type 0 where
  pub key : o.key ≡ k
  pub fingerprint : o.fingerprint ≡ fp
  pub good : o.response.status ≡ 200
  pub packable : Packable o.request o.response
  pub packed : pack o.request o.response ≡ b

abbrev pub Logged : List Origin → ℕ → Bytes → Bytes → Type 0
Logged [] key fp b = ⊥
Logged (o ∷ log) key fp b = Answered key fp b o ⊎ Logged log key fp b

-- `waiting` are the addresses of the requested entries whose fetch is under way, `mem_list` is the
-- balance list.
pub record System : Type 0 where
  pub controller : Controller
  pub mem_list : Ring
  pub waiting : List ℕ
  pub log : List Origin

abbrev pub set_cache : Storage → System → System
set_cache cache s = record s { controller = record s.controller { cache = cache } }

-- handleTroughCache up to the fetch, for the entry that NewEntry returns.
unfoldable pub ask_found : Option ℕ → System → System
ask_found none s =
    let c = s.controller in
    record s {
      controller = record c { next_entry = c.next_entry + 1; misses = c.misses + 1 };
      waiting = c.next_entry ∷ s.waiting;
    }
ask_found (some q) s =
    let c = s.controller in
    record s { controller = record c { next_entry = c.next_entry + 1; hits = c.hits + 1 } }

unfoldable pub ask : Entry → System → System
ask e s =
    let c = s.controller in
    let cache = record c.cache { entries = update c.cache.entries c.next_entry e } in
    let (cache', found) = Storage.get e.key e.fingerprint cache in
    ask_found found (record s { controller = record c { total = c.total + 1; cache = cache' } })

-- handleTroughCache from the fetch on, for the requested entry at the address `p`.
unfoldable pub answer : (Bytes → ℕ) → ℕ → ℕ → Fetched → System → System
answer xxh3 now p failed s = record s {
  controller = record s.controller { errered = s.controller.errered + 1 };
}
answer xxh3 now p (fetched req resp) s =
    let d = s.controller.cache in
    let e = d.entries p in
    let filled = record d { entries = update d.entries p (set_payload now req resp e) } in
    if resp.status == 200
    then record (set_cache (Storage.set xxh3 now p filled).0 s) {
      log =
          record { key = e.key; fingerprint = e.fingerprint; request = req; response = resp }
          ∷ s.log;
    }
    else s

-- What an answer that the refresher stored for the entry `p` leaves.
abbrev pub renewed : ℕ → Request → Response → Storage → System → System
renewed p req resp cache s =
    let e = s.controller.cache.entries p in
    record (set_cache cache s) {
      log =
          record { key = e.key; fingerprint = e.fingerprint; request = req; response = resp }
          ∷ s.log;
    }

abbrev pub evict_of : System → Evict
evict_of s = record { db = s.controller.cache; mem_list = s.mem_list; items = 0; mem = 0 }

-- An entry of a dump file is set in the storage, as a new object.
unfoldable pub load_entry : (Bytes → ℕ) → ℕ → Entry → System → System
load_entry xxh3 now e s =
    let c = s.controller in
    let (cache, next_entry) = set_decoded xxh3 now e (c.cache, c.next_entry) in
    record s { controller = record c { cache = cache; next_entry = next_entry } }

-- The start: the shards are registered in any order, no entry has a payload, and `earlier` is
-- what the upstream answered in the runs before.
unfoldable pub boot : List Origin → (ℕ → Entry) → TinyLfu → ℕ → ℕ → List ℕ → System
boot earlier entries lfu balancer_mem memory_threshold shards =
    let e = init shards (new_storage entries lfu balancer_mem memory_threshold) in
    record {
      controller = record {
        cache = e.db;
        enabled = true;
        next_entry = 0;
        total = 0;
        hits = 0;
        misses = 0;
        proxied = 0;
        errered = 0;
      };
      mem_list = e.mem_list;
      waiting = [];
      log = earlier;
    }

-- The steps. Requests have fewer than 2^63 entries in all, since their addresses are distinct.
module _ (xxh3 : Bytes → ℕ) where
  pub data Step : System → System → Type 0 where
    asked :
        (e : Entry) (s : System)
        → s.controller.enabled ≡ true
        → e.payload ≡ none
        → e.shard ≡ map_shard_key e.key
        → s.controller.next_entry + 1 < 2 ^ 63
        → Step s (ask e s)
    answered :
        (now p : ℕ) (before after : List ℕ) (req : Request) (resp : Response) (s : System)
        → s.waiting ≡ before ++ p ∷ after
        → Packable req resp
        → Step s (answer xxh3 now p (fetched req resp) (record s { waiting = before ++ after }))
    unanswered :
        (now p : ℕ) (before after : List ℕ) (s : System)
        → s.waiting ≡ before ++ p ∷ after
        → Step s (answer xxh3 now p failed (record s { waiting = before ++ after }))
    refreshed_entry :
        (now p : ℕ) (req : Request) (resp : Response) (t : Storage) (s : System)
        → refresh now p (λ u. Refresher.fetched req resp) s.controller.cache ≡ some (t, refreshed)
        → Packable req resp
        → Step s (renewed p req resp t s)
    evicted :
        (memory_threshold fuel : ℕ) (r : Evict) (s : System)
        → evict_until_within_limit memory_threshold fuel (evict_of s) ≡ some r
        → Step s (record (set_cache r.db s) { mem_list = r.mem_list })
    loaded_entry :
        (now : ℕ) (e : Entry) (b : Bytes) (s : System)
        → e.payload ≡ some b
        → Logged s.log e.key e.fingerprint b
        → e.shard ≡ map_shard_key e.key
        → s.controller.next_entry + 1 < 2 ^ 63
        → Step s (load_entry xxh3 now e s)
    mem_refreshed : (s : System) → Step s (set_cache (refresh_mem s.controller.cache) s)
    switched :
        (v : Bool) (s : System) → Step s (record s { controller = set_enabled v s.controller })

  pub data Reach (s : System) : System → Type 0 where
    here : Reach s s
    next : {t u : System} → Reach s t → Step t u → Reach s u
