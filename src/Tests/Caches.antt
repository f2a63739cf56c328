-- ===== src/Tests/Caches.antt =====
-- The storage and the handlers at concrete inputs; the hash is the length.
use adv_cache.Prelude.{
  ℕ, ◌+◌, ◌<◌, ◌≡◌, ◌↔◌, List, refl, true, some, none, [], ◌∷◌, arith, length, if◌then◌else◌, ◌==◌,
}
use adv_cache.Prelude.Words.{le64, add64}
use adv_cache.Model.Binary.{Bytes}
use adv_cache.Model.Entry.{Entry, bytes_equal, is_same_fingerprint}
use adv_cache.Model.Payload.{set_payload}
use adv_cache.Ring
use adv_cache.Ring.{new_ring}
use adv_cache.Lfu.{TinyLfu, new_count_min_sketch, new_doorkeeper}
use adv_cache.Shard
use adv_cache.Shard.{Shard, new_shard, map_shard_key}
use adv_cache.Shard.Counters.{Keys}
use adv_cache.Storage
use adv_cache.Storage.{
  Storage, weight, weights, map_get, get, set, set_found, set_new, should_evict, set_against,
  insert, push, remove, find_victim, last_entry, get_found,
}
use adv_cache.Storage.Hits.{Served, set-Served}
use adv_cache.Storage.Rejected.{set-rejected}
use adv_cache.Storage.Cleared.{map_get-clear}
use adv_cache.Api.Proxy.{Controller, Fetched, failed, fetched, from_response, panics, serve}
use adv_cache.Api.Proxy.Replies.{RequestPanics, serve-panics}
use adv_cache.Api.Proxy.Fresh.{serve-serve}
use adv_cache.Api.Clear.{
  new_clear_controller, token_ttl, handle_clear, give_token, use_token, Call, run,
}
use adv_cache.Api.Clear.Calls.{AllGranted, run-AllGranted}
use adv_cache.Tests.Requests.{an_entry, a_request, a_response, an_entry-Packable}

abbrev frequencies : TinyLfu
frequencies = record {
  curr = new_count_min_sketch (λ i. i);
  prev = new_count_min_sketch (λ i. i);
  door = new_doorkeeper 5 6;
}

-- Entry 1 has a payload of two bytes, the others one of three; the storage is empty.
abbrev some_entries : ℕ → Entry
some_entries p = if p == 1 then an_entry else record an_entry { payload = some (3 ∷ 4 ∷ 5 ∷ []) }

abbrev empty_storage : ℕ → Storage
empty_storage threshold = record {
  entries = some_entries;
  shards = λ i. new_shard;
  lru = new_ring;
  lfu = frequencies;
  map_mem = 0;
  balancer_mem = 0;
  memory_threshold = threshold;
}

abbrev with_one : Storage
with_one = insert 1 (empty_storage 1000)

set-Served_example : Served length with_one 2 (set length 50 2 with_one).0
unfolding set set_found map_get insert push map_shard_key new_shard Shard.get Shard.set
    Shard.count_set Shard.lookup Shard.insert is_same_fingerprint bytes_equal Ring.push_front
    Ring.insert_front new_ring
set-Served_example = set-Served length 50 2 with_one refl

with_one-Keys : (i : ℕ) → Keys (with_one.shards i).items
unfolding insert push map_shard_key new_shard Shard.set Shard.count_set Shard.lookup Shard.insert
with_one-Keys i = ground arith

-- Entry 1 is stored under the key of the other entries, with another fingerprint, and there is no
-- room.
abbrev collided : Storage
collided =
    insert 1 (record (empty_storage 0) { entries = λ p. record an_entry { fingerprint = p ∷ [] } })

collided-Keys : (i : ℕ) → Keys (collided.shards i).items
unfolding insert push map_shard_key new_shard Shard.set Shard.count_set Shard.lookup Shard.insert
collided-Keys i = ground arith

collided-key : (p : ℕ) → (collided.entries p).key ≡ an_entry.key
unfolding insert push map_shard_key
collided-key p = ground arith

set-rejected_example :
    (map_get an_entry.key (set length 50 2 collided).0 ≡ none)
    × ((set length 50 2 collided).0.shards ≡ (remove 1 collided).0.shards)
    × ((set length 50 2 collided).0.lru ≡ (remove 1 collided).0.lru)
    × ((set length 50 2 collided).0.entries ≡ collided.entries)
unfolding set set_found set_new set_against should_evict le64 add64 find_victim last_entry map_get
    insert push map_shard_key new_shard new_ring Ring.back Ring.push_front Ring.insert_front
    Shard.get Shard.set Shard.count_set Shard.lookup Shard.insert is_same_fingerprint bytes_equal
    remove Ring.remove adv_cache.Prelude.Words.sub64
set-rejected_example =
    set-rejected length 50 2 an_entry.key collided collided-Keys (λ old h. collided-key old) refl

map_get-clear_example :
    (map_get 5 (Storage.clear with_one) ≡ none)
    × (Shard.real_mem 2048 (Storage.clear with_one).shards ≡ 0)
    × (Shard.real_len 2048 (Storage.clear with_one).shards ≡ 0)
    × ((Storage.clear with_one).lru ≡ with_one.lru)
map_get-clear_example = map_get-clear 5 with_one

abbrev pub controller : Storage → Controller
controller s = record {
  cache = s;
  enabled = true;
  next_entry = 9;
  total = 0;
  hits = 0;
  misses = 0;
  proxied = 0;
  errered = 0;
}

abbrev not_found : Fetched
not_found = fetched a_request (record a_response { status = 404 })

serve-panics_example :
    ((serve length 50 (some an_entry) not_found failed (controller (empty_storage 1000))).1
      ≡ panics)
    ↔ RequestPanics (some an_entry) not_found (controller (empty_storage 1000))
serve-panics_example =
    serve-panics length 50 (some an_entry) not_found failed (controller (empty_storage 1000))

abbrev pub hit_storage : Storage
hit_storage =
    insert 1
      (record (empty_storage 1000) { entries = λ p. set_payload 77 a_request a_response an_entry })

abbrev token : Bytes
token = 1 ∷ 2 ∷ []

-- The last call first: a token is given, used too late, given again, and used.
abbrev calls : List Call
calls =
    record { now = 70 + token_ttl; raw = 3 ∷ []; fresh = none }
    ∷ record { now = 60 + token_ttl; raw = []; fresh = some (3 ∷ []) }
    ∷ record { now = 50 + token_ttl; raw = token; fresh = none }
    ∷ record { now = 50; raw = []; fresh = some token }
    ∷ []

run-AllGranted_example :
    ((run calls (new_clear_controller with_one)).0.db ≡ Storage.clear with_one)
    × AllGranted (run calls (new_clear_controller with_one)).1
unfolding run handle_clear give_token use_token bytes_equal
run-AllGranted_example = run-AllGranted calls with_one

serve-serve_example :
    (serve length 80
      (some (record an_entry { refreshed_at = 80 }))
      failed
      failed
      (serve length 50
        (some an_entry)
        (fetched a_request a_response)
        failed
        (controller (empty_storage 1000))).0).1
    ≡ from_response 200 a_response.headers a_response.body 50
unfolding get get_found map_get map_shard_key new_shard Shard.get Shard.lookup set set_found set_new
    should_evict le64 add64 set_payload
serve-serve_example =
    serve-serve length 50 80 an_entry (record an_entry { refreshed_at = 80 }) a_request a_response
      failed failed failed (controller (empty_storage 1000)) refl refl refl an_entry-Packable refl
      refl refl
