-- ===== src/Tests/Systems.antt =====
-- The running cache at concrete inputs: a request that misses is answered, and a second one hits.
use adv_cache.Prelude.{◌≡◌, refl, true, some, none, [], ◌∷◌, ◌++◌, arith, length}
use adv_cache.Prelude.Words.{le64, add64}
use adv_cache.Model.Entry.{Entry, is_same_fingerprint, bytes_equal}
use adv_cache.Model.Payload.{set_payload}
use adv_cache.Shard
use adv_cache.Shard.{new_shard, map_shard_key}
use adv_cache.Storage
use adv_cache.Storage.{Storage}
use adv_cache.Storage.Evictor.{new_storage, init, register}
use adv_cache.Api.Proxy.{failed, fetched, serve}
use adv_cache.Api.Proxy.Replies.{asked}
use adv_cache.System
use adv_cache.System.{System, Reach, boot, ask, ask_found, answer, load_entry}
use adv_cache.System.Asked.{SystemIsSound}
use adv_cache.System.Reached.{Reach-boot-IsSound}
use adv_cache.Dump.RoundTrip.{restored}
use adv_cache.Dump.Restored.{set_decoded}
use adv_cache.System.Restarted.{Dumped, load_all, restart-Fetched200}
use adv_cache.System.Served.{Fetched200, Reach-boot-Fetched200}
use adv_cache.Tests.Requests.{an_entry, a_request, a_response, an_entry-Packable}
use adv_cache.Tests.Rings.{frequencies}
use adv_cache.Tests.Evictions.{below, In-below, length-below}

abbrev a_blank : Entry
a_blank = record an_entry { payload = none }

abbrev booted : System
booted = boot [] (λ p. a_blank) frequencies 0 1 (below 2048)

abbrev waiting_one : System
waiting_one = ask a_blank booted

waiting_one-waits : waiting_one.waiting ≡ [] ++ 0 ∷ []
unfolding boot ask ask_found below init register new_storage Storage.get Storage.get_found
    Storage.map_get map_shard_key new_shard Shard.get Shard.lookup
waiting_one-waits = refl

abbrev answered_one : System
answered_one =
    answer length 50 0 (fetched a_request a_response) (record waiting_one { waiting = [] ++ [] })

answered_one-Reach : Reach length booted answered_one
unfolding ask ask_found map_shard_key boot
answered_one-Reach =
    System.next (System.next System.here (System.asked a_blank booted refl refl refl (omega arith)))
      (System.answered 50 0 [] [] a_request a_response waiting_one waiting_one-waits
        an_entry-Packable)

answered_one-on : answered_one.controller.enabled ≡ true
unfolding answer boot ask ask_found Storage.get Storage.get_found Storage.map_get map_shard_key
    new_shard Shard.get Shard.lookup below init register new_storage
answered_one-on = refl

answered_one-hit :
    (Storage.get 5 an_entry.fingerprint (asked a_blank answered_one.controller)).1 ≡ some 0
unfolding boot ask ask_found answer set_payload below init register new_storage Storage.get
    Storage.get_found Storage.map_get map_shard_key new_shard Shard.get Shard.lookup Storage.set
    Storage.set_found Storage.set_new Storage.should_evict Storage.insert Storage.push Shard.set
    Shard.count_set Shard.insert is_same_fingerprint bytes_equal le64 add64
answered_one-hit = refl

Reach-boot-IsSound_example : SystemIsSound answered_one
Reach-boot-IsSound_example =
    Reach-boot-IsSound [] (λ p. a_blank) frequencies 0 1 (below 2048) length answered_one
      (λ q. refl) (omega (arith, length-below 2048)) (λ i h. In-below 2048 i h) answered_one-Reach

Reach-boot-Fetched200_example :
    Fetched200 answered_one.log 5 an_entry.fingerprint
      (answered_one.controller.cache.entries 0).refreshed_at
      (serve length 60 (some a_blank) failed failed answered_one.controller).1
unfolding answer boot ask ask_found
Reach-boot-Fetched200_example =
    Reach-boot-Fetched200 length [] (λ p. a_blank) frequencies 0 1 (below 2048) 60 0 a_blank failed
      failed answered_one (λ q. refl) (omega (arith, length-below 2048)) (λ i h. In-below 2048 i h)
      answered_one-Reach answered_one-on answered_one-hit

-- The entry that the first cache held is loaded into a second one.
an_item : Dumped answered_one (restored (answered_one.controller.cache.entries 0))
unfolding boot ask ask_found answer set_payload below init register new_storage Storage.get
    Storage.get_found Storage.map_get map_shard_key new_shard Shard.get Shard.lookup Storage.set
    Storage.set_found Storage.set_new Storage.should_evict Storage.insert Storage.push Shard.set
    Shard.count_set Shard.insert is_same_fingerprint bytes_equal le64 add64
an_item = record { key = 5; address = 0; found = refl; entry = refl }

abbrev restarted : System
restarted =
    load_all length 70 (restored (answered_one.controller.cache.entries 0) ∷ [])
      (boot answered_one.log (λ p. a_blank) frequencies 0 1 (below 2048))

restarted-on : restarted.controller.enabled ≡ true
unfolding boot load_entry set_decoded
restarted-on = refl

restarted-hit : (Storage.get 5 an_entry.fingerprint (asked a_blank restarted.controller)).1 ≡ some 0
unfolding boot ask ask_found answer set_payload below init register new_storage Storage.get
    Storage.get_found Storage.map_get map_shard_key new_shard Shard.get Shard.lookup Storage.set
    Storage.set_found Storage.set_new Storage.should_evict Storage.insert Storage.push Shard.set
    Shard.count_set Shard.insert is_same_fingerprint bytes_equal le64 add64 load_entry set_decoded
restarted-hit = refl

restart-Fetched200_example :
    Fetched200 restarted.log 5 an_entry.fingerprint
      (restarted.controller.cache.entries 0).refreshed_at
      (serve length 80 (some a_blank) failed failed restarted.controller).1
restart-Fetched200_example =
    restart-Fetched200 length (λ p. a_blank) frequencies 0 1 (below 2048) answered_one restarted
      (restored (answered_one.controller.cache.entries 0) ∷ []) 80 70 0 a_blank failed failed
      (λ q. refl) (omega (arith, length-below 2048)) (λ i h. In-below 2048 i h) answered_one-Reach
      (an_item, tt) (omega arith) System.here restarted-on restarted-hit
