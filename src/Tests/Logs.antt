-- ===== src/Tests/Logs.antt =====
-- Walks over the shards, printed sizes and the refresher's log at concrete inputs.
use adv_cache.Prelude.{◌≡◌, refl, false, List, [], ◌∷◌, arith}
use adv_cache.Shard.Walk.{Walk, launched, finished, Reach, here, next, Reach-returned}
use adv_cache.Storage.Refresher.Log.{reset, Event, counted, each_5_secs, each_hour}

abbrev both_ended : Walk
both_ended = record { next = 2; running = []; waiting = 0; stopped = false }

both_ended-Reach : Reach 2 both_ended
both_ended-Reach =
    next
      (next (next (next here (launched _ refl (omega arith))) (finished [] [] 0 _ refl))
        (launched _ refl (omega arith)))
      (finished [] [] 1 _ refl)

Reach-returned_example :
    (both_ended.next ≡ 2) × (both_ended.running ≡ []) × (both_ended.stopped ≡ false)
Reach-returned_example = Reach-returned both_ended-Reach refl

abbrev events : List Event
events =
    each_hour
    ∷ counted (record reset { scans = 4; found = 1 })
    ∷ each_5_secs
    ∷ counted (record reset { success = 2; scans = 3 })
    ∷ []
