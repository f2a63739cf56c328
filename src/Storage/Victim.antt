-- ===== src/Storage/Victim.antt =====
-- Where FindVictim looks (pkg/storage/lru/balancer.go).
use adv_cache.Prelude.{◌≡◌, none}
use adv_cache.Storage.{Storage, last_entry, find_victim}

-- For shard 1 only the lists of the shards 1 and 2 are looked at: when these are empty there is no
-- victim, whatever the list of shard 0 holds.
pub find_victim-skips_zero :
    (s : Storage)
    → last_entry (s.lru 1) ≡ none
    → last_entry (s.lru 2) ≡ none
    → find_victim 1 s ≡ none
unfolding find_victim
find_victim-skips_zero s h k = rw (h, k)
