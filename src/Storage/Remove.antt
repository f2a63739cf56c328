-- ===== src/Storage/Remove.antt =====
-- What Remove and an update do (pkg/storage/lru/storage.go).
use adv_cache.Prelude.{
  ℕ, ◌≡◌, ◌≢◌, refl, true, false, Option-cases, inl, inr, none, some, arith, ◌==◌, if◌then◌else◌,
}
use adv_cache.Model.Binary.{Bytes}
use adv_cache.Model.Entry.{is_same_fingerprint, payload_bytes}
use adv_cache.Model.Compare.{is_same_payload}
use adv_cache.Shard
use adv_cache.Shard.{Shard, map_shard_key, total_shards}
use adv_cache.Shard.Counters.{Keys, lookup-delete, lookup-delete_ne}
use adv_cache.Storage.{
  Storage, weight, weights, map_get, touch, swap_payloads, update_entry, remove, set_found, set,
}

pub get-remove_shard :
    (w : ℕ → ℕ) (key : ℕ) (h : Shard) → Keys h.items → Shard.get key (Shard.remove w key h).0 ≡ none
unfolding Shard.get Shard.remove Shard.remove_found
get-remove_shard w key h k = elim (Option-cases (Shard.lookup key h.items)) [
  | inl e ↦ rw (e, Shard.remove_found) e
  | inr (p, e) ↦ rw (e, Shard.remove_found) (lookup-delete key h.items k)
]

pub get-remove_shard_ne :
    (w : ℕ → ℕ) (key j : ℕ) (h : Shard)
    → key ≢ j
    → Shard.get j (Shard.remove w key h).0 ≡ Shard.get j h
unfolding Shard.get Shard.remove Shard.remove_found
get-remove_shard_ne w key j h ne = elim (Option-cases (Shard.lookup key h.items)) [
  | inl e ↦ rw (e, Shard.remove_found)
  | inr (p, e) ↦ rw (e, Shard.remove_found) (lookup-delete_ne key j h.items ne)
]

-- After Remove of an entry, its key is not in the map, and every other key is as before; the keys of
-- each shard are single before.
pub map_get-remove :
    (p j : ℕ) (s : Storage)
    → ((i : ℕ) → Keys (s.shards i).items)
    → map_get j (remove p s).0 ≡ (if (s.entries p).key == j then none else map_get j s)
unfolding map_get remove
map_get-remove p j s k =
    let key = (s.entries p).key in
    let i = map_shard_key key in
    ground (
      arith,
      get-remove_shard (weights s) key (s.shards i) (k i),
      get-remove_shard_ne (weights s) key j (s.shards i),
    )

-- A Set over an entry with the same fingerprint and another payload leaves the counters of the map
-- as they were, although the weight of the stored entry is now that of the new payload.
pub set-uncounted :
    (xxh3 : Bytes → ℕ) (now p old : ℕ) (s : Storage)
    → map_get (s.entries p).key s ≡ some old
    → is_same_fingerprint (s.entries old) (s.entries p).fingerprint ≡ true
    → is_same_payload xxh3 (s.entries old) (s.entries p) ≡ false
    → ((set xxh3 now p s).0.shards ≡ s.shards)
      × (weights (set xxh3 now p s).0 old ≡ weight (s.entries p))
unfolding set set_found update_entry touch swap_payloads weight payload_bytes map_get
set-uncounted xxh3 now p old s e f h = rw (e, set_found) (rw (f, h) (refl, ground arith))
