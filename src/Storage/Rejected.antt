-- ===== src/Storage/Rejected.antt =====
-- What a Set that is not admitted does (pkg/storage/lru/storage.go).
use mathlib.Core.Bool.{false≢true}
use adv_cache.Prelude.{
  sym, ℕ, ◌≡◌, refl, false, Bool-cases, inl, inr, Option, none, some, arith, ◌==◌, if◌then◌else◌,
  ◌∙◌,
}
use adv_cache.Model.Binary.{Bytes}
use adv_cache.Model.Entry.{is_same_fingerprint}
use adv_cache.Lfu.{increment, admit}
use adv_cache.Shard
use adv_cache.Shard.{map_shard_key}
use adv_cache.Shard.Counters.{Keys}
use adv_cache.Storage.{
  Storage, map_get, remove, find_victim, should_evict, set_against, set_new, set_found, set,
}
use adv_cache.Storage.Remove.{map_get-remove}

set_against-rejected :
    (p : ℕ) (o : Option ℕ) (s : Storage)
    → (set_against p o s).1 ≡ false
    → ((set_against p o s).0.shards ≡ s.shards)
      × ((set_against p o s).0.lru ≡ s.lru)
      × ((set_against p o s).0.entries ≡ s.entries)
unfolding set_against
set_against-rejected p none s h = (refl, refl, refl)
set_against-rejected p (some v) s h =
    elim (Bool-cases (admit (s.entries p).key (s.entries v).key s.lfu).1) [
      | inl in_favour ↦ absurd (false≢true (sym (rw in_favour at h)))
      | inr against ↦ rw against (refl, refl, refl)
    ]

set_new-rejected :
    (p : ℕ) (s : Storage)
    → (set_new p s).1 ≡ false
    → ((set_new p s).0.shards ≡ s.shards)
      × ((set_new p s).0.lru ≡ s.lru)
      × ((set_new p s).0.entries ≡ s.entries)
unfolding set_new
set_new-rejected p s h = elim (Bool-cases (should_evict s)) [
  | inl full ↦
      let k : (set_against p (find_victim (s.entries p).shard s) s).1 ≡ false = rw full at h in
      rw full (set_against-rejected p (find_victim (s.entries p).shard s) s k)
  | inr room ↦ absurd (false≢true (sym (rw room at h)))
]

-- The storage without the entry that Set finds under the key of the new one.
abbrev pub without : Option ℕ → Storage → Storage
without none s = s
without (some old) s = (remove old s).0

set_found-rejected :
    (xxh3 : Bytes → ℕ) (now p : ℕ) (o : Option ℕ) (s : Storage)
    → (set_found xxh3 now p o s).1 ≡ false
    → ((set_found xxh3 now p o s).0.shards ≡ (without o s).shards)
      × ((set_found xxh3 now p o s).0.lru ≡ (without o s).lru)
      × ((set_found xxh3 now p o s).0.entries ≡ s.entries)
unfolding set_found remove
set_found-rejected xxh3 now p none s h = set_new-rejected p s h
set_found-rejected xxh3 now p (some old) s h =
    elim (Bool-cases (is_same_fingerprint (s.entries old) (s.entries p).fingerprint)) [
      | inl same ↦ absurd (false≢true (sym (rw same at h)))
      | inr collision ↦
          let k : (set_new p (remove old s).0).1 ≡ false = rw collision at h in
          rw collision (set_new-rejected p (remove old s).0 k)
    ]

without-increment :
    (key : ℕ) (o : Option ℕ) (s : Storage)
    → ((without o (record s { lfu = increment key s.lfu })).shards ≡ (without o s).shards)
      × ((without o (record s { lfu = increment key s.lfu })).lru ≡ (without o s).lru)
unfolding remove
without-increment key none s = (refl, refl)
without-increment key (some old) s = (refl, refl)

map_get-without :
    (key j : ℕ) (o : Option ℕ) (s : Storage)
    → map_get key s ≡ o
    → ((i : ℕ) → Keys (s.shards i).items)
    → ((old : ℕ) → o ≡ some old → (s.entries old).key ≡ key)
    → map_get j (without o s) ≡ (if key == j then none else map_get j s)
map_get-without key j none s e keys own = ground arith
map_get-without key j (some old) s e keys own = map_get-remove old j s keys ∙ rw (own old refl) refl

-- When Set refuses an entry, its key is not in the map afterwards: an entry that was stored under it
-- has been removed from the map and from its LRU list, every other key is as before, and but for
-- that removal the map, the lists and the entries are as they were. Before, the keys of each shard
-- are single, and the entry stored under the key carries it.
pub set-rejected :
    (xxh3 : Bytes → ℕ) (now p j : ℕ) (s : Storage)
    → ((i : ℕ) → Keys (s.shards i).items)
    → ((old : ℕ) → map_get (s.entries p).key s ≡ some old → (s.entries old).key ≡ (s.entries p).key)
    → (set xxh3 now p s).1 ≡ false
    → (map_get j (set xxh3 now p s).0 ≡ (if (s.entries p).key == j then none else map_get j s))
      × ((set xxh3 now p s).0.shards ≡ (without (map_get (s.entries p).key s) s).shards)
      × ((set xxh3 now p s).0.lru ≡ (without (map_get (s.entries p).key s) s).lru)
      × ((set xxh3 now p s).0.entries ≡ s.entries)
unfolding set map_get
set-rejected xxh3 now p j s keys own h =
    let key = (s.entries p).key in
    let o = map_get key s in
    let t = record s { lfu = increment key s.lfu } in
    let (shards, lru, entries) = set_found-rejected xxh3 now p o t h in
    let (a, b) = without-increment key o s in
    let at = map_get-without key j o s refl keys own in
    ((λ i. Shard.get j ((shards ∙ a) i (map_shard_key j))) ∙ at, shards ∙ a, lru ∙ b, entries)
