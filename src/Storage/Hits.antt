-- ===== src/Storage/Hits.antt =====
-- What a Get finds after a Set (pkg/storage/lru/storage.go).
use mathlib.Core.Bool.{false≢true}
use adv_cache.Prelude.{
  ℕ, ◌≡◌, refl, ◌∙◌, true, Bool-cases, Option-cases, inl, inr, ◌⊎◌, Option, none, some, arith,
}
use adv_cache.Model.Binary.{Bytes}
use adv_cache.Model.Entry.{bytes_equal, is_same_fingerprint}
use adv_cache.Model.Compare.{is_same_payload}
use adv_cache.Lfu.{increment, admit}
use adv_cache.Shard
use adv_cache.Shard.{Shard, map_shard_key}
use adv_cache.Shard.Counters.{lookup-insert}
use adv_cache.Model.Equal.{bytes_equal_refl}
use adv_cache.Storage.{
  Storage, weights, map_get, touch, push, swap_payloads, update_entry, remove, find_victim,
  should_evict, insert, set_against, set_new, get_found, get, set_found, set,
}

get-set_shard : (w : ℕ → ℕ) (key p : ℕ) (h : Shard) → Shard.get key (Shard.set w key p h) ≡ some p
unfolding Shard.get Shard.set Shard.count_set
get-set_shard w key p h = elim (Option-cases (Shard.lookup key h.items)) [
  | inl e ↦ rw (e, Shard.count_set) (ground (arith, lookup-insert key key p h.items))
  | inr (old, e) ↦ rw (e, Shard.count_set) (ground (arith, lookup-insert key key p h.items))
]

pub map_get-insert : (p : ℕ) (s : Storage) → map_get (s.entries p).key (insert p s) ≡ some p
unfolding map_get insert push
map_get-insert p s =
    let key = (s.entries p).key in
    ground (arith, get-set_shard (weights s) key p (s.shards (map_shard_key key)))

entry-insert :
    (p : ℕ) (s : Storage)
    → (((insert p s).entries p).fingerprint ≡ (s.entries p).fingerprint)
      × (((insert p s).entries p).payload ≡ (s.entries p).payload)
unfolding insert push
entry-insert p s = ground arith

set_against-inserts :
    (p : ℕ) (o : Option ℕ) (s : Storage)
    → (set_against p o s).1 ≡ true
    → (u : Storage) × ((set_against p o s).0 ≡ insert p u) × (u.entries ≡ s.entries)
unfolding set_against
set_against-inserts p none s h = cc
set_against-inserts p (some v) s h =
    let a = admit (s.entries p).key (s.entries v).key s.lfu in
    elim (Bool-cases a.1) [
      | inl in_favour ↦ (record s { lfu = a.0 }, rw in_favour, refl)
      | inr against ↦ absurd (false≢true (rw against at h))
    ]

-- An insertion happens in a state that differs from the old one only in the frequencies.
pub set_new-inserts :
    (p : ℕ) (s : Storage)
    → (set_new p s).1 ≡ true
    → (u : Storage) × ((set_new p s).0 ≡ insert p u) × (u.entries ≡ s.entries)
unfolding set_new
set_new-inserts p s h = elim (Bool-cases (should_evict s)) [
  | inl full ↦
      let k : (set_against p (find_victim (s.entries p).shard s) s).1 ≡ true = rw full at h in
      rw full (set_against-inserts p (find_victim (s.entries p).shard s) s k)
  | inr room ↦ rw room (s, refl, refl)
]

-- An entry under its key, with its fingerprint, is a hit.
pub get-map_get :
    (key : ℕ) (fp : Bytes) (q : ℕ) (s : Storage)
    → map_get key s ≡ some q
    → (s.entries q).fingerprint ≡ fp
    → (get key fp s).1 ≡ some q
unfolding get get_found is_same_fingerprint
get-map_get key fp q s e f = rw (e, get_found) (rw f (rw (bytes_equal_refl fp)))

-- The entry that a Get finds after a Set of `p`: it has the new payload, or the payload that it had
-- already counted as the same.
abbrev pub Served : (Bytes → ℕ) → Storage → ℕ → Storage → Type 0
Served xxh3 s p s' =
    (q : ℕ) × ((get (s.entries p).key (s.entries p).fingerprint s').1 ≡ some q)
    × (((s'.entries q).payload ≡ (s.entries p).payload)
        ⊎ (is_same_payload xxh3 (s.entries q) (s.entries p) ≡ true))

set_new-Served :
    (xxh3 : Bytes → ℕ) (p : ℕ) (s : Storage)
    → (set_new p s).1 ≡ true
    → Served xxh3 s p (set_new p s).0
set_new-Served xxh3 p s h =
    let (u, e, same) = set_new-inserts p s h in
    let (fp, pl) = entry-insert p u in
    rw (e, ← same)
      (
        p,
        get-map_get (u.entries p).key (u.entries p).fingerprint p (insert p u) (map_get-insert p u)
            fp,
        inl pl,
      )

get-map_get_same :
    (key : ℕ) (fp : Bytes) (q : ℕ) (s : Storage)
    → map_get key s ≡ some q
    → bytes_equal (s.entries q).fingerprint fp ≡ true
    → (get key fp s).1 ≡ some q
unfolding get get_found is_same_fingerprint
get-map_get_same key fp q s e f = rw (e, get_found) (rw f)

fingerprint-swap_payloads :
    (now old new q : ℕ) (s : Storage)
    → ((swap_payloads now old new s).entries q).fingerprint ≡ (s.entries q).fingerprint
unfolding swap_payloads
fingerprint-swap_payloads now old new q s = ground arith

payload-swap_payloads :
    (now old new : ℕ) (s : Storage)
    → ((swap_payloads now old new s).entries old).payload ≡ (s.entries new).payload
unfolding swap_payloads
payload-swap_payloads now old new s = ground arith

touch-Served :
    (xxh3 : Bytes → ℕ) (p old : ℕ) (s : Storage)
    → map_get (s.entries p).key s ≡ some old
    → is_same_fingerprint (s.entries old) (s.entries p).fingerprint ≡ true
    → is_same_payload xxh3 (s.entries old) (s.entries p) ≡ true
    → Served xxh3 s p (touch old s)
unfolding touch map_get is_same_fingerprint
touch-Served xxh3 p old s e f h =
    (old, get-map_get_same (s.entries p).key (s.entries p).fingerprint old (touch old s) e f, inr h)

map_get-update_entry :
    (now old new key : ℕ) (s : Storage) → map_get key (update_entry now old new s) ≡ map_get key s
unfolding map_get update_entry touch swap_payloads
map_get-update_entry now old new key s = refl

update-Served :
    (xxh3 : Bytes → ℕ) (now p old : ℕ) (s : Storage)
    → map_get (s.entries p).key s ≡ some old
    → is_same_fingerprint (s.entries old) (s.entries p).fingerprint ≡ true
    → Served xxh3 s p (update_entry now old p s)
unfolding update_entry touch is_same_fingerprint
update-Served xxh3 now p old s e f = (
  old,
  get-map_get_same (s.entries p).key (s.entries p).fingerprint old (update_entry now old p s)
      (map_get-update_entry now old p (s.entries p).key s ∙ e)
      (rw (fingerprint-swap_payloads now old p old s) f),
  inl (payload-swap_payloads now old p s),
)

set_found-Served :
    (xxh3 : Bytes → ℕ) (now p : ℕ) (o : Option ℕ) (s : Storage)
    → map_get (s.entries p).key s ≡ o
    → (set_found xxh3 now p o s).1 ≡ true
    → Served xxh3 s p (set_found xxh3 now p o s).0
unfolding set_found remove
set_found-Served xxh3 now p none s e h = set_new-Served xxh3 p s h
set_found-Served xxh3 now p (some old) s e h =
    elim (Bool-cases (is_same_fingerprint (s.entries old) (s.entries p).fingerprint)) [
      | inl same ↦ elim (Bool-cases (is_same_payload xxh3 (s.entries old) (s.entries p))) [
        | inl equal ↦ rw (same, equal) (touch-Served xxh3 p old s e same equal)
        | inr changed ↦ rw (same, changed) (update-Served xxh3 now p old s e same)
      ]
      | inr collision ↦ rw collision (set_new-Served xxh3 p (remove old s).0 (rw collision at h))
    ]

-- After a Set that reports success, a Get with the key and the fingerprint of the new entry finds
-- an entry, and this entry has the new payload, or had before a payload that IsSamePayload takes
-- for the same.
pub set-Served :
    (xxh3 : Bytes → ℕ) (now p : ℕ) (s : Storage)
    → (set xxh3 now p s).1 ≡ true
    → Served xxh3 s p (set xxh3 now p s).0
unfolding set
set-Served xxh3 now p s h =
    let t = record s { lfu = increment (s.entries p).key s.lfu } in
    set_found-Served xxh3 now p (map_get (s.entries p).key t) t refl h
