-- ===== src/Storage/Stored.antt =====
-- What a Set after a miss leaves in the storage (pkg/storage/lru/storage.go).
use adv_cache.Prelude.{ℕ, ◌≡◌, refl, ap, true, Bool-cases, inl, inr, Option, none, some, arith}
use adv_cache.Model.Binary.{Bytes}
use adv_cache.Model.Entry.{Entry, is_same_fingerprint}
use adv_cache.Model.Equal.{bytes_equal→eq}
use adv_cache.Lfu.{TinyLfu, increment}
use adv_cache.Storage.{
  Storage, map_get, touch, push, remove, insert, set_new, get_found, get, set_found, set,
}
use adv_cache.Storage.Hits.{map_get-insert, set_new-inserts}

-- The entry stands at the address `p` under its key, in an LRU list or not.
pub record Stored (e : Entry) (p : ℕ) (s : Storage) : Type 0 where
  pub found : map_get e.key s ≡ some p
  pub fingerprint : (s.entries p).fingerprint ≡ e.fingerprint
  pub payload : (s.entries p).payload ≡ e.payload
  pub refreshed_at : (s.entries p).refreshed_at ≡ e.refreshed_at

pub insert-Stored : (p : ℕ) (s : Storage) → Stored (s.entries p) p (insert p s)
unfolding insert push
insert-Stored p s = record {
  found = map_get-insert p s;
  fingerprint = ground arith;
  payload = ground arith;
  refreshed_at = ground arith;
}

set_new-Stored :
    (p : ℕ) (s : Storage) → (set_new p s).1 ≡ true → Stored (s.entries p) p (set_new p s).0
set_new-Stored p s h =
    let (u, e, same) = set_new-inserts p s h in rw (e, ← same) (insert-Stored p u)

set_found-Stored :
    (xxh3 : Bytes → ℕ) (now p : ℕ) (o : Option ℕ) (s : Storage)
    → (get_found (s.entries p).fingerprint o s).1 ≡ none
    → (set_found xxh3 now p o s).1 ≡ true
    → Stored (s.entries p) p (set_found xxh3 now p o s).0
unfolding set_found get_found remove
set_found-Stored xxh3 now p none s m h = set_new-Stored p s h
set_found-Stored xxh3 now p (some old) s m h =
    elim (Bool-cases (is_same_fingerprint (s.entries old) (s.entries p).fingerprint)) [
      | inl same ↦ cc (rw same at m)
      | inr other ↦ rw other (set_new-Stored p (remove old s).0 (rw other at h))
    ]

get_found_lfu :
    (fp : Bytes) (o : Option ℕ) (s : Storage) (t : TinyLfu)
    → (get_found fp o s).1 ≡ none
    → (get_found fp o (record s { lfu = t })).1 ≡ none
unfolding get_found
get_found_lfu fp none s t m = refl
get_found_lfu fp (some q) s t m = ground arith

-- If a Get of the key and the fingerprint of an entry misses, and the Set of the entry reports
-- success, then the entry itself stands under its key, with its payload and its time.
pub set-Stored :
    (xxh3 : Bytes → ℕ) (now p : ℕ) (s : Storage)
    → (get (s.entries p).key (s.entries p).fingerprint s).1 ≡ none
    → (set xxh3 now p s).1 ≡ true
    → Stored (s.entries p) p (set xxh3 now p s).0
unfolding set get get_found map_get
set-Stored xxh3 now p s m h =
    let t = record s { lfu = increment (s.entries p).key s.lfu } in
    set_found-Stored xxh3 now p (map_get (s.entries p).key t) t
      (get_found_lfu (s.entries p).fingerprint (map_get (s.entries p).key s) s t.lfu m) h

-- A Get that misses changes nothing.
pub get-miss : (key : ℕ) (fp : Bytes) (s : Storage) → (get key fp s).1 ≡ none → (get key fp s).0 ≡ s
unfolding get get_found
get-miss key fp s h = go (map_get key s) h
  where
    go : (o : Option ℕ) → (get_found fp o s).1 ≡ none → (get_found fp o s).0 ≡ s
    go none h = refl
    go (some q) h = ground arith

-- A Get never changes the entries.
pub entries-get : (key : ℕ) (fp : Bytes) (s : Storage) → (get key fp s).0.entries ≡ s.entries
unfolding get get_found touch
entries-get key fp s = go (map_get key s)
  where
    go : (o : Option ℕ) → (get_found fp o s).0.entries ≡ s.entries
    go none = refl
    go (some q) = ground arith

-- A Get finds the entry of the map under the key, if its fingerprint is the one asked for.
pub get-some :
    (key : ℕ) (fp : Bytes) (q : ℕ) (s : Storage)
    → (get key fp s).1 ≡ some q
    → (map_get key s ≡ some q) × ((s.entries q).fingerprint ≡ fp)
unfolding get get_found is_same_fingerprint
get-some key fp q s h = go (map_get key s) refl h
  where
    go :
        (o : Option ℕ)
        → map_get key s ≡ o
        → (get_found fp o s).1 ≡ some q
        → (o ≡ some q) × ((s.entries q).fingerprint ≡ fp)
    go none e h = cc
    go (some r) e h = elim (Bool-cases (is_same_fingerprint (s.entries r) fp)) [
      | inl same ↦
          let at : r ≡ q = cc (rw same at h) in
          let equal : (s.entries r).fingerprint ≡ fp = bytes_equal→eq _ _ same in
          (ap some at, rw at at equal)
      | inr other ↦ cc (rw other at h)
    ]
