-- ===== src/Storage/Recency/Evicted.antt =====
-- Which entries the evictor takes (pkg/storage/lru/evictor.go).
use adv_cache.Prelude.{
  ℕ, zero, suc, ◌^◌, ◌<◌, ◌≡◌, refl, sym, ap, ◌∙◌, true, some, none, List, [], ◌∷◌, map, arith,
  ◌==◌, get_elem?,
}
use adv_cache.Model.Binary.{Bytes}
use adv_cache.Ring.{nth}
use adv_cache.Ring.Refine.{nth-get_elem?}
use adv_cache.Shard.{map_shard_key}
use adv_cache.Storage.{Storage, map_get, get, remove}
use adv_cache.Storage.Stored.{entries-get, get-some}
use adv_cache.Storage.Remove.{map_get-remove}
use adv_cache.Storage.Valid.{IsValid}
use adv_cache.Storage.Evictor.{Evict, refresh_mem, should_evict_right_now, evict_next, evict_at}
use adv_cache.Storage.Evictor.Pass.{get_elem?-In}
use adv_cache.Storage.Recency.{
  forget, at_shard, Recent, Recent-IsValid, Recent-Alike, remove-Recent,
}
use adv_cache.Storage.Recency.Calls.{get-Recent}

get_elem?-map :
    (v : ℕ → ℕ) (xs : List ℕ) (n p : ℕ)
    → get_elem? (map v xs) n ≡ some p
    → (a : ℕ) × (get_elem? xs n ≡ some a) × (v a ≡ p)
get_elem?-map v [] n p e = cc
get_elem?-map v (x ∷ xs) zero p e = (x, refl, cc)
get_elem?-map v (x ∷ xs) (suc n) p e = get_elem?-map v xs n p e

-- The element at an offset of a list, its entry, and that this stands in the map.
record At (s : Storage) (i offset p : ℕ) : Type 0 where
  pub address : ℕ
  pub next : nth offset (s.lru i) ≡ some address
  pub carried : (s.lru i).value address ≡ p
  pub shard : map_shard_key (s.entries p).key ≡ i
  pub found : map_get (s.entries p).key s ≡ some p

At-offset :
    (s : Storage) (recent : ℕ → List ℕ) (i offset p : ℕ)
    → Recent s recent
    → offset < 2 ^ 63
    → get_elem? (recent i) offset ≡ some p
    → At s i offset p
At-offset s recent i offset p r lt e =
    let (a, at, carried) =
      get_elem?-map (s.lru i).value (r.order i) offset p (rw (r.entries i) e) in
    let listed = r.linked.listed i a (get_elem?-In (r.order i) offset a at) in
    let found : map_get (s.entries p).key s ≡ some p = rw carried at listed.found in
    let shard : (s.entries p).shard ≡ i = rw carried at listed.shard in
    record {
      address = a;
      next = nth-get_elem? (s.lru i) (r.order i) offset lt (r.linked.holds i) ∙ at;
      carried = carried;
      shard = sym ((r.linked.mapped (s.entries p).key p found).shard) ∙ shard;
      found = found;
    }

refresh_mem-Recent :
    (s : Storage) (recent : ℕ → List ℕ) → Recent s recent → Recent (refresh_mem s) recent
unfolding refresh_mem
refresh_mem-Recent s recent r =
    Recent-Alike
      (record {
        key = λ p. refl;
        shard = λ p. refl;
        pointer = λ p. refl;
        shards = refl;
        values = λ j. refl;
      })
      refl r

-- The entry that a Get finds has the key, and keeps it.
got_key :
    (key : ℕ) (fp : Bytes) (p : ℕ) (s : Storage)
    → IsValid s
    → (get key fp s).1 ≡ some p
    → ((get key fp s).0.entries p).key ≡ key
got_key key fp p s v hit =
    let found = (get-some key fp p s hit).0 in
    rw (entries-get key fp s) ((v.linked.mapped key p found).key)

module _ (memory_threshold i : ℕ) where
  -- Over the limit, one step of a pass over the list `i` takes the entry at its offset from the most
  -- recently used, out of the list and out of the map; the order of all others stays.
  pub evict_at-Recent :
      (offset p : ℕ) (e : Evict) (recent : ℕ → List ℕ)
      → Recent e.db recent
      → offset < 2 ^ 63
      → get_elem? (recent i) offset ≡ some p
      → (should_evict_right_now memory_threshold e).1 ≡ true
      → Recent (evict_at memory_threshold i offset e).0.db (at_shard i (forget p (recent i)) recent)
        × (map_get (e.db.entries p).key (evict_at memory_threshold i offset e).0.db ≡ none)
  unfolding evict_at evict_next should_evict_right_now
  evict_at-Recent offset p e recent r lt elem over =
      let s = refresh_mem e.db in
      let rs = refresh_mem-Recent e.db recent r in
      let at = At-offset s recent i offset p rs lt elem in
      let gone : Recent (remove p s).0 (at_shard i (forget p (recent i)) recent) =
        rw (at.shard) at (remove-Recent p s recent rs (at.found)) in
      let own : ((s.entries p).key == (s.entries p).key) ≡ true = ground arith in
      let key : (e.db.entries p).key ≡ (s.entries p).key = unfold refresh_mem in refl in
      let absent : map_get (s.entries p).key (remove p s).0 ≡ none =
        map_get-remove p (s.entries p).key s (rs.linked.keys) ∙ rw own refl in
      rw over (
        rw (at.next, evict_next)
          (rw (at.carried) (gone, ap (λ (k : ℕ). map_get k (remove p s).0) key ∙ absent)))

  -- The evictor takes the most recently used entry first: after a Get that finds an entry, the first
  -- step of a pass over its list, over the limit, removes this very entry.
  pub evict_at-get :
      (key : ℕ) (fp : Bytes) (p : ℕ) (e : Evict) (recent : ℕ → List ℕ)
      → Recent e.db recent
      → (get key fp e.db).1 ≡ some p
      → map_shard_key key ≡ i
      → (let r = record e { db = (get key fp e.db).0 } in
          (should_evict_right_now memory_threshold r).1 ≡ true
          → map_get key (evict_at memory_threshold i 0 r).0.db ≡ none)
  evict_at-get key fp p e recent r hit at_i over =
      let s = (get key fp e.db).0 in
      let h : Recent s (at_shard i (p ∷ forget p (recent i)) recent) =
        rw (hit, at_i) at (get-Recent key fp e.db recent r) in
      let own : (i == i) ≡ true = ground arith in
      let gone =
        (evict_at-Recent 0 p (record e { db = s }) (at_shard i (p ∷ forget p (recent i)) recent) h
          (omega arith) (rw own refl) over).1 in
      rw (got_key key fp p e.db (Recent-IsValid e.db recent r) hit) at gone

  -- Two steps of a pass over the limit take the first and the third entry, not the second.
  pub evict_at-skips :
      (p x q : ℕ) (rest : List ℕ) (e : Evict) (recent : ℕ → List ℕ)
      → Recent e.db recent
      → recent i ≡ p ∷ x ∷ q ∷ rest
      → (should_evict_right_now memory_threshold e).1 ≡ true
      → (let t = (evict_at memory_threshold i 0 e).0 in
          (should_evict_right_now memory_threshold t).1 ≡ true
          → Recent
              (evict_at memory_threshold i 1 t).0.db
              (at_shard i (forget q (x ∷ q ∷ rest)) (at_shard i (x ∷ q ∷ rest) recent))
            × (map_get (t.db.entries q).key (evict_at memory_threshold i 1 t).0.db ≡ none))
  evict_at-skips p x q rest e recent r list over again =
      let t = (evict_at memory_threshold i 0 e).0 in
      let own : (p == p) ≡ true = ground arith in
      let here : (i == i) ≡ true = ground arith in
      let first : Recent t.db (at_shard i (forget p (recent i)) recent) =
        (evict_at-Recent 0 p e recent r (omega arith) (rw list refl) over).0 in
      let second : Recent t.db (at_shard i (x ∷ q ∷ rest) recent) = rw own at (rw list at first) in
      rw here at (
        evict_at-Recent 1 q t (at_shard i (x ∷ q ∷ rest) recent) second (omega arith) (rw here refl)
          again)
