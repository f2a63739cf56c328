-- ===== src/Storage/Evictor/Pass.antt =====
-- A pass of the evictor over one LRU list (pkg/storage/lru/evictor.go).
use adv_cache.Prelude.{
  ℕ, zero, suc, ◌+◌, ◌^◌, ◌≤◌, ◌<◌, ◌≡◌, ◌≢◌, ◌==◌, refl, sym, ◌∙◌, ◌⊎◌, true, false, Bool-cases,
  inl, inr, none, some, Option-cases, List, [], ◌∷◌, arith, get_elem?,
}
use adv_cache.Prelude.Words.{add64, lt64}
use adv_cache.Ring.{Ring, nth}
use adv_cache.Ring.Refine.{nth-get_elem?, get_elem?-beyond, Holds, lt64→lt}
use adv_cache.Ring.Members.{In}
use adv_cache.Shard.{total_shards, real_mem}
use adv_cache.Storage.{Storage, map_get, remove}
use adv_cache.Storage.Change.{Change, Change-same, Change-trans, remove-Change}
use adv_cache.Storage.Valid.{IsValid}
use adv_cache.Storage.Valid.Moves.{Linked-Alike}
use adv_cache.Storage.Valid.Gone.{remove-IsValid, len-remove}
use adv_cache.Storage.Evictor.{
  Evict, refresh_mem, should_evict_right_now, evict_next, evict_at, evict_shard, evict_fat,
}
use adv_cache.Storage.Evictor.Sums.{item_count, remove-sums, Sound, remove-Sound}

pub get_elem?-In : (xs : List ℕ) (n a : ℕ) → get_elem? xs n ≡ some a → In a xs
get_elem?-In [] n a e = cc
get_elem?-In (x ∷ xs) zero a e = inl (cc)
get_elem?-In (x ∷ xs) (suc n) a e = inr (get_elem?-In xs n a e)

pub refresh_mem-IsValid : (s : Storage) → IsValid s → IsValid (refresh_mem s)
unfolding refresh_mem
refresh_mem-IsValid s v = record {
  order = v.order;
  linked =
      Linked-Alike
        (record {
          key = λ p. refl;
          shard = λ p. refl;
          pointer = λ p. refl;
          shards = refl;
          values = λ j. refl;
        })
        v.linked.holds v.linked.named (λ j a m. m) (λ j a m. m) v.linked;
}

-- What an eviction from `e` to `r` keeps: the storage is valid, each removed item is counted and its
-- bytes are what the memory counters lost, no list grows, nothing comes into the map and no payload
-- changes, and right counters stay right.
pub record Kept (e r : Evict) : Type 0 where
  pub valid : IsValid r.db
  pub items : r.items + item_count r.db ≡ e.items + item_count e.db
  pub mem :
      add64 (real_mem total_shards r.db.shards) r.mem
      ≡ add64 (real_mem total_shards e.db.shards) e.mem
  pub lens : (j : ℕ) → (r.db.lru j).len ≤ (e.db.lru j).len
  pub fewer : item_count r.db ≤ item_count e.db
  pub sound : Sound e.db → Sound r.db
  pub change : Change [] e.db r.db

-- The same, with the balance list as it was.
pub record Evicted (e r : Evict) : Type 0 where
  pub kept : Kept e r
  pub mem_list : r.mem_list ≡ e.mem_list

pub Kept-refl : (e : Evict) → IsValid e.db → Kept e e
Kept-refl e v = record {
  valid = v;
  items = refl;
  mem = refl;
  lens = λ j. omega arith;
  fewer = omega arith;
  sound = λ h. h;
  change = Change-same e.db e.db refl refl refl;
}

pub Kept-trans : (e r t : Evict) → Kept e r → Kept r t → Kept e t
Kept-trans e r t a b = record {
  valid = b.valid;
  items = b.items ∙ a.items;
  mem = b.mem ∙ a.mem;
  lens = λ j. omega (arith, a.lens j, b.lens j);
  fewer = omega (arith, a.fewer, b.fewer);
  sound = λ h. b.sound (a.sound h);
  change = Change-trans [] [] e.db r.db t.db a.change b.change;
}

Evicted-trans : (e r t : Evict) → Evicted e r → Evicted r t → Evicted e t
Evicted-trans e r t a b = record {
  kept = Kept-trans e r t a.kept b.kept;
  mem_list = b.mem_list ∙ a.mem_list;
}

pub le_refl : (n : ℕ) → n ≤ n
le_refl n = omega arith

module _ (memory_threshold : ℕ) where
  pub should_evict_right_now-Evicted :
      (e : Evict) → IsValid e.db → Evicted e (should_evict_right_now memory_threshold e).0
  unfolding should_evict_right_now refresh_mem item_count
  should_evict_right_now-Evicted e v = record {
    kept = record {
      valid = unfold refresh_mem in (refresh_mem-IsValid e.db v);
      items = refl;
      mem = refl;
      lens = λ j. omega arith;
      fewer = le_refl (item_count e.db);
      sound = λ h. record { counted = h.counted; small = h.small };
      change = Change-same e.db (refresh_mem e.db) refl refl refl;
    };
    mem_list = refl;
  }

-- The entry that an element of a list carries is the one under its key in the map.
pub carried-found :
    (i offset a : ℕ) (s : Storage)
    → IsValid s
    → offset < 2 ^ 63
    → nth offset (s.lru i) ≡ some a
    → let p = (s.lru i).value a in map_get (s.entries p).key s ≡ some p
carried-found i offset a s v lt e =
    let h = v.linked.holds i in
    let m =
      get_elem?-In (v.order i) offset a
        (sym (nth-get_elem? (s.lru i) (v.order i) offset lt h) ∙ e) in
    (v.linked.listed i a m).found

mem_moves : (m m' f b : ℕ) → add64 m' f ≡ m → add64 m' (add64 b f) ≡ add64 m b
unfolding add64
mem_moves m m' f b e = omega (arith, e)

module _ (i : ℕ) where
  -- One removal of the pass.
  evict_next-Evicted :
      (offset a : ℕ) (e : Evict)
      → IsValid e.db
      → offset < 2 ^ 63
      → nth offset (e.db.lru i) ≡ some a
      → Evicted e (evict_next i (some a) e).0
        × (item_count (evict_next i (some a) e).0.db < item_count e.db)
  unfolding evict_next
  evict_next-Evicted offset a e v lt n =
      let p = (e.db.lru i).value a in
      let found = carried-found i offset a e.db v lt n in
      let (hit, mem, items) = remove-sums p e.db found in
      rw hit (
        record {
          kept = record {
            valid = remove-IsValid p e.db found v;
            items = omega (arith, items);
            mem = mem_moves _ _ (remove p e.db).1 e.mem mem;
            lens = λ j. len-remove p j e.db found v;
            fewer = omega (arith, items);
            sound = remove-Sound p e.db found;
            change = remove-Change p e.db found v;
          };
          mem_list = refl;
        },
        omega (arith, items),
      )

  beyond-nth :
      (offset : ℕ) (s : Storage)
      → IsValid s
      → offset < 2 ^ 63
      → (s.lru i).len ≤ offset
      → nth offset (s.lru i) ≡ none
  beyond-nth offset s v lt le =
      let h = v.linked.holds i in
      nth-get_elem? (s.lru i) (v.order i) offset lt h
      ∙ get_elem?-beyond (v.order i) offset (omega (arith, h.len))

-- An offset that has an element is below the length.
inside-nth :
    (offset a : ℕ) (l : Ring) (xs : List ℕ)
    → nth offset l ≡ some a
    → Holds l xs
    → offset < 2 ^ 63
    → offset < l.len
unfolding nth
inside-nth offset a l xs e h lt = elim (Bool-cases (lt64 offset l.len)) [
  | inl inside ↦ lt64→lt offset l.len lt (omega (arith, h.len, h.small)) inside
  | inr outside ↦ cc (rw outside at e)
]

module _ (memory_threshold i : ℕ) where
  -- The pass stops here, or goes on with one item less.
  evict_at-Evicted :
      (offset : ℕ) (e : Evict)
      → IsValid e.db
      → offset < 2 ^ 63
      → let (r, more) = evict_at memory_threshold i offset e in
        ((more ≡ false)
          × Evicted e r
          × ((should_evict_right_now memory_threshold e).1 ≡ true → nth offset (e.db.lru i) ≡ none))
        ⊎ ((more ≡ true)
            × Evicted e r
            × (item_count r.db < item_count e.db)
            × (offset < (e.db.lru i).len))
  unfolding evict_at
  evict_at-Evicted offset e v lt =
      let (r, over) = should_evict_right_now memory_threshold e in
      let a = should_evict_right_now-Evicted memory_threshold e v in
      let same : (r.db.lru i) ≡ e.db.lru i = unfold should_evict_right_now refresh_mem in refl in
      elim (Bool-cases over) [
        | inl high ↦ elim (Option-cases (nth offset (r.db.lru i))) [
          | inl last ↦ rw (high, last) (unfold evict_next in (inl (refl, a, λ _. rw (← same) last)))
          | inr (el, some_el) ↦
              let (evicted, less_items) =
                evict_next-Evicted i offset el r a.kept.valid lt some_el in
              rw (high, some_el)
                (inr (
                  unfold evict_next in refl,
                  Evicted-trans e r _ a evicted,
                  omega (arith, less_items, a.kept.fewer),
                  rw same at (
                      inside-nth offset el (r.db.lru i) (a.kept.valid.order i) some_el
                        (a.kept.valid.linked.holds i) lt),
                ))
        ]
        | inr low ↦ rw low (inl (refl, a, λ h. cc h))
      ]

  -- In a valid storage, the pass from an offset on ends when its fuel, and the offset, exceed the
  -- length of the list.
  evict_shard-ends :
      (n offset : ℕ) (e : Evict)
      → IsValid e.db
      → (e.db.lru i).len ≤ offset + n
      → offset + n < 2 ^ 63
      → (r : Evict) × (evict_shard memory_threshold i (suc n) offset e ≡ some r)
        × Evicted e r
        × ((evict_at memory_threshold i offset e).1 ≡ true → item_count r.db < item_count e.db)
  unfolding evict_shard
  evict_shard-ends zero offset e v le lt =
      let (r, more) = evict_at memory_threshold i offset e in
      elim (evict_at-Evicted offset e v (omega arith)) [
        | inl (stop, a, _) ↦ rw (stop, evict_shard) (r, refl, a, λ go. cc go)
        | inr (_, _, _, inside) ↦ absurd (omega arith)
      ]
  evict_shard-ends (suc n) offset e v le lt =
      let (r, more) = evict_at memory_threshold i offset e in
      elim (evict_at-Evicted offset e v (omega arith)) [
        | inl (stop, a, _) ↦ rw (stop, evict_shard) (r, refl, a, λ go. cc go)
        | inr (go, a, less_items, _) ↦
            let (t, ends, b, _) =
              evict_shard-ends n (offset + 1) r a.kept.valid (omega (arith, a.kept.lens i))
                (omega arith) in
            rw (go, evict_shard)
              (t, ends, Evicted-trans e r t a b, λ _. omega (arith, less_items, b.kept.fewer))
      ]

  nth-first : (s : Storage) → IsValid s → nth 0 (s.lru i) ≡ none → (s.lru i).len ≡ 0
  nth-first s v e =
      let h = v.linked.holds i in
      first_of (v.order i) (s.lru i) h
        (sym (nth-get_elem? (s.lru i) (v.order i) 0 (omega arith) h) ∙ e)
    where
      first_of : (xs : List ℕ) (l : Ring) → Holds l xs → get_elem? xs 0 ≡ none → l.len ≡ 0
      first_of [] l h e = h.len
      first_of (x ∷ xs) l h e = cc e

  -- In a valid storage, a pass over a list ends; the storage stays valid, each removed item is
  -- counted, its bytes are what the memory counters lost, no list grows, and the balance list stays.
  -- If the storage is over the limit and the list is not empty, at least one item goes.
  pub evict_fat-Evicted :
      (e : Evict)
      → IsValid e.db
      → (r : Evict) × (evict_fat memory_threshold (some i) e ≡ some r)
        × Evicted e r
        × ((should_evict_right_now memory_threshold e).1 ≡ true
            → (e.db.lru i).len ≢ 0
            → item_count r.db < item_count e.db)
  unfolding evict_fat
  evict_fat-Evicted e v = elim (Bool-cases ((e.db.lru i).len == 0)) [
    | inl empty ↦ rw empty (
      e,
      refl,
      record { kept = Kept-refl e v; mem_list = refl },
      λ _ ne. absurd (ne (ground arith)),
    )
    | inr full ↦
        let h = v.linked.holds i in
        let (t, ends, b, goes) =
          evict_shard-ends (e.db.lru i).len 0 e v (omega arith) (omega (arith, h.len, h.small)) in
        rw full (t, ends, b, λ over ne. goes (first_goes over ne))
  ]
    where
      first_goes :
          (should_evict_right_now memory_threshold e).1 ≡ true
          → (e.db.lru i).len ≢ 0
          → (evict_at memory_threshold i 0 e).1 ≡ true
      first_goes over ne = elim (evict_at-Evicted 0 e v (omega arith)) [
        | inl (_, _, last) ↦ absurd (ne (nth-first e.db v (last over)))
        | inr (go, _, _, _) ↦ go
      ]
