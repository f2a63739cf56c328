-- ===== src/Storage/Valid/Moves.antt =====
-- Moves within an LRU list and changes of payloads keep the storage valid
-- (pkg/storage/lru/balancer.go, pkg/model/payload.go).
use adv_cache.Prelude.{
  ℕ, ◌≡◌, refl, sym, ap, ◌∙◌, Bool-cases, inl, inr, some, List, ◌∷◌, ◌++◌, arith, ◌==◌,
  if◌then◌else◌,
}
use adv_cache.Ring
use adv_cache.Ring.{Ring}
use adv_cache.Ring.Refine.{Holds, move_to_front-Holds}
use adv_cache.Ring.Members.{
  In, In-split, In-front, In-back, value-move_to_front, name-move_to_front,
}
use adv_cache.Shard.{map_shard_key}
use adv_cache.Storage.{Storage, map_get, touch, swap_payloads, update_entry}
use adv_cache.Storage.Valid.{Listed, Linked, IsValid}

-- Two storages with the same map, whose entries agree on all but payload and time and whose list
-- elements carry the same.
pub record Alike (s t : Storage) : Type 0 where
  pub key : (p : ℕ) → (t.entries p).key ≡ (s.entries p).key
  pub shard : (p : ℕ) → (t.entries p).shard ≡ (s.entries p).shard
  pub pointer : (p : ℕ) → (t.entries p).lru_list_elem ≡ (s.entries p).lru_list_elem
  pub shards : t.shards ≡ s.shards
  pub values : (j : ℕ) → (t.lru j).value ≡ (s.lru j).value

pub map_get-Alike : {s t : Storage} → Alike s t → (k : ℕ) → map_get k t ≡ map_get k s
unfolding map_get
map_get-Alike a k = rw a.shards refl

Listed-Alike : {s t : Storage} (h : Alike s t) (j a p : ℕ) → Listed s j a p → Listed t j a p
Listed-Alike h j a p l = record {
  carried = rw (h.values j) l.carried;
  pointer = h.pointer p ∙ l.pointer;
  shard = h.shard p ∙ l.shard;
  found = rw (h.key p) (map_get-Alike h _ ∙ l.found);
}

-- Then the lists may be permuted.
pub Linked-Alike :
    {s t : Storage} {order order' : ℕ → List ℕ}
    → Alike s t
    → ((j : ℕ) → Holds (t.lru j) (order' j))
    → ((j : ℕ) → (t.lru j).name ≡ j)
    → ((j a : ℕ) → In a (order j) → In a (order' j))
    → ((j a : ℕ) → In a (order' j) → In a (order j))
    → Linked s order
    → Linked t order'
Linked-Alike {s} {t} {order} {order'} h holds named to from l = record {
  holds = holds;
  named = named;
  keys = rw h.shards l.keys;
  placed = rw h.shards l.placed;
  listed = λ j a m. rw (h.values j) (Listed-Alike h j a _ (l.listed j a (from j a m)));
  mapped = λ k p e.
      let m = l.mapped k p (sym (map_get-Alike h k) ∙ e) in
      record {
        key = h.key p ∙ m.key;
        shard = h.shard p ∙ m.shard;
        address = m.address;
        member = to (map_shard_key k) m.address m.member;
        listed = Listed-Alike h (map_shard_key k) m.address p m.listed;
      };
}

pub touch-Alike : (p : ℕ) (s : Storage) → Alike s (touch p s)
unfolding touch
touch-Alike p s = record {
  key = λ q. refl;
  shard = λ q. refl;
  pointer = λ q. refl;
  shards = refl;
  values = λ j. elim (Bool-cases ((s.entries p).shard == j)) [
    | inl here ↦ rw here (value-move_to_front (s.entries p).lru_list_elem (s.lru j))
    | inr there ↦ rw there refl
  ];
}

pub swap_payloads-Alike : (now old new : ℕ) (s : Storage) → Alike s (swap_payloads now old new s)
unfolding swap_payloads
swap_payloads-Alike now old new s = record {
  key = λ p. ground arith;
  shard = λ p. ground arith;
  pointer = λ p. ground arith;
  shards = refl;
  values = λ j. refl;
}

move_to_front_at-Holds :
    (l : Ring) (j a : ℕ) (before after xs : List ℕ)
    → l.name ≡ j
    → xs ≡ before ++ a ∷ after
    → Holds l xs
    → Holds (Ring.move_to_front (some (record { list = j; address = a })) l) (a ∷ (before ++ after))
move_to_front_at-Holds l j a before after xs n e h =
    rw (← n) (move_to_front-Holds l before a after (rw e at h))

-- The lists after the element `a` of the list `i` has moved to the front.
abbrev pub moved : (ℕ → List ℕ) → ℕ → ℕ → List ℕ → List ℕ → ℕ → List ℕ
moved order i a before after j = if i == j then a ∷ (before ++ after) else order j

module _ (p i a : ℕ) (before after : List ℕ) (s : Storage) (order : ℕ → List ℕ) (l : Linked s order)
    (pointer : (s.entries p).lru_list_elem ≡ some (record { list = i; address = a }))
    (shard : (s.entries p).shard ≡ i) (split : order i ≡ before ++ a ∷ after) where
  lru-touch-Holds : (j : ℕ) → Holds ((touch p s).lru j) (moved order i a before after j)
  unfolding touch
  lru-touch-Holds j = elim (Bool-cases (i == j)) [
    | inl here ↦
        let q : i ≡ j = ground arith in
        rw (shard, here, pointer, q)
          (move_to_front_at-Holds (s.lru j) j a before after (order j) (l.named j)
            (ap order (sym q) ∙ split) (l.holds j))
    | inr there ↦ rw (shard, there) (l.holds j)
  ]

  touch-named : (j : ℕ) → ((touch p s).lru j).name ≡ j
  unfolding touch
  touch-named j = elim (Bool-cases ((s.entries p).shard == j)) [
    | inl here ↦ rw here (name-move_to_front (s.entries p).lru_list_elem (s.lru j) ∙ l.named j)
    | inr there ↦ rw there (l.named j)
  ]

  moved-to : (j b : ℕ) → In b (order j) → In b (moved order i a before after j)
  moved-to j b m = elim (Bool-cases (i == j)) [
    | inl here ↦
        let q : i ≡ j = ground arith in
        rw here (In-front b a before after (rw (ap order (sym q) ∙ split) at m))
    | inr there ↦ rw there m
  ]

  moved-from : (j b : ℕ) → In b (moved order i a before after j) → In b (order j)
  moved-from j b m = elim (Bool-cases (i == j)) [
    | inl here ↦
        let q : i ≡ j = ground arith in
        rw (ap order (sym q) ∙ split) (In-back b a before after (rw here at m))
    | inr there ↦ rw there at m
  ]

  pub touch-Linked : Linked (touch p s) (moved order i a before after)
  touch-Linked = Linked-Alike (touch-Alike p s) lru-touch-Holds touch-named moved-to moved-from l

-- The touch of an entry of the map keeps the storage valid.
pub touch-IsValid :
    (p : ℕ) (s : Storage) → map_get (s.entries p).key s ≡ some p → IsValid s → IsValid (touch p s)
touch-IsValid p s e v =
    let m = v.linked.mapped (s.entries p).key p e in
    let i = map_shard_key (s.entries p).key in
    let (before, after, split) = In-split m.address (v.order i) m.member in
    record {
      order = moved v.order i m.address before after;
      linked =
          touch-Linked p i m.address before after s v.order v.linked m.listed.pointer m.shard split;
    }

swap_payloads-IsValid :
    (now old new : ℕ) (s : Storage) → IsValid s → IsValid (swap_payloads now old new s)
unfolding swap_payloads
swap_payloads-IsValid now old new s v = record {
  order = v.order;
  linked =
      Linked-Alike (swap_payloads-Alike now old new s) v.linked.holds v.linked.named (λ j a m. m)
        (λ j a m. m) v.linked;
}

-- So does the update of an entry of the map.
pub update_entry-IsValid :
    (now old new : ℕ) (s : Storage)
    → map_get (s.entries old).key s ≡ some old
    → IsValid s
    → IsValid (update_entry now old new s)
unfolding update_entry
update_entry-IsValid now old new s e v =
    let h = swap_payloads-Alike now old new s in
    touch-IsValid old (swap_payloads now old new s)
      (map_get-Alike h _ ∙ ap (λ (k : ℕ). map_get k s) (h.key old) ∙ e)
      (swap_payloads-IsValid now old new s v)
