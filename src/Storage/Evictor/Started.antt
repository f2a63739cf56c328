-- ===== src/Storage/Evictor/Started.antt =====
-- The storage that NewStorage returns (pkg/storage/lru/storage.go, pkg/storage/lru/balancer.go).
use mathlib.Core.List.{Memᴰ}
use adv_cache.Prelude.{
  ℕ, ◌+◌, ◌^◌, ◌<◌, ◌≡◌, refl, sym, ap, ◌∙◌, ◌⊎◌, List, [], ◌∷◌, ◌++◌, arith, update, length,
  length-append, ◌==◌, Bool-cases, inl, inr, none, some,
}
use adv_cache.Model.Entry.{Entry}
use adv_cache.Lfu.{TinyLfu}
use adv_cache.Ring.{new_ring, push_back}
use adv_cache.Ring.Refine.{Holds, new_ring-Holds}
use adv_cache.Ring.Members.{In, In-left, All-In}
use adv_cache.Ring.PushBack.{push_back-Holds}
use adv_cache.Shard
use adv_cache.Shard.{Shard, new_shard, total_shards, map_shard_key}
use adv_cache.Storage.{map_get}
use adv_cache.Storage.Valid.{Linked, Mapped}
use adv_cache.Storage.Evictor.{Evict, new_storage, register, init}
use adv_cache.Storage.Evictor.Sums.{Sound}
use adv_cache.Storage.Evictor.Ready.{Ready}

-- What is registered: the balance list has an element for each shard of `done`, and the storage
-- holds nothing.
record Started (e : Evict) (done : List ℕ) : Type 0 where
  order : List ℕ
  holds : Holds e.mem_list order
  as_long : length order ≡ length done
  covers : (i : ℕ) → In i done → (a : ℕ) × In a order × (e.mem_list.value a ≡ i)
  shards : e.db.shards ≡ (λ i. new_shard)
  lru : (j : ℕ) → e.db.lru j ≡ new_ring j

In-snoc : (a : ℕ) (xs : List ℕ) → In a (xs ++ a ∷ [])
In-snoc a [] = inl refl
In-snoc a (x ∷ xs) = inr (In-snoc a xs)

In-Mem : (a : ℕ) (xs : List ℕ) → In a xs → Memᴰ a xs
In-Mem a [] m = elim m [ ]
In-Mem a (x ∷ xs) (inl e) = Memᴰ.head e
In-Mem a (x ∷ xs) (inr m) = Memᴰ.tail (In-Mem a xs m)

update_off : (f : ℕ → ℕ) (n v a : ℕ) → a < n → update f n v a ≡ f a
update_off f n v a h = ground arith

update_at : (f : ℕ → ℕ) (n v : ℕ) → update f n v n ≡ v
update_at f n v = ground arith

register-Started :
    (i : ℕ) (e : Evict) (done : List ℕ)
    → length done + 1 < 2 ^ 63
    → Started e done
    → Started (register i e) (i ∷ done)
unfolding register
register-Started i e done room s =
    let l = e.mem_list in
    let (holds, value) = push_back-Holds i l s.order (omega (arith, room, s.as_long)) s.holds in
    record {
      order = s.order ++ l.fresh ∷ [];
      holds = holds;
      as_long = omega (arith, length-append s.order (l.fresh ∷ []), s.as_long);
      covers = covered holds value;
      shards = s.shards;
      lru = λ j. elim (Bool-cases (i == j)) [
        | inl here ↦ let q : i ≡ j = ground arith in rw here (ap new_ring q)
        | inr there ↦ rw there (s.lru j)
      ];
    }
  where
    covered :
        Holds (push_back i e.mem_list).0 (s.order ++ e.mem_list.fresh ∷ [])
        → (push_back i e.mem_list).0.value ≡ update e.mem_list.value e.mem_list.fresh i
        → (k : ℕ) → In k (i ∷ done)
        → (a : ℕ) × In a (s.order ++ e.mem_list.fresh ∷ [])
          × ((push_back i e.mem_list).0.value a ≡ k)
    covered holds value k (inl q) = (
      e.mem_list.fresh,
      In-snoc e.mem_list.fresh s.order,
      rw value (update_at e.mem_list.value e.mem_list.fresh i ∙ sym q),
    )
    covered holds value k (inr m) =
        let (a, member, at) = s.covers k m in
        let small : a < e.mem_list.fresh =
          All-In (λ b. b < e.mem_list.fresh) a s.order s.holds.given member in
        (
          a,
          In-left a s.order (e.mem_list.fresh ∷ []) member,
          rw value (update_off e.mem_list.value e.mem_list.fresh i a small ∙ at),
        )

-- The shards stand in `todo` or are registered already.
init-Started :
    (todo : List ℕ) (e : Evict) (done : List ℕ)
    → length todo + length done < 2 ^ 63
    → Started e done
    → (all : List ℕ) × Started (init todo e) all × ((i : ℕ) → In i todo ⊎ In i done → In i all)
unfolding init
init-Started [] e done room s = (done, s, λ i. elim [ inl m ↦ elim m [ ] | inr m ↦ m ])
init-Started (k ∷ todo) e done room s =
    let (all, t, covers) =
      init-Started todo (register k e) (k ∷ done) (omega (arith, room))
        (register-Started k e done (omega (arith, room)) s) in
    (all, t, λ i m. covers i (moved i m))
  where
    moved : (i : ℕ) → In i (k ∷ todo) ⊎ In i done → In i todo ⊎ In i (k ∷ done)
    moved i (inl (inl q)) = inr (inl q)
    moved i (inl (inr m)) = inl m
    moved i (inr m) = inr (inr m)

Started-empty : (e : Evict) (done : List ℕ) → Started e done → (k : ℕ) → map_get k e.db ≡ none
unfolding map_get new_shard Shard.get Shard.lookup
Started-empty e done s k = rw (s.shards) refl

Started-Linked : (e : Evict) (done : List ℕ) → Started e done → Linked e.db (λ j. [])
unfolding new_ring new_shard Shard.get Shard.lookup
Started-Linked e done s = record {
  holds = λ j. rw (s.lru j) (new_ring-Holds j);
  named = λ j. rw (s.lru j) refl;
  keys = λ i. rw (s.shards) tt;
  placed = λ i k p found. cc (rw (s.shards) at found);
  listed = λ j a m. elim m [ ];
  mapped = λ k p found. absurd_of k p found;
}
  where
    absurd_of : (k p : ℕ) → map_get k e.db ≡ some p → Mapped e.db (λ j. []) k p
    absurd_of k p found = let no = Started-empty e done s k in cc (no, found)

Started-Sound : (e : Evict) (done : List ℕ) → Started e done → Sound e.db
unfolding new_shard
Started-Sound e done s = record {
  counted = λ i. rw (s.shards) (record { keys = tt; mem = refl; len = refl });
  small = λ i. rw (s.shards) (omega arith);
}

-- However the goroutines of `init` are ordered, if every shard is registered the storage is ready
-- for the evictor: its balance list has an element for each shard, it is valid and empty, and its
-- counters are right.
pub init-Ready :
    (shards : List ℕ) (entries : ℕ → Entry) (lfu : TinyLfu) (balancer_mem memory_threshold : ℕ)
    → length shards < 2 ^ 63
    → ((i : ℕ) → i < total_shards → In i shards)
    → Ready (init shards (new_storage entries lfu balancer_mem memory_threshold))
unfolding new_storage new_ring
init-Ready shards entries lfu balancer_mem memory_threshold room every =
    let e = new_storage entries lfu balancer_mem memory_threshold in
    let (all, s, covers) = init-Started shards e [] (omega (arith, room)) (record {
      order = [];
      holds = new_ring-Holds total_shards;
      as_long = refl;
      covers = λ i m. elim m [ ];
      shards = refl;
      lru = λ j. refl;
    }) in
    record {
      order = s.order;
      holds = s.holds;
      covers = λ i lt.
          let (a, member, at) = s.covers i (covers i (inl (every i lt))) in
          (a, ∣ In-Mem a s.order member ∣₁, at);
      valid = record { order = λ j. []; linked = Started-Linked (init shards e) all s };
      sound = Started-Sound (init shards e) all s;
    }

-- `init` leaves the entries and the shards; all lists are new.
pub init-db :
    (shards : List ℕ) (e : Evict)
    → ((j : ℕ) → e.db.lru j ≡ new_ring j)
    → ((init shards e).db.entries ≡ e.db.entries)
      × ((init shards e).db.shards ≡ e.db.shards)
      × ((j : ℕ) → (init shards e).db.lru j ≡ new_ring j)
unfolding init register
init-db [] e h = (refl, refl, h)
init-db (i ∷ rest) e h = init-db rest (register i e) (λ j. elim (Bool-cases (i == j)) [
  | inl here ↦ let q : i ≡ j = ground arith in rw here (ap new_ring q)
  | inr there ↦ rw there (h j)
])
