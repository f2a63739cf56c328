-- ===== src/Storage/Valid/Kept.antt =====
-- Get and Set keep the storage valid (pkg/storage/lru/storage.go).
use adv_cache.Prelude.{
  ℕ, ◌≡◌, refl, sym, ◌∙◌, true, Bool-cases, inl, inr, Option, none, some, arith, ◌==◌,
}
use adv_cache.Model.Binary.{Bytes}
use adv_cache.Model.Entry.{is_same_fingerprint}
use adv_cache.Model.Compare.{is_same_payload}
use adv_cache.Lfu.{TinyLfu, increment, admit}
use adv_cache.Storage.{
  Storage, map_get, remove, find_victim, should_evict, set_against, set_new, get_found, get,
  set_found, set,
}
use adv_cache.Storage.Remove.{map_get-remove}
use adv_cache.Storage.Valid.{IsValid}
use adv_cache.Storage.Valid.Moves.{Alike, Linked-Alike, touch-IsValid, update_entry-IsValid}
use adv_cache.Storage.Valid.Gone.{remove-IsValid, len-remove}
use adv_cache.Storage.Valid.New.{IsNew, insert-IsValid}

pub lfu-Alike : (s : Storage) (t : TinyLfu) → Alike s (record s { lfu = t })
lfu-Alike s t = record {
  key = λ p. refl;
  shard = λ p. refl;
  pointer = λ p. refl;
  shards = refl;
  values = λ j. refl;
}

pub lfu-IsValid : (s : Storage) (t : TinyLfu) → IsValid s → IsValid (record s { lfu = t })
lfu-IsValid s t v = record {
  order = v.order;
  linked =
      Linked-Alike (lfu-Alike s t) v.linked.holds v.linked.named (λ j a m. m) (λ j a m. m) v.linked;
}

pub lfu-IsNew : (p : ℕ) (s : Storage) (t : TinyLfu) → IsNew p s → IsNew p (record s { lfu = t })
unfolding map_get
lfu-IsNew p s t n = record { shard = n.shard; unheld = n.unheld; room = n.room }

set_against-IsValid :
    (p : ℕ) (o : Option ℕ) (s : Storage)
    → IsNew p s
    → map_get (s.entries p).key s ≡ none
    → IsValid s
    → IsValid (set_against p o s).0
unfolding set_against map_get
set_against-IsValid p none s n absent v = v
set_against-IsValid p (some victim) s n absent v =
    let a = admit (s.entries p).key (s.entries victim).key s.lfu in
    let t = record s { lfu = a.0 } in
    let w = lfu-IsValid s a.0 v in
    elim (Bool-cases a.1) [
      | inl in_favour ↦ rw in_favour (insert-IsValid p t (lfu-IsNew p s a.0 n) absent w)
      | inr against ↦ rw against w
    ]

set_new-IsValid :
    (p : ℕ) (s : Storage)
    → IsNew p s
    → map_get (s.entries p).key s ≡ none
    → IsValid s
    → IsValid (set_new p s).0
unfolding set_new
set_new-IsValid p s n absent v = elim (Bool-cases (should_evict s)) [
  | inl full ↦ rw full (set_against-IsValid p (find_victim (s.entries p).shard s) s n absent v)
  | inr room ↦ rw room (insert-IsValid p s n absent v)
]

-- The entry under a key is under its own key.
pub own_key :
    (k q : ℕ) (s : Storage)
    → IsValid s
    → map_get k s ≡ some q
    → map_get (s.entries q).key s ≡ some q
own_key k q s v e = rw ((v.linked.mapped k q e).key) e

pub remove-IsNew :
    (p q : ℕ) (s : Storage)
    → IsNew p s
    → IsValid s
    → map_get (s.entries q).key s ≡ some q
    → IsNew p (remove q s).0
unfolding remove
remove-IsNew p q s n v e = record {
  shard = n.shard;
  unheld = λ k f.
      let r = sym (map_get-remove q k s v.linked.keys) ∙ f in
      elim (Bool-cases ((s.entries q).key == k)) [
        | inl same ↦ cc (rw same at r)
        | inr other ↦ n.unheld k (rw other at r)
      ];
  room = omega (arith, n.room, len-remove q (s.entries p).shard s e v);
}

module _ (xxh3 : Bytes → ℕ) (now p : ℕ) where
  set_found-IsValid :
      (o : Option ℕ) (s : Storage)
      → map_get (s.entries p).key s ≡ o
      → IsNew p s
      → IsValid s
      → IsValid (set_found xxh3 now p o s).0
  unfolding set_found remove
  set_found-IsValid none s e n v = set_new-IsValid p s n e v
  set_found-IsValid (some old) s e n v =
      let own = own_key (s.entries p).key old s v e in
      elim (Bool-cases (is_same_fingerprint (s.entries old) (s.entries p).fingerprint)) [
        | inl same ↦ elim (Bool-cases (is_same_payload xxh3 (s.entries old) (s.entries p))) [
          | inl equal ↦ rw (same, equal) (touch-IsValid old s own v)
          | inr changed ↦ rw (same, changed) (update_entry-IsValid now old p s own v)
        ]
        | inr collision ↦
            let key = (v.linked.mapped (s.entries p).key old e).key in
            let on : ((s.entries old).key == (s.entries p).key) ≡ true = ground arith in
            rw collision (
              set_new-IsValid p (remove old s).0 (remove-IsNew p old s n v own)
                (map_get-remove old (s.entries p).key s v.linked.keys ∙ rw on refl)
                (remove-IsValid old s own v))
      ]

  -- In a valid storage, a Set of a new entry, whose shard is that of its key and whose list has room,
  -- leaves a valid storage, whether it updates, replaces, inserts or rejects.
  pub set-IsValid : (s : Storage) → IsNew p s → IsValid s → IsValid (set xxh3 now p s).0
  unfolding set
  set-IsValid s n v =
      let lfu = increment (s.entries p).key s.lfu in
      let t = record s { lfu = lfu } in
      set_found-IsValid (map_get (s.entries p).key t) t refl (lfu-IsNew p s lfu n)
        (lfu-IsValid s lfu v)

-- A Get in a valid storage leaves a valid storage.
pub get-IsValid : (key : ℕ) (fp : Bytes) (s : Storage) → IsValid s → IsValid (get key fp s).0
unfolding get get_found
get-IsValid key fp s v = go (map_get key s) refl
  where
    go : (o : Option ℕ) → map_get key s ≡ o → IsValid (get_found fp o s).0
    go none e = v
    go (some q) e = elim (Bool-cases (is_same_fingerprint (s.entries q) fp)) [
      | inl same ↦ rw same (touch-IsValid q s (own_key key q s v e) v)
      | inr other ↦ rw other v
    ]
