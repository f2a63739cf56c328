-- ===== src/Storage/Change.antt =====
-- What the operations of the storage (pkg/storage/lru/storage.go) may change: which entries the map
-- holds, how long the LRU lists are, and where a payload comes from.
pub mod Calls
use adv_cache.Prelude.{
  ℕ, ◌+◌, ◌≤◌, ◌≡◌, refl, sym, ap, ◌∙◌, ◌⊎◌, inl, inr, Bool-cases, Option, none, some, List, [],
  ◌∷◌, ◌++◌, length, length-append, arith, ◌==◌,
}
use adv_cache.Prelude.Words.{add64}
use adv_cache.Model.Binary.{Bytes}
use adv_cache.Model.Entry.{Pointer, is_same_fingerprint}
use adv_cache.Model.Equal.{bytes_equal→eq}
use adv_cache.Model.Compare.{is_same_payload}
use adv_cache.Lfu.{TinyLfu, increment, admit}
use adv_cache.Ring
use adv_cache.Ring.{Ring}
use adv_cache.Ring.Members.{In, In-left, In-right}
use adv_cache.Storage.{
  Storage, map_get, touch, swap_payloads, update_entry, remove, find_victim, should_evict, insert,
  set_against, set_new, get_found, get, set_found, set, push,
}
use adv_cache.Storage.Valid.{IsValid}
use adv_cache.Storage.Valid.Gone.{len-remove}
use adv_cache.Storage.Valid.New.{map_get-insert_all}
use adv_cache.Storage.Valid.Kept.{own_key, lfu-IsValid}
use adv_cache.Storage.Remove.{map_get-remove}

-- `o` is `q` itself, or new, or stands in the map of `s`.
abbrev pub From : List ℕ → Storage → ℕ → ℕ → Type 0
From new s q o = (o ≡ q) ⊎ (In o new ⊎ ((k : ℕ) × (map_get k s ≡ some o)))

-- The entry `q` has the payload of an entry of `s` with its key and its fingerprint.
pub record Source (new : List ℕ) (s t : Storage) (q : ℕ) : Type 0 where
  pub origin : ℕ
  pub from : From new s q origin
  pub payload : (t.entries q).payload ≡ (s.entries origin).payload
  pub key : (s.entries origin).key ≡ (s.entries q).key
  pub fingerprint : (s.entries origin).fingerprint ≡ (s.entries q).fingerprint

-- From `s` to `t` no entries but `new` come into the map, no list grows by more than their number,
-- no entry changes its key, shard or fingerprint, and payloads go only from an entry to one with the
-- same key and fingerprint.
pub record Change (new : List ℕ) (s t : Storage) : Type 0 where
  pub keys : (q : ℕ) → (t.entries q).key ≡ (s.entries q).key
  pub shards : (q : ℕ) → (t.entries q).shard ≡ (s.entries q).shard
  pub fingerprints : (q : ℕ) → (t.entries q).fingerprint ≡ (s.entries q).fingerprint
  pub held : (k q : ℕ) → map_get k t ≡ some q → In q new ⊎ (map_get k s ≡ some q)
  pub lens : (j : ℕ) → (t.lru j).len ≤ (s.lru j).len + length new
  pub source : (q : ℕ) → Source new s t q

pub Source-same :
    (new : List ℕ) (s t : Storage) (q : ℕ)
    → (t.entries q).payload ≡ (s.entries q).payload
    → Source new s t q
Source-same new s t q e = record {
  origin = q;
  from = inl refl;
  payload = e;
  key = refl;
  fingerprint = refl;
}

-- Only the frequencies and the sums change.
pub Change-same :
    (s t : Storage) → t.entries ≡ s.entries → t.shards ≡ s.shards → t.lru ≡ s.lru → Change [] s t
unfolding map_get
Change-same s t e m l = record {
  keys = λ q. rw e refl;
  shards = λ q. rw e refl;
  fingerprints = λ q. rw e refl;
  held = λ k q h. inr (rw m at h);
  lens = λ j. rw l (omega arith);
  source = λ q. Source-same [] s t q (rw e refl);
}

From-trans :
    (xs ys : List ℕ) (s t u : Storage) (q o o' : ℕ)
    → Change xs s t
    → From ys t q o
    → From xs s o o'
    → From (xs ++ ys) s q o'
From-trans xs ys s t u q o o' a f (inl e) = elim f [
  | inl e' ↦ inl (e ∙ e')
  | inr (inl m) ↦ inr (inl (In-right o' xs ys (rw e m)))
  | inr (inr (k, h)) ↦ elim (a.held k o h) [
    | inl m ↦ inr (inl (In-left o' xs ys (rw e m)))
    | inr h' ↦ inr (inr (k, h' ∙ ap some (sym e)))
  ]
]
From-trans xs ys s t u q o o' a f (inr (inl m)) = inr (inl (In-left o' xs ys m))
From-trans xs ys s t u q o o' a f (inr (inr h)) = inr (inr h)

pub Change-trans :
    (xs ys : List ℕ) (s t u : Storage) → Change xs s t → Change ys t u → Change (xs ++ ys) s u
Change-trans xs ys s t u a b = record {
  keys = λ q. b.keys q ∙ a.keys q;
  shards = λ q. b.shards q ∙ a.shards q;
  fingerprints = λ q. b.fingerprints q ∙ a.fingerprints q;
  held = λ k q h. elim (b.held k q h) [
    | inl m ↦ inl (In-right q xs ys m)
    | inr h' ↦ elim (a.held k q h') [ inl m ↦ inl (In-left q xs ys m) | inr h'' ↦ inr h'' ]
  ];
  lens = λ j. omega (arith, a.lens j, b.lens j, length-append xs ys);
  source = λ q.
      let o = b.source q in
      let p = a.source o.origin in
      record {
        origin = p.origin;
        from = From-trans xs ys s t u q o.origin p.origin a o.from p.from;
        payload = o.payload ∙ p.payload;
        key = p.key ∙ (sym (a.keys o.origin) ∙ (o.key ∙ a.keys q));
        fingerprint =
            p.fingerprint ∙ (sym (a.fingerprints o.origin) ∙ (o.fingerprint ∙ a.fingerprints q));
      };
}

len-move_to_front : (e : Option Pointer) (l : Ring) → (Ring.move_to_front e l).len ≡ l.len
unfolding Ring.move_to_front Ring.insert_front Ring.unlink
len-move_to_front none l = refl
len-move_to_front (some e) l = ground arith

pub touch-Change : (p : ℕ) (s : Storage) → Change [] s (touch p s)
unfolding touch map_get
touch-Change p s = record {
  keys = λ q. refl;
  shards = λ q. refl;
  fingerprints = λ q. refl;
  held = λ k q h. inr h;
  lens = λ j. ground (arith, len-move_to_front (s.entries p).lru_list_elem (s.lru j));
  source = λ q. Source-same [] s (touch p s) q refl;
}

pub get-Change : (key : ℕ) (fp : Bytes) (s : Storage) → Change [] s (get key fp s).0
unfolding get get_found
get-Change key fp s = go (map_get key s)
  where
    go : (o : Option ℕ) → Change [] s (get_found fp o s).0
    go none = Change-same s s refl refl refl
    go (some q) = elim (Bool-cases (is_same_fingerprint (s.entries q) fp)) [
      | inl same ↦ rw same (touch-Change q s)
      | inr other ↦ rw other (Change-same s s refl refl refl)
    ]

pub remove-Change :
    (p : ℕ) (s : Storage)
    → map_get (s.entries p).key s ≡ some p
    → IsValid s
    → Change [] s (remove p s).0
remove-Change p s e v = record {
  keys = λ q. unfold remove in refl;
  shards = λ q. unfold remove in refl;
  fingerprints = λ q. unfold remove in refl;
  held = λ k q h.
      let r = sym (map_get-remove p k s v.linked.keys) ∙ h in
      elim (Bool-cases ((s.entries p).key == k)) [
        | inl same ↦ cc (rw same at r)
        | inr other ↦ inr (rw other at r)
      ];
  lens = λ j. omega (arith, len-remove p j s e v);
  source = λ q. Source-same [] s (remove p s).0 q (unfold remove in refl);
}
