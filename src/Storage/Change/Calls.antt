-- ===== src/Storage/Change/Calls.antt =====
-- What Set may change (pkg/storage/lru/storage.go).
use adv_cache.Prelude.{
  ℕ, ◌+◌, ◌≤◌, ◌≡◌, refl, sym, ap, ◌∙◌, inl, inr, Bool-cases, Option, none, some, [], ◌∷◌, arith,
  ◌==◌,
}
use adv_cache.Prelude.Words.{add64}
use adv_cache.Model.Binary.{Bytes}
use adv_cache.Model.Entry.{is_same_fingerprint}
use adv_cache.Model.Equal.{bytes_equal→eq}
use adv_cache.Model.Compare.{is_same_payload}
use adv_cache.Lfu.{TinyLfu, increment, admit}
use adv_cache.Ring
use adv_cache.Ring.{Ring}
use adv_cache.Storage.{
  Storage, map_get, touch, swap_payloads, update_entry, remove, find_victim, should_evict, insert,
  set_against, set_new, set_found, set, push,
}
use adv_cache.Storage.Valid.{IsValid}
use adv_cache.Storage.Valid.New.{map_get-insert_all}
use adv_cache.Storage.Valid.Kept.{own_key, lfu-IsValid}
use adv_cache.Storage.Change.{
  Change, Change-same, Change-trans, Source-same, touch-Change, remove-Change,
}

len-push_front : (v : ℕ) (l : Ring) → (Ring.push_front v l).0.len ≤ l.len + 1
unfolding Ring.push_front Ring.insert_front add64
len-push_front v l = omega arith

insert-Change : (p : ℕ) (s : Storage) → Change (p ∷ []) s (insert p s)
unfolding insert push
insert-Change p s = record {
  keys = λ q. ground arith;
  shards = λ q. ground arith;
  fingerprints = λ q. ground arith;
  held = λ k q h.
      let r = sym (map_get-insert_all p k s) ∙ h in
      elim (Bool-cases ((s.entries p).key == k)) [
        | inl same ↦ inl (inl (cc (rw same at r)))
        | inr other ↦ inr (rw other at r)
      ];
  lens = λ j. elim (Bool-cases ((s.entries p).shard == j)) [
    | inl here ↦
        let e : (s.entries p).shard ≡ j = ground arith in
        rw here
          (omega (arith, len-push_front p (s.lru (s.entries p).shard), ap (λ i. (s.lru i).len) e))
    | inr there ↦ rw there (omega arith)
  ];
  source = λ q. Source-same (p ∷ []) s (insert p s) q (ground arith);
}

swap_payloads-Change :
    (now k old new : ℕ) (s : Storage)
    → map_get k s ≡ some old
    → (s.entries old).key ≡ (s.entries new).key
    → (s.entries old).fingerprint ≡ (s.entries new).fingerprint
    → Change (new ∷ []) s (swap_payloads now old new s)
unfolding swap_payloads map_get
swap_payloads-Change now k old new s stands same f = record {
  keys = λ q. ground arith;
  shards = λ q. ground arith;
  fingerprints = λ q. ground arith;
  held = λ key q h. inr h;
  lens = λ j. omega arith;
  source = λ q. elim (Bool-cases (old == q)) [
    | inl here ↦
        let e : old ≡ q = ground arith in
        record {
          origin = new;
          from = inr (inl (inl refl));
          payload = rw here refl;
          key = sym same ∙ ap (λ i. (s.entries i).key) e;
          fingerprint = sym f ∙ ap (λ i. (s.entries i).fingerprint) e;
        }
    | inr other ↦ elim (Bool-cases (new == q)) [
      | inl here ↦
          let e : new ≡ q = ground arith in
          record {
            origin = old;
            from = inr (inr (k, stands));
            payload = rw (other, here) refl;
            key = same ∙ ap (λ i. (s.entries i).key) e;
            fingerprint = f ∙ ap (λ i. (s.entries i).fingerprint) e;
          }
      | inr there ↦
          Source-same (new ∷ []) s (swap_payloads now old new s) q (rw (other, there) refl)
    ]
  ];
}

lfu-Change : (s : Storage) (t : TinyLfu) → Change [] s (record s { lfu = t })
lfu-Change s t = Change-same s (record s { lfu = t }) refl refl refl

-- Nothing new has come, so nothing new needs to be allowed for.
Change-more : (p : ℕ) (s t : Storage) → Change [] s t → Change (p ∷ []) s t
Change-more p s t c = record {
  keys = c.keys;
  shards = c.shards;
  fingerprints = c.fingerprints;
  held = λ k q h. elim (c.held k q h) [ inl m ↦ elim m [ ] | inr h' ↦ inr h' ];
  lens = λ j. omega (arith, c.lens j);
  source = λ q.
      let o = c.source q in
      record {
        origin = o.origin;
        from = elim o.from [ inl e ↦ inl e | inr (inl m) ↦ elim m [ ] | inr (inr h) ↦ inr (inr h) ];
        payload = o.payload;
        key = o.key;
        fingerprint = o.fingerprint;
      };
}

set_against-Change : (p : ℕ) (o : Option ℕ) (s : Storage) → Change (p ∷ []) s (set_against p o s).0
unfolding set_against
set_against-Change p none s = Change-more p s s (Change-same s s refl refl refl)
set_against-Change p (some victim) s =
    let a = admit (s.entries p).key (s.entries victim).key s.lfu in
    let t = record s { lfu = a.0 } in
    elim (Bool-cases a.1) [
      | inl in_favour ↦
          rw in_favour
            (Change-trans [] (p ∷ []) s t (insert p t) (lfu-Change s a.0) (insert-Change p t))
      | inr against ↦ rw against (Change-more p s t (lfu-Change s a.0))
    ]

set_new-Change : (p : ℕ) (s : Storage) → Change (p ∷ []) s (set_new p s).0
unfolding set_new
set_new-Change p s = elim (Bool-cases (should_evict s)) [
  | inl full ↦ rw full (set_against-Change p (find_victim (s.entries p).shard s) s)
  | inr room ↦ rw room (insert-Change p s)
]

module _ (xxh3 : Bytes → ℕ) (now p : ℕ) where
  set_found-Change :
      (o : Option ℕ) (s : Storage)
      → map_get (s.entries p).key s ≡ o
      → IsValid s
      → Change (p ∷ []) s (set_found xxh3 now p o s).0
  unfolding set_found
  set_found-Change none s e v = set_new-Change p s
  set_found-Change (some old) s e v =
      let own = own_key (s.entries p).key old s v e in
      let key = (v.linked.mapped (s.entries p).key old e).key in
      elim (Bool-cases (is_same_fingerprint (s.entries old) (s.entries p).fingerprint)) [
        | inl same ↦ elim (Bool-cases (is_same_payload xxh3 (s.entries old) (s.entries p))) [
          | inl equal ↦ rw (same, equal) (Change-more p s (touch old s) (touch-Change old s))
          | inr changed ↦
              let fp : (s.entries old).fingerprint ≡ (s.entries p).fingerprint =
                unfold is_same_fingerprint in (bytes_equal→eq _ _ same) in
              let t = swap_payloads now old p s in
              let swapped = swap_payloads-Change now (s.entries p).key old p s e key fp in
              rw (same, changed)
                (unfold update_entry in
                  (Change-trans (p ∷ []) [] s t (touch old t) swapped (touch-Change old t)))
        ]
        | inr collision ↦
            let t = (remove old s).0 in
            rw collision (
              Change-trans [] (p ∷ []) s t (set_new p t).0 (remove-Change old s own v)
                (set_new-Change p t))
      ]

  -- A Set in a valid storage brings no entry but the new one into the map, makes no list longer than
  -- by one, and moves payloads only between entries of the same key and fingerprint.
  pub set-Change : (s : Storage) → IsValid s → Change (p ∷ []) s (set xxh3 now p s).0
  unfolding set map_get
  set-Change s v =
      let lfu = increment (s.entries p).key s.lfu in
      let t = record s { lfu = lfu } in
      Change-trans [] (p ∷ []) s t (set_found xxh3 now p (map_get (s.entries p).key t) t).0
        (lfu-Change s lfu)
        (set_found-Change (map_get (s.entries p).key t) t refl (lfu-IsValid s lfu v))
