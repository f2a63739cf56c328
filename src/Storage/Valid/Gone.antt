-- ===== src/Storage/Valid/Gone.antt =====
-- Remove of an entry of the map keeps the storage valid (pkg/storage/lru/storage.go).
use adv_cache.Prelude.{
  ℕ, ◌+◌, ◌≤◌, ◌≡◌, ◌≢◌, refl, sym, ap, ◌∙◌, true, Bool-cases, inl, inr, some, Option-cases, List,
  ◌∷◌, ◌++◌, arith, ◌==◌, if◌then◌else◌, length,
}
use adv_cache.Ring
use adv_cache.Ring.{Ring}
use adv_cache.Ring.Refine.{Holds, remove-Holds, Distinct-delete, length-delete}
use adv_cache.Ring.Members.{In, In-split, In-delete, In-insert, All-In, value-remove, name-remove}
use adv_cache.Shard
use adv_cache.Shard.{Shard, Items, map_shard_key}
use adv_cache.Shard.Counters.{Keys, Keys-delete}
use adv_cache.Storage.{Storage, weights, map_get, remove}
use adv_cache.Storage.Remove.{get-remove_shard, get-remove_shard_ne, map_get-remove}
use adv_cache.Storage.Valid.{Listed, Linked, IsValid}

remove_at-Holds :
    (l : Ring) (j a : ℕ) (before after xs : List ℕ)
    → l.name ≡ j
    → xs ≡ before ++ a ∷ after
    → Holds l xs
    → Holds (Ring.remove (some (record { list = j; address = a })) l) (before ++ after)
remove_at-Holds l j a before after xs n e h = rw (← n) (remove-Holds l before a after (rw e at h))

-- An element of a ring stands once.
off-list :
    (l : Ring) (a b : ℕ) (before after xs : List ℕ)
    → xs ≡ before ++ a ∷ after
    → Holds l xs
    → In b (before ++ after)
    → b ≢ a
off-list l a b before after xs e h m q =
    let off = (Distinct-delete before a after (rw e at h).distinct.1).1 in
    All-In (λ i. a ≢ i) b (before ++ after) off m (sym q)

Keys-remove_shard :
    (w : ℕ → ℕ) (key : ℕ) (h : Shard) → Keys h.items → Keys (Shard.remove w key h).0.items
unfolding Shard.remove Shard.remove_found
Keys-remove_shard w key h k = elim (Option-cases (Shard.lookup key h.items)) [
  | inl e ↦ rw (e, Shard.remove_found) k
  | inr (p, e) ↦ rw (e, Shard.remove_found) (Keys-delete key h.items k)
]

get-remove_shard_was :
    (w : ℕ → ℕ) (key k q : ℕ) (h : Shard)
    → Keys h.items
    → Shard.get k (Shard.remove w key h).0 ≡ some q
    → Shard.get k h ≡ some q
get-remove_shard_was w key k q h d e = elim (Bool-cases (key == k)) [
  | inl same ↦ let f : key ≡ k = ground arith in cc (rw f at (get-remove_shard w key h d), e)
  | inr other ↦ sym (get-remove_shard_ne w key k h (λ f. ground arith)) ∙ e
]

-- The lists after the element `a` of the list `i` has been taken out.
abbrev pub without : (ℕ → List ℕ) → ℕ → List ℕ → List ℕ → ℕ → List ℕ
without order i before after j = if i == j then before ++ after else order j

module _ (p i a : ℕ) (before after : List ℕ) (s : Storage) (order : ℕ → List ℕ) (l : Linked s order)
    (pointer : (s.entries p).lru_list_elem ≡ some (record { list = i; address = a }))
    (shard : (s.entries p).shard ≡ i) (found : map_get (s.entries p).key s ≡ some p)
    (split : order i ≡ before ++ a ∷ after) (carried : (s.lru i).value a ≡ p) where
  lru-remove-Holds : (j : ℕ) → Holds ((remove p s).0.lru j) (without order i before after j)
  unfolding remove
  lru-remove-Holds j = elim (Bool-cases (i == j)) [
    | inl here ↦
        let q : i ≡ j = ground arith in
        rw (shard, here, pointer, q)
          (remove_at-Holds (s.lru j) j a before after (order j) (l.named j)
            (ap order (sym q) ∙ split) (l.holds j))
    | inr there ↦ rw (shard, there) (l.holds j)
  ]

  pub remove-values : (j : ℕ) → ((remove p s).0.lru j).value ≡ (s.lru j).value
  unfolding remove
  remove-values j = elim (Bool-cases ((s.entries p).shard == j)) [
    | inl here ↦ rw here (value-remove (s.entries p).lru_list_elem (s.lru j))
    | inr there ↦ rw there refl
  ]

  remove-named : (j : ℕ) → ((remove p s).0.lru j).name ≡ j
  unfolding remove
  remove-named j = elim (Bool-cases ((s.entries p).shard == j)) [
    | inl here ↦ rw here (name-remove (s.entries p).lru_list_elem (s.lru j) ∙ l.named j)
    | inr there ↦ rw there (l.named j)
  ]

  remove-Keys : (j : ℕ) → Keys ((remove p s).0.shards j).items
  unfolding remove
  remove-Keys j =
      let key = (s.entries p).key in
      let h = map_shard_key key in
      elim (Bool-cases (h == j)) [
        | inl here ↦ rw here (Keys-remove_shard (weights s) key (s.shards h) (l.keys h))
        | inr there ↦ rw there (l.keys j)
      ]

  remove-placed : (j k q : ℕ) → Shard.get k ((remove p s).0.shards j) ≡ some q → map_shard_key k ≡ j
  unfolding remove
  remove-placed j k q e =
      let key = (s.entries p).key in
      let h = map_shard_key key in
      elim (Bool-cases (h == j)) [
        | inl here ↦
            let f : h ≡ j = ground arith in
            l.placed h k q
              (get-remove_shard_was (weights s) key k q (s.shards h) (l.keys h) (rw here at e))
            ∙ f
        | inr there ↦ l.placed j k q (rw there at e)
      ]

  remove-entries : (remove p s).0.entries ≡ s.entries
  unfolding remove
  remove-entries = refl

  -- What is left was there, and is not the element that has been taken out.
  without-from :
      (j b : ℕ) → In b (without order i before after j) → In b (order j) × ((i ≡ j) → b ≢ a)
  without-from j b m = elim (Bool-cases (i == j)) [
    | inl here ↦
        let q : i ≡ j = ground arith in
        let e = ap order (sym q) ∙ split in
        let k = rw here at m in
        (
          rw e (In-insert b a before after k),
          λ _. off-list (s.lru j) a b before after (order j) e (l.holds j) k,
        )
    | inr there ↦ (rw there at m, λ q. absurd (ground arith))
  ]

  without-to :
      (j b : ℕ) → In b (order j) → ((i ≡ j) → b ≢ a) → In b (without order i before after j)
  without-to j b m ne = elim (Bool-cases (i == j)) [
    | inl here ↦
        let q : i ≡ j = ground arith in
        rw here (In-delete b a before after (ne q) (rw (ap order (sym q) ∙ split) at m))
    | inr there ↦ rw there m
  ]

  -- Another entry keeps its key in the map.
  remove-found :
      (k q : ℕ)
      → map_get k s ≡ some q
      → (s.entries q).key ≡ k
      → q ≢ p
      → map_get k (remove p s).0 ≡ some q
  remove-found k q e key ne = elim (Bool-cases ((s.entries p).key == k)) [
    | inl same ↦ let o : (s.entries p).key ≡ k = ground arith in absurd (ne (cc (e, rw o at found)))
    | inr other ↦ map_get-remove p k s l.keys ∙ rw other e
  ]

  remove-was : (k q : ℕ) → map_get k (remove p s).0 ≡ some q → map_get k s ≡ some q
  remove-was k q e =
      let r = sym (map_get-remove p k s l.keys) ∙ e in
      elim (Bool-cases ((s.entries p).key == k)) [
        | inl same ↦ cc (rw same at r)
        | inr other ↦ rw other at r
      ]

  remove-Listed : (j b q : ℕ) → Listed s j b q → q ≢ p → Listed (remove p s).0 j b q
  unfolding remove
  remove-Listed j b q h ne = record {
    carried = rw (remove-values j) h.carried;
    pointer = h.pointer;
    shard = h.shard;
    found = remove-found (s.entries q).key q h.found refl ne;
  }

  -- Another element carries another entry, and another entry is carried by another element.
  pub other-entry : (j b q : ℕ) → Listed s j b q → ((i ≡ j) → b ≢ a) → q ≢ p
  other-entry j b q h ne e =
      let w : some (record { list = j; address = b }) ≡ some (record { list = i; address = a }) =
        sym h.pointer ∙ ap (λ (x : ℕ). (s.entries x).lru_list_elem) e ∙ pointer in
      ne (cc w) (cc w)

  other-element : (j b q : ℕ) → Listed s j b q → q ≢ p → (i ≡ j) → b ≢ a
  other-element j b q h ne e f = ne (cc (h.carried, carried, e, f))

  pub remove-Linked : Linked (remove p s).0 (without order i before after)
  unfolding remove
  remove-Linked = record {
    holds = lru-remove-Holds;
    named = remove-named;
    keys = remove-Keys;
    placed = remove-placed;
    listed = λ j b m.
        let (n, ne) = without-from j b m in
        let h = l.listed j b n in
        rw (remove-values j) (remove-Listed j b _ h (other-entry j b _ h ne));
    mapped = λ k q e.
        let m = l.mapped k q (remove-was k q e) in
        let ne = gone k q m.key e in
        record {
          key = m.key;
          shard = m.shard;
          address = m.address;
          member =
              without-to (map_shard_key k) m.address m.member
                (other-element (map_shard_key k) m.address q m.listed ne);
          listed = remove-Listed (map_shard_key k) m.address q m.listed ne;
        };
  }
    where
      gone : (k q : ℕ) → (s.entries q).key ≡ k → map_get k (remove p s).0 ≡ some q → q ≢ p
      gone k q key e f =
          let same : (s.entries p).key ≡ k = ap (λ (x : ℕ). (s.entries x).key) (sym f) ∙ key in
          let test : ((s.entries p).key == k) ≡ true = ground arith in
          cc (rw test at (sym (map_get-remove p k s l.keys) ∙ e))

  remove-len : (j : ℕ) → ((remove p s).0.lru j).len ≤ (s.lru j).len
  remove-len j =
      let new = (lru-remove-Holds j).len in
      let old = (l.holds j).len in
      elim (Bool-cases (i == j)) [
        | inl here ↦
            let q : i ≡ j = ground arith in
            let len : length (order j) ≡ length (before ++ after) + 1 =
              rw (ap order (sym q) ∙ split) (length-delete before a after) in
            omega (arith, rw here at new, old, len)
        | inr there ↦ omega (arith, rw there at new, old)
      ]

-- Remove of an entry that the map holds keeps the storage valid.
pub remove-IsValid :
    (p : ℕ) (s : Storage)
    → map_get (s.entries p).key s ≡ some p
    → IsValid s
    → IsValid (remove p s).0
remove-IsValid p s e v =
    let m = v.linked.mapped (s.entries p).key p e in
    let i = map_shard_key (s.entries p).key in
    let (before, after, split) = In-split m.address (v.order i) m.member in
    record {
      order = without v.order i before after;
      linked =
          remove-Linked p i m.address before after s v.order v.linked m.listed.pointer m.shard e
            split m.listed.carried;
    }

-- No list grows.
pub len-remove :
    (p j : ℕ) (s : Storage)
    → map_get (s.entries p).key s ≡ some p
    → IsValid s
    → ((remove p s).0.lru j).len ≤ (s.lru j).len
len-remove p j s e v =
    let m = v.linked.mapped (s.entries p).key p e in
    let i = map_shard_key (s.entries p).key in
    let (before, after, split) = In-split m.address (v.order i) m.member in
    remove-len p i m.address before after s v.order v.linked m.listed.pointer m.shard e split
      m.listed.carried j
