-- ===== src/Storage/Valid/New.antt =====
-- The insertion of a new entry keeps the storage valid (pkg/storage/lru/storage.go).
use adv_cache.Prelude.{
  ℕ, ◌+◌, ◌^◌, ◌<◌, ◌≡◌, ◌≢◌, ◌⊎◌, refl, sym, ap, ◌∙◌, true, Bool-cases, inl, inr, none, some,
  Option-cases, List, ◌∷◌, arith, ◌==◌, if◌then◌else◌,
}
use adv_cache.Ring
use adv_cache.Ring.{Ring}
use adv_cache.Ring.Seg.{update_ne, update_eq}
use adv_cache.Ring.Refine.{Holds, push_front-Holds}
use adv_cache.Ring.Members.{In, All-In, value-push_front, name-push_front}
use adv_cache.Shard
use adv_cache.Shard.{Shard, Items, map_shard_key}
use adv_cache.Shard.Counters.{Keys, Keys-insert, lookup-insert}
use adv_cache.Storage.{Storage, weights, map_get, push, insert}
use adv_cache.Storage.Valid.{Listed, Mapped, Linked, IsValid}

-- An entry that the storage does not hold, with the shard of its key, and room in the shard's list.
pub record IsNew (p : ℕ) (s : Storage) : Type 0 where
  pub shard : (s.entries p).shard ≡ map_shard_key (s.entries p).key
  pub unheld : (k : ℕ) → map_get k s ≢ some p
  pub room : (s.lru (s.entries p).shard).len + 1 < 2 ^ 63

-- The keys and shards of the entries stay; the pointer of `p` is the new element's.
pub entries-insert :
    (p q : ℕ) (s : Storage)
    → (((insert p s).entries q).key ≡ (s.entries q).key)
      × (((insert p s).entries q).shard ≡ (s.entries q).shard)
      × (p ≢ q → ((insert p s).entries q).lru_list_elem ≡ (s.entries q).lru_list_elem)
unfolding insert push
entries-insert p q s = (ground arith, ground arith, λ h. ground arith)

get-set_shard_all :
    (w : ℕ → ℕ) (key p k : ℕ) (h : Shard)
    → Shard.get k (Shard.set w key p h) ≡ (if key == k then some p else Shard.get k h)
unfolding Shard.get Shard.set Shard.count_set
get-set_shard_all w key p k h = elim (Option-cases (Shard.lookup key h.items)) [
  | inl e ↦ rw (e, Shard.count_set) (lookup-insert key k p h.items)
  | inr (old, e) ↦ rw (e, Shard.count_set) (lookup-insert key k p h.items)
]

Keys-set_shard :
    (w : ℕ → ℕ) (key p : ℕ) (h : Shard) → Keys h.items → Keys (Shard.set w key p h).items
unfolding Shard.set Shard.count_set
Keys-set_shard w key p h k = elim (Option-cases (Shard.lookup key h.items)) [
  | inl e ↦ rw (e, Shard.count_set) (Keys-insert key p h.items k)
  | inr (old, e) ↦ rw (e, Shard.count_set) (Keys-insert key p h.items k)
]

-- An insertion puts the entry under its key, and changes no other key.
pub map_get-insert_all :
    (p k : ℕ) (s : Storage)
    → map_get k (insert p s) ≡ (if (s.entries p).key == k then some p else map_get k s)
unfolding map_get insert push
map_get-insert_all p k s =
    let key = (s.entries p).key in
    ground (arith, get-set_shard_all (weights s) key p k (s.shards (map_shard_key key)))

-- The lists after a new element has been put in front of list `i`.
abbrev pub grown : (ℕ → List ℕ) → ℕ → ℕ → ℕ → List ℕ
grown order i a j = if i == j then a ∷ order j else order j

module _ (p : ℕ) (s : Storage) (order : ℕ → List ℕ) (l : Linked s order) (n : IsNew p s)
    (absent : map_get (s.entries p).key s ≡ none) where
  abbrev place : ℕ
  place = (s.entries p).shard

  abbrev element : ℕ
  element = (s.lru place).fresh

  lru-insert-Holds : (j : ℕ) → Holds ((insert p s).lru j) (grown order place element j)
  unfolding insert push
  lru-insert-Holds j = elim (Bool-cases (place == j)) [
    | inl here ↦
        let q : place ≡ j = ground arith in
        rw here (
          rw (ap order (sym q))
            (push_front-Holds p (s.lru place) (order place) (rw (l.holds place).len at n.room)
              (l.holds place)).0)
    | inr there ↦ rw there (l.holds j)
  ]

  insert-named : (j : ℕ) → ((insert p s).lru j).name ≡ j
  unfolding insert push
  insert-named j = elim (Bool-cases (place == j)) [
    | inl here ↦
        let q : place ≡ j = ground arith in
        rw here (name-push_front p (s.lru place) ∙ l.named place ∙ q)
    | inr there ↦ rw there (l.named j)
  ]

  insert-Keys : (j : ℕ) → Keys ((insert p s).shards j).items
  unfolding insert push
  insert-Keys j =
      let key = (s.entries p).key in
      let h = map_shard_key key in
      elim (Bool-cases (h == j)) [
        | inl here ↦ rw here (Keys-set_shard (weights s) key p (s.shards h) (l.keys h))
        | inr there ↦ rw there (l.keys j)
      ]

  insert-placed : (j k q : ℕ) → Shard.get k ((insert p s).shards j) ≡ some q → map_shard_key k ≡ j
  unfolding insert push
  insert-placed j k q e =
      let key = (s.entries p).key in
      let h = map_shard_key key in
      elim (Bool-cases (h == j)) [
        | inl here ↦
            let f : h ≡ j = ground arith in
            let r = sym (get-set_shard_all (weights s) key p k (s.shards h)) ∙ rw here at e in
            elim (Bool-cases (key == k)) [
              | inl same ↦ ap map_shard_key {x = k} {y = key} (ground arith) ∙ f
              | inr other ↦ l.placed h k q (rw other at r) ∙ f
            ]
        | inr there ↦ l.placed j k q (rw there at e)
      ]

  -- An old element keeps its value.
  pub insert-value : (j a : ℕ) → In a (order j) → ((insert p s).lru j).value a ≡ (s.lru j).value a
  unfolding insert push
  insert-value j a m = elim (Bool-cases (place == j)) [
    | inl here ↦
        let q : place ≡ j = ground arith in
        let lt =
          All-In (λ x. x < (s.lru place).fresh) a (order place) (l.holds place).given
            (rw (ap order q) m) in
        rw here (
          ap (λ (f : ℕ → ℕ). f a) (value-push_front p (s.lru place))
          ∙ update_ne (s.lru place).value element p a (λ e. omega arith)
          ∙ ap (λ (x : ℕ). (s.lru x).value a) q)
    | inr there ↦ rw there refl
  ]

  pub insert-new_value : ((insert p s).lru place).value element ≡ p
  unfolding insert push
  insert-new_value =
      let on : (place == place) ≡ true = ground arith in
      rw on (
        ap (λ (f : ℕ → ℕ). f element) (value-push_front p (s.lru place))
        ∙ update_eq (s.lru place).value element p)

  insert-Listed : (j a q : ℕ) → In a (order j) → Listed s j a q → Listed (insert p s) j a q
  insert-Listed j a q m h =
      let ne : p ≢ q = λ e. n.unheld (s.entries q).key (rw e h.found) in
      let (key, shard, pointer) = entries-insert p q s in
      record {
        carried = insert-value j a m ∙ h.carried;
        pointer = pointer ne ∙ h.pointer;
        shard = shard ∙ h.shard;
        found = rw key (map_get-insert_all p (s.entries q).key s ∙ other);
      }
    where
      other :
          (if (s.entries p).key == (s.entries q).key then some p else map_get (s.entries q).key s)
          ≡ some q
      other = elim (Bool-cases ((s.entries p).key == (s.entries q).key)) [
        | inl same ↦
            let e : (s.entries p).key ≡ (s.entries q).key = ground arith in cc (absent, h.found, e)
        | inr differ ↦ rw differ h.found
      ]

  insert-new_pointer :
      ((insert p s).entries p).lru_list_elem
      ≡ some (record { list = (s.lru place).name; address = element })
  unfolding insert push Ring.push_front
  insert-new_pointer = ground arith

  insert-new_Listed : Listed (insert p s) place element p
  insert-new_Listed = record {
    carried = insert-new_value;
    pointer =
        insert-new_pointer
        ∙ ap (λ (x : ℕ). some (record { list = x; address = element })) (l.named place);
    shard = (entries-insert p p s).1;
    found =
        let on : ((s.entries p).key == (s.entries p).key) ≡ true = ground arith in
        rw ((entries-insert p p s).0) (map_get-insert_all p (s.entries p).key s ∙ rw on refl);
  }

  grown-cases :
      (j a : ℕ)
      → In a (grown order place element j)
      → ((place ≡ j) × (a ≡ element)) ⊎ In a (order j)
  grown-cases j a m = elim (Bool-cases (place == j)) [
    | inl here ↦ elim (rw here at m) [ inl e ↦ inl (ground arith, e) | inr r ↦ inr r ]
    | inr there ↦ inr (rw there at m)
  ]

  In-grown : (j a : ℕ) → In a (order j) → In a (grown order place element j)
  In-grown j a m = elim (Bool-cases (place == j)) [
    | inl here ↦ rw here (inr m)
    | inr there ↦ rw there m
  ]

  insert-Listed_any :
      (j a : ℕ)
      → In a (grown order place element j)
      → Listed (insert p s) j a (((insert p s).lru j).value a)
  insert-Listed_any j a m = elim (grown-cases j a m) [
    | inl (e, f) ↦ rw (f, ← e) (rw insert-new_value insert-new_Listed)
    | inr o ↦ rw (insert-value j a o) (insert-Listed j a _ o (l.listed j a o))
  ]

  insert-new_Mapped : Mapped (insert p s) (grown order place element) (s.entries p).key p
  insert-new_Mapped = record {
    key = (entries-insert p p s).0;
    shard = (entries-insert p p s).1 ∙ n.shard;
    address = element;
    member = let on : (place == place) ≡ true = ground arith in rw (← n.shard) (rw on (inl refl));
    listed = rw (← n.shard) insert-new_Listed;
  }

  insert-Mapped :
      (k q : ℕ)
      → map_get k (insert p s) ≡ some q
      → Mapped (insert p s) (grown order place element) k q
  insert-Mapped k q e = elim (Bool-cases ((s.entries p).key == k)) [
    | inl same ↦
        let f : (s.entries p).key ≡ k = ground arith in
        let g : p ≡ q = cc (rw same at (sym (map_get-insert_all p k s) ∙ e)) in
        rw (← f, ← g) insert-new_Mapped
    | inr differ ↦
        let m = l.mapped k q (rw differ at (sym (map_get-insert_all p k s) ∙ e)) in
        let (key, shard, _) = entries-insert p q s in
        record {
          key = key ∙ m.key;
          shard = shard ∙ m.shard;
          address = m.address;
          member = In-grown (map_shard_key k) m.address m.member;
          listed = insert-Listed (map_shard_key k) m.address q m.member m.listed;
        }
  ]

  pub insert-Linked : Linked (insert p s) (grown order place element)
  insert-Linked = record {
    holds = lru-insert-Holds;
    named = insert-named;
    keys = insert-Keys;
    placed = insert-placed;
    listed = insert-Listed_any;
    mapped = insert-Mapped;
  }

-- The insertion of a new entry under a key that the map does not hold keeps the storage valid.
pub insert-IsValid :
    (p : ℕ) (s : Storage)
    → IsNew p s
    → map_get (s.entries p).key s ≡ none
    → IsValid s
    → IsValid (insert p s)
insert-IsValid p s n absent v = record {
  order = grown v.order (s.entries p).shard (s.lru (s.entries p).shard).fresh;
  linked = insert-Linked p s v.order v.linked n absent;
}
