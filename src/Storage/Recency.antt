-- ===== src/Storage/Recency.antt =====
-- The LRU lists as lists of entries, the most recently used first (pkg/storage/lru/storage.go,
-- pkg/storage/lru/balancer.go).
pub mod Calls
pub mod Evicted
use adv_cache.Prelude.{
  ℕ, ◌≡◌, ◌≢◌, refl, sym, ap, ◌∙◌, Bool, true, false, Bool-cases, inl, inr, Option, none, some,
  List, [], ◌∷◌, ◌++◌, map, All, arith, ◌==◌, if◌then◌else◌,
}
use adv_cache.Ring.Refine.{Distinct-delete}
use adv_cache.Ring.Members.{In, In-left, In-split, In-insert, All-In}
use adv_cache.Ring.Seg.{Differ}
use adv_cache.Shard.{map_shard_key}
use adv_cache.Lfu.{TinyLfu}
use adv_cache.Storage.{Storage, map_get, touch, remove, insert, swap_payloads}
use adv_cache.Storage.Valid.{Listed, Linked, IsValid}
use adv_cache.Storage.Valid.Moves.{Alike, Linked-Alike, moved, touch-Alike, touch-Linked}
use adv_cache.Storage.Valid.Gone.{without, remove-Linked, remove-values, other-entry}
use adv_cache.Storage.Valid.New.{IsNew, grown, insert-Linked, insert-value, insert-new_value}

-- The entry goes from the list.
abbrev pub forget : ℕ → List ℕ → List ℕ
forget p [] = []
forget p (q ∷ qs) = let rest = forget p qs in if p == q then qs else q ∷ rest

-- `recent j` are the entries of the list of shard `j`, from the front to the back.
pub record Recent (s : Storage) (recent : ℕ → List ℕ) : Type 0 where
  pub order : ℕ → List ℕ
  pub linked : Linked s order
  pub entries : (j : ℕ) → map (s.lru j).value (order j) ≡ recent j

pub Recent-IsValid : (s : Storage) (recent : ℕ → List ℕ) → Recent s recent → IsValid s
Recent-IsValid s recent r = record { order = r.order; linked = r.linked }

-- The list of the shard `i` becomes `xs`.
abbrev pub at_shard : ℕ → List ℕ → (ℕ → List ℕ) → ℕ → List ℕ
at_shard i xs recent j = if i == j then xs else recent j

forget-map :
    (v : ℕ → ℕ) (before : List ℕ) (a : ℕ) (after : List ℕ)
    → All (λ b. v a ≢ v b) before
    → forget (v a) (map v (before ++ a ∷ after)) ≡ map v (before ++ after)
forget-map v [] a after h = ground arith
forget-map v (b ∷ before) a after h =
    let off : (v a == v b) ≡ false = ground (arith, h.0) in
    rw off (ap (λ (l : List ℕ). v b ∷ l) (forget-map v before a after h.1))

map-same : (v w : ℕ → ℕ) (xs : List ℕ) → ((a : ℕ) → In a xs → w a ≡ v a) → map w xs ≡ map v xs
map-same v w [] h = refl
map-same v w (x ∷ xs) h =
    rw (h x (inl refl)) (ap (λ (l : List ℕ). v x ∷ l) (map-same v w xs (λ a m. h a (inr m))))

-- Where an entry of the map stands in its list.
record Place (s : Storage) (order : ℕ → List ℕ) (p : ℕ) : Type 0 where
  pub address : ℕ
  pub before : List ℕ
  pub after : List ℕ
  pub split : order (map_shard_key (s.entries p).key) ≡ before ++ address ∷ after
  pub listed : Listed s (map_shard_key (s.entries p).key) address p

place_of :
    (p : ℕ) (s : Storage) (order : ℕ → List ℕ)
    → Linked s order
    → map_get (s.entries p).key s ≡ some p
    → Place s order p
place_of p s order l e =
    let m = l.mapped (s.entries p).key p e in
    let (before, after, split) = In-split m.address _ m.member in
    record { address = m.address; before = before; after = after; split = split; listed = m.listed }

module _ (p : ℕ) (s : Storage) (recent : ℕ → List ℕ) (r : Recent s recent)
    (e : map_get (s.entries p).key s ≡ some p) where
  abbrev shard : ℕ
  shard = map_shard_key (s.entries p).key

  abbrev place : Place s (r.order) p
  place = place_of p s (r.order) (r.linked) e

  -- No element before carries the entry.
  forget-place : map (s.lru shard).value (place.before ++ place.after) ≡ forget p (recent shard)
  forget-place =
      let v = (s.lru shard).value in
      rw (← r.entries shard) (
        rw (place.split) (
          rw (place.listed.carried) at (
            sym (
              forget-map v place.before place.address place.after
                (off place.before (λ b m. differs b m))))))
    where
      off :
          (xs : List ℕ)
          → ((b : ℕ) → In b xs → (s.lru shard).value place.address ≢ (s.lru shard).value b)
          → All (λ b. (s.lru shard).value place.address ≢ (s.lru shard).value b) xs
      off [] h = tt
      off (x ∷ xs) h = (h x (inl refl), off xs (λ b m. h b (inr m)))

      differs :
          (b : ℕ) → In b place.before → (s.lru shard).value place.address ≢ (s.lru shard).value b
      differs b m same =
          let member =
            In-insert b place.address place.before place.after
              (In-left b place.before place.after m) in
          let apart =
            (Distinct-delete place.before place.address place.after
              (rw (place.split) at ((r.linked.holds shard).distinct.1))).1 in
          let ne =
            All-In (λ x. place.address ≢ x) b (place.before ++ place.after) apart
              (In-left b place.before place.after m) in
          other-entry p shard place.address place.before place.after s (r.order) (r.linked)
            place.listed.pointer place.listed.shard e place.split place.listed.carried shard b
            ((s.lru shard).value b) (r.linked.listed shard b (rw (place.split) member))
            (λ _ q. ne (sym q)) (sym same ∙ place.listed.carried)

  -- An entry of the map that is touched comes to the front of its list.
  pub touch-Recent : Recent (touch p s) (at_shard shard (p ∷ forget p (recent shard)) recent)
  touch-Recent = record {
    order = moved (r.order) shard place.address place.before place.after;
    linked =
        touch-Linked p shard place.address place.before place.after s (r.order) (r.linked)
          place.listed.pointer place.listed.shard place.split;
    entries = λ j. elim (Bool-cases (shard == j)) [
      | inl here ↦
          let q : shard ≡ j = ground arith in
          let front : map (s.lru shard).value (place.address ∷ (place.before ++ place.after))
              ≡ p ∷ forget p (recent shard) =
            rw (place.listed.carried) (ap (λ (l : List ℕ). p ∷ l) forget-place) in
          rw here (
            ap (λ (v : ℕ → ℕ). map v (place.address ∷ (place.before ++ place.after)))
              ((touch-Alike p s).values j)
            ∙ (ap (λ (i : ℕ). map (s.lru i).value (place.address ∷ (place.before ++ place.after)))
                  (sym q)
                ∙ front))
      | inr there ↦ rw (there, (touch-Alike p s).values j) (r.entries j)
    ];
  }

  -- Remove takes the entry from its list.
  pub remove-Recent : Recent (remove p s).0 (at_shard shard (forget p (recent shard)) recent)
  remove-Recent =
      let values =
        remove-values p shard place.address place.before place.after s (r.order) (r.linked)
          place.listed.pointer place.listed.shard e place.split place.listed.carried in
      record {
        order = without (r.order) shard place.before place.after;
        linked =
            remove-Linked p shard place.address place.before place.after s (r.order) (r.linked)
              place.listed.pointer place.listed.shard e place.split place.listed.carried;
        entries = λ j. elim (Bool-cases (shard == j)) [
          | inl here ↦ let q : shard ≡ j = ground arith in rw (here, values j, ← q) forget-place
          | inr there ↦ rw (there, values j) (r.entries j)
        ];
      }

-- A new entry is put in front of the list of its shard.
pub insert-Recent :
    (p : ℕ) (s : Storage) (recent : ℕ → List ℕ)
    → Recent s recent
    → IsNew p s
    → map_get (s.entries p).key s ≡ none
    → Recent (insert p s) (at_shard (s.entries p).shard (p ∷ recent (s.entries p).shard) recent)
insert-Recent p s recent r n absent =
    let i = (s.entries p).shard in
    let a = (s.lru i).fresh in
    let old : (j : ℕ)
        → map ((insert p s).lru j).value (r.order j) ≡ map (s.lru j).value (r.order j) =
      λ j.
        map-same (s.lru j).value ((insert p s).lru j).value (r.order j)
          (λ b m. insert-value p s (r.order) (r.linked) n absent j b m) in
    record {
      order = grown (r.order) i a;
      linked = insert-Linked p s (r.order) (r.linked) n absent;
      entries = λ j. elim (Bool-cases (i == j)) [
        | inl here ↦
            let q : i ≡ j = ground arith in
            let u = insert p s in
            let front : map (u.lru i).value (a ∷ r.order i) ≡ p ∷ recent i =
              rw (insert-new_value p s (r.order) (r.linked) n absent)
                (ap (λ (l : List ℕ). p ∷ l) (old i ∙ r.entries i)) in
            rw here (ap (λ (k : ℕ). map (u.lru k).value (a ∷ r.order k)) (sym q) ∙ front)
        | inr there ↦ rw there (old j ∙ r.entries j)
      ];
    }

-- A change of nothing but payloads, times, frequencies and sums.
pub Recent-Alike :
    {s t : Storage} {recent : ℕ → List ℕ}
    → Alike s t
    → t.lru ≡ s.lru
    → Recent s recent
    → Recent t recent
Recent-Alike h e r = record {
  order = r.order;
  linked =
      Linked-Alike h (λ j. rw e (r.linked.holds j)) (λ j. rw e (r.linked.named j)) (λ j a m. m)
        (λ j a m. m) (r.linked);
  entries = λ j. rw e (r.entries j);
}

pub Recent-same :
    {s : Storage} {recent other : ℕ → List ℕ}
    → ((j : ℕ) → recent j ≡ other j)
    → Recent s recent
    → Recent s other
Recent-same h r = record { order = r.order; linked = r.linked; entries = λ j. r.entries j ∙ h j }

pub IsValid-Recent : (s : Storage) (v : IsValid s) → Recent s (λ j. map (s.lru j).value (v.order j))
IsValid-Recent s v = record { order = v.order; linked = v.linked; entries = λ j. refl }
