-- ===== src/Storage/Recency/Calls.antt =====
-- What Get and Set do to the order of the entries (pkg/storage/lru/storage.go).
use adv_cache.Prelude.{
  ℕ, ◌≡◌, refl, ap, ◌∙◌, Bool, true, false, Bool-cases, inl, inr, Option, none, some, List, ◌∷◌,
  arith, ◌==◌, if◌then◌else◌,
}
use adv_cache.Model.Binary.{Bytes}
use adv_cache.Model.Entry.{Entry, is_same_fingerprint}
use adv_cache.Model.Compare.{is_same_payload}
use adv_cache.Lfu.{increment, admit}
use adv_cache.Shard.{map_shard_key}
use adv_cache.Storage.{
  Storage, map_get, touch, swap_payloads, update_entry, remove, find_victim, should_evict, insert,
  set_against, set_new, get_found, get, set_found, set,
}
use adv_cache.Storage.Remove.{map_get-remove}
use adv_cache.Storage.Valid.Moves.{swap_payloads-Alike, map_get-Alike}
use adv_cache.Storage.Valid.New.{IsNew}
use adv_cache.Storage.Valid.Kept.{lfu-Alike, lfu-IsNew, remove-IsNew, own_key}
use adv_cache.Storage.Recency.{
  forget, at_shard, Recent, Recent-IsValid, Recent-Alike, Recent-same, touch-Recent, remove-Recent,
  insert-Recent,
}

-- A Get of the entry `found`, if it has the fingerprint.
abbrev pub get_order : Option ℕ → List ℕ → List ℕ
get_order none xs = xs
get_order (some p) xs = p ∷ forget p xs

-- A Set of the entry `p`, where `found` is the entry under its key, `same` whether that has the same
-- fingerprint, and `persisted` the result.
abbrev pub set_order : Option ℕ → Bool → Bool → ℕ → List ℕ → List ℕ
set_order none same persisted p xs = if persisted then p ∷ xs else xs
set_order (some old) true persisted p xs = old ∷ forget old xs
set_order (some old) false persisted p xs = if persisted then p ∷ forget old xs else forget old xs

abbrev pub same_fingerprint : Option ℕ → ℕ → (ℕ → Entry) → Bool
same_fingerprint none p entries = false
same_fingerprint (some old) p entries = is_same_fingerprint (entries old) (entries p).fingerprint

at_shard-at_shard :
    (i j : ℕ) (xs ys : List ℕ) (recent : ℕ → List ℕ)
    → at_shard i xs (at_shard i ys recent) j ≡ at_shard i xs recent j
at_shard-at_shard i j xs ys recent = ground arith

at_shard-own : (i j : ℕ) (recent : ℕ → List ℕ) → recent j ≡ at_shard i (recent i) recent j
at_shard-own i j recent = ground arith

at_shard-here : (i : ℕ) (xs : List ℕ) (recent : ℕ → List ℕ) → at_shard i xs recent i ≡ xs
at_shard-here i xs recent = ground arith

touch_found-Recent :
    (key p : ℕ) (s : Storage) (recent : ℕ → List ℕ)
    → map_get key s ≡ some p
    → Recent s recent
    → Recent
        (touch p s)
        (at_shard (map_shard_key key) (p ∷ forget p (recent (map_shard_key key))) recent)
touch_found-Recent key p s recent e r =
    rw ((r.linked.mapped key p e).key) at
      (touch-Recent p s recent r (own_key key p s (Recent-IsValid s recent r) e))

remove_found-Recent :
    (key p : ℕ) (s : Storage) (recent : ℕ → List ℕ)
    → map_get key s ≡ some p
    → Recent s recent
    → Recent
        (remove p s).0
        (at_shard (map_shard_key key) (forget p (recent (map_shard_key key))) recent)
remove_found-Recent key p s recent e r =
    rw ((r.linked.mapped key p e).key) at
      (remove-Recent p s recent r (own_key key p s (Recent-IsValid s recent r) e))

-- A Get that finds an entry brings it to the front of its list, and changes no other order.
pub get-Recent :
    (key : ℕ) (fp : Bytes) (s : Storage) (recent : ℕ → List ℕ)
    → Recent s recent
    → Recent (get key fp s).0 (
        at_shard
          (map_shard_key key)
          (get_order (get key fp s).1 (recent (map_shard_key key)))
          recent)
unfolding get get_found
get-Recent key fp s recent r = go (map_get key s) refl
  where
    go :
        (o : Option ℕ)
        → map_get key s ≡ o
        → Recent (get_found fp o s).0 (
            at_shard
              (map_shard_key key)
              (get_order (get_found fp o s).1 (recent (map_shard_key key)))
              recent)
    go none e = Recent-same (λ j. at_shard-own (map_shard_key key) j recent) r
    go (some p) e = elim (Bool-cases (is_same_fingerprint (s.entries p) fp)) [
      | inl same ↦ rw same (touch_found-Recent key p s recent e r)
      | inr other ↦ rw other (Recent-same (λ j. at_shard-own (map_shard_key key) j recent) r)
    ]

module _ (p : ℕ) where
  -- A new entry that is admitted comes to the front.
  abbrev new_order : Bool → Storage → (ℕ → List ℕ) → ℕ → List ℕ
  new_order persisted s recent =
      let i = map_shard_key (s.entries p).key in
      at_shard i (if persisted then p ∷ recent i else recent i) recent

  insert_new-Recent :
      (s : Storage) (recent : ℕ → List ℕ)
      → Recent s recent
      → IsNew p s
      → map_get (s.entries p).key s ≡ none
      → Recent (insert p s) (new_order true s recent)
  insert_new-Recent s recent r n absent = rw (n.shard) at (insert-Recent p s recent r n absent)

  set_against-Recent :
      (o : Option ℕ) (s : Storage) (recent : ℕ → List ℕ)
      → Recent s recent
      → IsNew p s
      → map_get (s.entries p).key s ≡ none
      → Recent (set_against p o s).0 (new_order (set_against p o s).1 s recent)
  unfolding set_against map_get
  set_against-Recent none s recent r n absent =
      Recent-same (λ j. at_shard-own (map_shard_key (s.entries p).key) j recent) r
  set_against-Recent (some victim) s recent r n absent =
      let a = admit (s.entries p).key (s.entries victim).key s.lfu in
      let t = record s { lfu = a.0 } in
      let rt = Recent-Alike (lfu-Alike s a.0) refl r in
      elim (Bool-cases a.1) [
        | inl in_favour ↦ rw in_favour (insert_new-Recent t recent rt (lfu-IsNew p s a.0 n) absent)
        | inr against ↦
            rw against
              (Recent-same (λ j. at_shard-own (map_shard_key (s.entries p).key) j recent) rt)
      ]

  set_new-Recent :
      (s : Storage) (recent : ℕ → List ℕ)
      → Recent s recent
      → IsNew p s
      → map_get (s.entries p).key s ≡ none
      → Recent (set_new p s).0 (new_order (set_new p s).1 s recent)
  unfolding set_new
  set_new-Recent s recent r n absent = elim (Bool-cases (should_evict s)) [
    | inl full ↦
        rw full (set_against-Recent (find_victim (s.entries p).shard s) s recent r n absent)
    | inr room ↦ rw room (insert_new-Recent s recent r n absent)
  ]

  module _ (xxh3 : Bytes → ℕ) (now : ℕ) where
    set_found-Recent :
        (o : Option ℕ) (s : Storage) (recent : ℕ → List ℕ)
        → map_get (s.entries p).key s ≡ o
        → Recent s recent
        → IsNew p s
        → (let i = map_shard_key (s.entries p).key in
            Recent (set_found xxh3 now p o s).0 (
              at_shard i
                (set_order o
                  (same_fingerprint o p (s.entries))
                  (set_found xxh3 now p o s).1
                  p
                  (recent i))
                recent))
    unfolding set_found remove
    set_found-Recent none s recent e r n = set_new-Recent s recent r n e
    set_found-Recent (some old) s recent e r n =
        let key = (s.entries p).key in
        let i = map_shard_key key in
        let v = Recent-IsValid s recent r in
        let own = own_key key old s v e in
        elim (Bool-cases (is_same_fingerprint (s.entries old) (s.entries p).fingerprint)) [
          | inl same ↦ elim (Bool-cases (is_same_payload xxh3 (s.entries old) (s.entries p))) [
            | inl equal ↦ rw (same, equal) (touch_found-Recent key old s recent e r)
            | inr changed ↦
                let t = swap_payloads now old p s in
                let h = swap_payloads-Alike now old p s in
                let rt = Recent-Alike h (unfold swap_payloads in refl) r in
                rw (same, changed)
                  (unfold update_entry in
                    (touch_found-Recent key old t recent (map_get-Alike h key ∙ e) rt))
          ]
          | inr collision ↦
              let same_key = (v.linked.mapped key old e).key in
              let on : ((s.entries old).key == key) ≡ true = ground arith in
              let absent = map_get-remove old key s (v.linked.keys) ∙ rw on refl in
              let t = (remove old s).0 in
              let gone = remove_found-Recent key old s recent e r in
              let new = set_new-Recent t _ gone (remove-IsNew p old s n v own) absent in
              rw collision (
                Recent-same
                  (λ j.
                    at_shard-at_shard i j _ _ recent
                    ∙ ap
                        (λ (xs : List ℕ).
                          at_shard i (if (set_new p t).1 then p ∷ xs else xs) recent j)
                        (at_shard-here i (forget old (recent i)) recent))
                  new)
        ]

    -- In a valid storage, a Set of a new entry brings the entry under its key to the front of its
    -- list, if that has the same fingerprint; else it takes it from the list, and puts the new entry
    -- in front if it reports that it is stored. The order of all others stays.
    pub set-Recent :
        (s : Storage) (recent : ℕ → List ℕ)
        → Recent s recent
        → IsNew p s
        → (let i = map_shard_key (s.entries p).key in
            let o = map_get (s.entries p).key s in
            Recent (set xxh3 now p s).0 (
              at_shard i
                (set_order o (same_fingerprint o p (s.entries)) (set xxh3 now p s).1 p (recent i))
                recent))
    unfolding set map_get
    set-Recent s recent r n =
        let lfu = increment (s.entries p).key s.lfu in
        let t = record s { lfu = lfu } in
        set_found-Recent (map_get (s.entries p).key t) t recent refl
          (Recent-Alike (lfu-Alike s lfu) refl r) (lfu-IsNew p s lfu n)
