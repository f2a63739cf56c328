-- ===== src/System/Sound.antt =====
-- The invariant of the running cache (internal/cache/api/cache.go, pkg/storage/lru), and what the
-- pieces of a step do to it.
use adv_cache.Prelude.{
  ℕ, ◌+◌, ◌^◌, ◌≤◌, ◌<◌, ◌≡◌, ◌≢◌, sym, ap, ◌∙◌, inl, inr, none, some, List, [], length, arith, All,
}
use adv_cache.Model.Binary.{Bytes}
use adv_cache.Ring.Seg.{Distinct, All-map}
use adv_cache.Ring.Members.{In}
use adv_cache.Shard.{map_shard_key}
use adv_cache.Storage.{Storage, map_get}
use adv_cache.Storage.Change.{Change}
use adv_cache.Storage.Valid.{IsValid}
use adv_cache.System.{Origin, Logged}

-- A requested entry whose fetch is under way: it is not in the map, and has the shard of its key.
pub record Waits (c : Storage) (n p : ℕ) : Type 0 where
  pub given : p < n
  pub unheld : (k : ℕ) → map_get k c ≢ some p
  pub shard : (c.entries p).shard ≡ map_shard_key (c.entries p).key

-- Of the storage, the next address, the fetches under way and the upstream's answers: the storage is
-- valid, each of its entries has a payload, each payload is what the upstream answered for the
-- entry's key and fingerprint, and the lists have no more entries than requests have been made.
pub record IsSound (c : Storage) (n : ℕ) (ws : List ℕ) (log : List Origin) : Type 0 where
  pub valid : IsValid c
  pub small : n < 2 ^ 63
  pub bounded : (k q : ℕ) → map_get k c ≡ some q → q < n
  pub full : (k q : ℕ) → map_get k c ≡ some q → (c.entries q).payload ≢ none
  pub waits : All (Waits c n) ws
  pub distinct : Distinct ws
  pub room : (j : ℕ) → (c.lru j).len + length ws ≤ n
  pub logged :
      (q : ℕ) (b : Bytes)
      → (c.entries q).payload ≡ some b
      → Logged log (c.entries q).key (c.entries q).fingerprint b

-- What a change that brings in the entries `new`, all of them with a payload, leaves.
module _ {new : List ℕ} {c t : Storage} {n : ℕ} {ws : List ℕ} {log : List Origin}
    (h : Change new c t) (s : IsSound c n ws log) where
  pub full-Change :
      ((q : ℕ) → In q new → (c.entries q).payload ≢ none)
      → (k q : ℕ) → map_get k t ≡ some q
      → (t.entries q).payload ≢ none
  full-Change has k q e none_left =
      let o = h.source q in
      let empty : (c.entries o.origin).payload ≡ none = sym o.payload ∙ none_left in
      elim o.from [
        | inl same ↦ elim (h.held k q e) [
          | inl m ↦ has q m (ap (λ (i : ℕ). (c.entries i).payload) (sym same) ∙ empty)
          | inr e' ↦ s.full k q e' (ap (λ (i : ℕ). (c.entries i).payload) (sym same) ∙ empty)
        ]
        | inr (inl m) ↦ has o.origin m empty
        | inr (inr (k', e')) ↦ s.full k' o.origin e' empty
      ]

  pub Waits-Change : (xs : List ℕ) → All (λ p. Waits c n p × (In p new → ⊥)) xs → All (Waits t n) xs
  Waits-Change xs =
      All-map {P = λ p. Waits c n p × (In p new → ⊥)} {Q = Waits t n} xs (λ p (w, old). record {
        given = w.given;
        unheld = λ k e. elim (h.held k p e) [ inl m ↦ absurd (old m) | inr e' ↦ w.unheld k e' ];
        shard = h.shards p ∙ (w.shard ∙ ap map_shard_key (sym (h.keys p)));
      })

  pub Logged-Change :
      (q : ℕ) (b : Bytes)
      → (t.entries q).payload ≡ some b
      → Logged log (t.entries q).key (t.entries q).fingerprint b
  Logged-Change q b e =
      let o = h.source q in
      let l = s.logged o.origin b (sym o.payload ∙ e) in
      rw (h.keys q, h.fingerprints q, ← o.key, ← o.fingerprint) l

pub IsSound-Change :
    {c t : Storage} {n : ℕ} {ws : List ℕ} {log : List Origin}
    → Change [] c t
    → IsValid t
    → IsSound c n ws log
    → IsSound t n ws log
IsSound-Change {c} {t} {n} {ws} h v s = record {
  valid = v;
  small = s.small;
  bounded = λ k q e. elim (h.held k q e) [ inl m ↦ elim m [ ] | inr e' ↦ s.bounded k q e' ];
  full = full-Change h s (λ q m. elim m [ ]);
  waits =
      Waits-Change h s ws
        (All-map {P = Waits c n} {Q = λ p. Waits c n p × (⊥ → ⊥)} ws (λ p w. (w, λ m. m)) s.waits);
  distinct = s.distinct;
  room = λ j. omega (arith, h.lens j, s.room j);
  logged = Logged-Change h s;
}
