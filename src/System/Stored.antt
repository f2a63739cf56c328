-- ===== src/System/Stored.antt =====
-- An answer of the upstream that is stored (internal/cache/api/cache.go,
-- pkg/storage/lru/refresher.go).
use adv_cache.Prelude.{
  ℕ, ◌≡◌, ◌≢◌, sym, ap, ◌∙◌, inl, inr, Bool-cases, none, some, List, [], ◌∷◌, ◌++◌, arith, ◌==◌,
  All,
}
use adv_cache.Model.Binary.{Bytes}
use adv_cache.Model.Payload.{Request, Response, pack, set_payload}
use adv_cache.Model.Payload.RoundTrip.{Packable}
use adv_cache.Ring.Seg.{Differ, All-map}
use adv_cache.Ring.Refine.{Distinct-delete, length-delete}
use adv_cache.Ring.Members.{All-delete, In}
use adv_cache.Shard.{map_shard_key}
use adv_cache.Storage.{Storage, map_get, set}
use adv_cache.Storage.Change.Calls.{set-Change}
use adv_cache.Storage.Valid.New.{IsNew}
use adv_cache.Storage.Valid.Kept.{set-IsValid}
use adv_cache.Storage.Refresher.Outcomes.{written, written-IsValid}
use adv_cache.System.{Origin, Logged}
use adv_cache.System.Sound.{Waits, IsSound, Waits-Change, full-Change, Logged-Change}

-- The fetch for `p` is over.
pub IsSound-without :
    {c : Storage} {n : ℕ} {log : List Origin} (before : List ℕ) (p : ℕ) (after : List ℕ)
    → IsSound c n (before ++ p ∷ after) log
    → IsSound c n (before ++ after) log
IsSound-without {c} {n} before p after s = record {
  valid = s.valid;
  small = s.small;
  bounded = s.bounded;
  full = s.full;
  waits = (All-delete (Waits c n) before p after s.waits).1;
  distinct = (Distinct-delete before p after s.distinct).0;
  room = λ j. omega (arith, s.room j, length-delete before p after);
  logged = s.logged;
}

-- The origin of an answer for the entry `p`.
abbrev pub origin_of : ℕ → Storage → Request → Response → Origin
origin_of p c req resp = record {
  key = (c.entries p).key;
  fingerprint = (c.entries p).fingerprint;
  request = req;
  response = resp;
}

module _ (now p : ℕ) (req : Request) (resp : Response) (c : Storage) where
  abbrev pub filled : Storage
  filled = written now p req resp c

  entries-filled : (q : ℕ) → p ≢ q → filled.entries q ≡ c.entries q
  entries-filled q h = ground (arith, h)

  -- Keys, shards and fingerprints stay.
  names-filled :
      (q : ℕ)
      → ((filled.entries q).key ≡ (c.entries q).key)
        × ((filled.entries q).shard ≡ (c.entries q).shard)
        × ((filled.entries q).fingerprint ≡ (c.entries q).fingerprint)
  unfolding set_payload
  names-filled q = ground arith

  pub payload-filled : (q : ℕ) → p ≡ q → (filled.entries q).payload ≡ some (pack req resp)
  unfolding set_payload
  payload-filled q e = ground arith

  module _ {n : ℕ} {ws : List ℕ} {log : List Origin} (s : IsSound c n ws log)
      (ok : resp.status ≡ 200) (fits : Packable req resp) where
    Logged-filled :
        (q : ℕ) (b : Bytes)
        → (filled.entries q).payload ≡ some b
        → Logged
            (origin_of p c req resp ∷ log)
            (filled.entries q).key
            (filled.entries q).fingerprint
            b
    Logged-filled q b h =
        let (key, shard, fp) = names-filled q in
        elim (Bool-cases (p == q)) [
          | inl here ↦
              let e : p ≡ q = ground arith in
              inl (record {
                key = ap (λ (i : ℕ). (c.entries i).key) e ∙ sym key;
                fingerprint = ap (λ (i : ℕ). (c.entries i).fingerprint) e ∙ sym fp;
                good = ok;
                packable = fits;
                packed = cc (payload-filled q e, h);
              })
          | inr there ↦
              let same = entries-filled q (λ i. ground (arith, i)) in
              inr (rw same (s.logged q b (rw same at h)))
        ]

    -- The answer is written into the entry, and logged.
    pub IsSound-filled : IsSound filled n ws (origin_of p c req resp ∷ log)
    unfolding map_get
    IsSound-filled = record {
      valid = written-IsValid now p req resp c s.valid;
      small = s.small;
      bounded = s.bounded;
      full = λ k q h. elim (Bool-cases (p == q)) [
        | inl here ↦ let e : p ≡ q = ground arith in λ empty. cc (payload-filled q e, empty)
        | inr there ↦ rw (entries-filled q (λ i. ground (arith, i))) (s.full k q h)
      ];
      waits =
          All-map {P = Waits c n} {Q = Waits filled n} ws
            (λ q w.
              let (key, shard, fp) = names-filled q in
              record {
                given = w.given;
                unheld = w.unheld;
                shard = shard ∙ (w.shard ∙ ap map_shard_key (sym key));
              })
            s.waits;
      distinct = s.distinct;
      room = s.room;
      logged = Logged-filled;
    }

-- A Set of the entry `p`, which has a payload and whose fetch is over.
module _ (xxh3 : Bytes → ℕ) (now p : ℕ) {c : Storage} {n : ℕ} {log : List Origin}
    (before after : List ℕ) (s : IsSound c n (before ++ p ∷ after) log)
    (has : (c.entries p).payload ≢ none) where
  only : (q : ℕ) → In q (p ∷ []) → q ≡ p
  only q (inl e) = e
  only q (inr m) = elim m [ ]

  IsNew-waiting : IsNew p c
  IsNew-waiting =
      let w = (All-delete (Waits c n) before p after s.waits).0 in
      record {
        shard = w.shard;
        unheld = w.unheld;
        room = omega (arith, s.small, s.room (c.entries p).shard, length-delete before p after);
      }

  Waits-others : All (λ q. Waits c n q × (In q (p ∷ []) → ⊥)) (before ++ after)
  Waits-others =
      both (before ++ after) (All-delete (Waits c n) before p after s.waits).1
        (Distinct-delete before p after s.distinct).1
    where
      both :
          (xs : List ℕ)
          → All (Waits c n) xs
          → Differ p xs
          → All (λ q. Waits c n q × (In q (p ∷ []) → ⊥)) xs
      both [] ws ds = tt
      both (x ∷ xs) ws ds = ((ws.0, λ m. ds.0 (sym (only x m))), both xs ws.1 ds.1)

  pub IsSound-set : IsSound (set xxh3 now p c).0 n (before ++ after) log
  IsSound-set =
      let h = set-Change xxh3 now p c s.valid in
      let w = (All-delete (Waits c n) before p after s.waits).0 in
      record {
        valid = set-IsValid xxh3 now p c IsNew-waiting s.valid;
        small = s.small;
        bounded = λ k q e. elim (h.held k q e) [
          | inl m ↦ omega (arith, only q m, w.given)
          | inr e' ↦ s.bounded k q e'
        ];
        full =
            full-Change h s
              (λ q m empty. has (ap (λ (i : ℕ). (c.entries i).payload) (sym (only q m)) ∙ empty));
        waits = Waits-Change h s (before ++ after) Waits-others;
        distinct = (Distinct-delete before p after s.distinct).0;
        room = λ j. omega (arith, h.lens j, s.room j, length-delete before p after);
        logged = Logged-Change h s;
      }
