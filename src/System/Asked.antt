-- ===== src/System/Asked.antt =====
-- A request that comes in: its entry gets the next address (internal/cache/api/cache.go).
use adv_cache.Prelude.{
  ℕ, ◌+◌, ◌^◌, ◌<◌, ◌≡◌, ◌≢◌, refl, inl, inr, true, Bool-cases, Option, none, some, List, [], ◌∷◌,
  arith, ◌==◌, update, All,
}
use adv_cache.Model.Binary.{Bytes}
use adv_cache.Model.Entry.{Entry}
use adv_cache.Ring.Seg.{Differ, All-map}
use adv_cache.Shard.{map_shard_key}
use adv_cache.Storage
use adv_cache.Storage.{Storage, map_get}
use adv_cache.Storage.Change.{get-Change}
use adv_cache.Storage.Valid.{Listed, Mapped, IsValid}
use adv_cache.Storage.Valid.Kept.{get-IsValid}
use adv_cache.System.{Origin, Logged, System, ask_found, ask, load_entry}
use adv_cache.System.Sound.{Waits, IsSound, IsSound-Change}
use adv_cache.System.Stored.{IsSound-without, IsSound-set}
use adv_cache.Dump.Restored.{set_decoded}

abbrev placed : Entry → ℕ → Storage → Storage
placed e n c = record c { entries = update c.entries n e }

-- The other entries are as they were.
module _ (e : Entry) (n : ℕ) (c : Storage) where
  entries-placed : (q : ℕ) → n ≢ q → (placed e n c).entries q ≡ c.entries q
  entries-placed q h = ground (arith, h)

  Listed-placed : (j a q : ℕ) → n ≢ q → Listed c j a q → Listed (placed e n c) j a q
  unfolding map_get
  Listed-placed j a q h l =
      let same = entries-placed q h in
      record {
        carried = l.carried;
        pointer = rw same l.pointer;
        shard = rw same l.shard;
        found = rw same l.found;
      }

  Mapped-placed :
      (order : ℕ → List ℕ) (k q : ℕ) → n ≢ q → Mapped c order k q → Mapped (placed e n c) order k q
  Mapped-placed order k q h m =
      let same = entries-placed q h in
      record {
        key = rw same m.key;
        shard = rw same m.shard;
        address = m.address;
        member = m.member;
        listed = Listed-placed (map_shard_key k) m.address q h m.listed;
      }

  -- An entry that is not in the map can be written over.
  placed-IsValid : ((k q : ℕ) → map_get k c ≡ some q → n ≢ q) → IsValid c → IsValid (placed e n c)
  unfolding map_get
  placed-IsValid unheld v = record {
    order = v.order;
    linked = record {
      holds = v.linked.holds;
      named = v.linked.named;
      keys = v.linked.keys;
      placed = v.linked.placed;
      listed = λ j a m.
          let l = v.linked.listed j a m in
          Listed-placed j a ((c.lru j).value a) (unheld _ _ l.found) l;
      mapped = λ k q f. Mapped-placed v.order k q (unheld k q f) (v.linked.mapped k q f);
    };
  }

  module _ {ws : List ℕ} {log : List Origin} (s : IsSound c n ws log) where
    Waits-placed : (xs : List ℕ) → All (Waits c n) xs → All (Waits (placed e n c) (n + 1)) xs
    unfolding map_get
    Waits-placed xs = All-map {P = Waits c n} {Q = Waits (placed e n c) (n + 1)} xs (λ p w.
        let same = entries-placed p (λ q. omega (arith, q, w.given)) in
        record { given = omega (arith, w.given); unheld = w.unheld; shard = rw same w.shard })

    Differ-placed : (xs : List ℕ) → All (Waits c n) xs → Differ n xs
    Differ-placed xs =
        All-map {P = Waits c n} {Q = λ p. n ≢ p} xs (λ p w q. omega (arith, q, w.given))

    Logged-placed :
        ((b : Bytes) → e.payload ≡ some b → Logged log e.key e.fingerprint b)
        → (q : ℕ) (b : Bytes) → ((placed e n c).entries q).payload ≡ some b
        → Logged log ((placed e n c).entries q).key ((placed e n c).entries q).fingerprint b
    Logged-placed known q b h = elim (Bool-cases (n == q)) [
      | inl here ↦ rw here (known b (rw here at h))
      | inr there ↦
          let same = entries-placed q (λ i. ground (arith, i)) in
          rw same (s.logged q b (rw same at h))
    ]

    -- A new entry at the next address, its fetch under way.
    pub IsSound-placed :
        ((b : Bytes) → e.payload ≡ some b → Logged log e.key e.fingerprint b)
        → e.shard ≡ map_shard_key e.key
        → n + 1 < 2 ^ 63
        → IsSound (placed e n c) (n + 1) (n ∷ ws) log
    unfolding map_get
    IsSound-placed known shard few =
        let off : (k q : ℕ) → map_get k c ≡ some q → n ≢ q =
          λ k q h i. omega (arith, i, s.bounded k q h) in
        let own : (n == n) ≡ true = ground arith in
        record {
          valid = placed-IsValid off s.valid;
          small = few;
          bounded = λ k q h. omega (arith, s.bounded k q h);
          full = λ k q h. rw (entries-placed q (off k q h)) (s.full k q h);
          waits = (
            record { given = omega arith; unheld = λ k h. off k n h refl; shard = rw own shard },
            Waits-placed ws s.waits,
          );
          distinct = (Differ-placed ws s.waits, s.distinct);
          room = λ j. omega (arith, s.room j);
          logged = Logged-placed known;
        }

-- The state is sound: its storage with the next address, the fetches under way and the answers.
abbrev pub SystemIsSound : System → Type 0
SystemIsSound s = IsSound s.controller.cache s.controller.next_entry s.waiting s.log

pub ask-IsSound :
    (e : Entry) (s : System)
    → e.payload ≡ none
    → e.shard ≡ map_shard_key e.key
    → s.controller.next_entry + 1 < 2 ^ 63
    → SystemIsSound s
    → SystemIsSound (ask e s)
unfolding ask ask_found
ask-IsSound e s empty shard few h =
    let n = s.controller.next_entry in
    let c = placed e n s.controller.cache in
    let g =
      IsSound-Change (get-Change e.key e.fingerprint c)
        (get-IsValid e.key e.fingerprint c
          (IsSound-placed e n s.controller.cache h (λ b full. cc (full, empty)) shard few).valid)
        (IsSound-placed e n s.controller.cache h (λ b full. cc (full, empty)) shard few) in
    go (Storage.get e.key e.fingerprint c).0 g (Storage.get e.key e.fingerprint c).1
  where
    go :
        (t : Storage)
        → IsSound t (s.controller.next_entry + 1) (s.controller.next_entry ∷ s.waiting) s.log
        → (o : Option ℕ)
        → SystemIsSound (
            ask_found o (record s {
              controller = record s.controller { total = s.controller.total + 1; cache = t };
            }))
    go t g none = g
    go t g (some q) = IsSound-without [] s.controller.next_entry s.waiting g

-- An entry of a dump file whose payload is logged.
pub load_entry-IsSound :
    (xxh3 : Bytes → ℕ) (now : ℕ) (e : Entry) (b : Bytes) (s : System)
    → e.payload ≡ some b
    → Logged s.log e.key e.fingerprint b
    → e.shard ≡ map_shard_key e.key
    → s.controller.next_entry + 1 < 2 ^ 63
    → SystemIsSound s
    → SystemIsSound (load_entry xxh3 now e s)
unfolding load_entry set_decoded
load_entry-IsSound xxh3 now e b s full logged shard few h =
    let n = s.controller.next_entry in
    let c = s.controller.cache in
    let own : (n == n) ≡ true = ground arith in
    let known : (x : Bytes) → e.payload ≡ some x → Logged s.log e.key e.fingerprint x =
      λ x is_x. let same : b ≡ x = cc (full, is_x) in rw same at logged in
    IsSound-set xxh3 now n [] s.waiting (IsSound-placed e n c h known shard few)
      (λ empty. let no : e.payload ≡ none = rw own at empty in cc (no, full))
